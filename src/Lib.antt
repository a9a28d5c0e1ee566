-- ===== src/Lib.antt =====
-- The Arcane backend, as far as its services decide and write: the role-based access control (src/rbac
-- of the repository), who belongs to a project, the rules of a project that hide attributes of traces
-- and what a user is shown of a trace, the retention job, the CSV form of datasets, and the service of
-- organisations that gives a user a role, invitations and signing up, and prompts with their versions.
--
-- Parts and files; here and in the other files the paths are below src/ of the repository
--   Exception       common/constants/error-messages.constants.ts: what the code throws
--   Common          JavaScript's tests on strings and null, lists, results, and actions on a state
--   Platform        the tables, the cache and the audit log, and as a record of operations the
--                   third-party code that works on them (TypeORM, cache-manager); its documented
--                   behaviour is the record IsLawful of Platform.Laws; audit/audit.service.ts
--   Rbac.Permissions, Rbac.Role    rbac/permissions, rbac/entities, rbac/utils, rbac/mappers
--   Rbac.Grants, Rbac.Authorize    rbac/services/rbac-permission.service.ts, pure and with the tables
--   Rbac.Retrieval                 rbac/services/role-retrieval.service.ts
--   Rbac.DefaultRole               rbac/services/default-role.service.ts
--   Rbac.Membership                rbac/services/rbac-membership.service.ts
--   Rbac.Assignment                rbac/services/rbac-assignment.service.ts
--   Rbac.Validator, Rbac.Roles     rbac/validators/role.validator.ts, rbac/services/roles.service.ts
--   Rbac.InstanceOwner             rbac/services/instance-owner.service.ts
--   Rbac.Guards                    rbac/guards
--   Rbac.Seed                      rbac/services/rbac-seed.service.ts; in Rbac.Seed.Instance
--                                  seedSystemRoles of rbac/seed/seed-system-roles.ts
--   Rbac.Onboarding                rbac/services/user-onboarding.service.ts
--   Organisations                  organisations/services/organisation-rbac.service.ts
--   Organisations.Invitations      organisations/services/organisation-invitation.service.ts
--   Organisations.Members          organisations/services/organisations.service.ts: adding a user
--   SignUp                         auth/services/auth-hooks.service.ts
--   Entities                       the entities of invitations and prompts
--   Prompts.Identifier             prompts/utils/identifier.utils.ts
--   Prompts.Validators             prompts/validators/prompt-config.validator.ts and
--                                  prompts/mappers/model-provider.mapper.ts
--   Prompts.Versions               prompts/services/prompt-versions.service.ts
--   Prompts.Service                prompts/services/prompts.service.ts
--   Projects.VisibilityRules       projects/services/attribute-visibility-rule.service.ts and
--                                  projects/mappers/attribute-visibility-rule.mapper.ts
--   Projects.Membership            projects/services/project-membership.service.ts and, of
--                                  projects/services/project-management.service.ts, its lookup
--   Traces.Attributes              traces/backends/tempo/tempo.types.ts
--   Traces.Filter                  traces/backends/common/trace-filter.util.ts
--   Traces.Obfuscation             traces/services/trace-attribute-obfuscation.service.ts
--   Retention                      retention/services/retention.service.ts: the tables and the
--                                  third-party code in Retention.Store, the loops in
--                                  Retention.Batches, the policies and the job in Retention.Policies,
--                                  the numbers that they report in Retention.Counts
--   Datasets.Csv                   datasets/services/datasets-csv.service.ts
--   Examples        a platform, a store and a CSV format in memory that keep the laws, and runs of
--                   the program on them
--
-- How they interact. A guard asks the membership and permission services; those read the roles of a
-- user through the cache, which fills itself from the tables; the roles, assignment and owner services
-- write the tables, drop entries of the cache and record audit events. What a user is shown of a trace
-- is decided by the rules of the project, which their service writes, and by the user's roles. An
-- operation is an action on the record World (tables, cache, audit log) that returns or throws; what
-- an exception leaves of the tables is in the state that comes with it. A TypeScript method fooBar is
-- foo_bar; a repository call is the operation of Platform on one table. A cache that is current
-- (Rbac.Current) holds what the tables say; the theorems that need it say so. The retention job works
-- on its own tables (Retention.Store), as nothing else of the model reads them; a deletion may
-- throw there, and the loop over the policies goes on.
--
-- Bounds. The loops over lists are recursions on the list. The two while loops take fuel: that of the
-- retention job over batches, for which one unit more than there are rows is enough, and the
-- padding of a row of a CSV file, for which one more than there are columns is. Sizes and days are
-- natural numbers.
--
-- Not modelled: the table of users (the id of a user by email is an argument), logging, dates (the
-- retention job takes the cutoff date of a row's turn as a parameter), the texts of messages and the
-- names of users; bodies of requests whose values have other types than the columns, as null for the
-- permissions of a role; controllers; the interleaving of requests (an operation runs to its end); the
-- time after which the cache drops an entry by itself; what the database deletes along with a row by
-- its foreign keys, but for the versions of a prompt; queries that fail for a text that is no uuid,
-- but where a prompt is asked for by an identifier; JavaScript's trim, white space and digits of a
-- number (arguments of the names of prompts); the parsing and the writing of CSV text, which csv-parse
-- and csv-stringify do; the stores of traces, to which the backends translate queries; the other
-- components of the repository.
pub mod Exception
pub mod Entities
pub mod Common
pub mod Rbac
pub mod Platform
pub mod Organisations
pub mod Projects
pub mod Traces
pub mod Retention
pub mod Datasets
pub mod SignUp
pub mod Prompts
pub mod Examples
