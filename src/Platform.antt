-- ===== src/Platform.antt =====
-- What the services stand on: the tables of the database, the cache, and the audit log, with the
-- third-party code that works on them (TypeORM over PostgreSQL, cache-manager, the audit sink) as a
-- record of operations. Its documented behaviour is `IsLawful`, in Platform/Laws.antt.
pub mod Laws
pub mod Audit
pub mod Keys
use arcane_backend.Common.{
  ℕ, String, Option, none, some, Bool, true, false, not, ◌&&◌, ◌==◌, List, Exec, Result, ok, err,
  reads, modify, same_id, if◌then◌else◌, map,
}
use arcane_backend.Entities.{OrganisationInvitation, Prompt, PromptVersion, ModelConfiguration}
use arcane_backend.Rbac.Role.{Role, UserRole}

pub record Project : Type 0 where
  pub id : String
  pub organisation_id : String
  pub created_by_id : Option String

pub record AttributeVisibilityRule : Type 0 where
  pub id : String
  pub project_id : String
  pub attribute_name : String
  pub hidden_role_ids : List String
  pub created_by_id : String
  pub updated_by_id : Option String

-- The tables. The order of the rows means nothing.
pub record Db : Type 0 where
  pub roles : List Role
  pub user_roles : List UserRole
  -- (organisation_id, user_id) and (project_id, user_id)
  pub organisation_users : List (String × String)
  pub project_users : List (String × String)
  pub projects : List Project
  pub visibility_rules : List AttributeVisibilityRule
  pub invitations : List OrganisationInvitation
  pub prompts : List Prompt
  pub prompt_versions : List PromptVersion
  pub model_configurations : List ModelConfiguration

-- One constructor for each template of a cache key; the ids hold no ":".
pub data CacheKey : Type 0 where
  user_roles_key : String → String → String → CacheKey
  instance_role_key : String → CacheKey
  organisation_role_key project_role_key : String → String → CacheKey
  default_project_role_key : String → String → CacheKey
  default_organisation_role_key : String → CacheKey
  owner_role_key : CacheKey

-- What is stored under a key; a stored null is `none`.
abbrev pub Cached : CacheKey → Type 0
Cached (user_roles_key _ _ _) = List Role
Cached (instance_role_key _) = Option Role
Cached (organisation_role_key _ _) = Option Role
Cached (project_role_key _ _) = Option Role
Cached (default_project_role_key _ _) = Role
Cached (default_organisation_role_key _) = Role
Cached owner_role_key = Option String

-- The snapshots that an audit event carries.
pub data AuditState : Type 0 where
  role_state : Role → AuditState
  -- user, name and id of a role
  assignment_state : String → Option String → Option String → AuditState
  rule_state : AttributeVisibilityRule → AuditState
  -- user and email of a member; user, email, id and name of the role of a new one
  member_state : String → String → AuditState
  new_member_state : String → String → String → String → AuditState
  not_member_state : AuditState
  -- id of the promoted version of a prompt
  promoted_state : String → AuditState
  -- id, name, description, project and metadata of a prompt
  prompt_state : String → String → Option String → String → String → AuditState
  -- id and name of a role
  held_role_state : Option String → Option String → AuditState

pub record AuditEvent : Type 0 where
  pub action : String
  pub actor_id : Option String
  pub resource_type : String
  pub resource_id : String
  pub organisation_id : Option String
  pub project_id : Option String
  pub before_state : Option AuditState
  pub after_state : Option AuditState

pub record Platform : Type 1 where
  -- cache-manager: `get`, `set` and `del`; undefined is `none`
  pub Cache : Type 0
  pub cache_get : (k : CacheKey) → Cache → Option (Cached k)
  pub cache_set : (k : CacheKey) → Cached k → Cache → Cache
  pub cache_del : CacheKey → Cache → Cache
  -- TypeORM repositories: `find`, `findOne`, `save` of new and of known rows, `remove`
  pub find : {E : Type 0} → (E → Bool) → List E → List E
  -- `find` with `order: { column: "ASC" }`
  pub find_in_order : {E : Type 0} → (E → String) → (E → Bool) → List E → List E
  pub find_one : {E : Type 0} → (E → Bool) → List E → Option E
  -- `findOne` with `order: { createdAt: "DESC" }`
  pub find_latest : {E : Type 0} → (E → ℕ) → (E → Bool) → List E → Option E
  pub insert : {E : Type 0} → E → List E → List E
  pub replace : {E : Type 0} → (E → Bool) → E → List E → List E
  pub remove : {E : Type 0} → (E → Bool) → List E → List E
  -- `relations: ["role"]`
  pub join_role : List UserRole → List Role → List (UserRole × Role)
  -- a generated uuid, none of those in use
  pub new_id : List String → String
  -- whether a text can be compared with a column of ids, which are uuids
  pub is_id : String → Bool
  -- how `where: { column: null }` tests a column
  pub null_where : Option String → Bool
  -- `DatabaseAuditSink.write`; `none` is a failed write
  pub sink_write : AuditEvent → List AuditEvent → Option (List AuditEvent)

-- A condition on a column in a `where` object.
pub data Cond : Type 0 where
  any null : Cond
  equals : String → Cond

pub record RoleWhere : Type 0 where
  pub id : Cond
  pub name : Cond
  pub organisation_id : Cond
  pub project_id : Cond
  -- `none` where the object has no such key
  pub is_system_role : Option Bool
  pub is_instance_level : Option Bool

abbrev pub any_role : RoleWhere
any_role = record {
  id = any;
  name = any;
  organisation_id = any;
  project_id = any;
  is_system_role = none;
  is_instance_level = none;
}

abbrev pub same_bool : Option Bool → Bool → Bool
same_bool none b = true
same_bool (some true) b = b
same_bool (some false) b = not b

module _ (p : Platform) where
  pub record World : Type 0 where
    pub db : Db
    pub cache : p.Cache
    pub audit_log : List AuditEvent

  abbrev pub holds : Cond → Option String → Bool
  holds any v = true
  holds null v = p.null_where v
  holds (equals s) v = same_id v (some s)

  unfoldable pub matches_role : RoleWhere → Role → Bool
  matches_role w role =
      holds w.id (some role.id)
      && holds w.name (some role.name)
      && holds w.organisation_id role.organisation_id
      && holds w.project_id role.project_id
      && same_bool w.is_system_role role.is_system_role
      && same_bool w.is_instance_level role.is_instance_level

  abbrev logged : World → Option (List AuditEvent) → Result (Unit {0}) × World
  logged w none = (ok tt, w)
  logged w (some log) = (ok tt, record w { audit_log = log })

  -- `AuditService.record`: a failed write is logged and forgotten.
  unfoldable pub record_audit : AuditEvent → Exec World (Unit {0})
  record_audit event w = logged w (p.sink_write event w.audit_log)

  abbrev settle : World → Result (Unit {0}) × World → Result (Unit {0}) × World
  settle w (ok a, t) = (ok a, t)
  settle w (err e, t) = (err e, record t { db = w.db })

  -- `dataSource.transaction`: an exception undoes the writes to the tables.
  unfoldable pub transaction : Exec World (Unit {0}) → Exec World (Unit {0})
  transaction body w = settle w (body w)
