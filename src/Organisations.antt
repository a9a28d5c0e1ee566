-- ===== src/Organisations.antt =====
-- organisations/services/organisation-rbac.service.ts: the role of a user in an organisation. What the
-- service only passes on is called where it is defined. An audit event has no metadata here.
pub mod Laws
pub mod Invitations
pub mod Members
use arcane_backend.Common.{
  String, Option, none, some, Bool, ◌==◌, Exec, pure, ◌>>=◌, ◌>>◌, if◌then◌else◌, ◌≡◌, refl, sym,
  ap, ◌⊎◌, ◌↔◌, inl, inr, ◌≢◌, Memᴰ, ok, true, false, eq_iff, Bool-cases, Option-cases, ◌∙◌, List,
}
use mathlib.Core.Option
use arcane_backend.Platform.{
  Platform, Db, World, AuditEvent, AuditState, held_role_state, record_audit,
}
use arcane_backend.Platform.Laws.{IsLawful}
use arcane_backend.Platform.Audit.{record_audit_lem}
use arcane_backend.Rbac.Role.{Role, UserRole, RoleResponseDto, to_dto}
use arcane_backend.Rbac.Retrieval.{get_user_organisation_role}
use arcane_backend.Rbac.Current.{
  CacheIsCurrent, organisation_role, Answers-get_user_organisation_role,
}
use arcane_backend.Rbac.Reads.{Reads-get_user_organisation_role}
use arcane_backend.Rbac.Assignment.{assign_role, remove_role, is_assignment}
use arcane_backend.Rbac.Assignment.Laws.{
  assignment, with_user_roles, is_assignment_iff, assign_role_lem, remove_role_lem,
}
use arcane_backend.Rbac.Roles.{or_null}

-- `role?.id || null` and `role?.name || null`
abbrev pub held_id : Option Role → Option String
held_id role = or_null (Option.map (λ (r : Role). r.id) role)

abbrev pub held_name : Option Role → Option String
held_name role = or_null (Option.map (λ (r : Role). r.name) role)

-- `a || b`
abbrev pub id_or : Option String → String → Option String
id_or none b = some b
id_or (some a) b = some a

abbrev pub organisation_role_event :
    String → String → String → Option Role → Option Role → AuditEvent
organisation_role_event organisation_id user_id role_id existing_role new_role = record {
  action = "organisation.user.role.assigned";
  actor_id = none;
  resource_type = "organisation_role_assignment";
  resource_id = user_id;
  organisation_id = some organisation_id;
  project_id = none;
  before_state = some (held_role_state (held_id existing_role) (held_name existing_role));
  after_state = some (held_role_state (id_or (held_id new_role) role_id) (held_name new_role));
}

module _ (p : Platform) where
  -- `if (existingRole && existingRole.id !== roleId)`
  abbrev pub remove_other : String → String → Bool → Option Role → Exec (World p) (Unit {0})
  remove_other user_id role_id in_transaction none = pure tt
  remove_other user_id role_id in_transaction (some role) =
      if role.id == role_id then pure tt else remove_role p user_id role.id in_transaction

  unfoldable pub assign_organisation_role :
      String → String → String → Bool → Exec (World p) (Unit {0})
  assign_organisation_role organisation_id user_id role_id in_transaction = do
    existing_role ← get_user_organisation_role p organisation_id user_id
    remove_other user_id role_id in_transaction existing_role
    assign_role p user_id role_id in_transaction
    new_role ← get_user_organisation_role p organisation_id user_id
    record_audit p (organisation_role_event organisation_id user_id role_id existing_role new_role)

  unfoldable pub get_user_role : String → String → Exec (World p) (Option RoleResponseDto)
  get_user_role organisation_id user_id = do
    role ← get_user_organisation_role p organisation_id user_id
    pure (Option.map to_dto role)
