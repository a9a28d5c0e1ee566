-- ===== src/Rbac/Roles.antt =====
-- rbac/services/roles.service.ts. The snapshots of a role in the audit events are the role itself.
-- The body of an update may name any column of the role; a field that it does not have is `none`, and
-- stays as it was. The values of the body have the types of the columns, and the database takes them.
pub mod Deletion
pub mod Outcomes
pub mod Changes
pub mod Creation
pub mod Soundness
pub mod History
use mathlib.Core.Option
use arcane_backend.Common.{
  String, Option, none, some, Bool, true, false, not, ◌&&◌, ◌==◌, List, [], ◌∷◌, ◌++◌, map, Exec,
  pure, reads, modify, throw_if, or_throw, ◌>>=◌, ◌>>◌, truthy, same_id, is_null, if◌then◌else◌,
}
use arcane_backend.Exception.{
  not_found, forbidden, bad_request, role_not_found, role_name_already_exists,
  cannot_update_system_roles, cannot_delete_system_roles, cannot_delete_global_roles,
  role_does_not_belong_to_organisation, role_does_not_belong_to_project,
  default_member_role_not_found, default_organisation_member_role_not_found,
}
use arcane_backend.Platform.{
  Platform, Db, World, Cond, any, null, equals, RoleWhere, any_role, matches_role, AuditEvent,
  AuditState, role_state, record_audit, transaction,
}
use arcane_backend.Rbac.Role.{Role, UserRole, RoleFields, RoleResponseDto, to_entity, to_dto}
use arcane_backend.Rbac.Validator.{validate_permissions, validate_role_scope}
use arcane_backend.Rbac.DefaultRole.{find_role, project_member_where, organisation_member_where}
use arcane_backend.Rbac.Assignment.{id_where, assign_role, remove_role, get_user_ids_for_role}

pub record CreateRoleRequest : Type 0 where
  pub name : String
  pub description : Option String
  pub permissions : List String

-- No pipe takes away the keys that `UpdateRoleRequestDto` does not declare.
pub record UpdateRoleRequest : Type 0 where
  pub name : Option String
  -- a text or null
  pub description : Option (Option String)
  pub permissions : Option (List String)
  pub id : Option String
  pub organisation_id : Option (Option String)
  pub project_id : Option (Option String)
  pub is_system_role : Option Bool
  pub is_instance_level : Option Bool

-- `id || null`
abbrev pub or_null : Option String → Option String
or_null id = if truthy id then id else none

abbrev pub cond_of : Option String → Cond
cond_of none = null
cond_of (some id) = equals id

abbrev pub given {ℓ} : {A : Type ℓ} → Option A → A → A
given none a = a
given (some a) _ = a

-- `Object.assign(role, updateRoleDto)`
unfoldable pub updated : Role → UpdateRoleRequest → Role
updated role dto = record {
  id = given dto.id role.id;
  organisation_id = given dto.organisation_id role.organisation_id;
  project_id = given dto.project_id role.project_id;
  name = given dto.name role.name;
  description = given dto.description role.description;
  permissions = given dto.permissions role.permissions;
  is_system_role = given dto.is_system_role role.is_system_role;
  is_instance_level = given dto.is_instance_level role.is_instance_level;
}

abbrev pub role_event :
    String
    → String
    → String
    → Option String
    → Option String
    → Option AuditState
    → Option AuditState
    → AuditEvent
role_event action actor_id role_id organisation_id project_id before after = record {
  action = action;
  actor_id = some actor_id;
  resource_type = "role";
  resource_id = role_id;
  organisation_id = organisation_id;
  project_id = project_id;
  before_state = before;
  after_state = after;
}

abbrev pub scope_where : Bool → String → Cond → RoleWhere
scope_where system organisation_id project = record any_role {
  is_system_role = some system;
  organisation_id = equals organisation_id;
  project_id = project;
}

module _ (p : Platform) where
  abbrev pub find_roles : RoleWhere → Db → List Role
  find_roles condition db = p.find (matches_role p condition) db.roles

  abbrev pub with_roles : Db → List Role → Db
  with_roles db rows = record db { roles = rows }

  unfoldable pub find_all : String → Option String → Exec (World p) (List RoleResponseDto)
  find_all organisation_id project_id = do
    let project = if truthy project_id then cond_of project_id else null
    system_roles ← reads (λ w. find_roles (scope_where true organisation_id project) w.db)
    other_roles ← reads (λ w. find_roles (scope_where false organisation_id project) w.db)
    pure (map to_dto (system_roles ++ other_roles))

  unfoldable pub find_one_role : String → Exec (World p) Role
  unfolding find_role
  find_one_role role_id = do
    role ← reads (λ w. find_role p (id_where role_id) w.db)
    or_throw role (not_found (role_not_found role_id))

  unfoldable pub find_one_dto : String → Exec (World p) RoleResponseDto
  find_one_dto role_id = do role ← find_one_role role_id; pure (to_dto role)

  -- `roleRepository.save` of a new role: the database gives it an id.
  unfoldable pub save_new_role : RoleFields → Exec (World p) Role
  save_new_role fields = do
    id ← reads (λ w. p.new_id (map (λ r. r.id) w.db.roles))
    modify (λ w. record w { db = with_roles w.db (p.insert (to_entity id fields) w.db.roles) })
    pure (to_entity id fields)

  -- `roleRepository.save` writes over the row with the id, if there is one, and else adds a row.
  abbrev pub put_role : Role → List Role → Option Role → List Role
  put_role role rows none = p.insert role rows
  put_role role rows (some _) = p.replace (λ r. r.id == role.id) role rows

  abbrev pub saved_roles : Role → List Role → List Role
  saved_roles role rows = put_role role rows (p.find_one (λ r. r.id == role.id) rows)

  -- `roleRepository.save` of a role that has an id.
  unfoldable pub save_role : Role → Exec (World p) Role
  save_role role = do
    modify (λ w. record w { db = with_roles w.db (saved_roles role w.db.roles) })
    pure role

  -- `roleRepository.remove`: the assignments of the role go with it (`onDelete: "CASCADE"`).
  unfoldable pub remove_role_row : Role → Exec (World p) (Unit {0})
  remove_role_row role = modify (λ w. record w {
    db = record (w.db) {
      roles = p.remove (λ r. r.id == role.id) w.db.roles;
      user_roles = p.remove (λ x. x.role_id == role.id) w.db.user_roles;
    };
  })

  unfoldable pub create :
      String → CreateRoleRequest → String → Option String → Exec (World p) RoleResponseDto
  unfolding save_new_role find_role
  create organisation_id dto user_id project_id = do
    validate_permissions p dto.permissions
    validate_role_scope p organisation_id project_id
    existing ← reads (λ w.
        find_role p
          (record any_role {
            name = equals dto.name;
            organisation_id = equals organisation_id;
            project_id = cond_of (or_null project_id);
          })
          w.db)
    throw_if (not (is_null existing)) (bad_request (role_name_already_exists dto.name))
    saved ← save_new_role (record {
      name = dto.name;
      description = dto.description;
      permissions = dto.permissions;
      organisation_id = some organisation_id;
      project_id = or_null project_id;
      is_system_role = false;
      is_instance_level = false;
    })
    record_audit p (
        role_event "role.created" user_id saved.id (some organisation_id) project_id none
          (some (role_state saved)))
    pure (to_dto saved)

  -- `if ("permissions" in dto && dto.permissions) validatePermissions(dto.permissions)`
  abbrev pub validate_given : Option (List String) → Exec (World p) (Unit {0})
  validate_given none = pure tt
  validate_given (some permissions) = validate_permissions p permissions

  -- `projectId && role.projectId !== projectId`
  abbrev pub is_elsewhere : Role → Option String → Bool
  is_elsewhere role project_id = truthy project_id && not (same_id role.project_id project_id)

  unfoldable pub update :
      String → String → UpdateRoleRequest → String → Option String → Exec (World p) RoleResponseDto
  unfolding find_one_role save_role
  update organisation_id role_id dto user_id project_id = do
    role ← find_one_role role_id
    throw_if role.is_system_role (forbidden cannot_update_system_roles)
    throw_if (not (same_id role.organisation_id (some organisation_id)))
        (forbidden role_does_not_belong_to_organisation)
    throw_if (is_elsewhere role project_id) (forbidden role_does_not_belong_to_project)
    validate_given dto.permissions
    saved ← save_role (updated role dto)
    record_audit p (
        role_event "role.updated" user_id role_id (some organisation_id) project_id
          (some (role_state role)) (some (role_state saved)))
    pure (to_dto saved)

  -- The loop of the transaction: each user gives up the role and gets the default one.
  unfoldable pub reassign : List String → String → String → Exec (World p) (Unit {0})
  reassign [] role_id default_id = pure tt
  reassign (user_id ∷ user_ids) role_id default_id = do
    remove_role p user_id role_id true
    assign_role p user_id default_id true
    reassign user_ids role_id default_id

  -- The role that takes the place of a deleted one.
  unfoldable pub find_replacement : String → Option String → Exec (World p) Role
  unfolding find_role
  find_replacement organisation_id (some project_id) =
      if truthy (some project_id)
      then (do
        role ← reads (λ w. find_role p (project_member_where organisation_id project_id) w.db)
        or_throw role (not_found (default_member_role_not_found project_id)))
      else (do
        role ← reads (λ w. find_role p (organisation_member_where organisation_id) w.db)
        or_throw role (not_found (default_organisation_member_role_not_found organisation_id)))
  find_replacement organisation_id none = do
    role ← reads (λ w. find_role p (organisation_member_where organisation_id) w.db)
    or_throw role (not_found (default_organisation_member_role_not_found organisation_id))

  -- The branches of `deleteRoleWithUserReassignment` on the users that hold the role.
  unfoldable pub delete_reassigning :
      Role → String → Option String → List String → Exec (World p) (Unit {0})
  unfolding reassign find_replacement remove_role_row transaction
  delete_reassigning role organisation_id project_id [] = remove_role_row role
  delete_reassigning role organisation_id project_id (user_id ∷ user_ids) = do
    default_role ← find_replacement organisation_id project_id
    transaction p (do reassign (user_id ∷ user_ids) role.id default_role.id; remove_role_row role)

  unfoldable pub delete_role_with_user_reassignment :
      Role → String → Option String → Exec (World p) (Unit {0})
  unfolding delete_reassigning
  delete_role_with_user_reassignment role organisation_id project_id = do
    user_ids ← get_user_ids_for_role p role.id
    delete_reassigning role organisation_id project_id user_ids

  unfoldable pub delete : String → String → String → Option String → Exec (World p) (Unit {0})
  unfolding find_one_role
  delete organisation_id role_id user_id project_id = do
    role ← find_one_role role_id
    throw_if role.is_system_role (forbidden cannot_delete_system_roles)
    throw_if (is_null role.organisation_id) (forbidden cannot_delete_global_roles)
    throw_if (not (same_id role.organisation_id (some organisation_id)))
        (forbidden role_does_not_belong_to_organisation)
    throw_if (is_elsewhere role project_id) (forbidden role_does_not_belong_to_project)
    delete_role_with_user_reassignment role organisation_id project_id
    record_audit p (
        role_event "role.deleted" user_id role_id role.organisation_id role.project_id
          (some (role_state role)) none)

  unfoldable pub is_system_role : String → Exec (World p) Bool
  is_system_role role_id = do role ← find_one_role role_id; pure role.is_system_role

  unfoldable pub get_system_roles : Exec (World p) (List Role)
  get_system_roles = reads (λ w.
      find_roles
        (record any_role { is_system_role = some true; organisation_id = null; project_id = null })
        w.db)
