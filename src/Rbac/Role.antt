-- ===== src/Rbac/Role.antt =====
-- rbac/entities/role.entity.ts, rbac/entities/user-role.entity.ts, rbac/utils/role-scope.util.ts,
-- rbac/mappers/role.mapper.ts. The dates of a row are left out: no code reads them.
pub mod Scope
use arcane_backend.Common.{String, Option, Bool, not, ◌&&◌, List, is_null, if◌then◌else◌}

pub record Role : Type 0 where
  pub id : String
  pub organisation_id : Option String
  pub project_id : Option String
  pub name : String
  pub description : Option String
  pub permissions : List String
  pub is_system_role : Bool
  pub is_instance_level : Bool

pub record UserRole : Type 0 where
  pub user_id : String
  pub role_id : String

pub data RoleScope : Type 0 where
  instance_scope organisation_scope project_scope : RoleScope

unfoldable pub get_role_scope : Role → RoleScope
get_role_scope role =
    if is_null role.organisation_id && is_null role.project_id
    then instance_scope
    else if not (is_null role.organisation_id) && is_null role.project_id
    then organisation_scope
    else project_scope

unfoldable pub is_instance_scope : Role → Bool
is_instance_scope role = is_null role.organisation_id && is_null role.project_id

unfoldable pub is_organisation_scope : Role → Bool
is_organisation_scope role = not (is_null role.organisation_id) && is_null role.project_id

unfoldable pub is_project_scope : Role → Bool
is_project_scope role = not (is_null role.organisation_id) && not (is_null role.project_id)

-- `RoleMapper.toEntity`: what a new role is made of, before the database gives it an id.
pub record RoleFields : Type 0 where
  pub name : String
  pub description : Option String
  pub permissions : List String
  pub organisation_id : Option String
  pub project_id : Option String
  pub is_system_role : Bool
  pub is_instance_level : Bool

unfoldable pub to_entity : String → RoleFields → Role
to_entity id params = record {
  id = id;
  organisation_id = params.organisation_id;
  project_id = params.project_id;
  name = params.name;
  description = params.description;
  permissions = params.permissions;
  is_system_role = params.is_system_role;
  is_instance_level = params.is_instance_level;
}

-- `RoleMapper.toDto`
pub record RoleResponseDto : Type 0 where
  pub role : Role
  pub can_delete : Bool

unfoldable pub to_dto : Role → RoleResponseDto
to_dto role = record {
  role = role;
  can_delete = not role.is_system_role && not (is_null role.organisation_id);
}
