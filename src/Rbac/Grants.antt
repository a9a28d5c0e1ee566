-- ===== src/Rbac/Grants.antt =====
-- rbac/services/rbac-permission.service.ts: what a list of roles permits (the pure part).
pub mod Laws
use arcane_backend.Common.{
  String, Option, none, some, Bool, true, false, ◌&&◌, List, [], ◌∷◌, ◌==◌, if◌then◌else◌, includes,
  add_all, find_first, is_null, same_id,
}
use arcane_backend.Rbac.Permissions.{all_access}
use arcane_backend.Rbac.Role.{Role}

-- `permissions.length === 1 && permissions[0] === "*"`
abbrev pub is_wildcard : List String → Bool
is_wildcard [] = false
is_wildcard (permission ∷ []) = permission == all_access
is_wildcard (_ ∷ _ ∷ _) = false

-- the loop of `aggregatePermissions`
pub aggregate_from : List String → List Role → List String
aggregate_from permission_set [] = permission_set
aggregate_from permission_set (role ∷ roles) =
    if is_wildcard role.permissions
    then all_access ∷ []
    else aggregate_from (add_all permission_set role.permissions) roles

unfoldable pub aggregate_permissions : List Role → List String
unfolding aggregate_from
aggregate_permissions roles = aggregate_from [] roles

unfoldable pub has_permission : List Role → String → Bool
has_permission roles permission =
    let permissions = aggregate_permissions roles in
    if includes permissions all_access then true else includes permissions permission

pub record PermissionsWithContext : Type 0 where
  pub instance_permissions : List String
  pub organisation_permissions : List String
  pub project_permissions : List String
  pub all_permissions : List String

-- `role ? this.aggregatePermissions([role]) : []`
unfoldable pub permissions_of : Option Role → List String
permissions_of none = []
permissions_of (some role) = aggregate_permissions (role ∷ [])

abbrev pub is_instance_role : Role → Bool
is_instance_role role =
    role.is_instance_level && is_null role.organisation_id && is_null role.project_id

unfoldable pub get_permissions_with_context :
    List Role → Option String → Option String → PermissionsWithContext
get_permissions_with_context roles organisation_id project_id = record {
  instance_permissions = permissions_of (find_first is_instance_role roles);
  organisation_permissions = permissions_of (
      find_first (λ role. same_id role.organisation_id organisation_id && is_null role.project_id)
        roles);
  project_permissions =
      permissions_of (find_first (λ role. same_id role.project_id project_id) roles);
  all_permissions = aggregate_permissions roles;
}
