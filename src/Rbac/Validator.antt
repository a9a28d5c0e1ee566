-- ===== src/Rbac/Validator.antt =====
-- rbac/validators/role.validator.ts
pub mod Laws
use arcane_backend.Common.{
  String, Option, List, [], ◌∷◌, not, ◌&&◌, Exec, pure, throw_if, ◌>>◌, truthy, includes, Bool,
  ◌==◌, some,
}
use arcane_backend.Exception.{
  bad_request, invalid_permission, project_specific_roles_require_organisation_id,
}
use arcane_backend.Platform.{Platform, World}
use arcane_backend.Rbac.Permissions.{all_permissions}

module _ (p : Platform) where
  unfoldable pub validate_permissions : List String → Exec (World p) (Unit {0})
  validate_permissions [] = pure tt
  validate_permissions (permission ∷ permissions) = do
    throw_if (not (includes all_permissions permission))
        (bad_request (invalid_permission permission))
    validate_permissions permissions

  unfoldable pub validate_role_scope : String → Option String → Exec (World p) (Unit {0})
  validate_role_scope organisation_id project_id =
      throw_if (truthy project_id && not (truthy (some organisation_id)))
        (bad_request project_specific_roles_require_organisation_id)
