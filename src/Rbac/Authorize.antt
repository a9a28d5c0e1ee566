-- ===== src/Rbac/Authorize.antt =====
-- rbac/services/rbac-permission.service.ts: the permissions of a user (the part that reads the
-- tables). Logging is left out. The licence is an argument: `LicenseService` reads it elsewhere.
pub mod Laws
use arcane_backend.Common.{
  String, Option, Bool, not, ◌&&◌, List, [], ◌∷◌, ◌++◌, Exec, pure, ◌>>=◌, throw_if, truthy,
  or_empty, if◌then◌else◌,
}
use arcane_backend.Exception.{forbidden, user_does_not_have_permission}
use arcane_backend.Platform.{Platform, World}
use arcane_backend.Rbac.Role.{Role}
use arcane_backend.Rbac.Grants.{
  aggregate_permissions, has_permission, permissions_of, PermissionsWithContext,
  get_permissions_with_context,
}
use arcane_backend.Rbac.Retrieval.{
  get_user_instance_role, get_user_organisation_role, get_user_project_role, get_user_roles,
  get_user_project_roles_for_organisation,
}
use arcane_backend.Rbac.Membership.{get_user_organisation_ids, get_user_project_ids}

-- `organisationId && !projectId`
abbrev pub organisation_only : Option String → Option String → Bool
organisation_only organisation_id project_id = truthy organisation_id && not (truthy project_id)

pub record UserPermissions : Type 0 where
  pub permissions : PermissionsWithContext
  pub enterprise : Bool

pub record AllUserPermissions : Type 0 where
  pub instance_permissions : List String
  pub organisations : List (String × List String)
  pub projects : List (String × List String)

module _ (p : Platform) where
  -- The roles with, at the level of an organisation, the project roles in it.
  unfoldable pub get_checked_roles :
      String → Option String → Option String → Exec (World p) (List Role)
  unfolding get_user_project_roles_for_organisation
  get_checked_roles user_id organisation_id project_id = do
    roles ← get_user_roles p user_id organisation_id project_id
    project_roles ←
        if organisation_only organisation_id project_id
        then get_user_project_roles_for_organisation p (or_empty organisation_id) user_id
        else pure []
    pure (roles ++ project_roles)

  unfoldable pub has_permission_for_user :
      String → String → Option String → Option String → Exec (World p) Bool
  unfolding get_checked_roles
  has_permission_for_user user_id permission organisation_id project_id = do
    roles ← get_checked_roles user_id organisation_id project_id
    pure (has_permission roles permission)

  unfoldable pub check_permission :
      String → String → Option String → Option String → Exec (World p) (Unit {0})
  check_permission user_id permission organisation_id project_id = do
    granted ← has_permission_for_user user_id permission organisation_id project_id
    throw_if (not granted) (forbidden (user_does_not_have_permission permission))

  unfoldable pub get_user_permissions :
      String → Option String → Option String → Exec (World p) (List String)
  get_user_permissions user_id organisation_id project_id = do
    roles ← get_user_roles p user_id organisation_id project_id
    pure (aggregate_permissions roles)

  unfoldable pub get_user_permissions_with_context :
      Bool → String → Option String → Option String → Exec (World p) UserPermissions
  get_user_permissions_with_context enterprise user_id organisation_id project_id = do
    roles ← get_checked_roles user_id organisation_id project_id
    let permissions = get_permissions_with_context roles organisation_id project_id
    pure (record { permissions = permissions; enterprise = enterprise })

  -- `for (const id of ids) permissions[id] = …`, for a query of the role at each id. An id that
  -- comes again has the same entry.
  permissions_at :
      (String → Exec (World p) (Option Role))
      → List String
      → Exec (World p) (List (String × List String))
  permissions_at role_at [] = pure []
  permissions_at role_at (id ∷ ids) = do
    role ← role_at id
    rest ← permissions_at role_at ids
    pure ((id, permissions_of role) ∷ rest)

  unfoldable pub get_all_user_permissions : String → Exec (World p) AllUserPermissions
  unfolding permissions_at
  get_all_user_permissions user_id = do
    instance_role ← get_user_instance_role p user_id
    organisation_ids ← get_user_organisation_ids p user_id
    organisations ← permissions_at (λ id. get_user_organisation_role p id user_id) organisation_ids
    project_ids ← get_user_project_ids p user_id
    projects ← permissions_at (λ id. get_user_project_role p id user_id) project_ids
    pure (record {
      instance_permissions = permissions_of instance_role;
      organisations = organisations;
      projects = projects;
    })
