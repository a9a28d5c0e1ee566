-- ===== src/Rbac/Guards.antt =====
-- rbac/guards: what each guard lets through. The metadata of the handler and of its controller come
-- as `Metadata`, the session and the path parameters as `Request`.
pub mod Decisions
pub mod Outcomes
use arcane_backend.Common.{
  String, Option, none, some, Bool, true, false, not, ◌&&◌, ◌||◌, ◌==◌, Exec, pure, throw, reads,
  ◌>>=◌, ◌>>◌, try_catch, throw_if, or_throw, truthy, or_empty, same_id, if◌then◌else◌,
}
use arcane_backend.Exception.{
  Exception, forbidden, user_not_authenticated, user_not_in_organisation,
  user_does_not_belong_to_project, organisation_context_required,
  organisation_and_project_context_required,
}
use arcane_backend.Platform.{Platform, Db, World, Project}
use arcane_backend.Rbac.Membership.{is_member, is_project_member}
use arcane_backend.Rbac.Authorize.{check_permission}

pub record Metadata : Type 0 where
  pub handler_permission : Option String
  pub controller_permission : Option String
  pub handler_allows_creator : Option Bool
  pub controller_allows_creator : Option Bool

pub record Request : Type 0 where
  -- the id of `request.session.user`
  pub user : Option String
  pub organisation_id : Option String
  pub project_id : Option String
  pub project_uuid : Option String

-- `a || b`
abbrev pub or_else : Option String → Option String → Option String
or_else a b = if truthy a then a else b

-- `a ?? b`, read as a condition
abbrev pub coalesce : Option Bool → Option Bool → Bool
coalesce (some a) b = a
coalesce none (some b) = b
coalesce none none = false

abbrev pub required_permission : Metadata → Option String
required_permission m = or_else m.handler_permission m.controller_permission

abbrev pub allow_project_creator : Metadata → Bool
allow_project_creator m = coalesce m.handler_allows_creator m.controller_allows_creator

abbrev pub project_of : Request → Option String
project_of request = or_else request.project_id request.project_uuid

abbrev pub created_by : Option Project → String → Bool
created_by none user_id = false
created_by (some project) user_id = same_id project.created_by_id (some user_id)

module _ (p : Platform) where
  -- InstancePermissionGuard.canActivate
  unfoldable pub instance_can_activate : Metadata → Request → Exec (World p) Bool
  instance_can_activate metadata request = do
    let required = required_permission metadata
    user ← or_throw request.user (forbidden user_not_authenticated)
    if not (truthy required)
        then pure true
        else do check_permission p user (or_empty required) none none; pure true

  -- OrgPermissionGuard.canActivate
  unfoldable pub organisation_can_activate : Metadata → Request → Exec (World p) Bool
  organisation_can_activate metadata request = do
    let required = required_permission metadata
    user ← or_throw request.user (forbidden user_not_authenticated)
    if not (truthy request.organisation_id)
        then (do throw_if (truthy required) (forbidden organisation_context_required); pure true)
        else do
          belongs ← is_member p (or_empty request.organisation_id) user
          throw_if (not belongs) (forbidden user_not_in_organisation)
          if not (truthy required) then pure true else do
            check_permission p user (or_empty required) request.organisation_id none
            pure true

  unfoldable pub is_project_creator_fallback : String → String → Bool → Exec (World p) Bool
  is_project_creator_fallback project_id user_id allowed =
      if not allowed
      then pure false
      else reads (λ w. created_by (p.find_one (λ x. x.id == project_id) w.db.projects) user_id)

  unfoldable pub validate_org_membership : String → String → Exec (World p) (Unit {0})
  validate_org_membership organisation_id user_id = do
    belongs ← is_member p organisation_id user_id
    throw_if (not belongs) (forbidden user_not_in_organisation)

  -- `if (await this.isProjectCreatorFallback(…)) return true; throw error;`
  creator_or_throw : String → String → Bool → Exception → Exec (World p) Bool
  creator_or_throw project_id user_id allowed error = do
    created ← is_project_creator_fallback project_id user_id allowed
    throw_if (not created) error
    pure true

  unfoldable pub check_permission_with_creator_fallback :
      String → String → String → String → Bool → Exec (World p) Bool
  unfolding creator_or_throw
  check_permission_with_creator_fallback user_id required organisation_id project_id allowed =
      try_catch
        (do check_permission p user_id required (some organisation_id) (some project_id); pure true)
        (creator_or_throw project_id user_id allowed)

  -- OrgProjectPermissionGuard.canActivate
  unfoldable pub project_can_activate : Metadata → Request → Exec (World p) Bool
  unfolding creator_or_throw
  project_can_activate metadata request = do
    let required = required_permission metadata
    let allowed = allow_project_creator metadata
    user ← or_throw request.user (forbidden user_not_authenticated)
    let organisation_id = or_empty request.organisation_id
    let project_id = or_empty (project_of request)
    throw_if (not (truthy request.organisation_id) || not (truthy (project_of request)))
        (forbidden organisation_and_project_context_required)
    validate_org_membership organisation_id user
    belongs ← is_project_member p project_id user
    if not belongs
        then creator_or_throw project_id user allowed (forbidden user_does_not_belong_to_project)
        else if not (truthy required)
        then pure true
        else check_permission_with_creator_fallback user (or_empty required) organisation_id
            project_id allowed
