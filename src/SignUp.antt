-- ===== src/SignUp.antt =====
-- auth/services/auth-hooks.service.ts: what happens when a user has signed up or signed in, from where
-- the user's id and email have been read from the request. The number of users is an argument.
pub mod Laws
use arcane_backend.Common.{
  ℕ, String, Option, none, some, Bool, Exec, pure, throw_if, try_catch, ◌>>=◌, ◌>>◌, truthy,
  if◌then◌else◌, or_empty, false, not,
}
use arcane_backend.Exception.{bad_request, invite_required}
use arcane_backend.Entities.{OrganisationInvitation}
use arcane_backend.Platform.{Platform, World}
use arcane_backend.Organisations.Invitations.{InviteTools, find_pending_by_email, consume_invite}
use arcane_backend.Organisations.Members.{add_user_by_id}
use arcane_backend.Rbac.Assignment.{assign_role}
use arcane_backend.Rbac.DefaultRole.{get_owner_role_id}
use arcane_backend.Rbac.Onboarding.{is_first_user}
use arcane_backend.Rbac.Roles.{or_null}

module _ (p : Platform) (t : InviteTools) where
  -- The failure of the assignment is logged and forgotten.
  abbrev pub give_owner_role : String → Option String → Exec (World p) (Unit {0})
  give_owner_role user_id owner_role_id =
      if truthy owner_role_id
      then try_catch (assign_role p user_id (or_empty owner_role_id) false) (λ e. pure tt)
      else pure tt

  unfoldable pub process_user_role_assignment : String → Exec (World p) (Unit {0})
  unfolding get_owner_role_id
  process_user_role_assignment user_id = do
    owner_role_id ← get_owner_role_id p
    give_owner_role user_id owner_role_id

  abbrev pub reject_if : Bool → Exec (World p) (Unit {0})
  reject_if require_invitation = throw_if require_invitation (bad_request invite_required)

  abbrev pub accept : ℕ → Bool → String → Option OrganisationInvitation → Exec (World p) (Unit {0})
  accept now require_invitation user_id none = reject_if require_invitation
  accept now require_invitation user_id (some invite) = do
    add_user_by_id p invite.organisation_id user_id (or_null invite.role_id)
    consume_invite p t now invite

  unfoldable pub process_invitation : ℕ → Bool → String → String → Exec (World p) (Unit {0})
  process_invitation now require_invitation user_id email = do
    invite ← find_pending_by_email p t now email none
    accept now require_invitation user_id invite

  unfoldable pub process_user : ℕ → ℕ → Bool → String → Option String → Exec (World p) (Unit {0})
  unfolding process_user_role_assignment process_invitation is_first_user
  process_user user_count now require_invitation user_id email = do
    first ← is_first_user p user_count
    if first
        then process_user_role_assignment user_id
        else if not (truthy email)
        then reject_if require_invitation
        else process_invitation now require_invitation user_id (or_empty email)
