-- ===== src/Rbac/InstanceOwner.antt =====
-- rbac/services/instance-owner.service.ts, less `listOwnersWithDetails`, which asks the users' names
-- of the authentication library.
pub mod Laws
pub mod Access
pub mod Removal
use arcane_backend.Common.{
  String, Option, none, some, Bool, true, false, not, ◌&&◌, ◌||◌, ◌==◌, List, [], ◌∷◌, Exec, pure,
  reads, throw_if, or_throw, ◌>>=◌, ◌>>◌,
}
use arcane_backend.Exception.{
  not_found, forbidden, bad_request, only_owners_can_assign_owner_role,
  only_owners_can_remove_owner_role, owner_role_not_found, cannot_remove_last_owner,
  cannot_remove_yourself_if_last_owner,
}
use arcane_backend.Platform.{
  Platform, Db, World, AuditEvent, AuditState, assignment_state, record_audit,
}
use arcane_backend.Rbac.Permissions.{all_access}
use arcane_backend.Rbac.Role.{Role}
use arcane_backend.Rbac.DefaultRole.{find_role, owner_where}
use arcane_backend.Rbac.Assignment.{assign_role, remove_role, get_user_ids_for_role}
use arcane_backend.Rbac.Authorize.{has_permission_for_user}

abbrev pub owner_event :
    String → String → String → Option AuditState → Option AuditState → AuditEvent
owner_event action requester_id user_id before after = record {
  action = action;
  actor_id = some requester_id;
  resource_type = "instance_owner";
  resource_id = user_id;
  organisation_id = none;
  project_id = none;
  before_state = before;
  after_state = after;
}

abbrev pub owner_state : String → Role → AuditState
owner_state user_id role = assignment_state user_id (some "Owner") (some role.id)

-- `owners.length === 1 && owners[0] === userId`
abbrev pub is_only : String → List String → Bool
is_only user_id [] = false
is_only user_id (owner ∷ []) = owner == user_id
is_only user_id (_ ∷ _ ∷ _) = false

abbrev pub is_single {ℓ} : {A : Type ℓ} → List A → Bool
is_single [] = false
is_single (_ ∷ []) = true
is_single (_ ∷ _ ∷ _) = false

module _ (p : Platform) where
  owners_of : Option Role → Exec (World p) (List String)
  owners_of none = pure []
  owners_of (some role) = get_user_ids_for_role p role.id

  unfoldable pub list_owners : Exec (World p) (List String)
  unfolding owners_of find_role get_user_ids_for_role
  list_owners = do owner_role ← reads (λ w. find_role p owner_where w.db); owners_of owner_role

  unfoldable pub assign_owner_role : String → String → Exec (World p) (Unit {0})
  unfolding find_role
  assign_owner_role user_id requester_id = do
    granted ← has_permission_for_user p requester_id all_access none none
    throw_if (not granted) (forbidden only_owners_can_assign_owner_role)
    found ← reads (λ w. find_role p owner_where w.db)
    owner_role ← or_throw found (not_found owner_role_not_found)
    assign_role p user_id owner_role.id false
    record_audit p (
        owner_event "instance_owner.assigned" requester_id user_id none
          (some (owner_state user_id owner_role)))

  unfoldable pub remove_owner_role : String → String → Exec (World p) (Unit {0})
  unfolding list_owners
  remove_owner_role user_id requester_id = do
    granted ← has_permission_for_user p requester_id all_access none none
    throw_if (not granted) (forbidden only_owners_can_remove_owner_role)
    owners ← list_owners
    throw_if (is_only user_id owners) (bad_request cannot_remove_last_owner)
    throw_if (user_id == requester_id && is_single owners)
        (bad_request cannot_remove_yourself_if_last_owner)
    found ← reads (λ w. find_role p owner_where w.db)
    owner_role ← or_throw found (not_found owner_role_not_found)
    remove_role p user_id owner_role.id false
    record_audit p (
        owner_event "instance_owner.removed" requester_id user_id
          (some (owner_state user_id owner_role)) none)

  unfoldable pub is_owner : String → Exec (World p) Bool
  is_owner user_id = has_permission_for_user p user_id all_access none none
