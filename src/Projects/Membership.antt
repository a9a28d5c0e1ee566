-- ===== src/Projects/Membership.antt =====
-- projects/services/project-membership.service.ts: who belongs to a project. The users are those of the
-- authentication library: the id of a user by email is an argument. An audit event has no metadata
-- here.
pub mod Laws
pub mod Rows
use arcane_backend.Common.{
  String, Option, none, some, Bool, false, not, ◌&&◌, ◌==◌, Exec, pure, reads, modify, throw_if,
  or_throw, ◌>>=◌, ◌>>◌, same_id, if◌then◌else◌,
}
use arcane_backend.Exception.{
  not_found, forbidden, unauthorized, project_not_found, user_not_found_by_email,
  user_not_in_organisation, cannot_remove_project_creator,
}
use arcane_backend.Platform.{
  Platform, Db, World, Project, AuditEvent, AuditState, member_state, new_member_state,
  not_member_state, record_audit,
}
use arcane_backend.Rbac.Assignment.{assign_role}
use arcane_backend.Rbac.DefaultRole.{get_default_project_role}
use arcane_backend.Rbac.Membership.{is_row, is_member, is_project_member}
use arcane_backend.Rbac.Role.{Role}
use arcane_backend.Rbac.Roles.{find_one_role}

abbrev pub is_project_of : String → String → Project → Bool
is_project_of organisation_id project_id x =
    x.id == project_id && x.organisation_id == organisation_id

abbrev pub member_event :
    String → Option String → String → String → Option AuditState → Option AuditState → AuditEvent
member_event action actor_id organisation_id project_id before after = record {
  action = action;
  actor_id = actor_id;
  resource_type = "project_member";
  resource_id = project_id;
  organisation_id = some organisation_id;
  project_id = some project_id;
  before_state = before;
  after_state = after;
}

module _ (p : Platform) where
  -- `ProjectManagementService.getByIdAndOrganisationOrThrow`
  unfoldable pub get_project_or_throw : String → String → Exec (World p) Project
  get_project_or_throw organisation_id project_id = do
    project ← reads (λ w. p.find_one (is_project_of organisation_id project_id) w.db.projects)
    or_throw project (not_found (project_not_found project_id))

  abbrev pub with_project_users : World p → Db → World p
  with_project_users w db = record w { db = db }

  abbrev pub add_member : String → String → World p → World p
  add_member project_id user_id w =
      with_project_users w
        (record (w.db) { project_users = p.insert (project_id, user_id) w.db.project_users })

  abbrev pub remove_member : String → String → World p → World p
  remove_member project_id user_id w =
      with_project_users w (record (w.db) {
        project_users = p.remove (is_row p project_id user_id) w.db.project_users;
      })

  abbrev pub role_to_assign : String → String → Option String → Exec (World p) Role
  role_to_assign organisation_id project_id none =
      get_default_project_role p organisation_id project_id
  role_to_assign organisation_id project_id (some role_id) = find_one_role p role_id

  -- The part of `inviteUser` for a user who does not belong to the project yet.
  unfoldable pub add_user :
      String → String → String → Option String → Option String → String → Exec (World p) String
  add_user organisation_id project_id email role_id invited_by_id user_id = do
    modify (add_member project_id user_id)
    role ← role_to_assign organisation_id project_id role_id
    assign_role p user_id role.id false
    record_audit p (
        member_event "project_member.added" invited_by_id organisation_id project_id
          (some not_member_state) (some (new_member_state user_id email role.id role.name)))
    pure "User invited successfully"

  abbrev pub drop_user : String → String → String → Option String → String → Exec (World p) String
  drop_user organisation_id project_id email actor_id user_id = do
    modify (remove_member project_id user_id)
    record_audit p (
        member_event "project_member.removed" actor_id organisation_id project_id
          (some (member_state user_id email)) none)
    pure "User removed successfully"

  -- The part of `removeUser` for a user that there is.
  abbrev pub remove_found_user :
      String → String → String → Option String → Project → Option String → Exec (World p) String
  remove_found_user organisation_id project_id email actor_id project none = pure "User not found"
  remove_found_user organisation_id project_id email actor_id project (some user_id) = do
    throw_if (same_id project.created_by_id (some user_id))
        (forbidden cannot_remove_project_creator)
    in_project ← is_project_member p project_id user_id
    if in_project
        then drop_user organisation_id project_id email actor_id user_id
        else pure "User is not a member of this project"

module _ (p : Platform) (user_id_by_email : String → Option String) where
  unfoldable pub invite_user :
      String → String → String → Option String → Option String → Exec (World p) String
  unfolding get_project_or_throw is_member is_project_member add_user
  invite_user organisation_id project_id email role_id invited_by_id = do
    _ ← get_project_or_throw p organisation_id project_id
    user_id ← or_throw (user_id_by_email email) (not_found (user_not_found_by_email email))
    in_organisation ← is_member p organisation_id user_id
    throw_if (not in_organisation) (unauthorized user_not_in_organisation)
    in_project ← is_project_member p project_id user_id
    if in_project
        then pure "User is already a member of this project"
        else add_user p organisation_id project_id email role_id invited_by_id user_id

  unfoldable pub remove_user : String → String → String → Option String → Exec (World p) String
  unfolding get_project_or_throw is_project_member
  remove_user organisation_id project_id email actor_id = do
    project ← get_project_or_throw p organisation_id project_id
    remove_found_user p organisation_id project_id email actor_id project (user_id_by_email email)
