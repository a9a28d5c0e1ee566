-- ===== src/Organisations/Members.antt =====
-- organisations/services/organisations.service.ts: adding a user that there is to an organisation.
pub mod Laws
use arcane_backend.Common.{
  String, Option, none, some, false, not, ◌||◌, Exec, pure, modify, throw_if, ◌>>=◌, ◌>>◌, same_id,
  truthy, if◌then◌else◌, or_empty,
}
use arcane_backend.Exception.{
  bad_request, role_does_not_belong_to_organisation, user_already_member,
}
use arcane_backend.Platform.{Platform, World}
use arcane_backend.Organisations.{assign_organisation_role}
use arcane_backend.Rbac.DefaultRole.{get_default_organisation_role}
use arcane_backend.Rbac.Membership.{is_member}
use arcane_backend.Rbac.Role.{Role}
use arcane_backend.Rbac.Roles.{find_one_role}

module _ (p : Platform) where
  abbrev pub insert_member : String → String → World p → World p
  insert_member organisation_id user_id w = record w {
    db = record (w.db) {
      organisation_users = p.insert (organisation_id, user_id) w.db.organisation_users;
    };
  }

  unfoldable pub get_organisation_role_or_throw : String → String → Exec (World p) Role
  unfolding find_one_role
  get_organisation_role_or_throw organisation_id role_id = do
    role ← find_one_role p role_id
    throw_if (not (same_id role.organisation_id (some organisation_id)) || truthy role.project_id)
        (bad_request role_does_not_belong_to_organisation)
    pure role

  -- `roleId ? … : …`
  abbrev pub role_to_give : String → Option String → Exec (World p) Role
  role_to_give organisation_id role_id =
      if truthy role_id
      then get_organisation_role_or_throw organisation_id (or_empty role_id)
      else get_default_organisation_role p organisation_id

  unfoldable pub add_existing_user_to_organisation :
      String → String → Option String → Exec (World p) (Unit {0})
  unfolding is_member get_organisation_role_or_throw
  add_existing_user_to_organisation organisation_id user_id role_id = do
    is_already_member ← is_member p organisation_id user_id
    throw_if is_already_member (bad_request (user_already_member "organisation"))
    modify (insert_member organisation_id user_id)
    role ← role_to_give organisation_id role_id
    assign_organisation_role p organisation_id user_id role.id false

  unfoldable pub add_user_by_id : String → String → Option String → Exec (World p) (Unit {0})
  unfolding add_existing_user_to_organisation
  add_user_by_id organisation_id user_id role_id =
      add_existing_user_to_organisation organisation_id user_id role_id
