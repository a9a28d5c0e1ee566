-- ===== src/Rbac/DefaultRole.antt =====
-- rbac/services/default-role.service.ts: the system roles that new members get, through the cache.
use arcane_backend.Common.{String, Option, some, true, Exec, reads, or_throw, ◌>>=◌}
pub mod Laws
use mathlib.Core.Option
use arcane_backend.Exception.{
  not_found, default_member_role_not_found, default_organisation_member_role_not_found,
}
use arcane_backend.Platform.{
  Platform, Db, World, RoleWhere, any_role, equals, null, matches_role, default_project_role_key,
  default_organisation_role_key, owner_role_key,
}
use arcane_backend.Rbac.Role.{Role}
use arcane_backend.Rbac.Retrieval.{cached}

abbrev pub project_member_where : String → String → RoleWhere
project_member_where organisation_id project_id = record any_role {
  name = equals "Member";
  is_system_role = some true;
  organisation_id = equals organisation_id;
  project_id = equals project_id;
}

abbrev pub organisation_member_where : String → RoleWhere
organisation_member_where organisation_id = record any_role {
  name = equals "Organisation Member";
  is_system_role = some true;
  organisation_id = equals organisation_id;
  project_id = null;
}

abbrev pub owner_where : RoleWhere
owner_where = record any_role {
  name = equals "Owner";
  is_system_role = some true;
  is_instance_level = some true;
  organisation_id = null;
  project_id = null;
}

module _ (p : Platform) where
  -- `roleRepository.findOne({ where })`
  unfoldable pub find_role : RoleWhere → Db → Option Role
  find_role condition db = p.find_one (matches_role p condition) db.roles

  unfoldable pub get_default_project_role : String → String → Exec (World p) Role
  unfolding cached find_role
  get_default_project_role organisation_id project_id =
      cached p (default_project_role_key organisation_id project_id) do
        role ← reads (λ w. find_role (project_member_where organisation_id project_id) w.db)
        or_throw role (not_found (default_member_role_not_found project_id))

  unfoldable pub get_default_organisation_role : String → Exec (World p) Role
  unfolding cached find_role
  get_default_organisation_role organisation_id =
      cached p (default_organisation_role_key organisation_id) do
        role ← reads (λ w. find_role (organisation_member_where organisation_id) w.db)
        or_throw role (not_found (default_organisation_member_role_not_found organisation_id))

  unfoldable pub get_owner_role_id : Exec (World p) (Option String)
  unfolding cached find_role
  get_owner_role_id =
      cached p owner_role_key
        (reads (λ w. Option.map (λ (role : Role). role.id) (find_role owner_where w.db)))
