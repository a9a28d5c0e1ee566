-- ===== src/Rbac/Role/Scope.antt =====
-- rbac/utils/role-scope.util.ts: the scope of a role against the three tests of it.
use arcane_backend.Common.{arith, true, false, ◌≡◌, ◌↔◌, is_null}
use arcane_backend.Rbac.Role.{
  Role, instance_scope, organisation_scope, project_scope, get_role_scope, is_instance_scope,
  is_organisation_scope, is_project_scope,
}

-- `getRoleScope` answers "instance" and "organisation" exactly where the tests for these scopes hold,
-- and the test for projects holds exactly where it answers "project" and the role has an organisation.
pub get_role_scope_iff :
    (role : Role)
    → ((get_role_scope role ≡ instance_scope) ↔ (is_instance_scope role ≡ true))
      × ((get_role_scope role ≡ organisation_scope) ↔ (is_organisation_scope role ≡ true))
      × ((is_project_scope role ≡ true)
          ↔ ((get_role_scope role ≡ project_scope) × (is_null role.organisation_id ≡ false)))
unfolding get_role_scope is_instance_scope is_organisation_scope is_project_scope
get_role_scope_iff role = ground arith
