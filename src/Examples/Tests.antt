-- ===== src/Examples/Tests.antt =====
-- Runs of the program on the small tables.
use arcane_backend.Common.{
  some, none, true, [], ◌∷◌, ◌≡◌, refl, ok, err, includes, add, add_all, filter_by, find_first,
}
use arcane_backend.Exception.{
  forbidden, bad_request, cannot_remove_last_owner, cannot_delete_system_roles,
}
use arcane_backend.Platform.{matches_role, record_audit}
use arcane_backend.Rbac.Role.{is_instance_scope, is_organisation_scope, is_project_scope}
use arcane_backend.Rbac.Grants.{has_permission, aggregate_permissions}
use arcane_backend.Rbac.Retrieval.{
  roles_of_user, cached, get_user_roles, get_user_instance_role, get_user_organisation_role,
  get_user_project_role,
}
use arcane_backend.Rbac.Membership.{is_member, is_project_member}
use arcane_backend.Rbac.Authorize.{has_permission_for_user, check_permission, get_checked_roles}
use arcane_backend.Rbac.Guards.{
  project_can_activate, validate_org_membership, check_permission_with_creator_fallback,
  is_project_creator_fallback,
}
use arcane_backend.Rbac.Assignment.{remove_role, assign_role, get_user_ids_for_role}
use arcane_backend.Rbac.InstanceOwner.{remove_owner_role}
use arcane_backend.Rbac.Roles.{delete, delete_role_with_user_reassignment}
use arcane_backend.Examples.InMemory.{platform, without}
use arcane_backend.Examples.Tables.{world, metadata, request, assigned}

guard_test : (project_can_activate platform metadata request world).0 ≡ ok true
unfolding project_can_activate validate_org_membership is_member filter_by is_project_member
    check_permission_with_creator_fallback check_permission has_permission_for_user get_user_roles
    has_permission includes aggregate_permissions roles_of_user is_instance_scope find_first
    is_organisation_scope is_project_scope add_all add get_checked_roles is_project_creator_fallback
    cached get_user_instance_role get_user_organisation_role get_user_project_role
guard_test = refl

last_owner_test :
    (remove_owner_role platform "bob" "bob" (remove_owner_role platform "ann" "bob" world).1).0
    ≡ err (bad_request cannot_remove_last_owner)
unfolding remove_owner_role has_permission_for_user get_user_roles has_permission includes
    aggregate_permissions roles_of_user filter_by is_instance_scope find_first matches_role
    remove_role record_audit without
last_owner_test = refl

system_role_test :
    (delete platform "o" "r2" "ann" none world).0 ≡ err (forbidden cannot_delete_system_roles)
unfolding delete find_first matches_role
system_role_test = refl

reassigned_test :
    (delete platform "o" "r3" "ann" (some "q") world).1.db.user_roles
    ≡ (assigned "eve" "r2" ∷ assigned "ann" "r1" ∷ assigned "bob" "r1" ∷ [])
unfolding delete find_first matches_role filter_by without delete_role_with_user_reassignment
    get_user_ids_for_role remove_role assign_role record_audit
reassigned_test = refl
