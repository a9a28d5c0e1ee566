-- ===== src/Examples/Witnesses.antt =====
-- The theorems on the small tables.
use arcane_backend.Common.{
  String, none, some, true, false, List, [], ◌∷◌, ◌≡◌, refl, ◌⊎◌, ◌↔◌, ◌≢◌, Memᴰ, ok, err, truthy,
  or_empty,
}
use arcane_backend.Exception.{
  forbidden, only_owners_can_assign_owner_role, only_owners_can_remove_owner_role,
}
use arcane_backend.Platform.{World}
use arcane_backend.Rbac.Permissions.{all_access}
use arcane_backend.Rbac.Role.{Role, UserRole}
use arcane_backend.Rbac.Grants.{has_permission}
use arcane_backend.Rbac.Grants.Laws.{has_permission_iff}
use arcane_backend.Rbac.DefaultRole.{find_role, project_member_where}
use arcane_backend.Rbac.Authorize.{has_permission_for_user}
use arcane_backend.Rbac.Authorize.Laws.{grants}
use arcane_backend.Rbac.Guards.{
  project_can_activate, organisation_can_activate, instance_can_activate, required_permission,
}
use arcane_backend.Rbac.Guards.Outcomes.{
  IsAdmitted, IsOrganisationAdmitted, project_can_activate_iff, organisation_can_activate_iff,
  instance_can_activate_iff,
}
use arcane_backend.Rbac.Assignment.{remove_role}
use arcane_backend.Rbac.Assignment.Laws.{assignment}
use arcane_backend.Rbac.Staleness.{has_permission_for_user-remove_role}
use arcane_backend.Rbac.Roles.{CreateRoleRequest, UpdateRoleRequest}
use arcane_backend.Rbac.Roles.Outcomes.{DeletionEnds, delete_lem}
use arcane_backend.Rbac.Roles.Changes.{UpdateEnds, update_lem}
use arcane_backend.Rbac.Roles.Creation.{CreationEnds, create_lem}
use arcane_backend.Rbac.Roles.History.{
  RoleRequest, creating, updating, deleting, perform_all, perform_all-IsSafeStep,
  perform_all-IsRoleTable,
}
use arcane_backend.Rbac.Roles.Soundness.{IsRoleTable, IsSafeStep}
use arcane_backend.Rbac.InstanceOwner.{assign_owner_role, remove_owner_role}
use arcane_backend.Rbac.InstanceOwner.Laws.{IsOwner, remove_owner_role-IsOwner}
use arcane_backend.Rbac.InstanceOwner.Access.{owner_changes_refused}
use arcane_backend.Rbac.InstanceOwner.Removal.{remove_owner_role_lem}
use arcane_backend.Rbac.Seed.{member_permissions, seed_project_roles}
use arcane_backend.Rbac.Seed.Laws.{seed_project_roles-find_role}
use arcane_backend.Organisations.{assign_organisation_role}
use arcane_backend.Organisations.Laws.{IsOldAssignment, assign_organisation_role_lem}
use arcane_backend.Examples.InMemory.{platform}
use arcane_backend.Examples.Lawful.{lawful}
use arcane_backend.Examples.Tables.{
  owner, member, custom, tables, world, cached_world, metadata, request,
}
use arcane_backend.Examples.SlotLaws.{get-del_other}
use arcane_backend.Examples.Facts.{
  tables-Distinct, tables-IsConsistent, tables-IsRoleTable, world-CacheIsCurrent,
  cached_world-CacheIsCurrent, owner_found, bob-IsOwner, eve_refused, bob_allowed, bob_ne_ann,
  empty_project,
}

abbrev creation : CreateRoleRequest
creation = record { name = "Reader"; description = none; permissions = "traces:read" ∷ [] }

abbrev change : UpdateRoleRequest
change = record {
  name = some "Inspector";
  description = none;
  permissions = none;
  id = none;
  organisation_id = none;
  project_id = none;
  is_system_role = none;
  is_instance_level = none;
}

-- A body that names more than it should.
abbrev promotion : UpdateRoleRequest
promotion = record change { is_instance_level = some true; organisation_id = some none }

abbrev requests : List RoleRequest
requests =
    creating "o" creation "ann" none
    ∷ updating "o" "r3" change "ann" none
    ∷ deleting "o" "r3" "ann" (some "q")
    ∷ []

perform_all-IsSafeStep_example : IsSafeStep tables (perform_all platform requests world).db
perform_all-IsSafeStep_example =
    perform_all-IsSafeStep platform lawful requests world (tt, ((refl, refl), (tt, tt)))
      tables-IsRoleTable

perform_all-IsRoleTable_example :
    IsRoleTable (perform_all platform (updating "o" "r3" promotion "ann" none ∷ requests) world).db
perform_all-IsRoleTable_example =
    perform_all-IsRoleTable platform lawful (updating "o" "r3" promotion "ann" none ∷ requests)
      world tables-IsRoleTable

project_can_activate_iff_example :
    ((project_can_activate platform metadata request cached_world).0 ≡ ok true) ↔ (
      (user : String) × (request.user ≡ some user)
      × IsAdmitted platform metadata request tables user)
project_can_activate_iff_example =
    project_can_activate_iff platform lawful metadata request cached_world
      cached_world-CacheIsCurrent

organisation_can_activate_iff_example :
    ((organisation_can_activate platform metadata request cached_world).0 ≡ ok true) ↔ (
      (user : String) × (request.user ≡ some user)
      × IsOrganisationAdmitted platform metadata request tables user)
organisation_can_activate_iff_example =
    organisation_can_activate_iff platform lawful metadata request cached_world
      cached_world-CacheIsCurrent

instance_can_activate_iff_example :
    ((instance_can_activate platform metadata request cached_world).0 ≡ ok true) ↔ (
      (user : String) × (request.user ≡ some user)
      × ((truthy (required_permission metadata) ≡ false)
          ⊎ (grants platform tables user (or_empty (required_permission metadata)) none none
              ≡ true)))
instance_can_activate_iff_example =
    instance_can_activate_iff platform lawful metadata request cached_world
      cached_world-CacheIsCurrent

remove_owner_role-IsOwner_example :
    (y : String) × IsOwner platform (remove_owner_role platform "ann" "bob" world).1.db y
remove_owner_role-IsOwner_example =
    remove_owner_role-IsOwner platform lawful "ann" "bob" world tables-Distinct "bob" bob-IsOwner

has_permission_iff_example : (has_permission (member ∷ custom ∷ []) "traces:read" ≡ true) ↔ (
    (role : Role) × Memᴰ role (member ∷ custom ∷ [])
    × (Memᴰ all_access role.permissions ⊎ Memᴰ "traces:read" role.permissions))
has_permission_iff_example = has_permission_iff (member ∷ custom ∷ []) "traces:read"

delete_lem_example : DeletionEnds platform "o" "r3" "ann" (some "q") world
delete_lem_example = delete_lem platform lawful "o" "r3" "ann" (some "q") world tables-IsConsistent

update_lem_example : UpdateEnds platform "o" "r3" "ann" change none world
update_lem_example = update_lem platform lawful "o" "r3" "ann" change none world

create_lem_example : CreationEnds platform "o" "ann" creation none world
create_lem_example = create_lem platform lawful "o" "ann" creation none world

owner_changes_refused_example :
    ((assign_owner_role platform "ann" "eve" world).0
      ≡ err (forbidden only_owners_can_assign_owner_role))
    × ((assign_owner_role platform "ann" "eve" world).1.db ≡ tables)
    × ((remove_owner_role platform "ann" "eve" world).0
        ≡ err (forbidden only_owners_can_remove_owner_role))
    × ((remove_owner_role platform "ann" "eve" world).1.db ≡ tables)
owner_changes_refused_example =
    owner_changes_refused platform lawful "ann" "eve" world world-CacheIsCurrent eve_refused

remove_owner_role_lem_example :
    (t : World platform) × (remove_owner_role platform "ann" "bob" world ≡ (ok tt, t))
    × (t.db.roles ≡ tables.roles)
    × ((x : UserRole)
        → Memᴰ x t.db.user_roles ↔ (Memᴰ x tables.user_roles × (x ≢ assignment "ann" "r1")))
remove_owner_role_lem_example =
    remove_owner_role_lem platform lawful "ann" "bob" world world-CacheIsCurrent owner "bob"
      bob_allowed owner_found (Memᴰ.head refl) (Memᴰ.tail (Memᴰ.head refl)) bob_ne_ann

has_permission_for_user-remove_role_example :
    (has_permission_for_user platform "eve" "traces:read"
      (some "o")
      (some "q")
      (remove_role platform "eve" "r3" false cached_world).1).0
    ≡ ok (has_permission (custom ∷ []) "traces:read")
has_permission_for_user-remove_role_example =
    has_permission_for_user-remove_role platform "eve" "r3" "traces:read" (some "o") (some "q")
      cached_world (custom ∷ []) refl (get-del_other cached_world.cache) refl

seed_project_roles-find_role_example :
    (d : Role) × (find_role platform
        (project_member_where "o" "z")
        (seed_project_roles platform "o" "z" world).1.db
      ≡ some d)
    × (d.permissions ≡ member_permissions)
seed_project_roles-find_role_example =
    seed_project_roles-find_role platform lawful "o" "z" world empty_project

abbrev with_permissions : List String → Role
with_permissions permissions = record member { permissions = permissions }

assign_organisation_role_lem_example :
    (t : World platform) × (assign_organisation_role platform "o" "eve" "r2" false world
      ≡ (ok tt, t))
    × (t.db.roles ≡ tables.roles)
    × ((x : UserRole)
        → Memᴰ x t.db.user_roles ↔ (
            (x ≡ assignment "eve" "r2")
            ⊎ (Memᴰ x tables.user_roles
                × (¬ IsOldAssignment platform lawful "o" "eve" member false world x))))
assign_organisation_role_lem_example =
    assign_organisation_role_lem platform lawful "o" "eve" member false world world-CacheIsCurrent
      (Memᴰ.tail (Memᴰ.head refl))
