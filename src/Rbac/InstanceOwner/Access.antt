-- ===== src/Rbac/InstanceOwner/Access.antt =====
-- Who may make and remove owners.
use arcane_backend.Common.{String, none, some, true, false, ◌≡◌, refl, ap, ◌⊎◌, ◌↔◌, Memᴰ, ok, err}
use arcane_backend.Exception.{
  forbidden, only_owners_can_assign_owner_role, only_owners_can_remove_owner_role,
}
use arcane_backend.Platform.{Platform, Db, World}
use arcane_backend.Platform.Laws.{IsLawful}
use arcane_backend.Platform.Audit.{record_audit_lem}
use arcane_backend.Rbac.Permissions.{all_access}
use arcane_backend.Rbac.Role.{Role, UserRole}
use arcane_backend.Rbac.Current.{CacheIsCurrent}
use arcane_backend.Rbac.DefaultRole.{find_role, owner_where}
use arcane_backend.Rbac.Assignment.Laws.{assignment, with_user_roles, assign_role_lem}
use arcane_backend.Rbac.Authorize.Laws.{grants, Answers-has_permission_for_user}
use arcane_backend.Rbac.InstanceOwner.{
  assign_owner_role, remove_owner_role, owner_event, owner_state,
}

module _ (p : Platform) (laws : IsLawful p) (user requester : String) (w : World p)
    (current : CacheIsCurrent p w) where
  -- From a current cache, a requester whose roles do not give "*" is refused both making and
  -- removing an owner, and the tables stay as they were.
  pub owner_changes_refused :
      grants p w.db requester all_access none none ≡ false
      → ((assign_owner_role p user requester w).0
          ≡ err (forbidden only_owners_can_assign_owner_role))
        × ((assign_owner_role p user requester w).1.db ≡ w.db)
        × ((remove_owner_role p user requester w).0
            ≡ err (forbidden only_owners_can_remove_owner_role))
        × ((remove_owner_role p user requester w).1.db ≡ w.db)
  unfolding assign_owner_role remove_owner_role
  owner_changes_refused refused =
      let (cache, e, _) =
        (Answers-has_permission_for_user p laws requester all_access none none).at w current in
      (
        simp (e, refused) refl,
        simp (e, refused) refl,
        simp (e, refused) refl,
        simp (e, refused) refl,
      )

  -- From a current cache, where the requester has "*" and the owner role is in the table, making an
  -- owner returns; the user then has the owner role, and every other assignment is as it was.
  pub assign_owner_role_lem :
      (role : Role)
      → grants p w.db requester all_access none none ≡ true
      → find_role p owner_where w.db ≡ some role
      → (t : World p) × (assign_owner_role p user requester w ≡ (ok tt, t))
        × (t.db.roles ≡ w.db.roles)
        × ((x : UserRole)
            → Memᴰ x t.db.user_roles ↔ ((x ≡ assignment user role.id) ⊎ Memᴰ x w.db.user_roles))
  unfolding assign_owner_role find_role
  assign_owner_role_lem role allowed found =
      let (cache, e, _) =
        (Answers-has_permission_for_user p laws requester all_access none none).at w current in
      let (rows, cache', assigned, members, _) =
        assign_role_lem p laws user role false (record w { cache = cache })
          (laws.find_one_some _ w.db.roles role found).0 in
      let (t, recorded, same, _) =
        record_audit_lem p
          (owner_event "instance_owner.assigned" requester user none (some (owner_state user role)))
          (with_user_roles p w rows cache') in
      (
        t,
        simp (e, allowed, found, assigned) recorded,
        ap (λ (d : Db). d.roles) same,
        rw same members,
      )
