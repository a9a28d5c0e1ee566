-- ===== src/Rbac/InstanceOwner/Removal.antt =====
-- Removing an owner when another one is there.
use arcane_backend.Common.{
  String, none, some, Bool, true, false, ◌&&◌, ◌==◌, List, [], ◌∷◌, ◌≡◌, refl, sym, ap, ◌↔◌, ◌≢◌,
  ◌∙◌, Memᴰ, ok, arith,
}
use mathlib.Core.List.Memᴰ
use arcane_backend.Platform.{Platform, Db, World}
use arcane_backend.Platform.Laws.{IsLawful}
use arcane_backend.Platform.Audit.{record_audit_lem}
use arcane_backend.Rbac.Permissions.{all_access}
use arcane_backend.Rbac.Role.{Role, UserRole}
use arcane_backend.Rbac.Current.{CacheIsCurrent}
use arcane_backend.Rbac.DefaultRole.{find_role, owner_where}
use arcane_backend.Rbac.Assignment.{get_user_ids_for_role}
use arcane_backend.Rbac.Assignment.Laws.{assignment, with_user_roles, mem-holders, remove_role_lem}
use arcane_backend.Rbac.Authorize.Laws.{grants, Answers-has_permission_for_user}
use arcane_backend.Rbac.InstanceOwner.{
  is_only, is_single, list_owners, remove_owner_role, owner_event, owner_state,
}

-- Of two different users in a list neither is the only one.
is_only_of_two :
    (user other : String) (owners : List String)
    → Memᴰ user owners
    → Memᴰ other owners
    → other ≢ user
    → (is_only user owners ≡ false) × (is_single owners ≡ false)
is_only_of_two user other [] m k h = elim m [ ]
is_only_of_two user other (a ∷ []) m k h =
    absurd (h (Memᴰ.eq_of_singleton k ∙ sym (Memᴰ.eq_of_singleton m)))
is_only_of_two user other (a ∷ b ∷ rest) m k h = (refl, refl)

and_false : (b : Bool) {c : Bool} → c ≡ false → (b && c) ≡ false
and_false b h = ground arith

module _ (p : Platform) (laws : IsLawful p) (user requester : String) (w : World p)
    (current : CacheIsCurrent p w) where
  -- From a current cache, where the requester has "*", and the user and somebody else have the owner
  -- role, removing the user as an owner returns; the user's assignment is gone then, and every other
  -- one is as it was.
  pub remove_owner_role_lem :
      (role : Role) (other : String)
      → grants p w.db requester all_access none none ≡ true
      → find_role p owner_where w.db ≡ some role
      → Memᴰ (assignment user role.id) w.db.user_roles
      → Memᴰ (assignment other role.id) w.db.user_roles
      → other ≢ user
      → (t : World p) × (remove_owner_role p user requester w ≡ (ok tt, t))
        × (t.db.roles ≡ w.db.roles)
        × ((x : UserRole)
            → Memᴰ x t.db.user_roles ↔ (Memᴰ x w.db.user_roles × (x ≢ assignment user role.id)))
  unfolding remove_owner_role list_owners find_role get_user_ids_for_role
  remove_owner_role_lem role other allowed found m k h =
      let (cache, e, _) =
        (Answers-has_permission_for_user p laws requester all_access none none).at w current in
      let (several, two) =
        is_only_of_two user other _ ((mem-holders p laws role.id w.db user).0 m)
          ((mem-holders p laws role.id w.db other).0 k) h in
      let both = and_false (user == requester) two in
      let (rows, cache', removed, members, _) =
        remove_role_lem p laws user role.id false (record w { cache = cache }) in
      let (t, recorded, same, _) =
        record_audit_lem p
          (owner_event "instance_owner.removed" requester user (some (owner_state user role)) none)
          (with_user_roles p w rows cache') in
      (
        t,
        simp (e, allowed, found, several, both, removed) recorded,
        ap (λ (d : Db). d.roles) same,
        rw same members,
      )
