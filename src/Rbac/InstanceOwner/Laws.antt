-- ===== src/Rbac/InstanceOwner/Laws.antt =====
-- The owners of the instance that remain after a removal.
use mathlib.Core.List.Memᴰ
use arcane_backend.Common.{
  String, none, some, Bool, false, ◌&&◌, ◌==◌, List, [], ◌∷◌, map, ◌≡◌, refl, sym, ap, inl, inr,
  ◌≢◌, ◌∙◌, Memᴰ, Result, ok, err, eq_iff, Bool-cases,
}
use arcane_backend.Exception.{
  Exception, forbidden, bad_request, only_owners_can_remove_owner_role, cannot_remove_last_owner,
  cannot_remove_yourself_if_last_owner,
}
use arcane_backend.Platform.{Platform, Db, World}
use arcane_backend.Platform.Laws.{IsLawful, Distinct}
use arcane_backend.Platform.Audit.{record_audit_lem}
use arcane_backend.Rbac.Permissions.{all_access}
use arcane_backend.Rbac.Role.{Role, UserRole}
use arcane_backend.Rbac.Reads.{Reads-has_permission_for_user}
use arcane_backend.Rbac.DefaultRole.{find_role, owner_where}
use arcane_backend.Rbac.Assignment.Laws.{assignment, with_user_roles, remove_role_lem}
use arcane_backend.Rbac.InstanceOwner.{
  is_only, is_single, remove_owner_role, owner_event, owner_state,
}

module _ (p : Platform) where
  pub record IsOwner (db : Db) (user_id : String) : Type 0 where
    pub role : Role
    pub found : find_role p owner_where db ≡ some role
    pub assigned : Memᴰ (assignment user_id role.id) db.user_roles

  -- The owners as `listOwners` reads them.
  abbrev owner_ids : Role → Db → List String
  owner_ids role db = map (λ x. x.user_id) (p.find (λ x. x.role_id == role.id) db.user_roles)

module _ (p : Platform) (laws : IsLawful p) where
  -- Of distinct assignments of one role, those of a user who is not the only one leave another user.
  another :
      (user role_id : String) (rows : List UserRole)
      → Distinct rows
      → ((x : UserRole) → Memᴰ x rows → x.role_id ≡ role_id)
      → is_only user (map (λ x. x.user_id) rows) ≡ false
      → (x : UserRole) → Memᴰ x rows
      → (y : UserRole) × Memᴰ y rows × (y.user_id ≢ user)
  another user role_id [] d same h x m = elim m [ ]
  another user role_id (a ∷ []) d same h x m =
      (a, Memᴰ.head refl, λ e. let t = (eq_iff a.user_id user).1 e in cc)
  another user role_id (a ∷ b ∷ rows) d same h x m = elim (Bool-cases (a.user_id == user)) [
    | inr other ↦ (a, Memᴰ.head refl, λ e. let t = (eq_iff a.user_id user).1 e in cc)
    | inl first ↦ (
      b,
      Memᴰ.tail (Memᴰ.head refl),
      λ e. d.0 (
          Memᴰ.head (
            equal ((eq_iff a.user_id user).0 first ∙ sym e)
              (same a (Memᴰ.head refl) ∙ sym (same b (Memᴰ.tail (Memᴰ.head refl)))))),
    )
  ]
    where
      equal : a.user_id ≡ b.user_id → a.role_id ≡ b.role_id → a ≡ b
      equal e f = λ i. record { user_id = e i; role_id = f i }

  -- The owners that remain when a user who is not the only one gives the role up.
  remaining :
      (user : String) (role : Role) (db : Db)
      → Distinct db.user_roles
      → is_only user (owner_ids p role db) ≡ false
      → (x : String) → Memᴰ (assignment x role.id) db.user_roles
      → (y : String) × Memᴰ (assignment y role.id) db.user_roles × (y ≢ user)
  remaining user role db d h x m =
      let (z, k, other) =
        another user role.id rows (laws.find_Distinct test db.user_roles d) owned h
          (assignment x role.id)
          ((laws.mem_find test db.user_roles (assignment x role.id)).1
            (m, (eq_iff role.id role.id).1 refl)) in
      (
        z.user_id,
        Memᴰ.cast (named z (owned z k)) ((laws.mem_find test db.user_roles z).0 k).0,
        other,
      )
    where
      test : UserRole → Bool
      test y = y.role_id == role.id

      rows : List UserRole
      rows = p.find test db.user_roles

      owned : (y : UserRole) → Memᴰ y rows → y.role_id ≡ role.id
      owned y k = (eq_iff y.role_id role.id).0 ((laws.mem_find test db.user_roles y).0 k).1

      named : (y : UserRole) → y.role_id ≡ role.id → assignment y.user_id role.id ≡ y
      named y e = λ i. record { user_id = y.user_id; role_id = sym e i }

  module _ (user requester : String) (w : World p) (d : Distinct w.db.user_roles) (x : String)
      (h : IsOwner p w.db x) where
    Ending : Type 0
    Ending =
        (r : Result (Unit {0})) × (t : World p) × (remove_owner_role p user requester w ≡ (r, t))
        × ((y : String) × IsOwner p t.db y)

    stop :
        (e : Exception) (cache : p.Cache)
        → remove_owner_role p user requester w ≡ (err e, record w { cache = cache })
        → Ending
    unfolding Ending
    stop e cache run = (
      err e,
      record w { cache = cache },
      run,
      (x, record { role = h.role; found = h.found; assigned = h.assigned }),
    )

    remove_owner_role_ending : Ending
    unfolding Ending remove_owner_role
    remove_owner_role_ending =
        let (granted, cache, e) =
          (Reads-has_permission_for_user p requester all_access none none).at w in
        elim (Bool-cases granted) [
          | inr refused ↦
              stop (forbidden only_owners_can_remove_owner_role) cache (simp (e, refused) refl)
          | inl allowed ↦ elim (Bool-cases (is_only user (owner_ids p h.role w.db))) [
            | inl last ↦
                stop (bad_request cannot_remove_last_owner) cache
                  (simp (e, allowed, h.found, last) refl)
            | inr others ↦
                elim (Bool-cases (user == requester && is_single (owner_ids p h.role w.db))) [
                  | inl self ↦
                      stop (bad_request cannot_remove_yourself_if_last_owner) cache
                        (simp (e, allowed, h.found, others, self) refl)
                  | inr fine ↦
                      let (rows, cache', removed, members, _) =
                        remove_role_lem p laws user h.role.id false (record w { cache = cache }) in
                      let (t, recorded, same, _) =
                        record_audit_lem p
                          (owner_event "instance_owner.removed" requester user
                            (some (owner_state user h.role)) none)
                          (with_user_roles p w rows cache') in
                      let (y, m, other) = remaining user h.role w.db d others x h.assigned in
                      (
                        ok tt,
                        t,
                        simp (e, allowed, h.found, others, fine, removed) recorded,
                        (
                          y,
                          rw same (record {
                            role = h.role;
                            found = h.found;
                            assigned =
                                (members (assignment y h.role.id)).1
                                  (m, λ q. other (ap (λ (z : UserRole). z.user_id) q));
                          }),
                        ),
                      )
                ]
          ]
        ]

    -- While assignments come once and somebody is an owner, somebody is an owner after any request to
    -- remove one, whoever asks and whatever the cache says of the asker.
    pub remove_owner_role-IsOwner :
        (y : String) × IsOwner p (remove_owner_role p user requester w).1.db y
    unfolding Ending
    remove_owner_role-IsOwner = let (r, t, e, owner) = remove_owner_role_ending in rw e owner
