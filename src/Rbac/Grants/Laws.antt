-- ===== src/Rbac/Grants/Laws.antt =====
-- What a list of roles permits: the union of the roles' permissions, where "*" stands for all.
use arcane_backend.Common.{
  String, true, List, [], ◌∷◌, ◌≡◌, refl, ◌⊎◌, ◌↔◌, inl, inr, Memᴰ, eq_iff, if◌then◌else◌, includes,
  includes_iff, add_all, mem-add_all, Bool-cases, sym,
}
use mathlib.Core.List.Memᴰ
use arcane_backend.Rbac.Permissions.{all_access}
use arcane_backend.Rbac.Role.{Role}
use arcane_backend.Rbac.Grants.{is_wildcard, aggregate_from, aggregate_permissions, has_permission}

-- Some role of the list names the permission.
abbrev pub IsNamed : List Role → String → Type 0
IsNamed roles permission = (role : Role) × Memᴰ role roles × Memᴰ permission role.permissions

IsNamed-tail :
    {role : Role} {roles : List Role} {x : String} → IsNamed roles x → IsNamed (role ∷ roles) x
IsNamed-tail (r, m, h) = (r, Memᴰ.tail m, h)

is_wildcard-mem :
    (permissions : List String) → is_wildcard permissions ≡ true → Memᴰ all_access permissions
is_wildcard-mem [] h = absurd (cc)
is_wildcard-mem (p ∷ []) h = Memᴰ.head (sym ((eq_iff p all_access).0 h))
is_wildcard-mem (p ∷ q ∷ r) h = absurd (cc)

mem-aggregate_from_sound :
    (set : List String) (roles : List Role) (x : String)
    → Memᴰ x (aggregate_from set roles)
    → Memᴰ x set ⊎ IsNamed roles x
unfolding aggregate_from
mem-aggregate_from_sound set [] x m = inl m
mem-aggregate_from_sound set (role ∷ roles) x m = elim (Bool-cases (is_wildcard role.permissions)) [
  | inl wild ↦ inr (role, Memᴰ.head refl, wildcard wild (rw wild at m))
  | inr plain ↦
      step (mem-aggregate_from_sound (add_all set role.permissions) roles x (rw plain at m))
]
  where
    wildcard :
        is_wildcard role.permissions ≡ true → Memᴰ x (all_access ∷ []) → Memᴰ x role.permissions
    wildcard wild k = Memᴰ.cast (Memᴰ.eq_of_singleton k) (is_wildcard-mem role.permissions wild)

    here : Memᴰ x set ⊎ Memᴰ x role.permissions → Memᴰ x set ⊎ IsNamed (role ∷ roles) x
    here (inl h) = inl h
    here (inr h) = inr (role, Memᴰ.head refl, h)

    step :
        Memᴰ x (add_all set role.permissions) ⊎ IsNamed roles x
        → Memᴰ x set ⊎ IsNamed (role ∷ roles) x
    step (inl h) = here ((mem-add_all set role.permissions x).0 h)
    step (inr h) = inr (IsNamed-tail h)

mem-aggregate_from_complete :
    (set : List String) (roles : List Role) (x : String)
    → Memᴰ x set ⊎ IsNamed roles x
    → Memᴰ x (aggregate_from set roles) ⊎ Memᴰ all_access (aggregate_from set roles)
unfolding aggregate_from
mem-aggregate_from_complete set [] x (inl h) = inl h
mem-aggregate_from_complete set [] x (inr (r, m, h)) = elim m [ ]
mem-aggregate_from_complete set (role ∷ roles) x h =
    elim (Bool-cases (is_wildcard role.permissions)) [
      | inl wild ↦ rw wild (inr (Memᴰ.head refl))
      | inr plain ↦
          rw plain (mem-aggregate_from_complete (add_all set role.permissions) roles x (step h))
    ]
  where
    step :
        Memᴰ x set ⊎ IsNamed (role ∷ roles) x
        → Memᴰ x (add_all set role.permissions) ⊎ IsNamed roles x
    step (inl k) = inl ((mem-add_all set role.permissions x).1 (inl k))
    step (inr (r, Memᴰ.head e, k)) = inl ((mem-add_all set role.permissions x).1 (inr (rw e at k)))
    step (inr (r, Memᴰ.tail m, k)) = inr (r, m, k)

pub mem-aggregate_permissions_sound :
    (roles : List Role) (x : String) → Memᴰ x (aggregate_permissions roles) → IsNamed roles x
unfolding aggregate_permissions
mem-aggregate_permissions_sound roles x m = tell (mem-aggregate_from_sound [] roles x m)
  where
    tell : Memᴰ x [] ⊎ IsNamed roles x → IsNamed roles x
    tell (inl h) = elim h [ ]
    tell (inr h) = h

pub mem-aggregate_permissions_complete :
    (roles : List Role) (x : String)
    → IsNamed roles x
    → Memᴰ x (aggregate_permissions roles) ⊎ Memᴰ all_access (aggregate_permissions roles)
unfolding aggregate_permissions
mem-aggregate_permissions_complete roles x h = mem-aggregate_from_complete [] roles x (inr h)

-- The roles permit an action exactly when some role names its permission or "*".
pub has_permission_iff :
    (roles : List Role) (permission : String)
    → (has_permission roles permission ≡ true) ↔ (
        (role : Role) × Memᴰ role roles
        × (Memᴰ all_access role.permissions ⊎ Memᴰ permission role.permissions))
unfolding has_permission
has_permission_iff roles permission = (to, from)
  where
    agg : List String
    agg = aggregate_permissions roles

    named : (x : String) → includes agg x ≡ true → IsNamed roles x
    named x h = mem-aggregate_permissions_sound roles x ((includes_iff agg x).0 h)

    to :
        (if includes agg all_access then true else includes agg permission) ≡ true
        → (role : Role) × Memᴰ role roles
          × (Memᴰ all_access role.permissions ⊎ Memᴰ permission role.permissions)
    to h = elim (Bool-cases (includes agg all_access)) [
      | inl star ↦ let (r, m, k) = named all_access star in (r, m, inl k)
      | inr no_star ↦ let (r, m, k) = named permission (rw no_star at h) in (r, m, inr k)
    ]

    test :
        Memᴰ permission agg ⊎ Memᴰ all_access agg
        → (if includes agg all_access then true else includes agg permission) ≡ true
    test (inr star) = rw ((includes_iff agg all_access).1 star) refl
    test (inl m) = elim (Bool-cases (includes agg all_access)) [
      | inl star ↦ rw star refl
      | inr no_star ↦ rw no_star ((includes_iff agg permission).1 m)
    ]

    star_of : Memᴰ all_access agg ⊎ Memᴰ all_access agg → Memᴰ permission agg ⊎ Memᴰ all_access agg
    star_of (inl m) = inr m
    star_of (inr m) = inr m

    from :
        ((role : Role) × Memᴰ role roles
          × (Memᴰ all_access role.permissions ⊎ Memᴰ permission role.permissions))
        → (if includes agg all_access then true else includes agg permission) ≡ true
    from (r, m, inl k) =
        test (star_of (mem-aggregate_permissions_complete roles all_access (r, m, k)))
    from (r, m, inr k) = test (mem-aggregate_permissions_complete roles permission (r, m, k))
