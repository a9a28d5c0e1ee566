-- ===== src/Rbac/Validator/Laws.antt =====
-- rbac/validators/role.validator.ts: the validator against the list of known permissions.
use arcane_backend.Common.{
  String, List, [], ◌∷◌, ◌≡◌, refl, ◌⊎◌, inl, inr, Memᴰ, ok, err, includes, includes_iff,
  Bool-cases,
}
use arcane_backend.Exception.{bad_request, invalid_permission}
use arcane_backend.Platform.{Platform, World}
use arcane_backend.Rbac.Permissions.{all_permissions}
use arcane_backend.Rbac.Validator.{validate_permissions}

abbrev pub AreKnown : List String → Type 0
AreKnown permissions = (x : String) → Memᴰ x permissions → Memᴰ x all_permissions

-- Either all permissions are known, and nothing happens, or one is not, and an exception names it.
pub validate_permissions_lem :
    (p : Platform) (permissions : List String) (w : World p)
    → ((validate_permissions p permissions w ≡ (ok tt, w)) × AreKnown permissions)
      ⊎ ((x : String) × Memᴰ x permissions
          × (¬ Memᴰ x all_permissions)
          × (validate_permissions p permissions w ≡ (err (bad_request (invalid_permission x)), w)))
unfolding validate_permissions
validate_permissions_lem p [] w = inl (refl, λ x m. elim m [ ])
validate_permissions_lem p (y ∷ ys) w = elim (Bool-cases (includes all_permissions y)) [
  | inr unknown ↦
      inr (
        y,
        Memᴰ.head refl,
        λ m. let t = (includes_iff all_permissions y).1 m in cc,
        rw unknown refl,
      )
  | inl known ↦ elim (validate_permissions_lem p ys w) [
    | inl (e, all) ↦ inl (rw known e, extend ((includes_iff all_permissions y).0 known) all)
    | inr (x, m, n, e) ↦ inr (x, Memᴰ.tail m, n, rw known e)
  ]
]
  where
    extend : Memᴰ y all_permissions → AreKnown ys → AreKnown (y ∷ ys)
    extend k all x (Memᴰ.head e) = rw e k
    extend k all x (Memᴰ.tail m) = all x m
