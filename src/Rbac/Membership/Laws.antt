-- ===== src/Rbac/Membership/Laws.antt =====
-- The rows of the tables of members, and the queries for one.
use arcane_backend.Common.{
  String, true, List, [], ◌∷◌, ◌≡◌, refl, ap, ◌↔◌, Memᴰ, eq_iff, and-eq-true,
}
use arcane_backend.Platform.{Platform}
use arcane_backend.Rbac.Membership.{is_found, is_row}

pub is_found_iff : {A : Type 0} (xs : List A) → (is_found xs ≡ true) ↔ ((x : A) × Memᴰ x xs)
is_found_iff [] = (λ h. cc, λ (x, m). elim m [ ])
is_found_iff (x ∷ xs) = (λ h. (x, Memᴰ.head refl), λ y. refl)

module _ (p : Platform) where
  pub is_row_iff :
      (owner_id user_id : String) (row : String × String)
      → (is_row p owner_id user_id row ≡ true) ↔ (row ≡ (owner_id, user_id))
  is_row_iff owner_id user_id row = (
    λ h.
        let (a, b) = and-eq-true _ _ h in
        λ i. ((eq_iff row.0 owner_id).0 a i, (eq_iff row.1 user_id).0 b i),
    λ e.
        rw
          (
            (eq_iff row.0 owner_id).1 (ap (λ (r : String × String). r.0) e),
            (eq_iff row.1 user_id).1 (ap (λ (r : String × String). r.1) e),
          )
          refl,
  )
