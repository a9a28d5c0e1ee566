-- ===== src/Common/Lists.antt =====
-- Lists under JavaScript's names for what the program does with them, and membership.

use Prim.Native.String.{String}
use mathlib.Core.Path.{◌≡◌, refl, sym}
use mathlib.Core.Logic.{inl, inr, ◌↔◌}
use mathlib.Core.Bool.{Bool, true, false, ◌||◌}
use mathlib.Core.Option.{Option, none, some}
use mathlib.Core.List.{List, [], ◌∷◌, ◌++◌, Memᴰ}
use native.Mathlib.Omega.{arith}
use text.Mathlib.Text.{◌==◌}
use text.Mathlib.TextEquality.{eq_iff}
use arcane_backend.Common.Tests.{if◌then◌else◌, Bool-cases}

or-true : (b : Bool) → (b || true) ≡ true
or-true b = ground arith

-- `array.includes(x)`
unfoldable pub includes : List String → String → Bool
includes [] x = false
includes (y ∷ ys) x = y == x || includes ys x

pub includes_iff : (ys : List String) (x : String) → (includes ys x ≡ true) ↔ Memᴰ x ys
unfolding includes
includes_iff [] x = (λ h. cc, λ m. elim m [ ])
includes_iff (y ∷ ys) x = (to (includes_iff ys x).0, from (includes_iff ys x).1)
  where
    to : (includes ys x ≡ true → Memᴰ x ys) → (y == x || includes ys x) ≡ true → Memᴰ x (y ∷ ys)
    to rest h = elim (Bool-cases (y == x)) [
      | inl e ↦ Memᴰ.head (sym ((eq_iff y x).0 e))
      | inr e ↦ Memᴰ.tail (rest (rw e at h))
    ]

    from : (Memᴰ x ys → includes ys x ≡ true) → Memᴰ x (y ∷ ys) → (y == x || includes ys x) ≡ true
    from rest (Memᴰ.head e) = rw ((eq_iff y x).1 (sym e)) refl
    from rest (Memᴰ.tail m) = rw (rest m) (or-true (y == x))

-- `set.add(x)` on a set kept in the order of insertion
unfoldable pub add : List String → String → List String
add set x = if includes set x then set else set ++ x ∷ []

-- `for (const x of xs) set.add(x)`
unfoldable pub add_all : List String → List String → List String
add_all set [] = set
add_all set (x ∷ xs) = add_all (add set x) xs

-- `array.find(test)`
unfoldable pub find_first {ℓ} : {A : Type ℓ} → (A → Bool) → List A → Option A
find_first test [] = none
find_first test (x ∷ xs) = if test x then some x else find_first test xs

-- `array.filter(test)`
unfoldable pub filter_by {ℓ} : {A : Type ℓ} → (A → Bool) → List A → List A
filter_by test [] = []
filter_by test (x ∷ xs) = if test x then x ∷ filter_by test xs else filter_by test xs
