-- ===== src/Common/Tests.antt =====
-- JavaScript's tests on strings and nullable strings, and case splits that keep their equation.
use Prim.Native.String.{String}
use mathlib.Core.Path.{◌≡◌, refl, ap}
use mathlib.Core.Logic.{◌⊎◌, inl, inr, ◌↔◌}
use mathlib.Core.Bool.{Bool, true, false, not, ◌&&◌}
use mathlib.Core.Option.{Option, none, some}
use native.Mathlib.Omega.{arith}
use text.Mathlib.Text.{◌==◌}
use text.Mathlib.TextEquality.{eq_iff}

infix 1 if◌then◌else◌
abbrev pub if◌then◌else◌ {ℓ} : {A : Type ℓ} → Bool → A → A → A
if true then x else y = x
if false then x else y = y

pub Bool-cases : (b : Bool) → (b ≡ true) ⊎ (b ≡ false)
Bool-cases true = inl refl
Bool-cases false = inr refl

pub eq_false : (b : Bool) → ¬ (b ≡ true) → b ≡ false
eq_false true h = absurd (h refl)
eq_false false h = refl

pub Option-cases {ℓ} : {A : Type ℓ} (o : Option A) → (o ≡ none) ⊎ ((a : A) × (o ≡ some a))
Option-cases none = inl refl
Option-cases (some a) = inr (a, refl)

-- `x === null`, where undefined does not occur
abbrev pub is_null {ℓ} : {A : Type ℓ} → Option A → Bool
is_null none = true
is_null (some _) = false

-- The truth value of an optional string: undefined, null and "" are falsy.
abbrev pub truthy : Option String → Bool
truthy none = false
truthy (some s) = not (s == "")

-- `column === parameter`: a null column is not equal to an undefined parameter.
abbrev pub same_id : Option String → Option String → Bool
same_id (some a) (some b) = a == b
same_id (some a) none = false
same_id none _ = false

-- `s || ""`
abbrev pub or_empty : Option String → String
or_empty none = ""
or_empty (some s) = s

pub and-eq-true : (a b : Bool) → (a && b) ≡ true → (a ≡ true) × (b ≡ true)
and-eq-true a b h = ground arith

pub same_id_iff :
    (a b : Option String) → (same_id a b ≡ true) ↔ ((s : String) × (a ≡ some s) × (b ≡ some s))
same_id_iff none b = (λ h. cc, λ (s, x, y). cc)
same_id_iff (some a) none = (λ h. cc, λ (s, x, y). cc)
same_id_iff (some a) (some b) =
    (λ h. (a, refl, ap some (sym_eq ((eq_iff a b).0 h))), λ (s, x, y). (eq_iff a b).1 (cc))
  where
    sym_eq : a ≡ b → b ≡ a
    sym_eq e = cc
