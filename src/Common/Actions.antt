-- ===== src/Common/Actions.antt =====
-- Service methods: they change the state they run on, and may throw. What was written before a
-- throw stays written, so the state comes back beside the exception too.
use mathlib.Core.Path.{◌≡◌, refl}
use mathlib.Core.Bool.{Bool, true, false}
use mathlib.Core.Option.{Option, none, some}
use arcane_backend.Exception.{Exception}

pub data Result {ℓ} (A : Type ℓ) : Type ℓ where
  ok : A → Result A
  err : Exception → Result A

-- What a bind makes of the results alone.
abbrev pub chain : {A B : Type 0} → Result A → (A → Result B) → Result B
chain (ok a) f = f a
chain (err e) f = err e

abbrev pub recover_result : {A : Type 0} → Result A → (Exception → Result A) → Result A
recover_result (ok a) f = ok a
recover_result (err e) f = f e

abbrev pub throw_if_result : Bool → Exception → Result (Unit {0})
throw_if_result true e = err e
throw_if_result false e = ok tt

abbrev pub or_throw_result : {A : Type 0} → Option A → Exception → Result A
or_throw_result none e = err e
or_throw_result (some a) e = ok a

abbrev pub Exec : Type 0 → Type 0 → Type 0
Exec S A = S → Result A × S

module _ {S : Type 0} where
  abbrev pub pure : {A : Type 0} → A → Exec S A
  pure a s = (ok a, s)

  abbrev pub throw : {A : Type 0} → Exception → Exec S A
  throw e s = (err e, s)

  -- a read of the state
  abbrev pub reads : {A : Type 0} → (S → A) → Exec S A
  reads f s = (ok (f s), s)

  abbrev pub modify : (S → S) → Exec S (Unit {0})
  modify f s = (ok tt, f s)

  abbrev pub resume : {A B : Type 0} → Result A × S → (A → Exec S B) → Result B × S
  resume (ok a, s) f = f a s
  resume (err e, s) f = (err e, s)

  infixl 5 ◌>>=◌ ◌>>◌
  abbrev pub ◌>>=◌ : {A B : Type 0} → Exec S A → (A → Exec S B) → Exec S B
  ◌>>=◌ m f s = resume (m s) f

  abbrev pub ◌>>◌ : {B : Type 0} → Exec S (Unit {0}) → Exec S B → Exec S B
  ◌>>◌ m k s = resume (m s) (λ _. k)

  -- `try { m } catch (e) { handle(e) }`
  abbrev pub recover : {A : Type 0} → Result A × S → (Exception → Exec S A) → Result A × S
  recover (ok a, s) f = (ok a, s)
  recover (err e, s) f = f e s

  abbrev pub try_catch : {A : Type 0} → Exec S A → (Exception → Exec S A) → Exec S A
  try_catch m f s = recover (m s) f

  -- `if (test) throw e;`
  abbrev pub throw_if : Bool → Exception → Exec S (Unit {0})
  throw_if true e s = (err e, s)
  throw_if false e s = (ok tt, s)

  -- `if (!x) throw e;`, and x from there on
  abbrev pub or_throw : {A : Type 0} → Option A → Exception → Exec S A
  or_throw none e s = (err e, s)
  or_throw (some a) e s = (ok a, s)

  -- A call that returned.
  pub bind-eq-ok :
      {A B : Type 0} (m : Exec S A) (f : A → Exec S B) (s : S) {b : B} {t : S}
      → (m >>= f) s ≡ (ok b, t)
      → (a : A) × (u : S) × (m s ≡ (ok a, u)) × (f a u ≡ (ok b, t))
  bind-eq-ok {A} m f s {b} {t} = go (m s)
    where
      go :
          (r : Result A × S)
          → resume r f ≡ (ok b, t)
          → (a : A) × (u : S) × (r ≡ (ok a, u)) × (f a u ≡ (ok b, t))
      go (ok a, u) h = (a, u, refl, h)
      go (err e, u) h = absurd (cc)
