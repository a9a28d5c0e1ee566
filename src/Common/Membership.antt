-- ===== src/Common/Membership.antt =====
-- What the list helpers keep and find, in terms of membership.
use Prim.Native.String.{String}
use mathlib.Core.Path.{◌≡◌}
use mathlib.Core.Logic.{inl, inr, ◌⊎◌, ◌↔◌}
use mathlib.Core.Bool.{Bool, true, false}
use mathlib.Core.Option.{none, some}
use mathlib.Core.List.{List, [], ◌∷◌, ◌++◌, Memᴰ}
use mathlib.Core.List.Memᴰ
use native.Mathlib.Omega.{arith}
use arcane_backend.Common.Tests.{Bool-cases}
use arcane_backend.Common.Lists.{includes, includes_iff, add, add_all, find_first, filter_by}

pub mem-add : (set : List String) (x y : String) → Memᴰ x (add set y) ↔ (Memᴰ x set ⊎ (x ≡ y))
unfolding add
mem-add set x y = elim (Bool-cases (includes set y)) [
  | inl old ↦ rw old (inl, known ((includes_iff set y).0 old))
  | inr new ↦ rw new (split, join)
]
  where
    known : Memᴰ y set → Memᴰ x set ⊎ (x ≡ y) → Memᴰ x set
    known m (inl h) = h
    known m (inr e) = Memᴰ.cast e m

    tell : Memᴰ x set ⊎ Memᴰ x (y ∷ []) → Memᴰ x set ⊎ (x ≡ y)
    tell (inl h) = inl h
    tell (inr h) = inr (Memᴰ.eq_of_singleton h)

    split : Memᴰ x (set ++ y ∷ []) → Memᴰ x set ⊎ (x ≡ y)
    split m = tell (Memᴰ.append_cases set m)

    join : Memᴰ x set ⊎ (x ≡ y) → Memᴰ x (set ++ y ∷ [])
    join (inl h) = Memᴰ.append_left (y ∷ []) h
    join (inr e) = Memᴰ.append_right set (Memᴰ.head e)

pub mem-add_all :
    (set ys : List String) (x : String) → Memᴰ x (add_all set ys) ↔ (Memᴰ x set ⊎ Memᴰ x ys)
unfolding add_all
mem-add_all set [] x = (inl, keep)
  where
    keep : Memᴰ x set ⊎ Memᴰ x [] → Memᴰ x set
    keep (inl h) = h
    keep (inr h) = elim h [ ]
mem-add_all set (y ∷ ys) x =
    (λ m. to ((mem-add_all (add set y) ys x).0 m), λ h. (mem-add_all (add set y) ys x).1 (from h))
  where
    early : Memᴰ x set ⊎ (x ≡ y) → Memᴰ x set ⊎ Memᴰ x (y ∷ ys)
    early (inl h) = inl h
    early (inr e) = inr (Memᴰ.head e)

    to : Memᴰ x (add set y) ⊎ Memᴰ x ys → Memᴰ x set ⊎ Memᴰ x (y ∷ ys)
    to (inl h) = early ((mem-add set x y).0 h)
    to (inr h) = inr (Memᴰ.tail h)

    from : Memᴰ x set ⊎ Memᴰ x (y ∷ ys) → Memᴰ x (add set y) ⊎ Memᴰ x ys
    from (inl h) = inl ((mem-add set x y).1 (inl h))
    from (inr (Memᴰ.head e)) = inl ((mem-add set x y).1 (inr e))
    from (inr (Memᴰ.tail h)) = inr h

module _ {ℓ} {A : Type ℓ} (test : A → Bool) where
  pub find_first-eq-some :
      (xs : List A) {x : A} → find_first test xs ≡ some x → Memᴰ x xs × (test x ≡ true)
  unfolding find_first
  find_first-eq-some [] h = absurd (cc)
  find_first-eq-some (y ∷ ys) {x} h = elim (Bool-cases (test y)) [
    | inl found ↦ same (rw found at h) found
    | inr missed ↦ later (find_first-eq-some ys (rw missed at h))
  ]
    where
      same : some y ≡ some x → test y ≡ true → Memᴰ x (y ∷ ys) × (test x ≡ true)
      same e t = (Memᴰ.head (cc), cc)

      later : Memᴰ x ys × (test x ≡ true) → Memᴰ x (y ∷ ys) × (test x ≡ true)
      later (m, t) = (Memᴰ.tail m, t)

  pub find_first-eq-none :
      (xs : List A) → find_first test xs ≡ none → (x : A) → Memᴰ x xs → test x ≡ false
  unfolding find_first
  find_first-eq-none [] h x m = elim m [ ]
  find_first-eq-none (y ∷ ys) h x (Memᴰ.head e) = ground arith
  find_first-eq-none (y ∷ ys) h x (Memᴰ.tail m) = find_first-eq-none ys (ground arith) x m

  pub mem-filter_by :
      (xs : List A) (x : A) → Memᴰ x (filter_by test xs) ↔ (Memᴰ x xs × (test x ≡ true))
  unfolding filter_by
  mem-filter_by [] x = (λ m. elim m [ ], λ h. elim h.0 [ ])
  mem-filter_by (y ∷ ys) x = elim (Bool-cases (test y)) [
    | inl kept ↦
        rw kept (λ m. into kept (mem-filter_by ys x).0 m, λ h. out (mem-filter_by ys x).1 h)
    | inr gone ↦ rw gone (
      λ m. let (k, t) = (mem-filter_by ys x).0 m in (Memᴰ.tail k, t),
      λ h. skip gone (mem-filter_by ys x).1 h,
    )
  ]
    where
      into :
          test y ≡ true
          → (Memᴰ x (filter_by test ys) → Memᴰ x ys × (test x ≡ true))
          → Memᴰ x (y ∷ filter_by test ys)
          → Memᴰ x (y ∷ ys) × (test x ≡ true)
      into t rest (Memᴰ.head e) = (Memᴰ.head e, cc)
      into t rest (Memᴰ.tail m) = let (k, u) = rest m in (Memᴰ.tail k, u)

      out :
          (Memᴰ x ys × (test x ≡ true) → Memᴰ x (filter_by test ys))
          → Memᴰ x (y ∷ ys) × (test x ≡ true)
          → Memᴰ x (y ∷ filter_by test ys)
      out rest (Memᴰ.head e, t) = Memᴰ.head e
      out rest (Memᴰ.tail m, t) = Memᴰ.tail (rest (m, t))

      skip :
          test y ≡ false
          → (Memᴰ x ys × (test x ≡ true) → Memᴰ x (filter_by test ys))
          → Memᴰ x (y ∷ ys) × (test x ≡ true)
          → Memᴰ x (filter_by test ys)
      skip f rest (Memᴰ.head e, t) = absurd (cc)
      skip f rest (Memᴰ.tail m, t) = rest (m, t)
