-- ===== src/Examples/Deleted.antt =====
-- Deletions by the ids of rows that a query has found, in lists.
use mathlib.Core.List.Memᴰ
use arcane_backend.Common.{
  ℕ, zero, suc, ◌+◌, String, Bool, true, false, not, ◌==◌, List, [], ◌∷◌, map, ◌≡◌, refl, sym, ap,
  ◌∙◌, subst, inl, inr, Memᴰ, length, includes, includes_iff, eq_iff, filter_by, Bool-cases, arith,
}
use arcane_backend.Datasets.Csv.{take}
use arcane_backend.Examples.InMemory.{without}
use arcane_backend.Platform.Laws.{Distinct}

missed : {b : Bool} → ¬ (b ≡ true) → b ≡ false
missed {b} h = elim (Bool-cases b) [ inl e ↦ absurd (h e) | inr e ↦ e ]

mem-map-filter_by :
    {E : Type 0} (id_of : E → String) (test : E → Bool) (rows : List E) (v : String)
    → Memᴰ v (map id_of (filter_by test rows))
    → Memᴰ v (map id_of rows)
unfolding filter_by
mem-map-filter_by id_of test [] v m = elim m [ ]
mem-map-filter_by {E} id_of test (y ∷ rows) v m = elim (Bool-cases (test y)) [
  | inl e ↦ go (mem-map-filter_by id_of test rows v) (rw e at m)
  | inr e ↦ Memᴰ.tail (mem-map-filter_by id_of test rows v (rw e at m))
]
  where
    go :
        (Memᴰ v (map id_of (filter_by test rows)) → Memᴰ v (map id_of rows))
        → Memᴰ v (id_of y ∷ map id_of (filter_by test rows))
        → Memᴰ v (id_of y ∷ map id_of rows)
    go rest (Memᴰ.head e) = Memᴰ.head e
    go rest (Memᴰ.tail k) = Memᴰ.tail (rest k)

map-filter_by-Distinct :
    {E : Type 0} (id_of : E → String) (test : E → Bool) (rows : List E)
    → Distinct (map id_of rows)
    → Distinct (map id_of (filter_by test rows))
unfolding filter_by
map-filter_by-Distinct id_of test [] d = d
map-filter_by-Distinct id_of test (y ∷ rows) (out, d) = elim (Bool-cases (test y)) [
  | inl e ↦ rw e (
    λ (m : Memᴰ (id_of y) (map id_of (filter_by test rows))).
        out (mem-map-filter_by id_of test rows (id_of y) m),
    map-filter_by-Distinct id_of test rows d,
  )
  | inr e ↦ rw e (map-filter_by-Distinct id_of test rows d)
]

pub map-without-Distinct :
    {E : Type 0} (id_of : E → String) (test : E → Bool) (rows : List E)
    → Distinct (map id_of rows)
    → Distinct (map id_of (without test rows))
unfolding without
map-without-Distinct id_of test rows d = map-filter_by-Distinct id_of (λ x. not (test x)) rows d

mem-map-take :
    {E : Type 0} (id_of : E → String) (n : ℕ) (rows : List E) (v : String)
    → Memᴰ v (map id_of (take n rows))
    → Memᴰ v (map id_of rows)
mem-map-take id_of zero rows v m = elim m [ ]
mem-map-take id_of (suc n) [] v m = elim m [ ]
mem-map-take id_of (suc n) (y ∷ rows) v (Memᴰ.head e) = Memᴰ.head e
mem-map-take id_of (suc n) (y ∷ rows) v (Memᴰ.tail m) = Memᴰ.tail (mem-map-take id_of n rows v m)

filter_by_ext :
    {E : Type 0} (p q : E → Bool) (rows : List E)
    → ((r : E) → Memᴰ r rows → p r ≡ q r)
    → filter_by p rows ≡ filter_by q rows
unfolding filter_by
filter_by_ext p q [] h = refl
filter_by_ext p q (y ∷ rows) h =
    rw (h y (Memᴰ.head refl), filter_by_ext p q rows (λ r m. h r (Memᴰ.tail m))) refl

abbrev spared : {E : Type 0} → (E → String) → List String → List E → List E
spared id_of ids rows = without (λ r. includes ids (id_of r)) rows

spared-other :
    {E : Type 0} (id_of : E → String) (v : String) (ids : List String) (rows : List E)
    → ¬ Memᴰ v (map id_of rows)
    → spared id_of (v ∷ ids) rows ≡ spared id_of ids rows
unfolding without includes
spared-other id_of v ids rows out = filter_by_ext _ _ rows (λ r m.
    let differ : (v == id_of r) ≡ false =
      missed (λ h. out (Memᴰ.cast ((eq_iff v (id_of r)).0 h) (Memᴰ.map id_of m))) in
    rw differ refl)

spared-hit :
    {E : Type 0} (id_of : E → String) (y : E) (ids : List String) (rows : List E)
    → includes ids (id_of y) ≡ true
    → spared id_of ids (y ∷ rows) ≡ spared id_of ids rows
unfolding without filter_by
spared-hit id_of y ids rows h = rw h refl

spared-miss :
    {E : Type 0} (id_of : E → String) (y : E) (ids : List String) (rows : List E)
    → includes ids (id_of y) ≡ false
    → spared id_of ids (y ∷ rows) ≡ y ∷ spared id_of ids rows
unfolding without filter_by
spared-miss id_of y ids rows h = rw h refl

filter_by-hit :
    {E : Type 0} (test : E → Bool) (y : E) (rows : List E)
    → test y ≡ true
    → filter_by test (y ∷ rows) ≡ y ∷ filter_by test rows
unfolding filter_by
filter_by-hit test y rows h = rw h refl

filter_by-miss :
    {E : Type 0} (test : E → Bool) (y : E) (rows : List E)
    → test y ≡ false
    → filter_by test (y ∷ rows) ≡ filter_by test rows
unfolding filter_by
filter_by-miss test y rows h = rw h refl

-- The rows found, at most `n`, and those that their ids leave are as many as the rows.
pub length-without-take :
    {E : Type 0} (id_of : E → String) (n : ℕ) (test : E → Bool) (rows : List E)
    → Distinct (map id_of rows)
    → length (without (λ r. includes (map id_of (take n (filter_by test rows))) (id_of r)) rows)
        + length (take n (filter_by test rows))
      ≡ length rows
unfolding without filter_by includes
length-without-take id_of zero test [] d = refl
length-without-take id_of (suc n) test [] d = refl
length-without-take id_of zero test (y ∷ rows) (out, d) =
    let rest = length-without-take id_of zero test rows d in omega arith
length-without-take {E} id_of (suc n) test (y ∷ rows) (out, d) = elim (Bool-cases (test y)) [
  | inl e ↦
      subst Sum (sym (ap (take (suc n)) (filter_by-hit test y rows e)))
        (hit (take n (filter_by test rows)) (length-without-take id_of n test rows d))
  | inr e ↦ subst Sum (sym (ap (take (suc n)) (filter_by-miss test y rows e))) (
      miss (take (suc n) (filter_by test rows)) absent
        (length-without-take id_of (suc n) test rows d))
]
  where
    Sum : List E → Type 0
    Sum found =
        length (spared id_of (map id_of found) (y ∷ rows)) + length found ≡ suc (length rows)

    hit :
        (found : List E)
        → length (spared id_of (map id_of found) rows) + length found ≡ length rows
        → Sum (y ∷ found)
    hit found rest =
        let here : includes (id_of y ∷ map id_of found) (id_of y) ≡ true =
          (includes_iff _ (id_of y)).1 (Memᴰ.head refl) in
        let gone = ap length (
          spared-hit id_of y (id_of y ∷ map id_of found) rows here
          ∙ spared-other id_of (id_of y) (map id_of found) rows out) in
        omega arith

    miss :
        (found : List E)
        → includes (map id_of found) (id_of y) ≡ false
        → length (spared id_of (map id_of found) rows) + length found ≡ length rows
        → Sum found
    miss found h rest =
        let stays = ap length (spared-miss id_of y (map id_of found) rows h) in omega arith

    absent : includes (map id_of (take (suc n) (filter_by test rows))) (id_of y) ≡ false
    absent = missed (λ h. out (
        mem-map-filter_by id_of test rows (id_of y) (
          mem-map-take id_of (suc n) (filter_by test rows) (id_of y)
            ((includes_iff _ (id_of y)).0 h))))

pub length-without-filter_by :
    {E : Type 0} (test : E → Bool) (rows : List E)
    → length (without test rows) + length (filter_by test rows) ≡ length rows
unfolding without filter_by
length-without-filter_by test [] = refl
length-without-filter_by test (y ∷ rows) = elim (Bool-cases (test y)) [
  | inl e ↦ rw e (let rest = length-without-filter_by test rows in omega arith)
  | inr e ↦ rw e (let rest = length-without-filter_by test rows in omega arith)
]
