-- ===== src/Datasets/Csv/Rows.antt =====
-- The rows that an export writes: each as wide as the header.
use arcane_backend.Common.{
  ℕ, zero, suc, ◌+◌, ◌<◌, ◌≤◌, String, some, List, [], ◌∷◌, ◌++◌, map, ◌≡◌, refl, ap, ◌∙◌, ltb,
  length, length-append, inl, inr, Bool-cases, arith,
}
use arcane_backend.Datasets.Csv.{
  HasWidth, Dataset, push_empty, take, cut, fit_row, fit_rows, build_csv_rows,
}

-- The first values of a row, with empty ones where there are fewer.
abbrev pub fit : ℕ → List String → List String
fit zero values = []
fit (suc n) [] = "" ∷ fit n []
fit (suc n) (v ∷ vs) = v ∷ fit n vs

pub length-fit : (n : ℕ) (values : List String) → length (fit n values) ≡ n
length-fit zero values = refl
length-fit (suc n) [] = ap suc (length-fit n [])
length-fit (suc n) (v ∷ vs) = ap suc (length-fit n vs)

pub fit_same : (values : List String) → fit (length values) values ≡ values
fit_same [] = refl
fit_same (v ∷ vs) = ap (λ (ws : List String). v ∷ ws) (fit_same vs)

fit-push :
    (n : ℕ) (values : List String) → length values < n → fit n (values ++ "" ∷ []) ≡ fit n values
fit-push zero values h = absurd (omega arith)
fit-push (suc n) [] h = refl
fit-push (suc n) (v ∷ vs) h = ap (λ (ws : List String). v ∷ ws) (fit-push n vs (omega arith))

take-eq-fit : (n : ℕ) (values : List String) → n ≤ length values → take n values ≡ fit n values
take-eq-fit zero values h = refl
take-eq-fit (suc n) [] h = absurd (omega arith)
take-eq-fit (suc n) (v ∷ vs) h = ap (λ (ws : List String). v ∷ ws) (take-eq-fit n vs (omega arith))

push_empty_lem :
    (fuel width : ℕ) (values : List String)
    → width < fuel + length values
    → 0 < fuel
    → cut width (push_empty fuel width values) ≡ some (fit width values)
unfolding push_empty
push_empty_lem zero width values h k = absurd (omega arith)
push_empty_lem (suc fuel) width values h k = elim (Bool-cases (ltb (length values) width)) [
  | inl short ↦ rw short (
      push_empty_lem fuel width (values ++ "" ∷ []) (omega (arith, length-append values ("" ∷ [])))
        (ground arith)
      ∙ ap some (fit-push width values (ground arith)))
  | inr full ↦ rw full (ap some (take-eq-fit width values (ground arith)))
]

fit_rows_lem :
    (fuel : ℕ) (header : List String) (rows : List (List String))
    → length header < fuel
    → fit_rows fuel header rows ≡ some (map (fit (length header)) rows)
unfolding fit_rows fit_row
fit_rows_lem fuel header [] h = refl
fit_rows_lem fuel header (values ∷ rows) h =
    rw
      (
        push_empty_lem fuel (length header) values (omega arith) (omega arith),
        fit_rows_lem fuel header rows h,
      )
      refl

-- With more fuel than there are columns the loops end, and the export writes the header, and each
-- row cut or filled up to its width.
pub build_csv_rows_lem :
    (fuel : ℕ) (dataset : Dataset)
    → length dataset.header < fuel
    → build_csv_rows fuel dataset
      ≡ some (dataset.header ∷ map (fit (length dataset.header)) dataset.rows)
unfolding build_csv_rows
build_csv_rows_lem fuel dataset h = rw (fit_rows_lem fuel dataset.header dataset.rows h) refl

pub map-fit-HasWidth : (n : ℕ) (rows : List (List String)) → HasWidth n (map (fit n) rows)
map-fit-HasWidth n [] = tt
map-fit-HasWidth n (r ∷ rows) = (length-fit n r, map-fit-HasWidth n rows)
