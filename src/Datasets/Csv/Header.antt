-- ===== src/Datasets/Csv/Header.antt =====
-- The headers that an import accepts.
use mathlib.Core.List.Memᴰ
use arcane_backend.Common.{
  String, true, false, ◌==◌, List, [], ◌∷◌, map, Result, ok, err, chain, includes, includes_iff,
  add, mem-add, ◌≡◌, ◌≢◌, refl, sym, ap, ◌∙◌, ◌↔◌, inl, inr, Memᴰ, Bool-cases, and-eq-true, eq_iff,
  eq_false,
}
use arcane_backend.Datasets.Csv.{
  CsvLibrary, all_empty, check_names, validate_names, validate_header,
}
use arcane_backend.Platform.Laws.{Distinct}

-- No name is empty, and none is among those seen.
abbrev AreNew : List String → List String → Type 0
AreNew seen names = (x : String) → Memᴰ x names → (x ≢ "") × (¬ Memᴰ x seen)

abbrev pub IsHeader : List String → Type 0
IsHeader names = (names ≢ []) × ((x : String) → Memᴰ x names → x ≢ "") × Distinct names

check_names_iff :
    (seen names : List String)
    → (check_names seen names ≡ ok tt) ↔ (AreNew seen names × Distinct names)
unfolding check_names
check_names_iff seen [] = (λ _. (λ x m. elim m [ ], tt), λ _. refl)
check_names_iff seen (v ∷ vs) = (
  λ h. elim (Bool-cases (v == "")) [
    | inl empty ↦ cc (rw empty at h)
    | inr named ↦ elim (Bool-cases (includes seen v)) [
      | inl old ↦ cc (rw (named, old) at h)
      | inr new ↦ to named new ((check_names_iff (add seen v) vs).0 (rw (named, new) at h))
    ]
  ],
  λ (new, (apart, distinct)).
      from new apart ((check_names_iff (add seen v) vs).1 (later new apart, distinct)),
)
  where
    to :
        (v == "") ≡ false
        → includes seen v ≡ false
        → AreNew (add seen v) vs × Distinct vs
        → AreNew seen (v ∷ vs) × Distinct (v ∷ vs)
    to named new (rest, distinct) =
        (each, (λ m. (rest v m).1 ((mem-add seen v v).1 (inr refl)), distinct))
      where
        each : AreNew seen (v ∷ vs)
        each x (Memᴰ.head e) = (
          λ f. let t = (eq_iff v "").1 (sym e ∙ f) in cc,
          λ m. let t = (includes_iff seen v).1 (Memᴰ.cast (sym e) m) in cc,
        )
        each x (Memᴰ.tail m) = ((rest x m).0, λ k. (rest x m).1 ((mem-add seen x v).1 (inl k)))

    later : AreNew seen (v ∷ vs) → ¬ Memᴰ v vs → AreNew (add seen v) vs
    later new apart x m = (
      (new x (Memᴰ.tail m)).0,
      λ k. elim ((mem-add seen x v).0 k) [
        | inl old ↦ (new x (Memᴰ.tail m)).1 old
        | inr e ↦ apart (rw e at m)
      ],
    )

    from :
        AreNew seen (v ∷ vs)
        → ¬ Memᴰ v vs
        → check_names (add seen v) vs ≡ ok tt
        → check_names seen (v ∷ vs) ≡ ok tt
    from new apart rest =
        let (named, fresh) = new v (Memᴰ.head refl) in
        rw
          (
            eq_false (v == "") (λ t. named ((eq_iff v "").0 t)),
            eq_false (includes seen v) (λ t. fresh ((includes_iff seen v).0 t)),
          )
          rest

all_empty-mem :
    (names : List String) → all_empty names ≡ true → (x : String) → Memᴰ x names → x ≡ ""
unfolding all_empty
all_empty-mem [] h x m = elim m [ ]
all_empty-mem (v ∷ vs) h x (Memᴰ.head e) = e ∙ (eq_iff v "").0 (and-eq-true _ _ h).0
all_empty-mem (v ∷ vs) h x (Memᴰ.tail m) = all_empty-mem vs (and-eq-true _ _ h).1 x m

validate_names_iff :
    (normalized names : List String)
    → (validate_names normalized ≡ ok names) ↔ ((names ≡ normalized) × IsHeader names)
unfolding validate_names
validate_names_iff [] names = (λ h. cc, λ (e, (some_name, _, _)). absurd (some_name e))
validate_names_iff (v ∷ vs) names = (
  λ h. elim (Bool-cases (all_empty (v ∷ vs))) [
    | inl empty ↦ cc (rw empty at h)
    | inr named ↦ to named (check_names [] (v ∷ vs)) refl (rw named at h)
  ],
  λ (e, (_, named, distinct)). from e named distinct,
)
  where
    to :
        all_empty (v ∷ vs) ≡ false
        → (q : Result (Unit {0})) → check_names [] (v ∷ vs) ≡ q
        → chain q (λ _. ok (v ∷ vs)) ≡ ok names
        → (names ≡ v ∷ vs) × IsHeader names
    to named (err c) e h = cc
    to named (ok _) e h =
        let (new, distinct) = (check_names_iff [] (v ∷ vs)).0 e in
        let same : names ≡ v ∷ vs = cc in
        (same, rw same ((λ k. cc), (λ x m. (new x m).0), distinct))

    from :
        names ≡ v ∷ vs
        → ((x : String) → Memᴰ x names → x ≢ "")
        → Distinct names
        → validate_names (v ∷ vs) ≡ ok names
    from e named distinct =
        let named' : (x : String) → Memᴰ x (v ∷ vs) → x ≢ "" = rw e at named in
        let distinct' : Distinct (v ∷ vs) = rw e at distinct in
        let checked =
          (check_names_iff [] (v ∷ vs)).1 ((λ x m. (named' x m, λ k. elim k [ ])), distinct') in
        let filled =
          eq_false (all_empty (v ∷ vs))
            (λ t. named' v (Memᴰ.head refl) (all_empty-mem (v ∷ vs) t v (Memᴰ.head refl))) in
        rw (filled, checked) (ap ok (sym e))

module _ (csv : CsvLibrary) where
  -- A header is accepted exactly if, once its names are trimmed, there is one, none is empty and no two
  -- are the same; it is then taken with its names trimmed.
  pub validate_header_iff :
      (header names : List String)
      → (validate_header csv header ≡ ok names) ↔ ((names ≡ map csv.trim header) × IsHeader names)
  unfolding validate_header
  validate_header_iff header names = validate_names_iff (map csv.trim header) names
