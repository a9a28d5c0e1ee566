-- ===== src/Examples/RetentionInMemory.antt =====
-- A store of the retention job in memory: time is counted in days, and today is day 1000.
use mathlib.Core.List.Memᴰ
use arcane_backend.Common.{
  ℕ, zero, suc, ◌-◌, ◌<◌, ◌≤◌, String, some, Bool, true, false, List, [], ◌∷◌, map, ◌≡◌, refl, sym,
  ap, ◌∙◌, ◌↔◌, ◌⊎◌, ◌+◌, includes, inl, inr, Memᴰ, ok, length, ltb, filter_by, mem-filter_by,
  Bool-cases, arith,
}
use arcane_backend.Datasets.Csv.{take}
use arcane_backend.Examples.Deleted.{
  map-without-Distinct, length-without-take, length-without-filter_by,
}
use arcane_backend.Examples.InMemory.{platform, without}
use arcane_backend.Examples.Lawful.{lawful, mem-without}
use arcane_backend.Platform.Laws.{Distinct}
use arcane_backend.Retention.Counts.Invitations.{IsReporting}
use arcane_backend.Retention.Store.{
  AuditLog, RetentionEvent, RetentionStore, IsRetentionLawful, HasUniqueIds,
}

abbrev pub new_log : RetentionEvent → List (AuditLog ℕ) → AuditLog ℕ
new_log event rows = record {
  id = platform.new_id (map (λ (l : AuditLog ℕ). l.id) rows);
  created_at = 1000;
  organisation_id = event.organisation_id;
  rest = event.retention_policy;
}

abbrev pub store : RetentionStore
store = record {
  Time = ℕ;
  is_before = ltb;
  cutoff_date = λ id days. 1000 - days;
  find = filter_by;
  find_take = λ n test rows. take n (filter_by test rows);
  delete = λ test rows. ok (without test rows);
  affected = λ test rows. some (length (filter_by test rows));
  write_log = λ event rows. some (new_log event rows ∷ rows);
}

mem-take : {E : Type 0} (n : ℕ) (xs : List E) (x : E) → Memᴰ x (take n xs) → Memᴰ x xs
mem-take zero xs x m = elim m [ ]
mem-take (suc n) [] x m = elim m [ ]
mem-take (suc n) (y ∷ xs) x (Memᴰ.head e) = Memᴰ.head e
mem-take (suc n) (y ∷ xs) x (Memᴰ.tail m) = Memᴰ.tail (mem-take n xs x m)

take_nil : {E : Type 0} (n : ℕ) (xs : List E) (x : E) → 0 < n → take n xs ≡ [] → ¬ Memᴰ x xs
take_nil zero xs x h e m = absurd (omega arith)
take_nil (suc n) [] x h e m = elim m [ ]
take_nil (suc n) (y ∷ xs) x h e m = cc

length-without-le :
    {E : Type 0} (test : E → Bool) (rows : List E) → length (without test rows) ≤ length rows
unfolding without filter_by
length-without-le test [] = omega arith
length-without-le test (y ∷ rows) = elim (Bool-cases (test y)) [
  | inl e ↦ rw e (omega (arith, length-without-le test rows))
  | inr e ↦ rw e (omega (arith, length-without-le test rows))
]

length-without :
    {E : Type 0} (test : E → Bool) (rows : List E) (x : E)
    → Memᴰ x rows
    → test x ≡ true
    → length (without test rows) < length rows
unfolding without filter_by
length-without test [] x m t = elim m [ ]
length-without test (y ∷ rows) x (Memᴰ.head e) t =
    rw (← e) (rw t (let le = length-without-le test rows in omega arith))
length-without test (y ∷ rows) x (Memᴰ.tail m) t = elim (Bool-cases (test y)) [
  | inl e ↦ rw e (let lt = length-without test rows x m t in omega arith)
  | inr e ↦ rw e (let lt = length-without test rows x m t in omega arith)
]

new_log-HasUniqueIds :
    (event : RetentionEvent) (rows : List (AuditLog ℕ))
    → HasUniqueIds (λ (l : AuditLog ℕ). l.id) rows
    → HasUniqueIds (λ (l : AuditLog ℕ). l.id) (new_log event rows ∷ rows)
new_log-HasUniqueIds event rows u x y (Memᴰ.head e) (Memᴰ.head f) same = e ∙ sym f
new_log-HasUniqueIds event rows u x y (Memᴰ.head e) (Memᴰ.tail k) same =
    absurd (fresh y k (sym same ∙ ap (λ (l : AuditLog ℕ). l.id) e))
  where
    fresh : (z : AuditLog ℕ) → Memᴰ z rows → ¬ (z.id ≡ (new_log event rows).id)
    fresh z m e = lawful.new_id_fresh _ (Memᴰ.cast (sym e) (Memᴰ.map (λ (l : AuditLog ℕ). l.id) m))
new_log-HasUniqueIds event rows u x y (Memᴰ.tail m) (Memᴰ.head f) same =
    absurd (fresh x m (same ∙ ap (λ (l : AuditLog ℕ). l.id) f))
  where
    fresh : (z : AuditLog ℕ) → Memᴰ z rows → ¬ (z.id ≡ (new_log event rows).id)
    fresh z m e = lawful.new_id_fresh _ (Memᴰ.cast (sym e) (Memᴰ.map (λ (l : AuditLog ℕ). l.id) m))
new_log-HasUniqueIds event rows u x y (Memᴰ.tail m) (Memᴰ.tail k) same = u x y m k same

pub store_lawful : IsRetentionLawful store
store_lawful = record {
  mem_find = mem-filter_by;
  mem_find_take =
      λ n test rows x m. (mem-filter_by test rows x).0 (mem-take n (filter_by test rows) x m);
  find_take_nil = λ n test rows x h e m.
      none_true test rows x (λ k. take_nil n (filter_by test rows) x h e k) m;
  mem_delete = λ test rows x e. deleted test rows x e;
  delete_Distinct = λ id_of test rows e d. distinct id_of test rows e d;
  delete_found = λ id_of n test rows e d. counted id_of n test rows e d;
  delete_lt = λ test rows x e m t. fewer test rows x e m t;
  delete_affected = λ test rows n e f. affected_rows test rows n e f;
  mem_write_log = λ event rows x e m. added event rows x (rw (← (logged event rows e)) at m);
  write_log_keeps = λ event rows x e m. rw (← (logged event rows e)) (Memᴰ.tail m);
  write_log-HasUniqueIds =
      λ event rows e u. rw (← (logged event rows e)) (new_log-HasUniqueIds event rows u);
  write_log-Distinct = λ event rows e d. rw (← (logged event rows e)) (lawful.new_id_fresh _, d);
  write_log_length = λ event rows e. rw (← (logged event rows e)) refl;
}
  where
    none_true :
        {E : Type 0} (test : E → Bool) (rows : List E) (x : E)
        → ¬ Memᴰ x (filter_by test rows)
        → Memᴰ x rows
        → test x ≡ false
    none_true test rows x out m = elim (Bool-cases (test x)) [
      | inl t ↦ absurd (out ((mem-filter_by test rows x).1 (m, t)))
      | inr f ↦ f
    ]

    deleted :
        {E : Type 0} (test : E → Bool) (rows : List E) {left : List E} (x : E)
        → ok (without test rows) ≡ ok left
        → Memᴰ x left ↔ (Memᴰ x rows × (test x ≡ false))
    deleted test rows {left} x e =
        let same : without test rows ≡ left = cc in rw (← same) (mem-without test rows x)

    distinct :
        {E : Type 0} (id_of : E → String) (test : E → Bool) (rows : List E) {left : List E}
        → ok (without test rows) ≡ ok left
        → Distinct (map id_of rows)
        → Distinct (map id_of left)
    distinct id_of test rows {left} e d =
        let same : without test rows ≡ left = cc in
        rw (← same) (map-without-Distinct id_of test rows d)

    counted :
        {E : Type 0} (id_of : E → String) (n : ℕ) (test : E → Bool) (rows : List E) {left : List E}
        → ok (without (λ r. includes (map id_of (take n (filter_by test rows))) (id_of r)) rows)
          ≡ ok left
        → Distinct (map id_of rows)
        → length left + length (take n (filter_by test rows)) ≡ length rows
    counted id_of n test rows {left} e d =
        let same : without (λ r. includes (map id_of (take n (filter_by test rows))) (id_of r)) rows
            ≡ left =
          cc in
        rw (← same) (length-without-take id_of n test rows d)

    affected_rows :
        {E : Type 0} (test : E → Bool) (rows : List E) {left : List E} (n : ℕ)
        → ok (without test rows) ≡ ok left
        → some (length (filter_by test rows)) ≡ some n
        → length left + n ≡ length rows
    affected_rows test rows {left} n e f =
        let same : without test rows ≡ left = cc in
        let all : length (filter_by test rows) ≡ n = cc in
        rw (← same, ← all) (length-without-filter_by test rows)

    fewer :
        {E : Type 0} (test : E → Bool) (rows : List E) {left : List E} (x : E)
        → ok (without test rows) ≡ ok left
        → Memᴰ x rows
        → test x ≡ true
        → length left < length rows
    fewer test rows {left} x e m t =
        let same : without test rows ≡ left = cc in rw (← same) (length-without test rows x m t)

    logged :
        (event : RetentionEvent) (rows : List (AuditLog ℕ)) {more : List (AuditLog ℕ)}
        → some (new_log event rows ∷ rows) ≡ some more
        → new_log event rows ∷ rows ≡ more
    logged event rows e = cc

    not_later : (days : ℕ) → ltb 1000 (1000 - days) ≡ false
    not_later days = ground arith

    added :
        (event : RetentionEvent) (rows : List (AuditLog ℕ)) (x : AuditLog ℕ)
        → Memᴰ x (new_log event rows ∷ rows)
        → Memᴰ x rows ⊎ ((o : String) (days : ℕ) → ltb x.created_at (1000 - days) ≡ false)
    added event rows x (Memᴰ.head e) = inr (λ o days.
        let today : x.created_at ≡ 1000 = ap (λ (l : AuditLog ℕ). l.created_at) e in
        rw today (not_later days))
    added event rows x (Memᴰ.tail m) = inl m

pub store-IsReporting : IsReporting store
store-IsReporting test rows = (length (filter_by test rows), refl)
