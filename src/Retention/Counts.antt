-- ===== src/Retention/Counts.antt =====
-- The numbers that the policies return are those of the rows that they have deleted.
pub mod AuditLogs
pub mod Experiments
pub mod Invitations
use mathlib.Core.List.Memᴰ
use arcane_backend.Common.{
  ltb, length, ℕ, zero, suc, ◌+◌, String, Option, none, some, Bool, List, [], ◌∷◌, map, Result, ok,
  err, includes, ◌≡◌, refl, sym, ap, ◌∙◌, arith, subst, Memᴰ,
}
use arcane_backend.Exception.{Exception}
use arcane_backend.Platform.Laws.{Distinct}
use arcane_backend.Retention.Batches.{Job, Batches, batch_size, each, next, delete_batches}
use arcane_backend.Retention.Outcome.{record_deletion_if-IsLogged}
use arcane_backend.Retention.Store.{
  RetentionStore, IsRetentionLawful, HasUniqueIds, Evaluation, Experiment, Project,
}
use arcane_backend.Retention.Policies.{
  Tables, is_old_evaluation, delete_evaluations_of, delete_old_evaluations,
  evaluations_deleted_event,
}

-- What each turn keeps, the loop keeps.
pub each-keeps :
    {O A S : Type 0} (Inv : A → S → Type 0) (body : O → A → Job S A)
    → ((o : O) (a : A) (t : S) → Inv a t → (b : A) (u : S) → body o a t ≡ some (ok b, u) → Inv b u)
    → (os : List O) (a : A) (t : S) → Inv a t
    → (b : A) (u : S) → each body os a t ≡ some (ok b, u)
    → Inv b u
unfolding each
each-keeps {O} {A} {S} Inv body keeps [] a t h b u e = subst (λ (q : A × S). Inv q.0 q.1) (out e) h
  where
    out :
        ◌≡◌ {A = Option (Result A × S)} (some (ok a, t)) (some (ok b, u))
        → ◌≡◌ {A = A × S} (a, t) (b, u)
    out f = cc
each-keeps {O} {A} {S} Inv body keeps (o ∷ os) a t h b u e =
    go (body o a t) refl (each-keeps Inv body keeps os) e
  where
    Rest : Type 0
    Rest = (c : A) (v : S) → Inv c v → (b : A) (u : S) → each body os c v ≡ some (ok b, u) → Inv b u

    go :
        (q : Option (Result A × S))
        → body o a t ≡ q
        → Rest
        → next q (each body os) ≡ some (ok b, u)
        → Inv b u
    go none f rest g = absurd (cc)
    go (some (err x, v)) f rest g = absurd (cc)
    go (some (ok c, v)) f rest g = rest c v (keeps o a t h c v f) b u g

-- Rows of which no two have one id are told apart by their ids.
pub Distinct-HasUniqueIds :
    {E : Type 0} (id_of : E → String) (rows : List E)
    → Distinct (map id_of rows)
    → HasUniqueIds id_of rows
Distinct-HasUniqueIds id_of [] d x y m k e = elim m [ ]
Distinct-HasUniqueIds id_of (z ∷ rows) (out, d) x y (Memᴰ.head f) (Memᴰ.head g) e = f ∙ sym g
Distinct-HasUniqueIds id_of (z ∷ rows) (out, d) x y (Memᴰ.head f) (Memᴰ.tail k) e =
    absurd (out (Memᴰ.cast (sym (ap id_of f) ∙ e) (Memᴰ.map id_of k)))
Distinct-HasUniqueIds id_of (z ∷ rows) (out, d) x y (Memᴰ.tail m) (Memᴰ.head g) e =
    absurd (out (Memᴰ.cast (sym (e ∙ ap id_of g)) (Memᴰ.map id_of m)))
Distinct-HasUniqueIds id_of (z ∷ rows) (out, d) x y (Memᴰ.tail m) (Memᴰ.tail k) e =
    Distinct-HasUniqueIds id_of rows d x y m k e

module _ (s : RetentionStore) (laws : IsRetentionLawful s) where
  module _ {E : Type 0} (test : E → Bool) (id_of : E → String) where
    -- From some number on, the loop over batches counts the rows that it deletes.
    pub delete_batches-counts :
        (fuel : ℕ) (rows : List E) (deleted : ℕ)
        → Distinct (map id_of rows)
        → (n : ℕ) (left : List E)
        → delete_batches s test id_of fuel rows deleted ≡ some (ok n, left)
        → Distinct (map id_of left) × (length left + n ≡ length rows + deleted)
    unfolding delete_batches
    delete_batches-counts zero rows deleted h n left e = absurd (cc)
    delete_batches-counts (suc fuel) rows deleted h n left e =
        by_batch (s.find_take batch_size test rows) refl (delete_batches-counts fuel)
      where
        Rest : Type 0
        Rest =
            (rows : List E) (deleted : ℕ)
            → Distinct (map id_of rows)
            → (n : ℕ) (left : List E)
            → delete_batches s test id_of fuel rows deleted ≡ some (ok n, left)
            → Distinct (map id_of left) × (length left + n ≡ length rows + deleted)

        Goal : Type 0
        Goal = Distinct (map id_of left) × (length left + n ≡ length rows + deleted)

        out :
            {a c : ℕ} {b d : List E}
            → ◌≡◌ {A = Batches E} (some (ok a, b)) (some (ok c, d))
            → (a ≡ c) × (b ≡ d)
        out f = (cc, cc)

        stuck :
            {x : Exception} {b : List E}
            → ◌≡◌ {A = Batches E} (some (err x, b)) (some (ok n, left))
            → ⊥
        stuck f = cc

        by_result :
            (b : E) (bs : List E)
            → s.find_take batch_size test rows ≡ b ∷ bs
            → (q : Result (List E))
            → s.delete (λ r. includes (map id_of (b ∷ bs)) (id_of r)) rows ≡ q
            → Rest
            → Goal
        by_result b bs f (err x) d rest = let g = rw (f, d) at e in absurd (stuck g)
        by_result b bs f (ok more) d rest =
            let found : length more + length (b ∷ bs) ≡ length rows =
              rw f at (laws.delete_found id_of batch_size test rows {left = more} (rw f d) h) in
            let (v, count) =
              rest more (deleted + length (b ∷ bs)) (laws.delete_Distinct id_of _ rows d h) n left
                (rw (f, d) at e) in
            (v, omega arith)

        by_batch : (batch : List E) → s.find_take batch_size test rows ≡ batch → Rest → Goal
        by_batch [] f rest = let (a, b) = out (rw f at e) in (rw (← b) h, rw (← a, ← b) refl)
        by_batch (b ∷ bs) f rest =
            by_result b bs f (s.delete (λ r. includes (map id_of (b ∷ bs)) (id_of r)) rows) refl
              rest

    -- The same of a loop that starts from no rows, added to what was counted before.
    pub loop-counts :
        (fuel : ℕ) (rows : List E) (all total : ℕ)
        → Distinct (map id_of rows) × (length rows + total ≡ all)
        → (n : ℕ) (left : List E) → delete_batches s test id_of fuel rows 0 ≡ some (ok n, left)
        → Distinct (map id_of left) × (length left + (total + n) ≡ all)
    loop-counts fuel rows all total (v, sum) n left e =
        let (v', count) = delete_batches-counts fuel rows 0 v n left e in (v', omega arith)

  abbrev pub EvaluationsCounted : ℕ → ℕ → Tables s → Type 0
  EvaluationsCounted all total t =
      Distinct (map (λ (x : Evaluation s.Time). x.id) t.evaluations)
      × (length t.evaluations + total ≡ all)

  delete_evaluations_of-counts :
      (fuel all : ℕ) (project : Project) (total : ℕ) (t : Tables s)
      → EvaluationsCounted all total t
      → (b : ℕ) (u : Tables s) → delete_evaluations_of s fuel project total t ≡ some (ok b, u)
      → EvaluationsCounted all b u
  unfolding delete_evaluations_of
  delete_evaluations_of-counts fuel all project total t h b u run =
      go
        (delete_batches s (is_old_evaluation s project) (λ (e : Evaluation s.Time). e.id) fuel
          t.evaluations 0)
        refl
    where
      out :
          {a : ℕ} {v : Tables s}
          → ◌≡◌ {A = Option (Result ℕ × Tables s)} (some (ok a, v)) (some (ok b, u))
          → (a ≡ b) × (v ≡ u)
      out f = (cc, cc)

      no : {m : Option (Result ℕ × Tables s)} → m ≡ some (ok b, u) → m ≡ none → ⊥
      no f g = cc

      failed :
          {x : Exception} {v : Tables s}
          → ◌≡◌ {A = Option (Result ℕ × Tables s)} (some (err x, v)) (some (ok b, u))
          → ⊥
      failed f = cc

      go :
          (q : Batches (Evaluation s.Time))
          → delete_batches s
              (is_old_evaluation s project)
              (λ (e : Evaluation s.Time). e.id)
              fuel
              t.evaluations
              0
            ≡ q
          → EvaluationsCounted all b u
      go none e = absurd (no (rw e at run) refl)
      go (some (err x, left)) e = absurd (failed (rw e at run))
      go (some (ok n, left)) e =
          let (logs, recorded, _) =
            record_deletion_if-IsLogged s laws (ltb 0 n) (evaluations_deleted_event project n)
              (record t { evaluations = left }) in
          let (a, same) = out (rw (e, recorded) at run) in
          subst (λ (q : ℕ × Tables s). EvaluationsCounted all q.0 q.1) (λ i. (a i, same i))
            (loop-counts (is_old_evaluation s project) (λ (x : Evaluation s.Time). x.id) fuel
              t.evaluations all total h n left e)

  -- The evaluations policy returns the number of the evaluations that it has deleted.
  pub delete_old_evaluations-counts :
      (fuel : ℕ) (t : Tables s)
      → Distinct (map (λ (x : Evaluation s.Time). x.id) t.evaluations)
      → (n : ℕ) (u : Tables s) → delete_old_evaluations s fuel t ≡ some (ok n, u)
      → length u.evaluations + n ≡ length t.evaluations
  unfolding delete_old_evaluations
  delete_old_evaluations-counts fuel t h n u run =
      (each-keeps (EvaluationsCounted (length t.evaluations)) (delete_evaluations_of s fuel)
        (delete_evaluations_of-counts fuel (length t.evaluations)) _ 0 t (h, omega arith) n u run).1
