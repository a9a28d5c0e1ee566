-- ===== src/Retention/Counts/Experiments.antt =====
-- The number that the experiments policy returns.
use arcane_backend.Common.{
  ltb, length, ℕ, ◌+◌, String, Option, none, some, Bool, true, false, ◌||◌, List, [], ◌∷◌, map,
  Result, ok, err, ◌≡◌, refl, arith, subst, if◌then◌else◌,
}
use arcane_backend.Exception.{Exception}
use arcane_backend.Platform.Laws.{Distinct}
use arcane_backend.Rbac.Membership.{is_found}
use arcane_backend.Retention.Batches.{Batches, each, delete_batches}
use arcane_backend.Retention.Counts.{each-keeps, loop-counts}
use arcane_backend.Retention.Outcome.{record_deletion_if-IsLogged}
use arcane_backend.Retention.Store.{
  RetentionStore, IsRetentionLawful, Evaluation, Experiment, Project,
}
use arcane_backend.Retention.Policies.{
  Tables, is_limited, is_old_experiment, is_evaluation_of, delete_found_evaluations,
  evaluations_left, delete_evaluations_of_experiments, delete_experiments_of,
  delete_old_experiments, experiments_deleted,
}

module _ (s : RetentionStore) where
  abbrev SameExperiments : Tables s → Option (Result ℕ × Tables s) → Type 0
  SameExperiments t q =
      (r : Result ℕ) (u : Tables s) → q ≡ some (r, u) → u.experiments ≡ t.experiments

  at_once :
      (t v : Tables s) (a : Result ℕ)
      → v.experiments ≡ t.experiments
      → SameExperiments t (some (a, v))
  at_once t v a same r u e = let f : v ≡ u = cc in rw (← f) same

  evaluations_left_same :
      (q : Result (List (Evaluation s.Time))) (n : ℕ) (t : Tables s)
      → SameExperiments t (evaluations_left s q n t)
  evaluations_left_same (ok left) n t = at_once t (record t { evaluations = left }) (ok n) refl
  evaluations_left_same (err e) n t = at_once t t (err e) refl

  delete_found_same :
      (es : List (Evaluation s.Time)) (t : Tables s)
      → SameExperiments t (delete_found_evaluations s es t)
  delete_found_same [] t = at_once t t (ok 0) refl
  delete_found_same (e ∷ es) t = evaluations_left_same _ (length (e ∷ es)) t

  -- The evaluations are deleted first, and no experiment with them.
  delete_evaluations_same :
      (project : Project) (t : Tables s)
      → SameExperiments t (delete_evaluations_of_experiments s project t)
  unfolding delete_evaluations_of_experiments
  delete_evaluations_same project t = go (is_found ids)
    where
      ids : List String
      ids =
          map (λ (x : Experiment s.Time). x.id) (s.find (is_old_experiment s project) t.experiments)

      go :
          (b : Bool)
          → SameExperiments t (
              if b
              then delete_found_evaluations s
                  (s.find (is_evaluation_of s t.evaluation_experiments project ids) t.evaluations)
                  t
              else some (ok 0, t))
      go true = delete_found_same _ t
      go false = at_once t t (ok 0) refl

  module _ (laws : IsRetentionLawful s) where
    abbrev ExperimentsCounted : ℕ → ℕ × ℕ → Tables s → Type 0
    ExperimentsCounted all (total, _) t =
        Distinct (map (λ (x : Experiment s.Time). x.id) t.experiments)
        × (length t.experiments + total ≡ all)

    delete_experiments_of-counts :
        (fuel all : ℕ) (project : Project) (c : ℕ × ℕ) (t : Tables s)
        → ExperimentsCounted all c t
        → (b : ℕ × ℕ) (u : Tables s) → delete_experiments_of s fuel project c t ≡ some (ok b, u)
        → ExperimentsCounted all b u
    unfolding delete_experiments_of
    delete_experiments_of-counts fuel all project (total, more) t h b u run =
        by_evaluations (delete_evaluations_of_experiments s project t) refl
      where
        Answer : Type 0
        Answer = Option (Result (ℕ × ℕ) × Tables s)

        out :
            {a : ℕ × ℕ} {v : Tables s}
            → ◌≡◌ {A = Answer} (some (ok a, v)) (some (ok b, u))
            → (a ≡ b) × (v ≡ u)
        out f = (cc, cc)

        none_ok : ◌≡◌ {A = Answer} none (some (ok b, u)) → ⊥
        none_ok f = cc

        failed :
            {x : Exception} {v : Tables s} → ◌≡◌ {A = Answer} (some (err x, v)) (some (ok b, u)) → ⊥
        failed f = cc

        by_batches :
            (n : ℕ) (v : Tables s)
            → delete_evaluations_of_experiments s project t ≡ some (ok n, v)
            → v.experiments ≡ t.experiments
            → (q : Batches (Experiment s.Time))
            → delete_batches s
                (is_old_experiment s project)
                (λ (x : Experiment s.Time). x.id)
                fuel
                v.experiments
                0
              ≡ q
            → ExperimentsCounted all b u
        by_batches n v e same none d = absurd (none_ok (rw (e, d) at run))
        by_batches n v e same (some (err x, left)) d = absurd (failed (rw (e, d) at run))
        by_batches n v e same (some (ok k, left)) d =
            let (logs, recorded, _) =
              record_deletion_if-IsLogged s laws (ltb 0 k || ltb 0 (more + n))
                (experiments_deleted project k (more + n)) (record v { experiments = left }) in
            let (a, f) = out (rw (e, d, recorded) at run) in
            subst (λ (q : (ℕ × ℕ) × Tables s). ExperimentsCounted all q.0 q.1) (λ i. (a i, f i))
              (loop-counts s laws (is_old_experiment s project) (λ (x : Experiment s.Time). x.id)
                fuel v.experiments all total (rw (same) h) k left d)

        by_evaluations :
            (q : Option (Result ℕ × Tables s))
            → delete_evaluations_of_experiments s project t ≡ q
            → ExperimentsCounted all b u
        by_evaluations none e = absurd (none_ok (rw e at run))
        by_evaluations (some (err x, v)) e = absurd (failed (rw e at run))
        by_evaluations (some (ok n, v)) e =
            by_batches n v e (delete_evaluations_same project t (ok n) v e) _ refl

    -- The experiments policy returns the number of the experiments that it has deleted.
    pub delete_old_experiments-counts :
        (fuel : ℕ) (t : Tables s)
        → Distinct (map (λ (x : Experiment s.Time). x.id) t.experiments)
        → (n : ℕ) (u : Tables s) → delete_old_experiments s fuel t ≡ some (ok n, u)
        → length u.experiments + n ≡ length t.experiments
    unfolding delete_old_experiments
    delete_old_experiments-counts fuel t h n u run =
        go (each (delete_experiments_of s fuel) projects (0, 0) t) refl
      where
        projects : List Project
        projects = s.find (λ (p : Project). is_limited p.experiment_retention_days) t.projects

        Goal : Type 0
        Goal = length u.experiments + n ≡ length t.experiments

        out :
            {a : ℕ} {v : Tables s}
            → ◌≡◌ {A = Option (Result ℕ × Tables s)} (some (ok a, v)) (some (ok n, u))
            → (a ≡ n) × (v ≡ u)
        out f = (cc, cc)

        go :
            (q : Option (Result (ℕ × ℕ) × Tables s))
            → each (delete_experiments_of s fuel) projects (0, 0) t ≡ q
            → Goal
        go none e = let f = rw e at run in absurd (cc)
        go (some (err x, v)) e = let f = rw e at run in absurd (cc)
        go (some (ok (a, c), v)) e =
            let (same, tables) = out (rw e at run) in
            rw (← same, ← tables)
              ((each-keeps (ExperimentsCounted (length t.experiments))
                (delete_experiments_of s fuel)
                (delete_experiments_of-counts fuel (length t.experiments)) projects (0, 0) t
                (h, omega arith) (a, c) v e).1)
