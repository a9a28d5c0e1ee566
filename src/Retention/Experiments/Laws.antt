-- ===== src/Retention/Experiments/Laws.antt =====
-- What `deleteOldExperiments` leaves, after every project has had its turn.
use arcane_backend.Common.{
  ltb, length, ℕ, suc, ◌+◌, ◌<◌, some, true, List, Result, ok, err, ◌≡◌, refl, ◌↔◌, inl, inr, Memᴰ,
  ◌∙◌, ◌||◌, arith,
}
use arcane_backend.Retention.Batches.{each, delete_batches}
use arcane_backend.Retention.Loop.{Expires, Expires-iff, Ended, delete_batches-Ended}
use arcane_backend.Retention.Outcome.{
  each-Expires, Turned, IsGrown, same-IsGrown, record_deletion_if-IsLogged,
}
use arcane_backend.Retention.Policies.{
  Tables, is_old_experiment, delete_experiments_of, delete_old_experiments, experiments_deleted,
  delete_evaluations_of_experiments, is_limited,
}
use arcane_backend.Retention.Store.{
  AuditLog, Evaluation, Experiment, Project, RetentionStore, IsRetentionLawful, HasUniqueIds,
}
use arcane_backend.Retention.Experiments.{
  IsCleared, delete_evaluations_of_experiments-IsCleared, IsPastRetention, is_old_experiment_iff,
  IsCleanUp, same-IsCleanUp, trans-IsCleanUp,
}

module _ (s : RetentionStore) where
  -- The projects that have set a retention period for experiments.
  abbrev pub limited_projects : Tables s → List Project
  limited_projects t = s.find (λ (q : Project). is_limited q.experiment_retention_days) t.projects

  -- The experiment is from before the retention period of a project that has set one.
  abbrev pub IsExperimentDue : Tables s → Experiment s.Time → Type 0
  IsExperimentDue t x =
      (project : Project) × (Memᴰ project t.projects
        × (is_limited project.experiment_retention_days ≡ true))
      × IsPastRetention s project x

  module _ (laws : IsRetentionLawful s) (fuel : ℕ) (projects : List Project) where
    -- Enough fuel for every experiment there is.
    abbrev HasFuel : ℕ → Tables s → Type 0
    HasFuel n t =
        (length t.experiments < fuel)
        × HasUniqueIds (λ (x : Experiment s.Time). x.id) t.experiments
        × HasUniqueIds (λ (e : Evaluation s.Time). e.id) t.evaluations

    module _ (project : Project) (listed : Memᴰ project projects) (t : Tables s) where
      -- The evaluations of the old experiments are deleted before the experiments.
      turn-IsCleanUp :
          (more : ℕ) (left : List (Evaluation s.Time)) (rest : List (Experiment s.Time))
          (logs : List (AuditLog s.Time)) {A : Type 0} {r : Result A}
          → IsCleared s laws project t (ok more) left
          → Expires (λ x. is_old_experiment s project x ≡ true) (λ _. ⊥) r t.experiments rest
          → IsGrown s t.audit_logs logs
          → IsCleanUp s projects t
              (record t { evaluations = left; experiments = rest; audit_logs = logs })
      turn-IsCleanUp more left rest logs cleared h keeps = record {
        same = refl;
        logs = keeps;
        experiments = λ x m. elim (h.sources x m) [ inl k ↦ k | inr k ↦ absurd k ];
        evaluations = cleared.fewer;
        spared = λ e m free. cleared.spared e m (λ (x, of). free (project, listed, (x, of)));
        together = λ e x m n scope own link. h.kept x n (λ old.
            cleared.cleared more e x refl m
              (scope, own ∙ ((is_old_experiment_iff s project x).0 old).0, n, old, link));
      }

      stopped-IsCleanUp :
          (r : Result ℕ) (left : List (Evaluation s.Time))
          → IsCleared s laws project t r left
          → IsCleanUp s projects t (record t { evaluations = left })
      stopped-IsCleanUp r left cleared = record {
        same = refl;
        logs = same-IsGrown s t.audit_logs;
        experiments = λ x m. m;
        evaluations = cleared.fewer;
        spared = λ e m free. cleared.spared e m (λ (x, of). free (project, listed, (x, of)));
        together = λ e x _ n _ _ _. n;
      }

      delete_experiments_of-Turned :
          (a : ℕ × ℕ) (n : ℕ)
          → HasFuel (suc n) t
          → Turned
              (λ (u : Tables s). u.experiments)
              (λ _. ⊥)
              (IsCleanUp s projects)
              (IsPastRetention s project)
              (HasFuel n)
              (delete_experiments_of s fuel project a t)
              t
      unfolding delete_experiments_of
      delete_experiments_of-Turned (total, evaluations) n (few, unique, unique') =
          by_evaluations (delete_evaluations_of_experiments-IsCleared s laws project t unique')
        where
          Goal : Type 0
          Goal =
              Turned (λ (u : Tables s). u.experiments) (λ _. ⊥) (IsCleanUp s projects)
                (IsPastRetention s project) (HasFuel n)
                (delete_experiments_of s fuel project (total, evaluations) t) t

          still :
              (r : Result ℕ) (left : List (Evaluation s.Time))
              → IsCleared s laws project t r left
              → HasUniqueIds (λ (e : Evaluation s.Time). e.id) left
          still r left cleared x y m k = unique' x y (cleared.fewer x m) (cleared.fewer y k)

          by_experiments :
              (more : ℕ) (left : List (Evaluation s.Time))
              → delete_evaluations_of_experiments s project t
                ≡ some (ok more, record t { evaluations = left })
              → IsCleared s laws project t (ok more) left
              → Ended s laws
                  (is_old_experiment s project)
                  (λ (x : Experiment s.Time). x.id)
                  (delete_batches s
                    (is_old_experiment s project)
                    (λ (x : Experiment s.Time). x.id)
                    fuel
                    t.experiments
                    0)
                  t.experiments
              → Goal
          by_experiments more left e cleared (err x, rest, ends, le, u, h) = (
            err x,
            record t { evaluations = left; experiments = rest },
            rw (e, ends) refl,
            (omega arith, u, still (ok more) left cleared),
            Expires-iff (is_old_experiment_iff s project)
                (record { kept = h.kept; sources = h.sources; gone = λ a y q. cc }),
            turn-IsCleanUp more left rest t.audit_logs cleared h (same-IsGrown s t.audit_logs),
          )
          by_experiments more left e cleared (ok deleted, rest, ends, le, u, h) =
              let (logs, recorded, logged) =
                record_deletion_if-IsLogged s laws (ltb 0 deleted || ltb 0 (evaluations + more))
                  (experiments_deleted project deleted (evaluations + more))
                  (record t { evaluations = left; experiments = rest }) in
              (
                ok (total + deleted, evaluations + more),
                record t { evaluations = left; experiments = rest; audit_logs = logs },
                rw (e, ends, recorded) refl,
                (omega arith, u, still (ok more) left cleared),
                Expires-iff (is_old_experiment_iff s project) (record {
                  kept = h.kept;
                  sources = h.sources;
                  gone = λ a y _. h.gone deleted y refl;
                }),
                turn-IsCleanUp more left rest logs cleared h logged.grown,
              )

          by_evaluations :
              (r : Result ℕ) × (left : List (Evaluation s.Time))
                × (delete_evaluations_of_experiments s project t
                    ≡ some (r, record t { evaluations = left }))
                × IsCleared s laws project t r left
              → Goal
          by_evaluations (err x, left, e, cleared) = (
            err x,
            record t { evaluations = left },
            rw e refl,
            (few, unique, still (err x) left cleared),
            record { kept = λ y m _. m; sources = λ y m. inl m; gone = λ a y q. cc },
            stopped-IsCleanUp (err x) left cleared,
          )
          by_evaluations (ok more, left, e, cleared) = by_experiments more left e cleared (
              delete_batches-Ended s laws (is_old_experiment s project)
                (λ (x : Experiment s.Time). x.id) fuel t.experiments 0 few unique)

  module _ (laws : IsRetentionLawful s) (fuel : ℕ) where
    -- Where an id names one experiment or evaluation, and with fuel for the experiments, the policy
    -- comes to an end. It deletes no experiment but those that are due, and unless a deletion fails
    -- it leaves none of these. No evaluation goes but those of experiments that are due. Even where
    -- a deletion fails, every experiment that an evaluation of the experiment scope that is left refers
    -- to in its own project is left too; evaluations of the dataset scope stay without theirs.
    pub delete_old_experiments_lem :
        (t : Tables s)
        → length t.experiments < fuel
        → HasUniqueIds (λ (x : Experiment s.Time). x.id) t.experiments
        → HasUniqueIds (λ (e : Evaluation s.Time). e.id) t.evaluations
        → Turned
            (λ (u : Tables s). u.experiments)
            (λ _. ⊥)
            (IsCleanUp s (limited_projects t))
            (IsExperimentDue t)
            (λ _. Unit {0})
            (delete_old_experiments s fuel t)
            t
    unfolding delete_old_experiments
    delete_old_experiments_lem t few unique unique' = finish (
        each-Expires (λ (v : Tables s). v.experiments) (IsPastRetention s) (λ _. ⊥)
          (λ project x none_added _. none_added) (λ project. Memᴰ project (limited_projects t))
          (HasFuel laws fuel (limited_projects t)) (IsCleanUp s (limited_projects t))
          (same-IsCleanUp s (limited_projects t)) (trans-IsCleanUp s (limited_projects t))
          (delete_experiments_of s fuel)
          (λ project a n v listed good.
            delete_experiments_of-Turned laws fuel (limited_projects t) project listed v a n good)
          (limited_projects t) (λ _ m. m) (0, 0) t (few, unique, unique'))
      where
        Due : Experiment s.Time → Type 0
        Due x =
            (project : Project) × Memᴰ project (limited_projects t) × IsPastRetention s project x

        due_iff : (x : Experiment s.Time) → Due x ↔ IsExperimentDue t x
        due_iff x = (
          λ (project, m, old). (project, (laws.mem_find _ t.projects project).0 m, old),
          λ (project, (m, set), old).
              (project, (laws.mem_find _ t.projects project).1 (m, set), old),
        )

        finish :
            Turned
              (λ (u : Tables s). u.experiments)
              (λ _. ⊥)
              (IsCleanUp s (limited_projects t))
              Due
              (λ _. Unit {0})
              (each (delete_experiments_of s fuel) (limited_projects t) (0, 0) t)
              t
            → Turned
                (λ (u : Tables s). u.experiments)
                (λ _. ⊥)
                (IsCleanUp s (limited_projects t))
                (IsExperimentDue t)
                (λ _. Unit {0})
                (delete_old_experiments s fuel t)
                t
        finish (ok (total, evaluations), u, e, _, h, f) = (
          ok total,
          u,
          rw e refl,
          tt,
          Expires-iff due_iff (record {
            kept = h.kept;
            sources = h.sources;
            gone = λ a x _. h.gone (total, evaluations) x refl;
          }),
          f,
        )
        finish (err c, u, e, _, h, f) = (
          err c,
          u,
          rw e refl,
          tt,
          Expires-iff due_iff (record { kept = h.kept; sources = h.sources; gone = λ a x q. cc }),
          f,
        )
