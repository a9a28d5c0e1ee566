-- ===== src/Retention/Evaluations.antt =====
-- What `deleteOldEvaluations` leaves of the evaluations.
use arcane_backend.Common.{
  ltb, length, ℕ, suc, ◌+◌, ◌<◌, true, List, ok, err, ◌≡◌, refl, ap, ◌↔◌, Memᴰ, ◌∙◌, eq_iff,
  and-eq-true, arith,
}
use arcane_backend.Retention.Batches.{delete_batches}
use arcane_backend.Retention.Loop.{Expires-iff, Ended, delete_batches-Ended}
use arcane_backend.Retention.Outcome.{
  each-Expires, Turned, IsGrown, same-IsGrown, trans-IsGrown, record_deletion_if-IsLogged,
}
use arcane_backend.Retention.Policies.{
  Tables, is_old_evaluation, default_evaluation_days, or_default, delete_evaluations_of,
  delete_old_evaluations, evaluations_deleted_event,
}
use arcane_backend.Retention.Store.{
  AuditLog, Evaluation, Project, RetentionStore, IsRetentionLawful, HasUniqueIds,
}

module _ (s : RetentionStore) where
  -- The evaluation is one of the project, from before its retention period.
  abbrev pub IsPastRetention : Project → Evaluation s.Time → Type 0
  IsPastRetention project e =
      (e.project_id ≡ project.id)
      × (s.is_before e.created_at (
            s.cutoff_date project.id
              (or_default default_evaluation_days project.evaluation_retention_days))
          ≡ true)

  abbrev pub IsEvaluationDue : Tables s → Evaluation s.Time → Type 0
  IsEvaluationDue t e = (project : Project) × Memᴰ project t.projects × IsPastRetention project e

  is_old_evaluation_iff :
      (project : Project) (e : Evaluation s.Time)
      → (is_old_evaluation s project e ≡ true) ↔ IsPastRetention project e
  unfolding is_old_evaluation
  is_old_evaluation_iff project e = (
    λ h. let (own, late) = and-eq-true _ _ h in ((eq_iff e.project_id project.id).0 own, late),
    λ (own, late). rw ((eq_iff e.project_id project.id).1 own, late) refl,
  )

  -- Only the evaluations have changed, and the audit log, which has grown.
  abbrev pub OnlyEvaluations : Tables s → Tables s → Type 0
  OnlyEvaluations t u =
      (rows : List (Evaluation s.Time)) × (logs : List (AuditLog s.Time)) × (u
        ≡ record t { evaluations = rows; audit_logs = logs })
      × IsGrown s t.audit_logs logs

  only_trans : (t u v : Tables s) → OnlyEvaluations t u → OnlyEvaluations u v → OnlyEvaluations t v
  only_trans t u v (_, _, e, keeps) (rows, logs, f, keeps') = (
    rows,
    logs,
    f ∙ ap (λ (w : Tables s). record w { evaluations = rows; audit_logs = logs }) e,
    trans-IsGrown s
        (let k : IsGrown s t.audit_logs u.audit_logs =
            rw (ap (λ (w : Tables s). w.audit_logs) e) keeps in
          k)
        keeps',
  )

  module _ (laws : IsRetentionLawful s) (fuel : ℕ) where
    -- Enough fuel for every evaluation there is.
    abbrev HasFuel : ℕ → Tables s → Type 0
    HasFuel n t =
        (length t.evaluations < fuel) × HasUniqueIds (λ (e : Evaluation s.Time). e.id) t.evaluations

    delete_evaluations_of-Turned :
        (project : Project) (total n : ℕ) (t : Tables s)
        → HasFuel (suc n) t
        → Turned
            (λ (u : Tables s). u.evaluations)
            (λ _. ⊥)
            OnlyEvaluations
            (IsPastRetention project)
            (HasFuel n)
            (delete_evaluations_of s fuel project total t)
            t
    unfolding delete_evaluations_of
    delete_evaluations_of-Turned project total n t (few, unique) = go (
        delete_batches-Ended s laws (is_old_evaluation s project) (λ (e : Evaluation s.Time). e.id)
          fuel t.evaluations 0 few unique)
      where
        Loop : Type 0
        Loop =
            Ended s laws (is_old_evaluation s project) (λ (e : Evaluation s.Time). e.id)
              (delete_batches s (is_old_evaluation s project) (λ (e : Evaluation s.Time). e.id) fuel
                t.evaluations 0)
              t.evaluations

        go :
            Loop
            → Turned
                (λ (u : Tables s). u.evaluations)
                (λ _. ⊥)
                OnlyEvaluations
                (IsPastRetention project)
                (HasFuel n)
                (delete_evaluations_of s fuel project total t)
                t
        go (err x, left, e, le, u, h) = (
          err x,
          record t { evaluations = left },
          rw e refl,
          (omega arith, u),
          Expires-iff (is_old_evaluation_iff project)
              (record { kept = h.kept; sources = h.sources; gone = λ a y q. cc }),
          (left, t.audit_logs, refl, same-IsGrown s t.audit_logs),
        )
        go (ok deleted, left, e, le, u, h) =
            let (logs, recorded, logged) =
              record_deletion_if-IsLogged s laws (ltb 0 deleted)
                (evaluations_deleted_event project deleted) (record t { evaluations = left }) in
            (
              ok (total + deleted),
              record t { evaluations = left; audit_logs = logs },
              rw (e, recorded) refl,
              (omega arith, u),
              Expires-iff (is_old_evaluation_iff project) (record {
                kept = h.kept;
                sources = h.sources;
                gone = λ a y _. h.gone deleted y refl;
              }),
              (left, logs, refl, logged.grown),
            )

    -- Where an id names one evaluation, and with fuel for the evaluations, the policy comes to an end.
    -- It deletes no evaluation but those of a project from before its retention period, and unless a
    -- deletion fails it leaves none of these. No other table changes but the audit log, which loses
    -- nothing and has only entries of the present added.
    pub delete_old_evaluations_lem :
        (t : Tables s)
        → length t.evaluations < fuel
        → HasUniqueIds (λ (e : Evaluation s.Time). e.id) t.evaluations
        → Turned
            (λ (u : Tables s). u.evaluations)
            (λ _. ⊥)
            OnlyEvaluations
            (IsEvaluationDue t)
            (λ _. Unit {0})
            (delete_old_evaluations s fuel t)
            t
    unfolding delete_old_evaluations
    delete_old_evaluations_lem t few unique =
        let projects = s.find (λ (_ : Project). true) t.projects in
        let (r, u, e, _, h, f) =
          each-Expires (λ (v : Tables s). v.evaluations) IsPastRetention (λ _. ⊥)
            (λ project x no _. no) (λ _. Unit {0}) HasFuel OnlyEvaluations
            (λ v. (v.evaluations, v.audit_logs, refl, same-IsGrown s v.audit_logs)) only_trans
            (delete_evaluations_of s fuel)
            (λ project total n v _ good. delete_evaluations_of-Turned project total n v good)
            projects (λ _ _. tt) 0 t (few, unique) in
        (
          r,
          u,
          e,
          tt,
          Expires-iff
              (λ x. (
                λ (project, m, old). (project, ((laws.mem_find _ t.projects project).0 m).0, old),
                λ (project, m, old).
                    (project, (laws.mem_find _ t.projects project).1 (m, refl), old),
              ))
              h,
          f,
        )
