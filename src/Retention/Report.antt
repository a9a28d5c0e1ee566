-- ===== src/Retention/Report.antt =====
-- `runAllRetentionPolicies`: the job and its report.
use arcane_backend.Common.{
  length, ℕ, ◌+◌, ◌<◌, ◌≤◌, some, true, List, [], ◌∷◌, map, Result, ok, ◌≡◌, refl, ap, subst, ◌⊎◌,
  inl, inr, Memᴰ, ◌∙◌,
}
use arcane_backend.Retention.AuditLogs.{IsLogDue, delete_old_audit_logs_lem, fresh_is_young}
use arcane_backend.Platform.Laws.{Distinct}
use arcane_backend.Retention.Counts.{Distinct-HasUniqueIds, delete_old_evaluations-counts}
use arcane_backend.Retention.Counts.AuditLogs.{delete_old_audit_logs-counts}
use arcane_backend.Retention.Counts.Experiments.{delete_old_experiments-counts}
use arcane_backend.Retention.Counts.Invitations.{
  IsReporting, delete_old_organisation_invitations-counts,
}
use arcane_backend.Retention.Evaluations.{IsEvaluationDue, delete_old_evaluations_lem}
use arcane_backend.Retention.Experiments.{IsOf}
use arcane_backend.Retention.Experiments.Laws.{
  IsExperimentDue, limited_projects, delete_old_experiments_lem,
}
use arcane_backend.Retention.Invitations.{IsInvitationDue, delete_old_organisation_invitations_lem}
use arcane_backend.Retention.Loop.{Expires}
use arcane_backend.Retention.Outcome.{IsFresh, IsGrown, trans-IsGrown}
use arcane_backend.Retention.Policies.{
  Tables, PolicyReport, report_of, run_all_retention_policies, delete_old_audit_logs,
  delete_old_evaluations, delete_old_experiments, delete_old_organisation_invitations,
}
use arcane_backend.Retention.Store.{
  AuditLog, Evaluation, Experiment, Organisation, Project, RetentionStore, IsRetentionLawful,
  HasUniqueIds,
}

module _ (s : RetentionStore) where
  -- The ids are keys of their tables.
  abbrev pub HasIds : Tables s → Type 0
  HasIds t =
      Distinct (map (λ (l : AuditLog s.Time). l.id) t.audit_logs)
      × Distinct (map (λ (e : Evaluation s.Time). e.id) t.evaluations)
      × Distinct (map (λ (x : Experiment s.Time). x.id) t.experiments)

  -- What the job has made of the tables, where `a`, `e`, `x` and `i` are what its policies came to.
  pub record IsRetained (t u : Tables s) (a e x i : Result ℕ) : Type 0 where
    pub audit_logs : Expires (IsLogDue s t) (IsFresh s) a t.audit_logs u.audit_logs
    pub fewer_evaluations : (y : Evaluation s.Time) → Memᴰ y u.evaluations → Memᴰ y t.evaluations
    pub old_evaluations :
        (n : ℕ) (y : Evaluation s.Time) → e ≡ ok n → Memᴰ y u.evaluations → ¬ IsEvaluationDue s t y
    pub spared_evaluations :
        (y : Evaluation s.Time)
        → Memᴰ y t.evaluations
        → ¬ IsEvaluationDue s t y
        → ¬ (
            (project : Project) × Memᴰ project (limited_projects s t)
            × ((z : Experiment s.Time) × IsOf s t project y z))
        → Memᴰ y u.evaluations
    pub experiments : Expires (IsExperimentDue s t) (λ _. ⊥) x t.experiments u.experiments
    pub invitations : Expires (IsInvitationDue s) (λ _. ⊥) i t.invitations u.invitations
    pub same : (u.organisations ≡ t.organisations) × (u.projects ≡ t.projects)

  -- The numbers that the policies come to are those of the rows that they have deleted, where `first`
  -- and `middle` are what the policies on audit logs and on evaluations leave. The first of them also
  -- writes entries, at most one for each organisation.
  pub record IsCounted (t first middle u : Tables s) (a e x i : Result ℕ) : Type 0 where
    pub audit_logs :
        (n : ℕ)
        → a ≡ ok n
        → (added : ℕ) × (added ≤ length (s.find (λ (_ : Organisation). true) t.organisations))
          × (length first.audit_logs + n ≡ length t.audit_logs + added)
    pub evaluations : (n : ℕ) → e ≡ ok n → length middle.evaluations + n ≡ length t.evaluations
    pub experiments : (n : ℕ) → x ≡ ok n → length u.experiments + n ≡ length t.experiments
    pub invitations : (n : ℕ) → i ≡ ok n → length u.invitations + n ≡ length t.invitations

  -- The reports on the four policies.
  abbrev pub reports : Result ℕ → Result ℕ → Result ℕ → Result ℕ → List (PolicyReport s)
  reports a e x i =
      report_of s "audit_logs" a
      ∷ report_of s "evaluations" e
      ∷ report_of s "experiments" x
      ∷ report_of s "organisation_invitations" i
      ∷ []

  module _ (laws : IsRetentionLawful s) (reporting : IsReporting s) (fuel : ℕ) where
    -- Where no two logs, evaluations or experiments have one id, the driver reports how many
    -- invitations a deletion has affected, and with fuel for the rows of each table and one more
    -- log in each organisation, the job comes to an end and reports on its four policies in order,
    -- each with what it returns, a number or an exception, from the tables that the one before has
    -- left. A number is that of the rows that the policy has deleted from its own table, which for
    -- the logs has gained at most one entry for each organisation. Whatever the others came to, a
    -- policy that reports no exception has left no row that is due, and no row is gone that is not
    -- due, but for the evaluations of experiments that are due; the audit log has only entries of
    -- the present added.
    pub run_all_retention_policies_lem :
        (t : Tables s)
        → length t.audit_logs + length (s.find (λ (_ : Organisation). true) t.organisations) < fuel
        → length t.evaluations < fuel
        → length t.experiments < fuel
        → HasIds t
        → (a e x i : Result ℕ) × (t₁ t₂ t₃ u : Tables s) × (delete_old_audit_logs s fuel t
            ≡ some (a, t₁))
          × (delete_old_evaluations s fuel t₁ ≡ some (e, t₂))
          × (delete_old_experiments s fuel t₂ ≡ some (x, t₃))
          × (delete_old_organisation_invitations s t₃ ≡ some (i, u))
          × (run_all_retention_policies s fuel t ≡ some (reports a e x i, u))
          × IsRetained t u a e x i
          × IsCounted t t₁ t₂ u a e x i
    unfolding run_all_retention_policies
    run_all_retention_policies_lem t few₁ few₂ few₃ (keys₁, keys₂, keys₃) =
        let ids₁ = Distinct-HasUniqueIds (λ (l : AuditLog s.Time). l.id) t.audit_logs keys₁ in
        let ids₂ = Distinct-HasUniqueIds (λ (e : Evaluation s.Time). e.id) t.evaluations keys₂ in
        let ids₃ = Distinct-HasUniqueIds (λ (x : Experiment s.Time). x.id) t.experiments keys₃ in
        let (a, u₁, e₁, _, h₁, (logs₁, f₁)) = delete_old_audit_logs_lem s laws fuel t few₁ ids₁ in
        let (e₁', h₁') =
          subst
            (λ (w : Tables s).
              (delete_old_audit_logs s fuel t ≡ some (a, w))
              × Expires (IsLogDue s t) (IsFresh s) a t.audit_logs w.audit_logs)
            f₁ (e₁, h₁) in
        let t₁ : Tables s = record t { audit_logs = logs₁ } in
        let (e, u₂, e₂, _, h₂, (rows₂, logs₂, f₂, g₂)) =
          delete_old_evaluations_lem s laws fuel t₁ few₂ ids₂ in
        let (e₂', h₂') =
          subst
            (λ (w : Tables s).
              (delete_old_evaluations s fuel t₁ ≡ some (e, w))
              × Expires (IsEvaluationDue s t₁) (λ _. ⊥) e t.evaluations w.evaluations)
            f₂ (e₂, h₂) in
        let t₂ : Tables s = record t₁ { evaluations = rows₂; audit_logs = logs₂ } in
        let (x, u₃, e₃, _, h₃, c₃) =
          delete_old_experiments_lem s laws fuel t₂ few₃ ids₃ (still rows₂ h₂' ids₂) in
        let t₃ : Tables s = record t₂ {
          evaluations = u₃.evaluations;
          experiments = u₃.experiments;
          audit_logs = u₃.audit_logs;
        } in
        let (i, u₄, e₄, _, h₄, (rows₄, logs₄, f₄, g₄)) =
          delete_old_organisation_invitations_lem s laws t₃ in
        let (e₄', h₄') =
          subst
            (λ (w : Tables s).
              (delete_old_organisation_invitations s t₃ ≡ some (i, w))
              × Expires (IsInvitationDue s) (λ _. ⊥) i t.invitations w.invitations)
            f₄ (e₄, h₄) in
        let e₃' = e₃ ∙ ap (λ (w : Tables s). some (x, w)) c₃.same in
        (
          a,
          e,
          x,
          i,
          t₁,
          t₂,
          t₃,
          record t₃ { invitations = rows₄; audit_logs = logs₄ },
          e₁',
          e₂',
          e₃',
          e₄',
          rw (e₁', e₂', e₃', e₄') refl,
          record {
            audit_logs = grown-Expires t a h₁' (trans-IsGrown s (trans-IsGrown s g₂ c₃.logs) g₄);
            fewer_evaluations = λ y m. source y (h₂'.sources y (c₃.evaluations y m));
            old_evaluations = λ n y q m. h₂'.gone n y q (c₃.evaluations y m);
            spared_evaluations = λ y m young free.
                c₃.spared y (h₂'.kept y m young) (λ (project, k, (z, (scope, own, n, old, link))).
                  free (project, k, (z, (scope, own, n, old, link))));
            experiments = h₃;
            invitations = h₄';
            same = (refl, refl);
          },
          record {
            audit_logs = λ n q.
                delete_old_audit_logs-counts s laws fuel t keys₁ n t₁
                  (e₁' ∙ ap (λ (r : Result ℕ). some (r, t₁)) q);
            evaluations = λ n q.
                delete_old_evaluations-counts s laws fuel t₁ keys₂ n t₂
                  (e₂' ∙ ap (λ (r : Result ℕ). some (r, t₂)) q);
            experiments = λ n q.
                delete_old_experiments-counts s laws fuel t₂ keys₃ n t₃
                  (e₃' ∙ ap (λ (r : Result ℕ). some (r, t₃)) q);
            invitations = λ n q.
                delete_old_organisation_invitations-counts s laws reporting t₃ n
                  (record t₃ { invitations = rows₄; audit_logs = logs₄ })
                  (e₄'
                    ∙ ap
                        (λ (r : Result ℕ).
                          some (r, record t₃ { invitations = rows₄; audit_logs = logs₄ }))
                        q);
          },
        )
      where
        source : (y : Evaluation s.Time) → Memᴰ y t.evaluations ⊎ ⊥ → Memᴰ y t.evaluations
        source y (inl m) = m
        source y (inr k) = absurd k

        still :
            (rows : List (Evaluation s.Time)) {r : Result ℕ}
            → Expires (IsEvaluationDue s t) (λ _. ⊥) r t.evaluations rows
            → HasUniqueIds (λ (e : Evaluation s.Time). e.id) t.evaluations
            → HasUniqueIds (λ (e : Evaluation s.Time). e.id) rows
        still rows h u y z m k = u y z (source y (h.sources y m)) (source z (h.sources z k))

        -- Entries of the present are due in no organisation.
        grown-Expires :
            (v : Tables s) (r : Result ℕ) {before middle after : List (AuditLog s.Time)}
            → Expires (IsLogDue s v) (IsFresh s) r before middle
            → IsGrown s middle after
            → Expires (IsLogDue s v) (IsFresh s) r before after
        grown-Expires v r h g = record {
          kept = λ l m young. g.kept l (h.kept l m young);
          sources = λ l m. elim (g.sources l m) [ inl k ↦ h.sources l k | inr fresh ↦ inr fresh ];
          gone = λ n l q m (org, k, due). elim (g.sources l m) [
            | inl d ↦ h.gone n l q d (org, k, due)
            | inr fresh ↦ fresh_is_young s org l fresh due
          ];
        }
