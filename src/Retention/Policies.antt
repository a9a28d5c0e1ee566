-- ===== src/Retention/Policies.antt =====
-- The four policies and the job that runs them.
use arcane_backend.Common.{
  ltb, length, ℕ, ◌+◌, String, Option, none, some, Bool, true, false, ◌&&◌, ◌||◌, ◌==◌, List, [],
  ◌∷◌, map, Result, ok, err, includes, some_of, same_id, if◌then◌else◌,
}
use arcane_backend.Exception.{Exception}
use arcane_backend.Rbac.Membership.{is_found}
use arcane_backend.Retention.Batches.{Job, done, next, ◌>>=◌, ◌>>◌, Batches, delete_batches, each}
use arcane_backend.Retention.Store.{
  EvaluationScope, dataset, experiment, InvitationStatus, pending, accepted, expired, revoked,
  RetentionEvent, AuditLog, Evaluation, Experiment, OrganisationInvitation, Organisation, Project,
  RetentionStore,
}

-- `DEFAULT_RETENTION` and `RETENTION_CONFIG.INVITATIONS`
abbrev pub default_audit_log_days : ℕ
default_audit_log_days = 365

abbrev pub default_evaluation_days : ℕ
default_evaluation_days = 90

abbrev pub default_experiment_days : ℕ
default_experiment_days = 90

abbrev pub expired_rejected_days : ℕ
expired_rejected_days = 90

abbrev pub accepted_days : ℕ
accepted_days = 7

-- `setting ?? default`
abbrev pub or_default : ℕ → Option ℕ → ℕ
or_default d none = d
or_default d (some n) = n

-- `LessThan(999999)`, which no null meets
abbrev pub is_limited : Option ℕ → Bool
is_limited none = false
is_limited (some n) = ltb n 999999

abbrev pub audit_logs_deleted : Organisation → ℕ → RetentionEvent
audit_logs_deleted org deleted = record {
  resource_type = "audit_log";
  organisation_id = some org.id;
  project_id = none;
  retention_policy = "audit_logs";
  retention_days = some (or_default default_audit_log_days org.audit_log_retention_days);
  records_deleted = deleted;
  evaluations_deleted = none;
}

abbrev pub evaluations_deleted_event : Project → ℕ → RetentionEvent
evaluations_deleted_event project deleted = record {
  resource_type = "evaluation";
  organisation_id = some project.organisation_id;
  project_id = some project.id;
  retention_policy = "evaluations";
  retention_days = some (or_default default_evaluation_days project.evaluation_retention_days);
  records_deleted = deleted;
  evaluations_deleted = none;
}

abbrev pub is_experiment_scope : EvaluationScope → Bool
is_experiment_scope experiment = true
is_experiment_scope dataset = false

-- `evaluation_experiments` joins the evaluation to one of the experiments.
unfoldable pub is_linked : List (String × String) → List String → String → Bool
unfolding includes some_of
is_linked links ids id =
    some_of
      (λ ((evaluation_id, experiment_id) : String × String).
        evaluation_id == id && includes ids experiment_id)
      links

abbrev pub experiments_deleted : Project → ℕ → ℕ → RetentionEvent
experiments_deleted project deleted evaluations = record {
  resource_type = "experiment";
  organisation_id = some project.organisation_id;
  project_id = some project.id;
  retention_policy = "experiments";
  retention_days = some (or_default default_experiment_days project.experiment_retention_days);
  records_deleted = deleted;
  evaluations_deleted = some evaluations;
}

abbrev pub is_expired_or_revoked : InvitationStatus → Bool
is_expired_or_revoked expired = true
is_expired_or_revoked revoked = true
is_expired_or_revoked pending = false
is_expired_or_revoked accepted = false

abbrev pub is_accepted : InvitationStatus → Bool
is_accepted accepted = true
is_accepted pending = false
is_accepted expired = false
is_accepted revoked = false

module _ (s : RetentionStore) where
  pub record Tables : Type 0 where
    pub audit_logs : List (AuditLog s.Time)
    pub evaluations : List (Evaluation s.Time)
    -- (evaluation_id, experiment_id)
    pub evaluation_experiments : List (String × String)
    pub experiments : List (Experiment s.Time)
    pub invitations : List (OrganisationInvitation s.Time)
    pub organisations : List Organisation
    pub projects : List Project

  -- `auditService.record`: a failed write is logged and forgotten.
  abbrev pub written : Tables → Option (List (AuditLog s.Time)) → Tables
  written t none = t
  written t (some rows) = record t { audit_logs = rows }

  unfoldable pub record_deletion : RetentionEvent → Job Tables (Unit {0})
  record_deletion event t = some (ok tt, written t (s.write_log event t.audit_logs))

  abbrev pub record_deletion_if : Bool → RetentionEvent → Job Tables (Unit {0})
  record_deletion_if b event = if b then record_deletion event else done tt

  unfoldable pub is_old_log : Organisation → AuditLog s.Time → Bool
  is_old_log org log =
      same_id log.organisation_id (some org.id)
      && s.is_before log.created_at
          (s.cutoff_date org.id (or_default default_audit_log_days org.audit_log_retention_days))

  -- A loop over batches of one table.
  abbrev pub on_audit_logs : Batches (AuditLog s.Time) → Tables → Option (Result ℕ × Tables)
  on_audit_logs none t = none
  on_audit_logs (some (r, rows)) t = some (r, record t { audit_logs = rows })

  abbrev pub on_evaluations : Batches (Evaluation s.Time) → Tables → Option (Result ℕ × Tables)
  on_evaluations none t = none
  on_evaluations (some (r, rows)) t = some (r, record t { evaluations = rows })

  abbrev pub on_experiments : Batches (Experiment s.Time) → Tables → Option (Result ℕ × Tables)
  on_experiments none t = none
  on_experiments (some (r, rows)) t = some (r, record t { experiments = rows })

  unfoldable pub delete_audit_logs_of : ℕ → Organisation → ℕ → Job Tables ℕ
  unfolding delete_batches is_old_log record_deletion
  delete_audit_logs_of fuel org total = do
    deleted ←
        λ t. on_audit_logs (delete_batches s (is_old_log org) (λ l. l.id) fuel t.audit_logs 0) t
    record_deletion_if (ltb 0 deleted) (audit_logs_deleted org deleted)
    done (total + deleted)

  unfoldable pub delete_old_audit_logs : ℕ → Job Tables ℕ
  unfolding delete_audit_logs_of each
  delete_old_audit_logs fuel t =
      each (delete_audit_logs_of fuel) (s.find (λ _. true) t.organisations) 0 t

  unfoldable pub is_old_evaluation : Project → Evaluation s.Time → Bool
  is_old_evaluation project e =
      e.project_id == project.id
      && s.is_before e.created_at (
          s.cutoff_date project.id
            (or_default default_evaluation_days project.evaluation_retention_days))

  unfoldable pub delete_evaluations_of : ℕ → Project → ℕ → Job Tables ℕ
  unfolding delete_batches is_old_evaluation record_deletion
  delete_evaluations_of fuel project total = do
    deleted ← λ t.
        on_evaluations
          (delete_batches s (is_old_evaluation project) (λ e. e.id) fuel t.evaluations 0) t
    record_deletion_if (ltb 0 deleted) (evaluations_deleted_event project deleted)
    done (total + deleted)

  unfoldable pub delete_old_evaluations : ℕ → Job Tables ℕ
  unfolding delete_evaluations_of each
  delete_old_evaluations fuel t =
      each (delete_evaluations_of fuel) (s.find (λ _. true) t.projects) 0 t

  unfoldable pub is_old_experiment : Project → Experiment s.Time → Bool
  is_old_experiment project e =
      e.project_id == project.id
      && s.is_before e.created_at (
          s.cutoff_date project.id
            (or_default default_experiment_days project.experiment_retention_days))

  unfoldable pub is_evaluation_of :
      List (String × String) → Project → List String → Evaluation s.Time → Bool
  unfolding is_linked
  is_evaluation_of links project ids e =
      is_experiment_scope e.evaluation_scope
      && (e.project_id == project.id && is_linked links ids e.id)

  -- What a deletion of evaluations comes to, and how many there were.
  abbrev pub evaluations_left :
      Result (List (Evaluation s.Time)) → ℕ → Tables → Option (Result ℕ × Tables)
  evaluations_left (ok left) deleted t = some (ok deleted, record t { evaluations = left })
  evaluations_left (err e) deleted t = some (err e, t)

  -- `evaluationRepository.delete(evalIds)`, where there are any
  abbrev pub delete_found_evaluations : List (Evaluation s.Time) → Job Tables ℕ
  delete_found_evaluations [] t = some (ok 0, t)
  delete_found_evaluations (e ∷ es) t =
      evaluations_left
        (s.delete
          (λ (r : Evaluation s.Time).
            includes (map (λ (x : Evaluation s.Time). x.id) (e ∷ es)) r.id)
          t.evaluations)
        (length (e ∷ es)) t

  -- The evaluations that refer to the experiments about to be deleted.
  unfoldable pub delete_evaluations_of_experiments : Project → Job Tables ℕ
  unfolding is_evaluation_of is_old_experiment
  delete_evaluations_of_experiments project t =
      let ids =
        map (λ (x : Experiment s.Time). x.id) (s.find (is_old_experiment project) t.experiments) in
      if is_found ids
      then delete_found_evaluations
          (s.find (is_evaluation_of t.evaluation_experiments project ids) t.evaluations) t
      else some (ok 0, t)

  -- The loop carries `totalDeleted` and `evaluationsDeleted`.
  unfoldable pub delete_experiments_of : ℕ → Project → ℕ × ℕ → Job Tables (ℕ × ℕ)
  unfolding delete_batches delete_evaluations_of_experiments is_old_experiment record_deletion
  delete_experiments_of fuel project (total, evaluations) = do
    more ← delete_evaluations_of_experiments project
    deleted ← λ t.
        on_experiments
          (delete_batches s (is_old_experiment project) (λ e. e.id) fuel t.experiments 0) t
    record_deletion_if (ltb 0 deleted || ltb 0 (evaluations + more))
        (experiments_deleted project deleted (evaluations + more))
    done (total + deleted, evaluations + more)

  unfoldable pub delete_old_experiments : ℕ → Job Tables ℕ
  unfolding delete_experiments_of each
  delete_old_experiments fuel t =
      next
        (each (delete_experiments_of fuel)
          (s.find (λ (p : Project). is_limited p.experiment_retention_days) t.projects) (0, 0) t)
        (λ (total, _). done total)

  -- a comparison with a column that may be null
  abbrev pub is_some_before : Option s.Time → s.Time → Bool
  is_some_before none cutoff = false
  is_some_before (some time) cutoff = s.is_before time cutoff

  unfoldable pub is_lapsed : OrganisationInvitation s.Time → Bool
  is_lapsed i =
      is_expired_or_revoked i.status
      && s.is_before i.created_at (s.cutoff_date "" expired_rejected_days)

  unfoldable pub is_settled : OrganisationInvitation s.Time → Bool
  is_settled i =
      is_accepted i.status && is_some_before i.accepted_at (s.cutoff_date "" accepted_days)

  abbrev pub invitations_left :
      Result (List (OrganisationInvitation s.Time)) → ℕ → Tables → Option (Result ℕ × Tables)
  invitations_left (ok left) deleted t = some (ok deleted, record t { invitations = left })
  invitations_left (err e) deleted t = some (err e, t)

  -- `createQueryBuilder().delete().where(…).execute()`, and `affected || 0`
  unfoldable pub delete_invitations : (OrganisationInvitation s.Time → Bool) → Job Tables ℕ
  delete_invitations test t =
      invitations_left (s.delete test t.invitations) (or_default 0 (s.affected test t.invitations))
        t

  unfoldable pub delete_old_organisation_invitations : Job Tables ℕ
  unfolding delete_invitations is_lapsed is_settled record_deletion
  delete_old_organisation_invitations = do
    lapsed ← delete_invitations is_lapsed
    settled ← delete_invitations is_settled
    record_deletion_if (ltb 0 (lapsed + settled)) (record {
      resource_type = "organisation_invitation";
      organisation_id = none;
      project_id = none;
      retention_policy = "organisation_invitations";
      retention_days = none;
      records_deleted = lapsed + settled;
      evaluations_deleted = none;
    })
    done (lapsed + settled)

  -- An entry of the report, less the time that the policy took.
  pub record PolicyReport : Type 0 where
    pub name : String
    pub records_deleted : ℕ
    pub error : Option Exception

  abbrev pub report_of : String → Result ℕ → PolicyReport
  report_of name (ok n) = record { name = name; records_deleted = n; error = none }
  report_of name (err e) = record { name = name; records_deleted = 0; error = some e }

  -- `for (const policy of policiesToRun) try { … } catch { … }`: the reports in order, and the tables
  abbrev pub with_report :
      PolicyReport → Option (List PolicyReport × Tables) → Option (List PolicyReport × Tables)
  with_report report none = none
  with_report report (some (reports, t)) = some (report ∷ reports, t)

  -- what follows a policy, where `rest` runs the others
  abbrev pub report_policy :
      String
      → Option (Result ℕ × Tables)
      → (Tables → Option (List PolicyReport × Tables))
      → Option (List PolicyReport × Tables)
  report_policy name none rest = none
  report_policy name (some (r, t)) rest = with_report (report_of name r) (rest t)

  unfoldable pub run_policies :
      List (String × Job Tables ℕ) → Tables → Option (List PolicyReport × Tables)
  run_policies [] t = some ([], t)
  run_policies ((name, policy) ∷ policies) t = report_policy name (policy t) (run_policies policies)

  unfoldable pub run_all_retention_policies : ℕ → Tables → Option (List PolicyReport × Tables)
  unfolding run_policies
  run_all_retention_policies fuel = run_policies (
      ("audit_logs", delete_old_audit_logs fuel)
      ∷ ("evaluations", delete_old_evaluations fuel)
      ∷ ("experiments", delete_old_experiments fuel)
      ∷ ("organisation_invitations", delete_old_organisation_invitations)
      ∷ [])
