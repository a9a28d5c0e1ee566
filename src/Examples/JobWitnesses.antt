-- ===== src/Examples/JobWitnesses.antt =====
-- The theorems on the retention job, at the samples.
use arcane_backend.Common.{ℕ, some, ◌≡◌, Result, arith, filter_by}
use arcane_backend.Examples.RetentionInMemory.{store, store_lawful, store-IsReporting}
use arcane_backend.Examples.Samples.{
  retention_tables, logs-HasUniqueIds, evaluations-HasUniqueIds, experiments-HasUniqueIds,
  retention_tables-HasIds,
}
use arcane_backend.Retention.AuditLogs.{IsLogDue, OnlyLogs, delete_old_audit_logs_lem}
use arcane_backend.Retention.Batches.{delete_batches}
use arcane_backend.Retention.Evaluations.{
  IsEvaluationDue, OnlyEvaluations, delete_old_evaluations_lem,
}
use arcane_backend.Retention.Experiments.{IsCleanUp}
use arcane_backend.Retention.Experiments.Laws.{
  IsExperimentDue, limited_projects, delete_old_experiments_lem,
}
use arcane_backend.Retention.Invitations.{
  IsInvitationDue, OnlyInvitations, delete_old_organisation_invitations_lem,
}
use arcane_backend.Retention.Loop.{Ended, delete_batches-Ended}
use arcane_backend.Retention.Outcome.{Turned, IsFresh}
use arcane_backend.Retention.Policies.{
  Tables, delete_old_audit_logs, delete_old_evaluations, delete_old_experiments,
  delete_old_organisation_invitations, is_old_log, run_all_retention_policies,
}
use arcane_backend.Retention.Report.{IsRetained, IsCounted, reports, run_all_retention_policies_lem}
use arcane_backend.Retention.Store.{AuditLog, Organisation}

abbrev org : Organisation
org = record { id = "o"; audit_log_retention_days = some 30 }

delete_batches-Ended_example :
    Ended store store_lawful
      (is_old_log store org)
      (λ (l : AuditLog ℕ). l.id)
      (delete_batches store
        (is_old_log store org)
        (λ (l : AuditLog ℕ). l.id)
        3
        retention_tables.audit_logs
        0)
      retention_tables.audit_logs
delete_batches-Ended_example =
    delete_batches-Ended store store_lawful (is_old_log store org) (λ (l : AuditLog ℕ). l.id) 3
      retention_tables.audit_logs 0 (omega arith) logs-HasUniqueIds

delete_old_audit_logs_lem_example :
    Turned
      (λ (u : Tables store). u.audit_logs)
      (IsFresh store)
      (OnlyLogs store)
      (IsLogDue store retention_tables)
      (λ _. Unit {0})
      (delete_old_audit_logs store 4 retention_tables)
      retention_tables
unfolding filter_by
delete_old_audit_logs_lem_example =
    delete_old_audit_logs_lem store store_lawful 4 retention_tables (omega arith) logs-HasUniqueIds

delete_old_evaluations_lem_example :
    Turned
      (λ (u : Tables store). u.evaluations)
      (λ _. ⊥)
      (OnlyEvaluations store)
      (IsEvaluationDue store retention_tables)
      (λ _. Unit {0})
      (delete_old_evaluations store 3 retention_tables)
      retention_tables
delete_old_evaluations_lem_example =
    delete_old_evaluations_lem store store_lawful 3 retention_tables (omega arith)
      evaluations-HasUniqueIds

delete_old_experiments_lem_example :
    Turned
      (λ (u : Tables store). u.experiments)
      (λ _. ⊥)
      (IsCleanUp store (limited_projects store retention_tables))
      (IsExperimentDue store retention_tables)
      (λ _. Unit {0})
      (delete_old_experiments store 2 retention_tables)
      retention_tables
delete_old_experiments_lem_example =
    delete_old_experiments_lem store store_lawful 2 retention_tables (omega arith)
      experiments-HasUniqueIds evaluations-HasUniqueIds

delete_old_organisation_invitations_lem_example :
    Turned
      (λ (u : Tables store). u.invitations)
      (λ _. ⊥)
      (OnlyInvitations store)
      (IsInvitationDue store)
      (λ _. Unit {0})
      (delete_old_organisation_invitations store retention_tables)
      retention_tables
delete_old_organisation_invitations_lem_example =
    delete_old_organisation_invitations_lem store store_lawful retention_tables

run_all_retention_policies_lem_example :
    (a e x i : Result ℕ) × (t₁ t₂ t₃ u : Tables store) × (delete_old_audit_logs store 4
        retention_tables
      ≡ some (a, t₁))
    × (delete_old_evaluations store 4 t₁ ≡ some (e, t₂))
    × (delete_old_experiments store 4 t₂ ≡ some (x, t₃))
    × (delete_old_organisation_invitations store t₃ ≡ some (i, u))
    × (run_all_retention_policies store 4 retention_tables ≡ some (reports store a e x i, u))
    × IsRetained store retention_tables u a e x i
    × IsCounted store retention_tables t₁ t₂ u a e x i
unfolding filter_by
run_all_retention_policies_lem_example =
    run_all_retention_policies_lem store store_lawful store-IsReporting 4 retention_tables
      (omega arith) (omega arith) (omega arith) retention_tables-HasIds
