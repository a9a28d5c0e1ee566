-- ===== src/Retention/AuditLogs.antt =====
-- What `deleteOldAuditLogs` leaves of the audit logs.
use arcane_backend.Common.{
  ltb, length, ℕ, suc, ◌+◌, ◌<◌, some, true, List, ok, err, ◌≡◌, refl, sym, ap, ◌↔◌, inl, inr, Memᴰ,
  ◌∙◌, same_id_iff, and-eq-true, arith,
}
use arcane_backend.Retention.Batches.{delete_batches}
use arcane_backend.Retention.Loop.{Expires-iff, Ended, delete_batches-Ended}
use arcane_backend.Retention.Outcome.{each-Expires, Turned, IsFresh, record_deletion_if-IsLogged}
use arcane_backend.Retention.Policies.{
  Tables, is_old_log, default_audit_log_days, or_default, delete_audit_logs_of,
  delete_old_audit_logs, audit_logs_deleted,
}
use arcane_backend.Retention.Store.{
  AuditLog, Organisation, RetentionStore, IsRetentionLawful, HasUniqueIds,
}

module _ (s : RetentionStore) where
  -- The log is one of the organisation, from before its retention period.
  abbrev pub IsPastRetention : Organisation → AuditLog s.Time → Type 0
  IsPastRetention org log =
      (log.organisation_id ≡ some org.id)
      × (s.is_before log.created_at
            (s.cutoff_date org.id (or_default default_audit_log_days org.audit_log_retention_days))
          ≡ true)

  abbrev pub IsLogDue : Tables s → AuditLog s.Time → Type 0
  IsLogDue t log = (org : Organisation) × Memᴰ org t.organisations × IsPastRetention org log

  is_old_log_iff :
      (org : Organisation) (log : AuditLog s.Time)
      → (is_old_log s org log ≡ true) ↔ IsPastRetention org log
  unfolding is_old_log
  is_old_log_iff org log = (
    λ h.
        let (own, late) = and-eq-true _ _ h in
        let (x, e, f) = (same_id_iff log.organisation_id (some org.id)).0 own in (e ∙ sym f, late),
    λ (own, late).
        rw ((same_id_iff log.organisation_id (some org.id)).1 (org.id, own, refl), late) refl,
  )

  -- Only the audit logs have changed.
  abbrev pub OnlyLogs : Tables s → Tables s → Type 0
  OnlyLogs t u = (logs : List (AuditLog s.Time)) × (u ≡ record t { audit_logs = logs })

  pub fresh_is_young :
      (org : Organisation) (log : AuditLog s.Time) → IsFresh s log → ¬ IsPastRetention org log
  fresh_is_young org log fresh (own, late) =
      let young = fresh org.id (or_default default_audit_log_days org.audit_log_retention_days) in
      cc

  only_trans : (t u v : Tables s) → OnlyLogs t u → OnlyLogs u v → OnlyLogs t v
  only_trans t u v (_, e) (logs, f) =
      (logs, f ∙ ap (λ (w : Tables s). record w { audit_logs = logs }) e)

  module _ (laws : IsRetentionLawful s) (fuel : ℕ) where
    -- Enough fuel for every log there is, and one more for each turn to come.
    abbrev HasFuel : ℕ → Tables s → Type 0
    HasFuel n t =
        (length t.audit_logs + n < fuel) × HasUniqueIds (λ (l : AuditLog s.Time). l.id) t.audit_logs

    delete_audit_logs_of-Turned :
        (org : Organisation) (total n : ℕ) (t : Tables s)
        → HasFuel (suc n) t
        → Turned
            (λ (u : Tables s). u.audit_logs)
            (IsFresh s)
            OnlyLogs
            (IsPastRetention org)
            (HasFuel n)
            (delete_audit_logs_of s fuel org total t)
            t
    unfolding delete_audit_logs_of
    delete_audit_logs_of-Turned org total n t (few, unique) = go (
        delete_batches-Ended s laws (is_old_log s org) (λ (l : AuditLog s.Time). l.id) fuel
          t.audit_logs 0 (omega arith) unique)
      where
        Loop : Type 0
        Loop =
            Ended s laws (is_old_log s org) (λ (l : AuditLog s.Time). l.id)
              (delete_batches s (is_old_log s org) (λ (l : AuditLog s.Time). l.id) fuel t.audit_logs
                0)
              t.audit_logs

        go :
            Loop
            → Turned
                (λ (u : Tables s). u.audit_logs)
                (IsFresh s)
                OnlyLogs
                (IsPastRetention org)
                (HasFuel n)
                (delete_audit_logs_of s fuel org total t)
                t
        go (err x, left, e, le, u, h) = (
          err x,
          record t { audit_logs = left },
          rw e refl,
          (omega arith, u),
          Expires-iff (is_old_log_iff org) (record {
            kept = h.kept;
            sources = λ y m. elim (h.sources y m) [ inl k ↦ inl k | inr k ↦ absurd k ];
            gone = λ a y q. cc;
          }),
          (left, refl),
        )
        go (ok deleted, left, e, le, u, h) =
            let (logs, recorded, logged) =
              record_deletion_if-IsLogged s laws (ltb 0 deleted) (audit_logs_deleted org deleted)
                (record t { audit_logs = left }) in
            let few' = logged.few in
            (
              ok (total + deleted),
              record t { audit_logs = logs },
              rw (e, recorded) refl,
              (omega arith, logged.unique u),
              record {
                kept = λ y m young.
                    logged.grown.kept y (h.kept y m (λ old. young ((is_old_log_iff org y).0 old)));
                sources = λ y m. elim (logged.grown.sources y m) [
                  | inl k ↦ elim (h.sources y k) [ inl q ↦ inl q | inr q ↦ absurd q ]
                  | inr fresh ↦ inr fresh
                ];
                gone = λ a y _ m old. elim (logged.grown.sources y m) [
                  | inl k ↦ h.gone deleted y refl k ((is_old_log_iff org y).1 old)
                  | inr fresh ↦ fresh_is_young org y fresh old
                ];
              },
              (logs, refl),
            )

    -- Where an id names one log, and with fuel for the logs and for one more in each organisation,
    -- the policy comes to an end. It deletes no log but those of an organisation from before its
    -- retention period, adds none but of the present, and unless a deletion fails it leaves none
    -- that is due. No other table changes.
    pub delete_old_audit_logs_lem :
        (t : Tables s)
        → length t.audit_logs + length (s.find (λ (_ : Organisation). true) t.organisations) < fuel
        → HasUniqueIds (λ (l : AuditLog s.Time). l.id) t.audit_logs
        → Turned
            (λ (u : Tables s). u.audit_logs)
            (IsFresh s)
            OnlyLogs
            (IsLogDue t)
            (λ _. Unit {0})
            (delete_old_audit_logs s fuel t)
            t
    unfolding delete_old_audit_logs
    delete_old_audit_logs_lem t few unique =
        let orgs = s.find (λ (_ : Organisation). true) t.organisations in
        let (r, u, e, _, h, f) =
          each-Expires (λ (v : Tables s). v.audit_logs) IsPastRetention (IsFresh s) fresh_is_young
            (λ _. Unit {0}) HasFuel OnlyLogs (λ v. (v.audit_logs, refl)) only_trans
            (delete_audit_logs_of s fuel)
            (λ org total n v _ good. delete_audit_logs_of-Turned org total n v good) orgs
            (λ _ _. tt) 0 t (few, unique) in
        (
          r,
          u,
          e,
          tt,
          Expires-iff
              (λ log. (
                λ (org, m, old). (org, ((laws.mem_find _ t.organisations org).0 m).0, old),
                λ (org, m, old). (org, (laws.mem_find _ t.organisations org).1 (m, refl), old),
              ))
              h,
          f,
        )
