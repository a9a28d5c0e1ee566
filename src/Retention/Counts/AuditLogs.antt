-- ===== src/Retention/Counts/AuditLogs.antt =====
-- The number that the policy on audit logs returns, and the entries that it writes itself.
use arcane_backend.Common.{
  ltb, length, ℕ, suc, ◌+◌, ◌≤◌, String, Option, none, some, Bool, true, false, List, [], ◌∷◌, map,
  Result, ok, err, ◌≡◌, refl, arith, subst,
}
use arcane_backend.Exception.{Exception}
use arcane_backend.Platform.Laws.{Distinct}
use arcane_backend.Retention.Batches.{Job, Batches, each, next, delete_batches}
use arcane_backend.Retention.Counts.{delete_batches-counts}
use arcane_backend.Retention.Store.{
  RetentionStore, IsRetentionLawful, RetentionEvent, AuditLog, Organisation,
}
use arcane_backend.Retention.Policies.{
  Tables, is_old_log, record_deletion, record_deletion_if, delete_audit_logs_of,
  delete_old_audit_logs, audit_logs_deleted,
}

-- What each turn brings one step further, the loop brings as many steps as it has turns.
each-steps :
    {O A S : Type 0} (Inv : ℕ → A → S → Type 0) (body : O → A → Job S A)
    → ((k : ℕ) (o : O) (a : A) (t : S)
        → Inv k a t
        → (b : A) (u : S) → body o a t ≡ some (ok b, u)
        → Inv (suc k) b u)
    → (os : List O) (k : ℕ) (a : A) (t : S) → Inv k a t
    → (b : A) (u : S) → each body os a t ≡ some (ok b, u)
    → Inv (k + length os) b u
unfolding each
each-steps {O} {A} {S} Inv body step [] k a t h b u e =
    subst (λ (q : A × S). Inv (k + 0) q.0 q.1) (out e) (subst (λ (n : ℕ). Inv n a t) sum h)
  where
    sum : k ≡ k + 0
    sum = omega arith

    out :
        ◌≡◌ {A = Option (Result A × S)} (some (ok a, t)) (some (ok b, u))
        → ◌≡◌ {A = A × S} (a, t) (b, u)
    out f = cc
each-steps {O} {A} {S} Inv body step (o ∷ os) k a t h b u e =
    subst (λ (n : ℕ). Inv n b u) sum (go (body o a t) refl (each-steps Inv body step os) e)
  where
    sum : suc k + length os ≡ k + suc (length os)
    sum = omega arith

    Rest : Type 0
    Rest =
        (j : ℕ) (c : A) (v : S)
        → Inv j c v
        → (b : A) (u : S) → each body os c v ≡ some (ok b, u)
        → Inv (j + length os) b u

    go :
        (q : Option (Result A × S))
        → body o a t ≡ q
        → Rest
        → next q (each body os) ≡ some (ok b, u)
        → Inv (suc k + length os) b u
    go none f rest g = absurd (cc)
    go (some (err x, v)) f rest g = absurd (cc)
    go (some (ok c, v)) f rest g = rest (suc k) c v (step k o a t h c v f) b u g

module _ (s : RetentionStore) where
  abbrev ids_of : List (AuditLog s.Time) → List String
  ids_of = map (λ (l : AuditLog s.Time). l.id)

  -- After so many organisations: the logs that are left, the number counted, and the entries written.
  abbrev LogsCounted : ℕ → ℕ → ℕ → Tables s → Type 0
  LogsCounted all k total t =
      Distinct (ids_of t.audit_logs) × ((w : ℕ) × (w ≤ k) × (length t.audit_logs + total ≡ all + w))

  module _ (laws : IsRetentionLawful s) where
    -- Where a write is tried, it adds an entry or none.
    record_deletion_if-adds :
        (b : Bool) (event : RetentionEvent) (t : Tables s)
        → (logs : List (AuditLog s.Time)) × (record_deletion_if s b event t
            ≡ some (ok tt, record t { audit_logs = logs }))
          × (Distinct (ids_of t.audit_logs) → Distinct (ids_of logs))
          × ((w : ℕ) × (w ≤ 1) × (length logs ≡ length t.audit_logs + w))
    unfolding record_deletion
    record_deletion_if-adds false event t =
        (t.audit_logs, refl, (λ d. d), (0, omega arith, omega arith))
    record_deletion_if-adds true event t = go (s.write_log event t.audit_logs) refl
      where
        go :
            (q : Option (List (AuditLog s.Time)))
            → s.write_log event t.audit_logs ≡ q
            → (logs : List (AuditLog s.Time)) × (record_deletion_if s true event t
                ≡ some (ok tt, record t { audit_logs = logs }))
              × (Distinct (ids_of t.audit_logs) → Distinct (ids_of logs))
              × ((w : ℕ) × (w ≤ 1) × (length logs ≡ length t.audit_logs + w))
        go none e = (t.audit_logs, rw e refl, (λ d. d), (0, omega arith, omega arith))
        go (some logs) e = (
          logs,
          rw e refl,
          laws.write_log-Distinct event t.audit_logs e,
          let one = laws.write_log_length event t.audit_logs e in (1, omega arith, omega arith),
        )

    delete_audit_logs_of-counts :
        (fuel all k : ℕ) (org : Organisation) (total : ℕ) (t : Tables s)
        → LogsCounted all k total t
        → (b : ℕ) (u : Tables s) → delete_audit_logs_of s fuel org total t ≡ some (ok b, u)
        → LogsCounted all (suc k) b u
    unfolding delete_audit_logs_of
    delete_audit_logs_of-counts fuel all k org total t (keys, (w, few, sum)) b u run =
        go (delete_batches s (is_old_log s org) (λ (l : AuditLog s.Time). l.id) fuel t.audit_logs 0)
          refl
      where
        Answer : Type 0
        Answer = Option (Result ℕ × Tables s)

        out :
            {a : ℕ} {v : Tables s}
            → ◌≡◌ {A = Answer} (some (ok a, v)) (some (ok b, u))
            → (a ≡ b) × (v ≡ u)
        out f = (cc, cc)

        none_ok : ◌≡◌ {A = Answer} none (some (ok b, u)) → ⊥
        none_ok f = cc

        failed :
            {x : Exception} {v : Tables s} → ◌≡◌ {A = Answer} (some (err x, v)) (some (ok b, u)) → ⊥
        failed f = cc

        go :
            (q : Batches (AuditLog s.Time))
            → delete_batches s
                (is_old_log s org)
                (λ (l : AuditLog s.Time). l.id)
                fuel
                t.audit_logs
                0
              ≡ q
            → LogsCounted all (suc k) b u
        go none e = absurd (none_ok (rw e at run))
        go (some (err x, left)) e = absurd (failed (rw e at run))
        go (some (ok n, left)) e =
            let (keys', count) =
              delete_batches-counts s laws (is_old_log s org) (λ (l : AuditLog s.Time). l.id) fuel
                t.audit_logs 0 keys n left e in
            let (logs, recorded, distinct, (more, one, added)) =
              record_deletion_if-adds (ltb 0 n) (audit_logs_deleted org n)
                (record t { audit_logs = left }) in
            let (a, same) = out (rw (e, recorded) at run) in
            subst (λ (q : ℕ × Tables s). LogsCounted all (suc k) q.0 q.1) (λ i. (a i, same i))
              (distinct keys', (w + more, omega arith, omega arith))

    -- The policy returns the number of the logs that it has deleted; in each organisation it adds at
    -- most one.
    pub delete_old_audit_logs-counts :
        (fuel : ℕ) (t : Tables s)
        → Distinct (map (λ (l : AuditLog s.Time). l.id) t.audit_logs)
        → (n : ℕ) (u : Tables s) → delete_old_audit_logs s fuel t ≡ some (ok n, u)
        → (added : ℕ) × (added ≤ length (s.find (λ (_ : Organisation). true) t.organisations))
          × (length u.audit_logs + n ≡ length t.audit_logs + added)
    unfolding delete_old_audit_logs
    delete_old_audit_logs-counts fuel t keys n u run =
        let orgs = s.find (λ (_ : Organisation). true) t.organisations in
        let (_, (added, few, sum)) =
          each-steps (LogsCounted (length t.audit_logs)) (delete_audit_logs_of s fuel)
            (delete_audit_logs_of-counts fuel (length t.audit_logs)) orgs 0 0 t
            (keys, (0, omega arith, omega arith)) n u run in
        (added, omega arith, sum)
