-- ===== src/Retention/Outcome.antt =====
-- Going through organisations or projects, the old rows of each are deleted in turn.
use arcane_backend.Common.{
  length, ℕ, suc, ◌≤◌, String, Option, none, some, Bool, true, false, List, [], ◌∷◌, Result, ok,
  err, ◌≡◌, refl, ◌⊎◌, inl, inr, Memᴰ, subst, arith,
}
use arcane_backend.Retention.Batches.{Job, each}
use arcane_backend.Retention.Loop.{Expires}
use arcane_backend.Retention.Policies.{Tables, record_deletion, record_deletion_if}
use arcane_backend.Retention.Store.{
  RetentionStore, RetentionEvent, AuditLog, IsRetentionLawful, HasUniqueIds,
}

-- What one turn, or all of them, come to: the fuel suffices, and the old rows expire.
abbrev pub Turned :
    {S E A : Type 0} (rows : S → List E) (Added : E → Type 0) (Frame : S → S → Type 0)
    (IsOld : E → Type 0) (After : S → Type 0)
    → Option (Result A × S)
    → S
    → Type 0
Turned {S} {E} {A} rows Added Frame IsOld After m t =
    (r : Result A) × (u : S) × (m ≡ some (r, u))
    × After u
    × Expires IsOld Added r (rows t) (rows u)
    × Frame t u

-- The rows are `rows` of a state, `Old o` those that `o` is to delete. Each turn starts where `Good`
-- holds with the number of turns left, and keeps `Frame`.
module _ {S E O : Type 0} (rows : S → List E) (Old : O → E → Type 0) (Added : E → Type 0)
    (never : (o : O) (x : E) → Added x → ¬ Old o x) (Allowed : O → Type 0) (Good : ℕ → S → Type 0)
    (Frame : S → S → Type 0) (frame_refl : (t : S) → Frame t t)
    (frame_trans : (t u v : S) → Frame t u → Frame u v → Frame t v) where
  -- The row is to be deleted for one of the list.
  abbrev pub OldFor : List O → E → Type 0
  OldFor os x = (o : O) × Memᴰ o os × Old o x

  cons-Expires :
      {A : Type 0} (o : O) (os : List O) (a : A) (r : Result A) (before middle after : List E)
      → Expires (Old o) Added (ok a) before middle
      → Expires (OldFor os) Added r middle after
      → Expires (OldFor (o ∷ os)) Added r before after
  cons-Expires {A} o os a r before middle after h k = record {
    kept = λ x m young.
        k.kept x (h.kept x m (λ old. young (o, Memᴰ.head refl, old)))
          (λ (q, n, old). young (q, Memᴰ.tail n, old));
    sources = λ x m. elim (k.sources x m) [ inl n ↦ h.sources x n | inr added ↦ inr added ];
    gone = λ b x e m (q, n, old). gone b x e m q n old;
  }
    where
      first : (x : E) → Memᴰ x middle ⊎ Added x → ¬ Old o x
      first x (inl n) = h.gone a x refl n
      first x (inr added) = never o x added

      gone : (b : A) (x : E) → r ≡ ok b → Memᴰ x after → (q : O) → Memᴰ q (o ∷ os) → Old q x → ⊥
      gone b x e m q (Memᴰ.head same) old = first x (k.sources x m) (subst (λ y. Old y x) same old)
      gone b x e m q (Memᴰ.tail n) old = k.gone b x e m (q, n, old)

  abbrev Turn : {A : Type 0} → (O → A → Job S A) → Type 0
  Turn {A} body =
      (o : O) (a : A) (n : ℕ) (t : S)
      → Allowed o
      → Good (suc n) t
      → Turned rows Added Frame (Old o) (Good n) (body o a t) t

  pub each-Expires :
      {A : Type 0} (body : O → A → Job S A)
      → Turn body
      → (os : List O) → ((o : O) → Memᴰ o os → Allowed o)
      → (a : A) (t : S) → Good (length os) t
      → Turned rows Added Frame (OldFor os) (λ _. Unit {0}) (each body os a t) t
  unfolding each
  each-Expires body turn [] allowed a t good = (
    ok a,
    t,
    refl,
    tt,
    record {
      kept = λ x m young. m;
      sources = λ x m. inl m;
      gone = λ b x e m (o, n, old). elim n [ ];
    },
    frame_refl t,
  )
  each-Expires {A} body turn (o ∷ os) allowed a t good =
      by_result (turn o a (length os) t (allowed o (Memᴰ.head refl)) good)
        (each-Expires body turn os (λ q m. allowed q (Memᴰ.tail m)))
    where
      Rest : Type 0
      Rest =
          (b : A) (u : S)
          → Good (length os) u
          → Turned rows Added Frame (OldFor os) (λ _. Unit {0}) (each body os b u) u

      Whole : Type 0
      Whole = Turned rows Added Frame (OldFor (o ∷ os)) (λ _. Unit {0}) (each body (o ∷ os) a t) t

      by_result : Turned rows Added Frame (Old o) (Good (length os)) (body o a t) t → Rest → Whole
      by_result (err x, u, e, _, h, f) rest = (
        err x,
        u,
        rw e refl,
        tt,
        record {
          kept = λ y m young. h.kept y m (λ old. young (o, Memᴰ.head refl, old));
          sources = h.sources;
          gone = λ b y e. cc;
        },
        f,
      )
      by_result (ok b, u, e, good', h, f) rest =
          let (r, v, ends, _, k, g) = rest b u good' in
          (
            r,
            v,
            rw e ends,
            tt,
            cons-Expires o os b r (rows t) (rows u) (rows v) h k,
            frame_trans t u v f g,
          )

-- The audit log while a policy runs.
module _ (s : RetentionStore) where
  -- The log was written just now: it is past no retention period.
  abbrev pub IsFresh : AuditLog s.Time → Type 0
  IsFresh x = (o : String) (days : ℕ) → s.is_before x.created_at (s.cutoff_date o days) ≡ false

  -- The log has lost nothing, and what has been added was written just now.
  pub record IsGrown (before after : List (AuditLog s.Time)) : Type 0 where
    pub kept : (x : AuditLog s.Time) → Memᴰ x before → Memᴰ x after
    pub sources : (x : AuditLog s.Time) → Memᴰ x after → Memᴰ x before ⊎ IsFresh x

  pub same-IsGrown : (rows : List (AuditLog s.Time)) → IsGrown rows rows
  same-IsGrown rows = record { kept = λ x m. m; sources = λ x m. inl m }

  pub trans-IsGrown : {a b c : List (AuditLog s.Time)} → IsGrown a b → IsGrown b c → IsGrown a c
  trans-IsGrown h k = record {
    kept = λ x m. k.kept x (h.kept x m);
    sources = λ x m. elim (k.sources x m) [ inl n ↦ h.sources x n | inr fresh ↦ inr fresh ];
  }

  -- At most one entry has been added.
  pub record IsLogged (before after : List (AuditLog s.Time)) : Type 0 where
    pub grown : IsGrown before after
    pub few : length after ≤ suc (length before)
    pub unique :
        HasUniqueIds (λ (l : AuditLog s.Time). l.id) before
        → HasUniqueIds (λ (l : AuditLog s.Time). l.id) after

  same-IsLogged : (rows : List (AuditLog s.Time)) → IsLogged rows rows
  same-IsLogged rows = record { grown = same-IsGrown rows; few = omega arith; unique = λ u. u }

  pub record_deletion_if-IsLogged :
      IsRetentionLawful s
      → (b : Bool) (event : RetentionEvent) (t : Tables s)
      → (logs : List (AuditLog s.Time)) × (record_deletion_if s b event t
          ≡ some (ok tt, record t { audit_logs = logs }))
        × IsLogged t.audit_logs logs
  unfolding record_deletion
  record_deletion_if-IsLogged laws false event t = (t.audit_logs, refl, same-IsLogged t.audit_logs)
  record_deletion_if-IsLogged laws true event t = go (s.write_log event t.audit_logs) refl
    where
      go :
          (q : Option (List (AuditLog s.Time)))
          → s.write_log event t.audit_logs ≡ q
          → (logs : List (AuditLog s.Time)) × (record_deletion_if s true event t
              ≡ some (ok tt, record t { audit_logs = logs }))
            × IsLogged t.audit_logs logs
      go none e = (t.audit_logs, rw e refl, same-IsLogged t.audit_logs)
      go (some logs) e = (
        logs,
        rw e refl,
        record {
          grown = record {
            kept = λ x. laws.write_log_keeps event t.audit_logs x e;
            sources = λ x. laws.mem_write_log event t.audit_logs x e;
          };
          few = let one = laws.write_log_length event t.audit_logs e in omega arith;
          unique = laws.write_log-HasUniqueIds event t.audit_logs e;
        },
      )
