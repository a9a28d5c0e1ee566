-- ===== src/Retention/Store.antt =====
-- The tables of the retention job, and the third-party code that it works on them with (TypeORM,
-- the clock, the audit sink).
use arcane_backend.Common.{
  ℕ, ◌<◌, suc, String, Option, some, Bool, true, false, List, [], ◌≡◌, ◌↔◌, ◌⊎◌, Memᴰ, Result, ok,
  length, map, includes, ◌+◌,
}
use arcane_backend.Platform.Laws.{Distinct}
pub use arcane_backend.Entities.{InvitationStatus, pending, accepted, expired, revoked}

pub data EvaluationScope : Type 0 where
  dataset experiment : EvaluationScope

pub record RetentionEvent : Type 0 where
  pub resource_type : String
  pub organisation_id : Option String
  pub project_id : Option String
  pub retention_policy : String
  pub retention_days : Option ℕ
  pub records_deleted : ℕ
  pub evaluations_deleted : Option ℕ

module _ (Time : Type 0) where
  pub record AuditLog : Type 0 where
    pub id : String
    pub created_at : Time
    pub organisation_id : Option String
    -- the other columns, as JSON
    pub rest : String

  pub record Evaluation : Type 0 where
    pub id : String
    pub project_id : String
    pub evaluation_scope : EvaluationScope
    pub created_at : Time

  pub record Experiment : Type 0 where
    pub id : String
    pub project_id : String
    pub created_at : Time

  pub record OrganisationInvitation : Type 0 where
    pub id : String
    pub status : InvitationStatus
    pub created_at : Time
    pub accepted_at : Option Time

pub record Organisation : Type 0 where
  pub id : String
  pub audit_log_retention_days : Option ℕ

pub record Project : Type 0 where
  pub id : String
  pub organisation_id : String
  pub evaluation_retention_days : Option ℕ
  pub experiment_retention_days : Option ℕ

pub record RetentionStore : Type 1 where
  pub Time : Type 0
  pub is_before : Time → Time → Bool
  -- `new Date()` less some days, when the turn of the row with this id has come; "" for invitations
  pub cutoff_date : String → ℕ → Time
  -- `find`, and `find` with `take`
  pub find : {E : Type 0} → (E → Bool) → List E → List E
  pub find_take : {E : Type 0} → ℕ → (E → Bool) → List E → List E
  -- `delete`, by ids or by a condition. It may throw.
  pub delete : {E : Type 0} → (E → Bool) → List E → Result (List E)
  -- `affected` of a deletion by a condition
  pub affected : {E : Type 0} → (E → Bool) → List E → Option ℕ
  -- `DatabaseAuditSink.write`; `none` is a failed write
  pub write_log : RetentionEvent → List (AuditLog Time) → Option (List (AuditLog Time))

-- The id is the primary key.
abbrev pub HasUniqueIds : {E : Type 0} → (E → String) → List E → Type 0
HasUniqueIds {E} id_of rows = (x y : E) → Memᴰ x rows → Memᴰ y rows → id_of x ≡ id_of y → x ≡ y

-- The documented behaviour of that code.
pub record IsRetentionLawful (s : RetentionStore) : Type 1 where
  pub mem_find :
      {E : Type 0} (test : E → Bool) (rows : List E) (x : E)
      → Memᴰ x (s.find test rows) ↔ (Memᴰ x rows × (test x ≡ true))
  -- A query with a limit answers with matching rows, and with some where there are any.
  pub mem_find_take :
      {E : Type 0} (n : ℕ) (test : E → Bool) (rows : List E) (x : E)
      → Memᴰ x (s.find_take n test rows)
      → Memᴰ x rows × (test x ≡ true)
  pub find_take_nil :
      {E : Type 0} (n : ℕ) (test : E → Bool) (rows : List E) (x : E)
      → 0 < n
      → s.find_take n test rows ≡ []
      → Memᴰ x rows
      → test x ≡ false
  -- A deletion that succeeds leaves the rows that do not match, and there are fewer of them where
  -- a row matched.
  pub mem_delete :
      {E : Type 0} (test : E → Bool) (rows : List E) {left : List E} (x : E)
      → s.delete test rows ≡ ok left
      → Memᴰ x left ↔ (Memᴰ x rows × (test x ≡ false))
  pub delete_lt :
      {E : Type 0} (test : E → Bool) (rows : List E) {left : List E} (x : E)
      → s.delete test rows ≡ ok left
      → Memᴰ x rows
      → test x ≡ true
      → length left < length rows
  -- Ids stay distinct in a deletion, and one by the ids of rows that a query has found takes each of
  -- these rows, once. What another deletion reports as affected are the rows it has taken.
  pub delete_Distinct :
      {E : Type 0} (id_of : E → String) (test : E → Bool) (rows : List E) {left : List E}
      → s.delete test rows ≡ ok left
      → Distinct (map id_of rows)
      → Distinct (map id_of left)
  pub delete_found :
      {E : Type 0} (id_of : E → String) (n : ℕ) (test : E → Bool) (rows : List E) {left : List E}
      → s.delete (λ r. includes (map id_of (s.find_take n test rows)) (id_of r)) rows ≡ ok left
      → Distinct (map id_of rows)
      → length left + length (s.find_take n test rows) ≡ length rows
  pub delete_affected :
      {E : Type 0} (test : E → Bool) (rows : List E) {left : List E} (n : ℕ)
      → s.delete test rows ≡ ok left
      → s.affected test rows ≡ some n
      → length left + n ≡ length rows
  -- A write adds one log, of the present: no retention period is over for it.
  pub mem_write_log :
      (event : RetentionEvent) (rows : List (AuditLog s.Time)) {more : List (AuditLog s.Time)}
      (x : AuditLog s.Time)
      → s.write_log event rows ≡ some more
      → Memᴰ x more
      → Memᴰ x rows
        ⊎ ((o : String) (days : ℕ) → s.is_before x.created_at (s.cutoff_date o days) ≡ false)
  pub write_log_keeps :
      (event : RetentionEvent) (rows : List (AuditLog s.Time)) {more : List (AuditLog s.Time)}
      (x : AuditLog s.Time)
      → s.write_log event rows ≡ some more
      → Memᴰ x rows
      → Memᴰ x more
  pub write_log-HasUniqueIds :
      (event : RetentionEvent) (rows : List (AuditLog s.Time)) {more : List (AuditLog s.Time)}
      → s.write_log event rows ≡ some more
      → HasUniqueIds (λ l. l.id) rows
      → HasUniqueIds (λ l. l.id) more
  pub write_log-Distinct :
      (event : RetentionEvent) (rows : List (AuditLog s.Time)) {more : List (AuditLog s.Time)}
      → s.write_log event rows ≡ some more
      → Distinct (map (λ (l : AuditLog s.Time). l.id) rows)
      → Distinct (map (λ (l : AuditLog s.Time). l.id) more)
  pub write_log_length :
      (event : RetentionEvent) (rows : List (AuditLog s.Time)) {more : List (AuditLog s.Time)}
      → s.write_log event rows ≡ some more
      → length more ≡ suc (length rows)
