-- ===== src/Examples/Samples.antt =====
-- Small data of the other services: rules of the project "q", a trace, tables of the retention job,
-- and a dataset.
use mathlib.Core.List.Memᴰ
use arcane_backend.Common.{
  ℕ, String, ◌==◌, eq_iff, false, none, some, Bool, true, not, ◌&&◌, List, [], ◌∷◌, map, ◌≡◌, refl,
  sym, ap, ◌∙◌, Memᴰ, includes, includes_iff, add, and-eq-true, ◌≢◌,
}
use arcane_backend.Datasets.Csv.{Dataset, validate_header}
use arcane_backend.Datasets.Csv.Header.{IsHeader, validate_header_iff}
use arcane_backend.Examples.CsvText.{csv}
use arcane_backend.Examples.InMemory.{platform}
use arcane_backend.Examples.RetentionInMemory.{store}
use arcane_backend.Examples.SlotLaws.{empty-AllCached}
use arcane_backend.Examples.Tables.{tables}
use arcane_backend.Platform.{AttributeVisibilityRule, World, Db}
use arcane_backend.Platform.Laws.{Distinct}
use arcane_backend.Projects.VisibilityRules.{CreateAttributeVisibilityRule}
use arcane_backend.Projects.VisibilityRules.Changes.{HasUniqueRules}
use arcane_backend.Rbac.Current.{IsCurrent, CacheIsCurrent}
use arcane_backend.Retention.Policies.{Tables}
use arcane_backend.Retention.Report.{HasIds}
use arcane_backend.Retention.Store.{
  AuditLog, Evaluation, Experiment, OrganisationInvitation, experiment, accepted, HasUniqueIds,
}
use arcane_backend.Traces.Attributes.{
  text, primitive, Attribute, Span, TraceResponse, TraceSummary, SearchResponse,
}
use arcane_backend.Traces.Filter.{ProjectTraceFilter}

-- Rows whose ids are all different.
abbrev pub all_different : {E : Type 0} → (E → String) → List E → Bool
all_different id_of [] = true
all_different id_of (x ∷ rows) =
    not (includes (map id_of rows) (id_of x)) && all_different id_of rows

pub all_different-HasUniqueIds :
    {E : Type 0} (id_of : E → String) (rows : List E)
    → all_different id_of rows ≡ true
    → HasUniqueIds id_of rows
all_different-HasUniqueIds id_of [] d x y m k e = elim m [ ]
all_different-HasUniqueIds {E} id_of (z ∷ rows) d x y m k e =
    split (and-eq-true _ _ d).0 (all_different-HasUniqueIds id_of rows (and-eq-true _ _ d).1) m k
  where
    missing :
        not (includes (map id_of rows) (id_of z)) ≡ true → (w : E) → Memᴰ w rows → id_of w ≢ id_of z
    missing t w n same =
        let here =
          (includes_iff (map id_of rows) (id_of z)).1 (Memᴰ.cast (sym same) (Memᴰ.map id_of n)) in
        cc

    split :
        not (includes (map id_of rows) (id_of z)) ≡ true
        → HasUniqueIds id_of rows
        → Memᴰ x (z ∷ rows)
        → Memᴰ y (z ∷ rows)
        → x ≡ y
    split t u (Memᴰ.head a) (Memᴰ.head b) = a ∙ sym b
    split t u (Memᴰ.head a) (Memᴰ.tail n) = absurd (missing t y n (sym e ∙ ap id_of a))
    split t u (Memᴰ.tail n) (Memᴰ.head b) = absurd (missing t x n (e ∙ ap id_of b))
    split t u (Memᴰ.tail n) (Memᴰ.tail q) = u x y n q e

abbrev pub rule : AttributeVisibilityRule
rule = record {
  id = "v1";
  project_id = "q";
  attribute_name = "secret";
  hidden_role_ids = "r3" ∷ [];
  created_by_id = "bob";
  updated_by_id = none;
}

abbrev pub ruled_tables : Db
ruled_tables = record tables { visibility_rules = rule ∷ [] }

abbrev pub ruled_world : World platform
ruled_world = record { db = ruled_tables; cache = none; audit_log = [] }

pub ruled_world-CacheIsCurrent : CacheIsCurrent platform ruled_world
ruled_world-CacheIsCurrent = empty-AllCached (IsCurrent platform ruled_tables)

pub rule-HasUniqueRules : HasUniqueRules (rule ∷ [])
rule-HasUniqueRules = record {
  unique_ids = λ r s m k e. Memᴰ.eq_of_singleton m ∙ sym (Memᴰ.eq_of_singleton k);
  unique_names = λ r s m k e f. Memᴰ.eq_of_singleton m ∙ sym (Memᴰ.eq_of_singleton k);
}

abbrev pub new_rule_request : CreateAttributeVisibilityRule
new_rule_request = record { attribute_name = "prompt"; hidden_role_ids = "r2" ∷ [] }

abbrev pub attribute : String → String → Attribute
attribute k v = record { key = k; value = primitive (text v) }

abbrev pub span : Span
span = record {
  attributes = some (attribute "secret" "s1" ∷ attribute "project" "alpha" ∷ []);
  events = none;
  links = none;
  rest = "";
}

abbrev pub trace : TraceResponse
trace = record {
  batches = some (
      record {
        resource = none;
        scope_spans = some (record { scope = none; spans = some (span ∷ []); rest = "" } ∷ []);
        rest = "";
      }
      ∷ []);
  rest = "";
}

abbrev pub summary : TraceSummary
summary = record {
  trace_id = "t1";
  spans = some (record { attributes = span.attributes; rest = "" } ∷ []);
  rest = "";
}

abbrev pub search : SearchResponse
search = record { traces = some (summary ∷ []); rest = "" }

abbrev pub filter : ProjectTraceFilter
filter = record { attribute_name = "project"; attribute_value = "alpha" }

abbrev pub log : String → ℕ → AuditLog ℕ
log id day = record { id = id; created_at = day; organisation_id = some "o"; rest = "" }

abbrev pub evaluation : String → ℕ → Evaluation ℕ
evaluation id day = record {
  id = id;
  project_id = "q";
  evaluation_scope = experiment;
  created_at = day;
}

abbrev pub old_experiment : Experiment ℕ
old_experiment = record { id = "x1"; project_id = "q"; created_at = 10 }

abbrev pub invitation : OrganisationInvitation ℕ
invitation = record { id = "i1"; status = accepted; created_at = 1; accepted_at = some 5 }

abbrev pub retention_tables : Tables store
retention_tables = record {
  audit_logs = log "l1" 3 ∷ log "l2" 999 ∷ [];
  evaluations = evaluation "e1" 950 ∷ evaluation "e2" 2 ∷ [];
  evaluation_experiments = ("e1", "x1") ∷ [];
  experiments = old_experiment ∷ [];
  invitations = invitation ∷ [];
  organisations = record { id = "o"; audit_log_retention_days = none } ∷ [];
  projects =
      record {
        id = "q";
        organisation_id = "o";
        evaluation_retention_days = none;
        experiment_retention_days = some 30;
      }
      ∷ [];
}

pub logs-HasUniqueIds : HasUniqueIds (λ (l : AuditLog ℕ). l.id) retention_tables.audit_logs
unfolding includes
logs-HasUniqueIds =
    all_different-HasUniqueIds (λ (l : AuditLog ℕ). l.id) retention_tables.audit_logs refl

pub evaluations-HasUniqueIds :
    HasUniqueIds (λ (e : Evaluation ℕ). e.id) retention_tables.evaluations
unfolding includes
evaluations-HasUniqueIds =
    all_different-HasUniqueIds (λ (e : Evaluation ℕ). e.id) retention_tables.evaluations refl

pub experiments-HasUniqueIds :
    HasUniqueIds (λ (x : Experiment ℕ). x.id) retention_tables.experiments
unfolding includes
experiments-HasUniqueIds =
    all_different-HasUniqueIds (λ (x : Experiment ℕ). x.id) retention_tables.experiments refl

two_different-Distinct : (v w : String) → (v == w) ≡ false → Distinct (v ∷ w ∷ [])
two_different-Distinct v w e = (only, (λ m. elim m [ ], tt))
  where
    only : ¬ Memᴰ v (w ∷ [])
    only (Memᴰ.head f) = let g = (eq_iff v w).1 f in absurd (cc)
    only (Memᴰ.tail k) = elim k [ ]

pub retention_tables-HasIds : HasIds store retention_tables
retention_tables-HasIds = (
  two_different-Distinct "l1" "l2" refl,
  two_different-Distinct "e1" "e2" refl,
  (λ m. elim m [ ], tt),
)

abbrev pub columns : List String
columns = "question" ∷ "answer" ∷ []

abbrev pub dataset : Dataset
dataset = record { header = columns; rows = ("two and two" ∷ "four" ∷ []) ∷ ("why" ∷ []) ∷ [] }

pub columns-IsHeader : IsHeader columns
unfolding validate_header includes add
columns-IsHeader = ((validate_header_iff csv columns columns).0 refl).1
