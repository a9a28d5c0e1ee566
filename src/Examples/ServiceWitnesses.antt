-- ===== src/Examples/ServiceWitnesses.antt =====
-- The theorems on projects, traces and datasets, at the samples.
use mathlib.Core.List.Memᴰ
use arcane_backend.Common.{
  String, Option, none, true, err, ◌≢◌, sym, ◌∙◌, filter_by, find_first, some, List, [], ◌∷◌, map,
  ◌≡◌, refl, ◌↔◌, Memᴰ, ok, length, arith, includes, add,
}
use arcane_backend.Datasets.Csv.{create_from_csv, export_to_csv, validate_header, Import}
use arcane_backend.Datasets.Csv.Header.{IsHeader, validate_header_iff}
use arcane_backend.Datasets.Csv.Laws.{
  HasSaved, IsImported, create_from_csv-IsImported, create_from_csv-export_to_csv,
}
use arcane_backend.Datasets.Csv.Rows.{fit}
use arcane_backend.Examples.CsvText.{csv, csv-ReadsBack, read_text, write_records}
use arcane_backend.Examples.InMemory.{platform}
use arcane_backend.Examples.Lawful.{lawful}
use arcane_backend.Examples.Samples.{
  ruled_tables, ruled_world, ruled_world-CacheIsCurrent, rule-HasUniqueRules, new_rule_request,
  trace, summary, search, filter, columns, dataset, columns-IsHeader,
}
use arcane_backend.Examples.Facts.{bob_ne_eve, world-CacheIsCurrent}
use arcane_backend.Examples.Tables.{tables, world, metadata, request}
use arcane_backend.Exception.{not_found, role_not_found}
use arcane_backend.Platform.{World, Project, matches_role}
use arcane_backend.Projects.Membership.{remove_member, remove_user, invite_user}
use arcane_backend.Projects.Membership.Laws.{remove_user_lem, invite_user-role_not_found}
use arcane_backend.Rbac.Guards.{project_can_activate}
use arcane_backend.Rbac.Guards.Decisions.{in_organisation, in_project}
use arcane_backend.Rbac.DefaultRole.{find_role}
use arcane_backend.Projects.VisibilityRules.Laws.{
  RuleRequest, creating_rule, adding_roles, perform_rules, IsRuleChange, perform_rules-IsRuleChange,
}
use arcane_backend.Rbac.Current.{CacheIsCurrent}
use arcane_backend.Traces.Attributes.{
  TraceResponse, SearchResponse, trace_attributes, trace_scopes, search_attributes,
  summary_attributes,
}
use arcane_backend.Traces.Filter.{filter_full_traces, filter_trace_summaries}
use arcane_backend.Traces.Filter.Laws.{
  IsCarried, searched_attributes, filter_full_traces_iff, filter_trace_summaries_iff,
}
use arcane_backend.Traces.Obfuscation.{obfuscate_trace_response, obfuscate_search_response}
use arcane_backend.Traces.Obfuscation.Laws.{
  IsRedaction, obfuscate_trace_response_lem, obfuscate_search_response_lem,
}

abbrev requests : List RuleRequest
requests = creating_rule "o" new_rule_request "bob" ∷ adding_roles "o" "v1" ("r2" ∷ []) "bob" ∷ []

perform_rules-IsRuleChange_example :
    IsRuleChange platform "q" ruled_world.db (perform_rules platform "q" requests ruled_world).db
perform_rules-IsRuleChange_example =
    perform_rules-IsRuleChange platform lawful "q" requests ruled_world rule-HasUniqueRules

obfuscate_trace_response_lem_example :
    (answer : TraceResponse) × (cache : platform.Cache) × (obfuscate_trace_response platform trace
        "q" "o" "eve" ruled_world
      ≡ (ok answer, record ruled_world { cache = cache }))
    × CacheIsCurrent platform (record ruled_world { cache = cache })
    × IsRedaction platform ruled_tables "q" "o" "eve"
        (trace_attributes trace)
        (trace_attributes answer)
    × (trace_scopes answer ≡ trace_scopes trace)
obfuscate_trace_response_lem_example =
    obfuscate_trace_response_lem platform lawful "q" "o" "eve" trace ruled_world
      ruled_world-CacheIsCurrent rule-HasUniqueRules

obfuscate_search_response_lem_example :
    (answer : SearchResponse) × (cache : platform.Cache) × (obfuscate_search_response platform
        search "q" "o" "eve" ruled_world
      ≡ (ok answer, record ruled_world { cache = cache }))
    × CacheIsCurrent platform (record ruled_world { cache = cache })
    × IsRedaction platform ruled_tables "q" "o" "eve"
        (search_attributes search)
        (search_attributes answer)
obfuscate_search_response_lem_example =
    obfuscate_search_response_lem platform lawful "q" "o" "eve" search ruled_world
      ruled_world-CacheIsCurrent rule-HasUniqueRules

filter_full_traces_iff_example :
    Memᴰ trace (filter_full_traces (trace ∷ []) filter)
    ↔ (Memᴰ trace (trace ∷ []) × IsCarried filter (searched_attributes trace))
filter_full_traces_iff_example = filter_full_traces_iff filter (trace ∷ []) trace

filter_trace_summaries_iff_example :
    Memᴰ summary (filter_trace_summaries (summary ∷ []) filter)
    ↔ (Memᴰ summary (summary ∷ []) × IsCarried filter (summary_attributes summary))
filter_trace_summaries_iff_example = filter_trace_summaries_iff filter (summary ∷ []) summary

validate_header_iff_example :
    (validate_header csv columns ≡ ok columns)
    ↔ ((columns ≡ map csv.trim columns) × IsHeader columns)
validate_header_iff_example = validate_header_iff csv columns columns

abbrev content : String
content = csv.stringify (columns ∷ dataset.rows)

abbrev narrow_content : String
narrow_content = csv.stringify (columns ∷ ("two and two" ∷ "four" ∷ []) ∷ [])

abbrev imported : Import
imported = record {
  header = some columns;
  rows_to_insert = [];
  batches = (("two and two" ∷ "four" ∷ []) ∷ []) ∷ [];
  row_count = 1;
}

create_from_csv-IsImported_example : IsImported csv narrow_content imported
unfolding create_from_csv validate_header includes add read_text write_records
create_from_csv-IsImported_example = create_from_csv-IsImported csv narrow_content imported refl

create_from_csv-export_to_csv_example :
    (text : String) × (i : Import) × (export_to_csv csv 3 dataset ≡ some text)
    × (create_from_csv csv text ≡ ok i)
    × HasSaved csv columns (map (fit (length columns)) dataset.rows) i
create_from_csv-export_to_csv_example =
    create_from_csv-export_to_csv csv csv-ReadsBack 3 dataset (omega arith) columns-IsHeader refl

abbrev project : Project
project = record { id = "q"; organisation_id = "o"; created_by_id = some "bob" }

abbrev eve_by_email : String → Option String
eve_by_email email = some "eve"

one_project : (x y : Project) → Memᴰ x (project ∷ []) → Memᴰ y (project ∷ []) → x.id ≡ y.id → x ≡ y
one_project x y m n e = Memᴰ.eq_of_singleton m ∙ sym (Memᴰ.eq_of_singleton n)

remove_user_lem_example :
    (t : World platform) × (remove_user platform eve_by_email "o" "q" "eve@host" none world
      ≡ (ok "User removed successfully", t))
    × (t.db ≡ (remove_member platform "q" "eve" world).db)
    × ((row : String × String)
        → Memᴰ row t.db.project_users ↔ (Memᴰ row tables.project_users × (row ≢ ("q", "eve"))))
    × ((project_can_activate platform metadata request t).0 ≢ ok true)
unfolding in_project filter_by
remove_user_lem_example =
    remove_user_lem platform lawful eve_by_email project "eve@host" "eve" none world metadata
      request (Memᴰ.head refl) one_project refl bob_ne_eve refl world-CacheIsCurrent refl refl

-- The world before "eve" belongs to the project.
abbrev unjoined : World platform
unjoined = record world { db = record tables { project_users = [] } }

invite_user-role_not_found_example :
    (t : World platform) × (invite_user platform eve_by_email "o" "q" "eve@host"
        (some "r9")
        none
        unjoined
      ≡ (err (not_found (role_not_found "r9")), t))
    × (in_project platform t.db "q" "eve" ≡ true)
unfolding in_organisation in_project find_role find_first matches_role filter_by
invite_user-role_not_found_example =
    invite_user-role_not_found platform lawful eve_by_email project "eve@host" "eve" "r9" none
      unjoined refl refl refl refl refl
