-- ===== src/Traces/Obfuscation.antt =====
-- traces/services/trace-attribute-obfuscation.service.ts: the attributes of traces that a project's
-- rules hide from a user. The source writes into the response; here it is returned changed.
pub mod Parts
pub mod Laws
use mathlib.Core.Option
use arcane_backend.Common.{
  String, Option, none, some, List, [], ◌∷◌, map, Exec, pure, ◌>>=◌, includes, some_of,
  if◌then◌else◌, ◌==◌,
}
use arcane_backend.Platform.{Platform, World, AttributeVisibilityRule}
use arcane_backend.Projects.VisibilityRules.{get_visibility_rules_for_project}
use arcane_backend.Rbac.Membership.{is_found}
use arcane_backend.Rbac.Retrieval.{get_user_roles}
use arcane_backend.Rbac.Role.{Role}
use arcane_backend.Traces.Attributes.{
  Primitive, text, Value, object, Attribute, Holder, Span, ScopeSpans, Batch, TraceResponse,
  TraceSummary, SearchResponse, items,
}

-- `Map<string, string[]>`, in the order of insertion
abbrev pub HiddenRoleMap : Type 0
HiddenRoleMap = List (String × List String)

unfoldable pub map_get : HiddenRoleMap → String → Option (List String)
map_get [] k = none
map_get ((j, v) ∷ m) k = if j == k then some v else map_get m k

unfoldable pub map_set : String → List String → HiddenRoleMap → HiddenRoleMap
map_set k v [] = (k, v) ∷ []
map_set k v ((j, u) ∷ m) = if j == k then (j, v) ∷ m else (j, u) ∷ map_set k v m

-- `for (const rule of rules) map.set(rule.attributeName, rule.hiddenRoleIds)`
unfoldable pub set_rules : HiddenRoleMap → List AttributeVisibilityRule → HiddenRoleMap
unfolding map_set
set_rules m [] = m
set_rules m (r ∷ rules) = set_rules (map_set r.attribute_name r.hidden_role_ids m) rules

pub record ObfuscationContext : Type 0 where
  pub hidden_role_map : HiddenRoleMap
  pub user_role_ids : List String

abbrev pub redacted : Attribute → Attribute
redacted attr = record {
  key = attr.key;
  value = object (record {
    string_value = some (text "[REDACTED]");
    int_value = none;
    bool_value = none;
    double_value = none;
    rest = "{}";
  });
}

-- What an attribute becomes, with the roles that its key is hidden from.
abbrev pub obfuscate_attribute : Attribute → Option (List String) → List String → Attribute
obfuscate_attribute attr none user_role_ids = attr
obfuscate_attribute attr (some hidden_role_ids) user_role_ids =
    if some_of (includes hidden_role_ids) user_role_ids then redacted attr else attr

unfoldable pub obfuscate_attributes : List Attribute → HiddenRoleMap → List String → List Attribute
unfolding map_get some_of includes
obfuscate_attributes attributes [] user_role_ids = attributes
obfuscate_attributes attributes (entry ∷ m) user_role_ids =
    map
      (λ (attr : Attribute). obfuscate_attribute attr (map_get (entry ∷ m) attr.key) user_role_ids)
      attributes

module _ (c : ObfuscationContext) where
  -- `if (obj.attributes) obj.attributes = …`
  unfoldable pub obfuscate_in_place : Option (List Attribute) → Option (List Attribute)
  unfolding obfuscate_attributes
  obfuscate_in_place =
      Option.map (λ attributes. obfuscate_attributes attributes c.hidden_role_map c.user_role_ids)

  -- a resource, an event or a link
  unfoldable pub obfuscate_holder : Holder → Holder
  unfolding obfuscate_in_place
  obfuscate_holder h = record h { attributes = obfuscate_in_place h.attributes }

  unfoldable pub obfuscate_span : Span → Span
  unfolding obfuscate_in_place obfuscate_holder
  obfuscate_span s = record s {
    attributes = obfuscate_in_place s.attributes;
    events = Option.map (map obfuscate_holder) s.events;
    links = Option.map (map obfuscate_holder) s.links;
  }

  unfoldable pub obfuscate_spans : ScopeSpans → ScopeSpans
  unfolding obfuscate_span
  obfuscate_spans s = record s { spans = Option.map (map obfuscate_span) s.spans }

  unfoldable pub obfuscate_batch : Batch → Batch
  unfolding obfuscate_spans obfuscate_holder
  obfuscate_batch b = record b {
    resource = Option.map obfuscate_holder b.resource;
    scope_spans = Option.map (map obfuscate_spans) b.scope_spans;
  }

  -- the loop body of `obfuscateSearchResponse`
  unfoldable pub obfuscate_summary : TraceSummary → TraceSummary
  unfolding obfuscate_holder
  obfuscate_summary t = record t { spans = Option.map (map obfuscate_holder) t.spans }

module _ (p : Platform) where
  unfoldable pub build_obfuscation_context :
      String → String → String → Exec (World p) ObfuscationContext
  unfolding get_visibility_rules_for_project get_user_roles set_rules
  build_obfuscation_context project_id organisation_id user_id = do
    rules ← get_visibility_rules_for_project p project_id
    if is_found rules
        then (get_user_roles p user_id (some organisation_id) (some project_id) >>= λ user_roles.
            pure (record {
              hidden_role_map = set_rules [] rules;
              user_role_ids = map (λ (r : Role). r.id) user_roles;
            }))
        else pure (record { hidden_role_map = []; user_role_ids = [] })

  unfoldable pub obfuscate_trace_response :
      TraceResponse → String → String → String → Exec (World p) TraceResponse
  unfolding build_obfuscation_context obfuscate_batch
  obfuscate_trace_response response project_id organisation_id user_id =
      if is_found (items response.batches)
      then (build_obfuscation_context project_id organisation_id user_id >>= λ c.
          pure
            (record response { batches = Option.map (map (obfuscate_batch c)) response.batches }))
      else pure response

  unfoldable pub obfuscate_search_response :
      SearchResponse → String → String → String → Exec (World p) SearchResponse
  unfolding build_obfuscation_context obfuscate_summary
  obfuscate_search_response response project_id organisation_id user_id =
      if is_found (items response.traces)
      then (build_obfuscation_context project_id organisation_id user_id >>= λ c.
          pure
            (record response { traces = Option.map (map (obfuscate_summary c)) response.traces }))
      else pure response
