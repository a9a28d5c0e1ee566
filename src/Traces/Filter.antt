-- ===== src/Traces/Filter.antt =====
-- traces/backends/common/trace-filter.util.ts: the traces that carry the attribute of a project. What
-- is logged when nothing is left is left out.
pub mod Laws
use arcane_backend.Common.{
  String, Option, none, some, Bool, true, false, ◌&&◌, ◌||◌, ◌==◌, List, some_of, filter_by,
  same_id,
}
use arcane_backend.Traces.Attributes.{
  Primitive, text, number, boolean, OtlpValue, Value, null_value, primitive, object, Attribute,
  Holder, Span, ScopeSpans, Batch, TraceResponse, TraceSummary, items,
}

pub record ProjectTraceFilter : Type 0 where
  pub attribute_name : String
  pub attribute_value : String

-- `String(value)`
abbrev pub to_text : Primitive → String
to_text (text s) = s
to_text (number s) = s
to_text (boolean true) = "true"
to_text (boolean false) = "false"

-- The loop over the keys of OTLP values: the first that is there.
abbrev pub first_present : Option Primitive → Option String → Option String
first_present none later = later
first_present (some v) later = some (to_text v)

unfoldable pub extract_from_otlp_object : OtlpValue → Option String
extract_from_otlp_object obj = first_present obj.string_value (
    first_present obj.int_value
      (first_present obj.bool_value (first_present obj.double_value none)))

unfoldable pub extract_attribute_value : Value → Option String
unfolding extract_from_otlp_object
extract_attribute_value null_value = none
extract_attribute_value (primitive v) = some (to_text v)
extract_attribute_value (object obj) = extract_from_otlp_object obj

unfoldable pub attribute_matches_filter : ProjectTraceFilter → Attribute → Bool
unfolding extract_attribute_value
attribute_matches_filter filter attr =
    attr.key == filter.attribute_name
    && same_id (extract_attribute_value attr.value) (some filter.attribute_value)

-- `spanHasMatchingAttribute`, and the same test of a resource
unfoldable pub has_matching_attribute : ProjectTraceFilter → Option (List Attribute) → Bool
unfolding attribute_matches_filter some_of
has_matching_attribute filter attributes =
    some_of (attribute_matches_filter filter) (items attributes)

unfoldable pub resource_has_matching_attribute : ProjectTraceFilter → Option Holder → Bool
unfolding has_matching_attribute
resource_has_matching_attribute filter none = false
resource_has_matching_attribute filter (some resource) =
    has_matching_attribute filter resource.attributes

unfoldable pub span_has_matching_attribute : ProjectTraceFilter → Span → Bool
unfolding has_matching_attribute
span_has_matching_attribute filter span = has_matching_attribute filter span.attributes

unfoldable pub scope_has_matching_attribute : ProjectTraceFilter → ScopeSpans → Bool
unfolding span_has_matching_attribute some_of
scope_has_matching_attribute filter scope =
    some_of (span_has_matching_attribute filter) (items scope.spans)

unfoldable pub batch_has_matching_attribute : ProjectTraceFilter → Batch → Bool
unfolding resource_has_matching_attribute scope_has_matching_attribute some_of
batch_has_matching_attribute filter batch =
    resource_has_matching_attribute filter batch.resource
    || some_of (scope_has_matching_attribute filter) (items batch.scope_spans)

unfoldable pub filter_full_trace : ProjectTraceFilter → TraceResponse → Bool
unfolding batch_has_matching_attribute some_of
filter_full_trace filter trace = some_of (batch_has_matching_attribute filter) (items trace.batches)

unfoldable pub filter_full_traces : List TraceResponse → ProjectTraceFilter → List TraceResponse
unfolding filter_full_trace filter_by
filter_full_traces traces filter = filter_by (filter_full_trace filter) traces

unfoldable pub trace_summary_has_matching_attribute : ProjectTraceFilter → TraceSummary → Bool
unfolding has_matching_attribute some_of
trace_summary_has_matching_attribute filter trace =
    some_of (λ span. has_matching_attribute filter span.attributes) (items trace.spans)

unfoldable pub filter_trace_summaries : List TraceSummary → ProjectTraceFilter → List TraceSummary
unfolding trace_summary_has_matching_attribute filter_by
filter_trace_summaries traces filter =
    filter_by (trace_summary_has_matching_attribute filter) traces
