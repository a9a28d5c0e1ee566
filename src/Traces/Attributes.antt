-- ===== src/Traces/Attributes.antt =====
-- traces/backends/tempo/tempo.types.ts: the parts of a trace that carry attributes. What else an
-- object holds stands in a field `rest`, as its JSON.
use arcane_backend.Common.{String, Option, none, some, Bool, List, [], ◌++◌, map, ◌≡◌, refl, gather}
use mathlib.Core.Option

-- A JSON value that is not an object. A number stands as its text, as `String(value)` gives it.
pub data Primitive : Type 0 where
  text : String → Primitive
  number : String → Primitive
  boolean : Bool → Primitive

-- The keys of an OTLP value that the program knows.
pub record OtlpValue : Type 0 where
  pub string_value : Option Primitive
  pub int_value : Option Primitive
  pub bool_value : Option Primitive
  pub double_value : Option Primitive
  pub rest : String

pub data Value : Type 0 where
  null_value : Value
  primitive : Primitive → Value
  object : OtlpValue → Value

pub record Attribute : Type 0 where
  pub key : String
  pub value : Value

-- A resource, an event or a link of a span.
pub record Holder : Type 0 where
  pub attributes : Option (List Attribute)
  pub rest : String

pub record Span : Type 0 where
  pub attributes : Option (List Attribute)
  pub events : Option (List Holder)
  pub links : Option (List Holder)
  pub rest : String

pub record ScopeSpans : Type 0 where
  -- the instrumentation scope
  pub scope : Option Holder
  pub spans : Option (List Span)
  pub rest : String

pub record Batch : Type 0 where
  pub resource : Option Holder
  pub scope_spans : Option (List ScopeSpans)
  pub rest : String

pub record TraceResponse : Type 0 where
  pub batches : Option (List Batch)
  pub rest : String

pub record TraceSummary : Type 0 where
  pub trace_id : String
  -- `spanSet?.spans`, a span with no events and links
  pub spans : Option (List Holder)
  pub rest : String

pub record SearchResponse : Type 0 where
  pub traces : Option (List TraceSummary)
  pub rest : String

-- The items of a list that may be missing.
abbrev pub items {ℓ} : {A : Type ℓ} → Option (List A) → List A
items none = []
items (some xs) = xs

-- The attributes of the resources, spans, events and links of a trace.
abbrev pub holder_attributes : Holder → List Attribute
holder_attributes h = items h.attributes

unfoldable pub span_attributes : Span → List Attribute
unfolding gather
span_attributes s =
    items s.attributes
    ++ (gather holder_attributes (items s.events) ++ gather holder_attributes (items s.links))

abbrev pub resource_attributes : Option Holder → List Attribute
resource_attributes none = []
resource_attributes (some h) = holder_attributes h

unfoldable pub scope_attributes : ScopeSpans → List Attribute
unfolding gather span_attributes
scope_attributes s = gather span_attributes (items s.spans)

unfoldable pub batch_attributes : Batch → List Attribute
unfolding gather scope_attributes
batch_attributes b = resource_attributes b.resource ++ gather scope_attributes (items b.scope_spans)

unfoldable pub trace_attributes : TraceResponse → List Attribute
unfolding gather batch_attributes
trace_attributes t = gather batch_attributes (items t.batches)

-- The instrumentation scopes, which carry attributes of their own.
unfoldable pub batch_scopes : Batch → List (Option Holder)
batch_scopes b = map (λ (s : ScopeSpans). s.scope) (items b.scope_spans)

unfoldable pub trace_scopes : TraceResponse → List (Option Holder)
unfolding gather batch_scopes
trace_scopes t = gather batch_scopes (items t.batches)

unfoldable pub summary_attributes : TraceSummary → List Attribute
unfolding gather
summary_attributes t = gather holder_attributes (items t.spans)

unfoldable pub search_attributes : SearchResponse → List Attribute
unfolding gather summary_attributes
search_attributes r = gather summary_attributes (items r.traces)

pub items-map :
    {A : Type 0} (f : A → A) (o : Option (List A)) → items (Option.map (map f) o) ≡ map f (items o)
items-map f none = refl
items-map f (some xs) = refl
