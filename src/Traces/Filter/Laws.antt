-- ===== src/Traces/Filter/Laws.antt =====
-- The nested tests of the filter against one search through the attributes of a trace.
use mathlib.Core.List.Memᴰ
use arcane_backend.Common.{
  String, Option, none, some, Bool, true, false, ◌||◌, List, ◌++◌, ◌≡◌, refl, ◌⊎◌, ◌↔◌, inl, inr,
  Memᴰ, some_of, some_of_iff, gather, mem-gather, mem-filter_by, same_id_iff, eq_iff, and-eq-true,
}
use arcane_backend.Traces.Attributes.{
  Attribute, Holder, Span, ScopeSpans, Batch, TraceResponse, TraceSummary, items,
  resource_attributes, summary_attributes,
}
use arcane_backend.Traces.Filter.{
  ProjectTraceFilter, extract_attribute_value, attribute_matches_filter, has_matching_attribute,
  resource_has_matching_attribute, span_has_matching_attribute, scope_has_matching_attribute,
  batch_has_matching_attribute, filter_full_trace, filter_full_traces,
  trace_summary_has_matching_attribute, filter_trace_summaries,
}

-- The attributes that the filter looks at: those of resources and spans, not of events and links.
abbrev pub searched_scope : ScopeSpans → List Attribute
searched_scope s = gather (λ (x : Span). items x.attributes) (items s.spans)

abbrev pub searched_batch : Batch → List Attribute
searched_batch b = resource_attributes b.resource ++ gather searched_scope (items b.scope_spans)

abbrev pub searched_attributes : TraceResponse → List Attribute
searched_attributes t = gather searched_batch (items t.batches)

-- An attribute of the list has the name and the value of the filter.
abbrev pub IsCarried : ProjectTraceFilter → List Attribute → Type 0
IsCarried f attributes =
    (a : Attribute) × Memᴰ a attributes
    × (a.key ≡ f.attribute_name)
    × (extract_attribute_value a.value ≡ some f.attribute_value)

module _ (f : ProjectTraceFilter) where
  -- Some attribute of the list passes the test.
  abbrev Passes : List Attribute → Type 0
  Passes attributes = (a : Attribute) × Memᴰ a attributes × (attribute_matches_filter f a ≡ true)

  Passes-iff-IsCarried : (attributes : List Attribute) → Passes attributes ↔ IsCarried f attributes
  unfolding attribute_matches_filter
  Passes-iff-IsCarried attributes = (
    λ (a, m, t).
        let (s, v) = and-eq-true _ _ t in
        let (x, e, g) =
          (same_id_iff (extract_attribute_value a.value) (some f.attribute_value)).0 v in
        (a, m, (eq_iff a.key f.attribute_name).0 s, value a x e g),
    λ (a, m, k, v). (
      a,
      m,
      rw ((eq_iff a.key f.attribute_name).1 k, v)
          ((eq_iff f.attribute_value f.attribute_value).1 refl),
    ),
  )
    where
      value :
          (a : Attribute) (x : String)
          → extract_attribute_value a.value ≡ some x
          → some f.attribute_value ≡ some x
          → extract_attribute_value a.value ≡ some f.attribute_value
      value a x e g = cc

  -- A test that finds what its part of the trace carries finds it in a list of such parts.
  some_of-Passes :
      {A : Type 0} (test : A → Bool) (part : A → List Attribute)
      → ((x : A) → (test x ≡ true) ↔ Passes (part x))
      → (xs : List A) → (some_of test xs ≡ true) ↔ Passes (gather part xs)
  some_of-Passes test part h xs = (
    λ t.
        let (x, m, k) = (some_of_iff test xs).0 t in
        let (a, n, e) = (h x).0 k in (a, (mem-gather part xs a).1 (x, m, n), e),
    λ (a, n, e).
        let (x, m, k) = (mem-gather part xs a).0 n in
        (some_of_iff test xs).1 (x, m, (h x).1 (a, k, e)),
  )

  has_matching_attribute_iff :
      (attributes : Option (List Attribute))
      → (has_matching_attribute f attributes ≡ true) ↔ Passes (items attributes)
  unfolding has_matching_attribute
  has_matching_attribute_iff attributes =
      some_of_iff (attribute_matches_filter f) (items attributes)

  scope_iff :
      (s : ScopeSpans) → (scope_has_matching_attribute f s ≡ true) ↔ Passes (searched_scope s)
  unfolding scope_has_matching_attribute span_has_matching_attribute
  scope_iff s = some_of-Passes _ _ (λ x. has_matching_attribute_iff x.attributes) (items s.spans)

  resource_iff :
      (r : Option Holder)
      → (resource_has_matching_attribute f r ≡ true) ↔ Passes (resource_attributes r)
  unfolding resource_has_matching_attribute
  resource_iff none = (λ h. cc, λ (a, m, e). elim m [ ])
  resource_iff (some r) = has_matching_attribute_iff r.attributes

  batch_iff : (b : Batch) → (batch_has_matching_attribute f b ≡ true) ↔ Passes (searched_batch b)
  unfolding batch_has_matching_attribute
  batch_iff b = (
    λ t. to (or_cases _ _ t),
    λ (a, m, e). from a e (Memᴰ.append_cases (resource_attributes b.resource) m),
  )
    where
      Found : Type 0
      Found = Passes (searched_batch b)

      or_cases : (x y : Bool) → (x || y) ≡ true → (x ≡ true) ⊎ (y ≡ true)
      or_cases true y h = inl refl
      or_cases false y h = inr h

      or_intro : (x y : Bool) → (x ≡ true) ⊎ (y ≡ true) → (x || y) ≡ true
      or_intro true y h = refl
      or_intro false y (inl h) = cc
      or_intro false y (inr h) = h

      scopes :
          (some_of (scope_has_matching_attribute f) (items b.scope_spans) ≡ true)
          ↔ Passes (gather searched_scope (items b.scope_spans))
      scopes = some_of-Passes _ _ scope_iff (items b.scope_spans)

      to :
          (resource_has_matching_attribute f b.resource ≡ true)
            ⊎ (some_of (scope_has_matching_attribute f) (items b.scope_spans) ≡ true)
          → Found
      to (inl t) = let (a, m, e) = (resource_iff b.resource).0 t in (a, Memᴰ.append_left _ m, e)
      to (inr t) = let (a, m, e) = scopes.0 t in (a, Memᴰ.append_right _ m, e)

      from :
          (a : Attribute)
          → attribute_matches_filter f a ≡ true
          → Memᴰ a (resource_attributes b.resource)
            ⊎ Memᴰ a (gather searched_scope (items b.scope_spans))
          → (resource_has_matching_attribute f b.resource
              || some_of (scope_has_matching_attribute f) (items b.scope_spans))
            ≡ true
      from a e (inl m) = or_intro _ _ (inl ((resource_iff b.resource).1 (a, m, e)))
      from a e (inr m) = or_intro _ _ (inr (scopes.1 (a, m, e)))

  -- The filter keeps exactly the traces of the list that carry, in a resource or in a span, an
  -- attribute with the name and the value of the project, whichever way the value is written.
  pub filter_full_traces_iff :
      (traces : List TraceResponse) (t : TraceResponse)
      → Memᴰ t (filter_full_traces traces f) ↔ (Memᴰ t traces × IsCarried f (searched_attributes t))
  unfolding filter_full_traces filter_full_trace
  filter_full_traces_iff traces t = (
    λ m.
        let (k, e) = (mem-filter_by (filter_full_trace f) traces t).0 m in
        (k, (Passes-iff-IsCarried (searched_attributes t)).0 (batches.0 e)),
    λ (k, c).
        (mem-filter_by (filter_full_trace f) traces t).1
          (k, batches.1 ((Passes-iff-IsCarried (searched_attributes t)).1 c)),
  )
    where
      batches : (filter_full_trace f t ≡ true) ↔ Passes (searched_attributes t)
      batches = some_of-Passes _ _ batch_iff (items t.batches)

  -- The filter keeps exactly the summaries of a search that carry, in a span, an attribute with the
  -- name and the value of the project, whichever way the value is written.
  pub filter_trace_summaries_iff :
      (traces : List TraceSummary) (t : TraceSummary)
      → Memᴰ t (filter_trace_summaries traces f)
        ↔ (Memᴰ t traces × IsCarried f (summary_attributes t))
  unfolding filter_trace_summaries trace_summary_has_matching_attribute summary_attributes
  filter_trace_summaries_iff traces t = (
    λ m.
        let (k, e) = (mem-filter_by (trace_summary_has_matching_attribute f) traces t).0 m in
        (k, (Passes-iff-IsCarried (summary_attributes t)).0 (spans.0 e)),
    λ (k, c).
        (mem-filter_by (trace_summary_has_matching_attribute f) traces t).1
          (k, spans.1 ((Passes-iff-IsCarried (summary_attributes t)).1 c)),
  )
    where
      spans : (trace_summary_has_matching_attribute f t ≡ true) ↔ Passes (summary_attributes t)
      spans =
          some_of-Passes _ _ (λ (x : Holder). has_matching_attribute_iff x.attributes)
            (items t.spans)
