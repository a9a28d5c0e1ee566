-- ===== src/Traces/Obfuscation/Parts.antt =====
-- Obfuscation changes every attribute of a trace alike, and what the map of the rules holds.
use mathlib.Core.Option
use arcane_backend.Common.{
  String, Option, none, some, Bool, true, false, List, [], ◌∷◌, ◌++◌, map, ◌≡◌, refl, sym, ap, ◌⊎◌,
  inl, inr, ◌≢◌, ◌∙◌, Memᴰ, gather, gather-map, if◌then◌else◌, ◌==◌, eq_iff, arith,
}
use arcane_backend.Platform.{AttributeVisibilityRule}
use arcane_backend.Traces.Attributes.{
  Attribute, Holder, Span, ScopeSpans, Batch, TraceSummary, items, items-map, holder_attributes,
  resource_attributes, span_attributes, scope_attributes, batch_attributes, batch_scopes,
  summary_attributes,
}
use arcane_backend.Traces.Obfuscation.{
  HiddenRoleMap, map_get, map_set, set_rules, ObfuscationContext, obfuscate_attribute,
  obfuscate_attributes, obfuscate_in_place, obfuscate_holder, obfuscate_span, obfuscate_spans,
  obfuscate_batch, obfuscate_summary,
}

-- What is made of one attribute, whether there are rules or not.
abbrev pub shown : ObfuscationContext → Attribute → Attribute
shown c attr = obfuscate_attribute attr (map_get c.hidden_role_map attr.key) c.user_role_ids

map_same : {A : Type 0} (xs : List A) → map (λ (x : A). x) xs ≡ xs
map_same [] = refl
map_same (x ∷ xs) = rw (map_same xs)

obfuscate_attributes_lem :
    (c : ObfuscationContext) (attributes : List Attribute)
    → obfuscate_attributes attributes c.hidden_role_map c.user_role_ids ≡ map (shown c) attributes
unfolding obfuscate_attributes
obfuscate_attributes_lem c attributes = go c.hidden_role_map
  where
    go :
        (m : HiddenRoleMap)
        → obfuscate_attributes attributes m c.user_role_ids
          ≡ map
              (λ (attr : Attribute). obfuscate_attribute attr (map_get m attr.key) c.user_role_ids)
              attributes
    go [] = sym (map_same attributes)
    go (entry ∷ m) = refl

-- The attributes of each part, part by part.
module _ (c : ObfuscationContext) where
  pub in_place_lem :
      (o : Option (List Attribute)) → items (obfuscate_in_place c o) ≡ map (shown c) (items o)
  unfolding obfuscate_in_place
  in_place_lem none = refl
  in_place_lem (some attributes) = obfuscate_attributes_lem c attributes

  -- A part whose items are changed alike.
  pub within :
      {A : Type 0} (change : A → A) (part : A → List Attribute)
      → ((x : A) → part (change x) ≡ map (shown c) (part x))
      → (o : Option (List A))
      → gather part (items (Option.map (map change) o)) ≡ map (shown c) (gather part (items o))
  within change part h o = rw (items-map change o) (gather-map change part (shown c) h (items o))

  both :
      (a b : List Attribute) {a' b' : List Attribute}
      → a' ≡ map (shown c) a
      → b' ≡ map (shown c) b
      → a' ++ b' ≡ map (shown c) (a ++ b)
  both a b e f = rw (e, f) (sym (map_append (shown c) a b))
    where
      map_append :
          (g : Attribute → Attribute) (xs ys : List Attribute)
          → map g (xs ++ ys) ≡ map g xs ++ map g ys
      map_append g [] ys = refl
      map_append g (x ∷ xs) ys = rw (map_append g xs ys)

  holder_lem :
      (h : Holder) → holder_attributes (obfuscate_holder c h) ≡ map (shown c) (holder_attributes h)
  unfolding obfuscate_holder
  holder_lem h = in_place_lem h.attributes

  resource_lem :
      (r : Option Holder)
      → resource_attributes (Option.map (obfuscate_holder c) r)
        ≡ map (shown c) (resource_attributes r)
  resource_lem none = refl
  resource_lem (some h) = holder_lem h

  pub span_lem :
      (s : Span) → span_attributes (obfuscate_span c s) ≡ map (shown c) (span_attributes s)
  unfolding span_attributes obfuscate_span
  span_lem s = both _ _ (in_place_lem s.attributes) (
      both _ _ (within (obfuscate_holder c) holder_attributes holder_lem s.events)
        (within (obfuscate_holder c) holder_attributes holder_lem s.links))

  pub scope_lem :
      (s : ScopeSpans) → scope_attributes (obfuscate_spans c s) ≡ map (shown c) (scope_attributes s)
  unfolding scope_attributes obfuscate_spans
  scope_lem s = within (obfuscate_span c) span_attributes span_lem s.spans

  pub batch_lem :
      (b : Batch) → batch_attributes (obfuscate_batch c b) ≡ map (shown c) (batch_attributes b)
  unfolding batch_attributes obfuscate_batch
  batch_lem b =
      both _ _ (resource_lem b.resource)
        (within (obfuscate_spans c) scope_attributes scope_lem b.scope_spans)

  -- The instrumentation scopes are left as they are.
  batch_scopes_lem : (b : Batch) → batch_scopes (obfuscate_batch c b) ≡ batch_scopes b
  unfolding batch_scopes obfuscate_batch obfuscate_spans
  batch_scopes_lem b = go b.scope_spans
    where
      each :
          (xs : List ScopeSpans)
          → map (λ (s : ScopeSpans). s.scope) (map (obfuscate_spans c) xs)
            ≡ map (λ (s : ScopeSpans). s.scope) xs
      each [] = refl
      each (x ∷ xs) = rw (each xs)

      go :
          (o : Option (List ScopeSpans))
          → map (λ (s : ScopeSpans). s.scope) (items (Option.map (map (obfuscate_spans c)) o))
            ≡ map (λ (s : ScopeSpans). s.scope) (items o)
      go none = refl
      go (some xs) = each xs

  pub scopes_lem :
      (bs : List Batch) → gather batch_scopes (map (obfuscate_batch c) bs) ≡ gather batch_scopes bs
  unfolding gather
  scopes_lem [] = refl
  scopes_lem (b ∷ bs) = rw (batch_scopes_lem b, scopes_lem bs) refl

  pub summary_lem :
      (t : TraceSummary)
      → summary_attributes (obfuscate_summary c t) ≡ map (shown c) (summary_attributes t)
  unfolding summary_attributes obfuscate_summary
  summary_lem t = within (obfuscate_holder c) holder_attributes holder_lem t.spans

-- The map of the rules: what was set last for a key.
map_get-map_set :
    (k j : String) (v : List String) (m : HiddenRoleMap)
    → map_get (map_set k v m) j ≡ (if k == j then some v else map_get m j)
unfolding map_get map_set
map_get-map_set k j v [] = refl
map_get-map_set k j v ((i, u) ∷ m) =
    ground (arith, eq_iff k j, eq_iff i k, eq_iff i j, map_get-map_set k j v m)

-- What the map holds of a key after the rules: those of a rule for it, or what it held before.
abbrev pub HoldsRules : HiddenRoleMap → List AttributeVisibilityRule → String → Type 0
HoldsRules m rules key =
    ((r : AttributeVisibilityRule) × Memᴰ r rules
      × (r.attribute_name ≡ key)
      × (map_get (set_rules m rules) key ≡ some r.hidden_role_ids))
    ⊎ (((r : AttributeVisibilityRule) → Memᴰ r rules → r.attribute_name ≢ key)
        × (map_get (set_rules m rules) key ≡ map_get m key))

pub set_rules-HoldsRules :
    (m : HiddenRoleMap) (rules : List AttributeVisibilityRule) (key : String)
    → HoldsRules m rules key
unfolding set_rules
set_rules-HoldsRules m [] key = inr (λ r k. elim k [ ], refl)
set_rules-HoldsRules m (r ∷ rules) key =
    go (set_rules-HoldsRules (map_set r.attribute_name r.hidden_role_ids m) rules key)
  where
    later : AttributeVisibilityRule → HiddenRoleMap
    later q = map_set q.attribute_name q.hidden_role_ids m

    known :
        (b : Bool)
        → (r.attribute_name == key) ≡ b
        → ((q : AttributeVisibilityRule) → Memᴰ q rules → q.attribute_name ≢ key)
        → map_get (set_rules (later r) rules) key ≡ map_get (later r) key
        → HoldsRules m (r ∷ rules) key
    known true t free e = inl (
      r,
      Memᴰ.head refl,
      (eq_iff r.attribute_name key).0 t,
      e ∙ (rw (map_get-map_set r.attribute_name key r.hidden_role_ids m) (rw t refl)),
    )
    known false t free e =
        inr
          (others, e ∙ (rw (map_get-map_set r.attribute_name key r.hidden_role_ids m) (rw t refl)))
      where
        others : (q : AttributeVisibilityRule) → Memᴰ q (r ∷ rules) → q.attribute_name ≢ key
        others q (Memᴰ.head s) n =
            let h =
              (eq_iff r.attribute_name key).1
                (ap (λ (x : AttributeVisibilityRule). x.attribute_name) (sym s) ∙ n) in
            cc
        others q (Memᴰ.tail k) n = free q k n

    go : HoldsRules (later r) rules key → HoldsRules m (r ∷ rules) key
    go (inl (q, k, n, e)) = inl (q, Memᴰ.tail k, n, e)
    go (inr (free, e)) = known (r.attribute_name == key) refl free e
