-- ===== src/Traces/Obfuscation/Laws.antt =====
-- What a user is shown of a trace: the rules that hide an attribute, and the roles that decide.
use mathlib.Core.List.Memᴰ
use mathlib.Core.Option
use arcane_backend.Common.{
  String, Option, none, some, Bool, true, false, List, [], ◌∷◌, map, ◌≡◌, refl, sym, ◌↔◌, inl, inr,
  ◌∙◌, Memᴰ, ok, pure, ◌>>=◌, includes, includes_iff, mem_of_map, some_of, some_of_iff, gather,
  if◌then◌else◌, ◌==◌, eq_iff,
}
use arcane_backend.Platform.{Platform, Db, World, AttributeVisibilityRule}
use arcane_backend.Platform.Laws.{IsLawful}
use arcane_backend.Projects.VisibilityRules.{get_visibility_rules_for_project}
use arcane_backend.Projects.VisibilityRules.Changes.{HasUniqueRules}
use arcane_backend.Rbac.Current.{
  CacheIsCurrent, Answers, Answers-bind, Answers-pure, Answers-reads, Answers-get_user_roles,
  user_roles,
}
use arcane_backend.Rbac.Membership.{is_found}
use arcane_backend.Rbac.Role.{Role}
use arcane_backend.Rbac.Retrieval.{get_user_roles}
use arcane_backend.Traces.Attributes.{
  Attribute, Batch, TraceResponse, TraceSummary, SearchResponse, items, batch_attributes,
  trace_attributes, trace_scopes, batch_scopes, summary_attributes, search_attributes,
}
use arcane_backend.Traces.Obfuscation.{
  map_get, set_rules, ObfuscationContext, redacted, obfuscate_batch, obfuscate_summary,
  build_obfuscation_context, obfuscate_trace_response, obfuscate_search_response,
}
use arcane_backend.Traces.Obfuscation.Parts.{
  shown, within, batch_lem, scopes_lem, summary_lem, HoldsRules, set_rules-HoldsRules,
}

-- A rule of the project hides the key from one of the roles that the service of roles reads for
-- the user: for the instance, for the organisation and for the project, each at most one.
abbrev pub IsHidden : (p : Platform) → Db → String → String → String → String → Type 0
IsHidden p db project_id organisation_id user_id key =
    (rule : AttributeVisibilityRule) × Memᴰ rule db.visibility_rules
    × (rule.project_id ≡ project_id)
    × (rule.attribute_name ≡ key)
    × ((role : Role) × Memᴰ role (user_roles p db user_id organisation_id project_id)
        × Memᴰ role.id rule.hidden_role_ids)

-- `after` is `before` with the attributes redacted whose keys are hidden from the user, no other
-- attribute changed, and all in their places.
abbrev pub IsRedaction :
    (p : Platform) → Db → String → String → String → List Attribute → List Attribute → Type 0
IsRedaction p db project_id organisation_id user_id before after =
    (f : Attribute → Attribute) × ((a : Attribute)
      → IsHidden p db project_id organisation_id user_id a.key
      → f a ≡ redacted a)
    × ((a : Attribute) → ¬ IsHidden p db project_id organisation_id user_id a.key → f a ≡ a)
    × (after ≡ map f before)

-- The context of a user, from the rules of the project and the user's roles.
abbrev context_of : List AttributeVisibilityRule → List Role → ObfuscationContext
context_of rules roles =
    if is_found rules
    then record {
      hidden_role_map = set_rules [] rules;
      user_role_ids = map (λ (r : Role). r.id) roles;
    }
    else record { hidden_role_map = []; user_role_ids = [] }

module _ (p : Platform) (laws : IsLawful p) (project_id organisation_id user_id : String) where
  abbrev rules_of : Db → List AttributeVisibilityRule
  rules_of db = p.find (λ r. r.project_id == project_id) db.visibility_rules

  abbrev roles_of : Db → List Role
  roles_of db = user_roles p db user_id organisation_id project_id

  module _ (db : Db) (u : HasUniqueRules db.visibility_rules) where
    abbrev Hidden : String → Type 0
    Hidden key = IsHidden p db project_id organisation_id user_id key

    -- A rule that is read is one of the project, and each of those is read.
    listed_iff :
        (r : AttributeVisibilityRule)
        → Memᴰ r (rules_of db) ↔ (Memᴰ r db.visibility_rules × (r.project_id ≡ project_id))
    listed_iff r = (
      λ m.
          let (k, t) = (laws.mem_find _ db.visibility_rules r).0 m in
          (k, (eq_iff r.project_id project_id).0 t),
      λ (k, e). (laws.mem_find _ db.visibility_rules r).1 (k, (eq_iff r.project_id project_id).1 e),
    )

    -- One of the roles is among those that the rule names.
    hides_iff :
        (r : AttributeVisibilityRule)
        → (some_of (includes r.hidden_role_ids) (map (λ (x : Role). x.id) (roles_of db)) ≡ true)
          ↔ ((role : Role) × Memᴰ role (roles_of db) × Memᴰ role.id r.hidden_role_ids)
    hides_iff r = (
      λ t.
          let (id, m, e) = (some_of_iff _ _).0 t in
          let (role, k, same) = mem_of_map (λ (x : Role). x.id) (roles_of db) id m in
          (role, k, rw same ((includes_iff r.hidden_role_ids id).0 e)),
      λ (role, m, k).
          (some_of_iff _ _).1 (
            role.id,
            Memᴰ.map (λ (x : Role). x.id) m,
            (includes_iff r.hidden_role_ids role.id).1 k,
          ),
    )

    shown_redacts :
        (rules : List AttributeVisibilityRule)
        → rules_of db ≡ rules
        → (a : Attribute)
        → (Hidden a.key → shown (context_of rules (roles_of db)) a ≡ redacted a)
          × (¬ Hidden a.key → shown (context_of rules (roles_of db)) a ≡ a)
    unfolding map_get
    shown_redacts [] none_found a = (
      λ (rule, m, own, _, _).
          elim (let k : Memᴰ rule [] = rw none_found at ((listed_iff rule).1 (m, own)) in k) [ ],
      λ _. refl,
    )
    shown_redacts (r ∷ rules) found a = go (set_rules-HoldsRules [] (r ∷ rules) a.key)
      where
        own_rule :
            (q : AttributeVisibilityRule)
            → Memᴰ q (r ∷ rules)
            → Memᴰ q db.visibility_rules × (q.project_id ≡ project_id)
        own_rule q m = (listed_iff q).0 (rw found m)

        role_test : AttributeVisibilityRule → Bool
        role_test q = some_of (includes q.hidden_role_ids) (map (λ (x : Role). x.id) (roles_of db))

        Redacts : Type 0
        Redacts =
            (Hidden a.key → shown (context_of (r ∷ rules) (roles_of db)) a ≡ redacted a)
            × (¬ Hidden a.key → shown (context_of (r ∷ rules) (roles_of db)) a ≡ a)

        -- The rule that the map keeps is the only one for the key.
        only :
            (q : AttributeVisibilityRule)
            → Memᴰ q (r ∷ rules)
            → q.attribute_name ≡ a.key
            → Hidden a.key
            → role_test q ≡ true
        only q m n (rule, k, own, named, hit) =
            let (mq, oq) = own_rule q m in
            let same = u.unique_names rule q k mq (own ∙ sym oq) (named ∙ sym n) in
            (hides_iff q).1 (rw (← same) hit)

        decide :
            (b : Bool) (q : AttributeVisibilityRule)
            → role_test q ≡ b
            → Memᴰ q (r ∷ rules)
            → q.attribute_name ≡ a.key
            → map_get (set_rules [] (r ∷ rules)) a.key ≡ some q.hidden_role_ids
            → Redacts
        decide true q t m n e = (
          λ h. rw (e, t) refl,
          λ no_rule.
              let (mq, oq) = own_rule q m in absurd (no_rule (q, mq, oq, n, (hides_iff q).0 t)),
        )
        decide false q t m n e = (λ h. let s = only q m n h in cc, λ no_rule. rw (e, t) refl)

        go : HoldsRules [] (r ∷ rules) a.key → Redacts
        go (inl (q, m, n, e)) = decide (role_test q) q refl m n e
        go (inr (free, e)) = (
          λ (rule, k, own, named, _). absurd (
              free rule
                (let m : Memᴰ rule (r ∷ rules) = rw found at ((listed_iff rule).1 (k, own)) in m)
                named),
          λ _. rw e refl,
        )

  abbrev context : Db → ObfuscationContext
  context db = context_of (rules_of db) (roles_of db)

  Answers-build_obfuscation_context :
      Answers p
        (build_obfuscation_context p project_id organisation_id user_id)
        (λ db. ok (context db))
  unfolding build_obfuscation_context get_visibility_rules_for_project
  Answers-build_obfuscation_context =
      Answers-bind p (λ db. ok (rules_of db)) _ (Answers-reads p rules_of) roles_read
    where
      roles_read :
          (rules : List AttributeVisibilityRule)
          → Answers p
              (if is_found rules
                then (get_user_roles p user_id (some organisation_id) (some project_id)
                    >>= λ user_roles. pure (record {
                      hidden_role_map = set_rules [] rules;
                      user_role_ids = map (λ (r : Role). r.id) user_roles;
                    }))
                else pure (record { hidden_role_map = []; user_role_ids = [] }))
              (λ db. ok (context_of rules (roles_of db)))
      roles_read [] = Answers-pure p _
      roles_read (r ∷ rules) =
          Answers-bind p _ _
            (Answers-get_user_roles p laws user_id (some organisation_id) (some project_id))
            (λ roles. Answers-pure p _)

  -- A response with parts is changed, and one with none is left.
  abbrev obfuscated : {A R : Type 0} → List A → R → (ObfuscationContext → R) → Db → R
  obfuscated [] response change db = response
  obfuscated (part ∷ parts) response change db = change (context db)

  Answers-obfuscation :
      {A R : Type 0} (parts : List A) (response : R) (change : ObfuscationContext → R)
      → Answers p
          (if is_found parts
            then (build_obfuscation_context p project_id organisation_id user_id >>= λ c.
                pure (change c))
            else pure response)
          (λ db. ok (obfuscated parts response change db))
  Answers-obfuscation [] response change = Answers-pure p response
  Answers-obfuscation (part ∷ parts) response change =
      Answers-bind p _ _ Answers-build_obfuscation_context (λ c. Answers-pure p (change c))

  -- Once the attributes are changed alike, the user's rules tell what becomes of them.
  obfuscated-IsRedaction :
      (db : Db)
      → HasUniqueRules db.visibility_rules
      → (before : List Attribute) {after : List Attribute} → after ≡ map (shown (context db)) before
      → IsRedaction p db project_id organisation_id user_id before after
  obfuscated-IsRedaction db u before e = (
    shown (context db),
    λ a. (shown_redacts db u (rules_of db) refl a).0,
    λ a. (shown_redacts db u (rules_of db) refl a).1,
    e,
  )

  -- From a current cache, and where a project has no two rules for one key: a user is shown a trace
  -- with exactly those attributes of resources, spans, events and links redacted whose key a rule of
  -- the project hides from one of at most three roles, the first that is found of the user's
  -- instance roles, of those in the organisation and of those in the project; what is hidden from
  -- a further role of the user is shown. Instrumentation scopes are shown with all their
  -- attributes. The tables stay as they are and the cache stays current.
  pub obfuscate_trace_response_lem :
      (response : TraceResponse) (w : World p)
      → CacheIsCurrent p w
      → HasUniqueRules w.db.visibility_rules
      → (answer : TraceResponse) × (cache : p.Cache) × (obfuscate_trace_response p response
            project_id organisation_id user_id w
          ≡ (ok answer, record w { cache = cache }))
        × CacheIsCurrent p (record w { cache = cache })
        × IsRedaction p w.db project_id organisation_id user_id
            (trace_attributes response)
            (trace_attributes answer)
        × (trace_scopes answer ≡ trace_scopes response)
  unfolding obfuscate_trace_response trace_attributes trace_scopes
  obfuscate_trace_response_lem response w current u =
      let change : ObfuscationContext → TraceResponse =
        λ c. record response { batches = Option.map (map (obfuscate_batch c)) response.batches } in
      let answered = Answers-obfuscation (items response.batches) response change in
      let (cache, e, stays) = answered.at w current in
      (
        obfuscated (items response.batches) response change w.db,
        cache,
        e,
        stays,
        redaction w.db u response.batches response.rest,
        same_scopes w.db response.batches response.rest,
      )
    where
      change_of : Option (List Batch) → String → ObfuscationContext → TraceResponse
      change_of batches others c = record {
        batches = Option.map (map (obfuscate_batch c)) batches;
        rest = others;
      }

      same_scopes :
          (db : Db) (batches : Option (List Batch)) (others : String)
          → trace_scopes (
              obfuscated
                (items batches)
                (record { batches = batches; rest = others })
                (change_of batches others)
                db)
            ≡ gather batch_scopes (items batches)
      same_scopes db none others = refl
      same_scopes db (some []) others = refl
      same_scopes db (some (b ∷ bs)) others = scopes_lem (context db) (b ∷ bs)

      redaction :
          (db : Db)
          → HasUniqueRules db.visibility_rules
          → (batches : Option (List Batch)) (others : String)
          → IsRedaction p db project_id organisation_id user_id
              (gather batch_attributes (items batches))
              (trace_attributes (
                obfuscated
                  (items batches)
                  (record { batches = batches; rest = others })
                  (change_of batches others)
                  db))
      redaction db v none others = obfuscated-IsRedaction db v [] refl
      redaction db v (some []) others = obfuscated-IsRedaction db v [] refl
      redaction db v (some (b ∷ bs)) others =
          obfuscated-IsRedaction db v (gather batch_attributes (b ∷ bs)) (
            within (context db) (obfuscate_batch (context db)) batch_attributes
              (batch_lem (context db)) (some (b ∷ bs)))

  -- From a current cache, and where a project has no two rules for one key: the spans in the
  -- summaries that a search answers with have exactly those attributes redacted whose key a rule of
  -- the project hides from one of at most three roles, the first that is found of the user's
  -- instance roles, of those in the organisation and of those in the project; what is hidden from
  -- a further role of the user is shown. The tables stay as they are and the cache stays current.
  pub obfuscate_search_response_lem :
      (response : SearchResponse) (w : World p)
      → CacheIsCurrent p w
      → HasUniqueRules w.db.visibility_rules
      → (answer : SearchResponse) × (cache : p.Cache) × (obfuscate_search_response p response
            project_id organisation_id user_id w
          ≡ (ok answer, record w { cache = cache }))
        × CacheIsCurrent p (record w { cache = cache })
        × IsRedaction p w.db project_id organisation_id user_id
            (search_attributes response)
            (search_attributes answer)
  unfolding obfuscate_search_response search_attributes
  obfuscate_search_response_lem response w current u =
      let change : ObfuscationContext → SearchResponse =
        λ c. record response { traces = Option.map (map (obfuscate_summary c)) response.traces } in
      let answered = Answers-obfuscation (items response.traces) response change in
      let (cache, e, stays) = answered.at w current in
      (
        obfuscated (items response.traces) response change w.db,
        cache,
        e,
        stays,
        redaction w.db u response.traces response.rest,
      )
    where
      change_of : Option (List TraceSummary) → String → ObfuscationContext → SearchResponse
      change_of traces others c = record {
        traces = Option.map (map (obfuscate_summary c)) traces;
        rest = others;
      }

      redaction :
          (db : Db)
          → HasUniqueRules db.visibility_rules
          → (traces : Option (List TraceSummary)) (others : String)
          → IsRedaction p db project_id organisation_id user_id
              (gather summary_attributes (items traces))
              (search_attributes (
                obfuscated
                  (items traces)
                  (record { traces = traces; rest = others })
                  (change_of traces others)
                  db))
      redaction db v none others = obfuscated-IsRedaction db v [] refl
      redaction db v (some []) others = obfuscated-IsRedaction db v [] refl
      redaction db v (some (t ∷ ts)) others =
          obfuscated-IsRedaction db v (gather summary_attributes (t ∷ ts)) (
            within (context db) (obfuscate_summary (context db)) summary_attributes
              (summary_lem (context db)) (some (t ∷ ts)))
