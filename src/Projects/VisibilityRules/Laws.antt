-- ===== src/Projects/VisibilityRules/Laws.antt =====
-- What requests to the service of visibility rules leave in the tables.
use arcane_backend.Common.{
  String, Option, none, some, true, ◌==◌, List, [], ◌∷◌, ◌++◌, map, ◌≡◌, refl, ap, inl, inr, ◌≢◌,
  ◌∙◌, Memᴰ, Result, ok, eq_iff, Bool-cases,
}
use mathlib.Core.List.Memᴰ
use arcane_backend.Platform.{Platform, Db, World, AuditEvent, rule_state, record_audit}
use arcane_backend.Platform.Laws.{IsLawful}
use arcane_backend.Platform.Audit.{record_audit_lem}
use arcane_backend.Rbac.Membership.{is_found}
use arcane_backend.Projects.VisibilityRules.{
  CreateAttributeVisibilityRule, is_rule_of, rule_event, not_in, with_rules, new_rule, save_rule,
  create_rule, add_roles, remove_roles, delete_rule, to_dto_with_roles,
}
use arcane_backend.Projects.VisibilityRules.Changes.{
  Rule, HasUniqueRules, IsRuleStep, IsRuleStep-same, insert-IsRuleStep, replace-IsRuleStep,
  remove-IsRuleStep,
}

-- A request to the rules of a project, by a user of an organisation.
pub data RuleRequest : Type 0 where
  creating_rule : String → CreateAttributeVisibilityRule → String → RuleRequest
  adding_roles removing_roles : String → String → List String → String → RuleRequest
  deleting_rule : String → String → String → RuleRequest

module _ (p : Platform) where
  -- What a request leaves behind, whether it is answered or refused.
  pub perform_rule : String → RuleRequest → World p → World p
  perform_rule project (creating_rule o dto user) w = (create_rule p project o dto user w).1
  perform_rule project (adding_roles o id role_ids user) w =
      (add_roles p project o id role_ids user w).1
  perform_rule project (removing_roles o id role_ids user) w =
      (remove_roles p project o id role_ids user w).1
  perform_rule project (deleting_rule o id user) w = (delete_rule p project o id user w).1

  pub perform_rules : String → List RuleRequest → World p → World p
  perform_rules project [] w = w
  perform_rules project (request ∷ requests) w =
      perform_rules project requests (perform_rule project request w)

  -- Only the rules have changed, and those of the project alone.
  abbrev pub IsRuleChange : String → Db → Db → Type 0
  IsRuleChange project before after =
      (rows : List Rule) × (after ≡ record before { visibility_rules = rows })
      × IsRuleStep project before.visibility_rules rows

module _ (p : Platform) (laws : IsLawful p) (project o user : String) (w : World p)
    (u : HasUniqueRules w.db.visibility_rules) where
  abbrev Ending : World p → Type 0
  Ending t = IsRuleChange p project w.db t.db

  unchanged : Ending w
  unchanged = (w.db.visibility_rules, refl, IsRuleStep-same project u)

  found_rule :
      (id : String) (entity : Rule)
      → p.find_one (λ (r : Rule). r.id == id) w.db.visibility_rules ≡ some entity
      → Memᴰ entity w.db.visibility_rules
  found_rule id entity e = (laws.find_one_some _ _ entity e).0

  create_rule-IsRuleChange :
      (dto : CreateAttributeVisibilityRule) → Ending (create_rule p project o dto user w).1
  unfolding create_rule
  create_rule-IsRuleChange dto =
      go (p.find_one (is_rule_of project dto.attribute_name) w.db.visibility_rules) refl
    where
      id : String
      id = p.new_id (map (λ r. r.id) w.db.visibility_rules)

      entity : Rule
      entity = new_rule p id project dto user

      event : AuditEvent
      event =
          rule_event "attribute-visibility-rule.created" user id o project none
            (some (rule_state entity))

      -- No rule of the table was found, so none of the project has the name.
      free :
          p.find_one (is_rule_of project dto.attribute_name) w.db.visibility_rules ≡ none
          → (r : Rule) → Memᴰ r w.db.visibility_rules
          → r.project_id ≡ project
          → r.attribute_name ≢ dto.attribute_name
      free e r m own named =
          let f =
            laws.find_one_none (is_rule_of project dto.attribute_name) w.db.visibility_rules r e
              m in
          cc (
            rw
              (
                (eq_iff r.project_id project).1 own,
                (eq_iff r.attribute_name dto.attribute_name).1 named,
              )
              at f)

      go :
          (q : Option Rule)
          → p.find_one (is_rule_of project dto.attribute_name) w.db.visibility_rules ≡ q
          → Ending (create_rule p project o dto user w).1
      go (some r) e = rw e unchanged
      go none e =
          let (t, recorded, same, _) =
            record_audit_lem p event (with_rules p w (p.insert entity w.db.visibility_rules)) in
          simp e (
            rw (recorded, same)
              (
                p.insert entity w.db.visibility_rules,
                refl,
                insert-IsRuleStep p laws project w.db.visibility_rules u entity refl
                    (λ r m k. laws.new_id_fresh _ (rw k at (Memᴰ.map (λ (q : Rule). q.id) m)))
                    (free e),
              ))

  -- Saving a rule of the project with other roles, and recording it.
  saved-IsRuleChange :
      {A : Type 0} (answer : World p → Result A × World p) (entity y : Rule) (event : AuditEvent)
      → Memᴰ entity w.db.visibility_rules
      → (entity.project_id == project) ≡ true
      → y.id ≡ entity.id
      → y.project_id ≡ entity.project_id
      → y.attribute_name ≡ entity.attribute_name
      → ((v : World p) → (answer v).1 ≡ v)
      → (t : World p) × (record_audit p event
            (with_rules p w (p.replace (λ r. r.id == y.id) y w.db.visibility_rules))
          ≡ (ok tt, t))
        × Ending (answer t).1
  saved-IsRuleChange answer entity y event m own e f g stays =
      let (t, recorded, same, _) =
        record_audit_lem p event
          (with_rules p w (p.replace (λ r. r.id == y.id) y w.db.visibility_rules)) in
      (
        t,
        recorded,
        rw (stays t, same)
            (
              p.replace (λ r. r.id == y.id) y w.db.visibility_rules,
              refl,
              replace-IsRuleStep p laws project w.db.visibility_rules u entity y m
                  ((eq_iff entity.project_id project).0 own) e f g,
            ),
      )

  add_roles-IsRuleChange :
      (id : String) (role_ids : List String) → Ending (add_roles p project o id role_ids user w).1
  unfolding add_roles save_rule to_dto_with_roles
  add_roles-IsRuleChange id role_ids = go (p.find_one (λ r. r.id == id) w.db.visibility_rules) refl
    where
      go :
          (q : Option Rule)
          → p.find_one (λ r. r.id == id) w.db.visibility_rules ≡ q
          → Ending (add_roles p project o id role_ids user w).1
      go none e = rw e unchanged
      go (some entity) e = elim (Bool-cases (entity.project_id == project)) [
        | inr foreign ↦ simp (e, foreign) unchanged
        | inl own ↦ elim (Bool-cases (is_found (not_in entity.hidden_role_ids role_ids))) [
          | inr nothing ↦ simp (e, own, nothing) unchanged
          | inl more ↦
              let y : Rule = record entity {
                hidden_role_ids = entity.hidden_role_ids ++ not_in entity.hidden_role_ids role_ids;
                updated_by_id = some user;
              } in
              let (t, recorded, ending) =
                saved-IsRuleChange (to_dto_with_roles p y) entity y
                  (rule_event "attribute-visibility-rule.roles-added" user id o project
                    (some (rule_state entity)) (some (rule_state y)))
                  (found_rule id entity e) own refl refl refl (λ v. refl) in
              simp (e, own, more) (rw recorded ending)
        ]
      ]

  remove_roles-IsRuleChange :
      (id : String) (role_ids : List String)
      → Ending (remove_roles p project o id role_ids user w).1
  unfolding remove_roles save_rule to_dto_with_roles
  remove_roles-IsRuleChange id role_ids =
      go (p.find_one (λ r. r.id == id) w.db.visibility_rules) refl
    where
      go :
          (q : Option Rule)
          → p.find_one (λ r. r.id == id) w.db.visibility_rules ≡ q
          → Ending (remove_roles p project o id role_ids user w).1
      go none e = rw e unchanged
      go (some entity) e = elim (Bool-cases (entity.project_id == project)) [
        | inr foreign ↦ simp (e, foreign) unchanged
        | inl own ↦
            let y : Rule = record entity {
              hidden_role_ids = not_in role_ids entity.hidden_role_ids;
              updated_by_id = some user;
            } in
            let (t, recorded, ending) =
              saved-IsRuleChange (to_dto_with_roles p y) entity y
                (rule_event "attribute-visibility-rule.roles-removed" user id o project
                  (some (rule_state entity)) (some (rule_state y)))
                (found_rule id entity e) own refl refl refl (λ v. refl) in
            simp (e, own) (rw recorded ending)
      ]

  delete_rule-IsRuleChange : (id : String) → Ending (delete_rule p project o id user w).1
  unfolding delete_rule
  delete_rule-IsRuleChange id = go (p.find_one (λ r. r.id == id) w.db.visibility_rules) refl
    where
      go :
          (q : Option Rule)
          → p.find_one (λ r. r.id == id) w.db.visibility_rules ≡ q
          → Ending (delete_rule p project o id user w).1
      go none e = rw e unchanged
      go (some entity) e = elim (Bool-cases (entity.project_id == project)) [
        | inr foreign ↦ simp (e, foreign) unchanged
        | inl own ↦
            let rows : List Rule = p.remove (λ r. r.id == entity.id) w.db.visibility_rules in
            let (t, recorded, same, _) =
              record_audit_lem p
                (rule_event "attribute-visibility-rule.deleted" user id o project
                  (some (rule_state entity)) none)
                (with_rules p w rows) in
            simp (e, own)
              (rw (recorded, same)
                (
                  rows,
                  refl,
                  remove-IsRuleStep p laws project w.db.visibility_rules u entity
                      (found_rule id entity e) ((eq_iff entity.project_id project).0 own),
                ))
      ]

module _ (p : Platform) (laws : IsLawful p) (project : String) where
  perform_rule-IsRuleChange :
      (request : RuleRequest) (w : World p)
      → HasUniqueRules w.db.visibility_rules
      → IsRuleChange p project w.db (perform_rule p project request w).db
  unfolding perform_rule
  perform_rule-IsRuleChange (creating_rule o dto user) w u =
      create_rule-IsRuleChange p laws project o user w u dto
  perform_rule-IsRuleChange (adding_roles o id role_ids user) w u =
      add_roles-IsRuleChange p laws project o user w u id role_ids
  perform_rule-IsRuleChange (removing_roles o id role_ids user) w u =
      remove_roles-IsRuleChange p laws project o user w u id role_ids
  perform_rule-IsRuleChange (deleting_rule o id user) w u =
      delete_rule-IsRuleChange p laws project o user w u id

  -- Where no two rules have one id, and no two rules of a project are for one attribute, this is so
  -- after any requests to the rules of a project, answered or refused; the rules of other projects and
  -- all other tables are then as they were.
  pub perform_rules-IsRuleChange :
      (requests : List RuleRequest) (w : World p)
      → HasUniqueRules w.db.visibility_rules
      → IsRuleChange p project w.db (perform_rules p project requests w).db
  unfolding perform_rules
  perform_rules-IsRuleChange [] w u = (w.db.visibility_rules, refl, IsRuleStep-same project u)
  perform_rules-IsRuleChange (request ∷ requests) w u =
      let (rows₁, e₁, s₁) = perform_rule-IsRuleChange request w u in
      let w₁ = perform_rule p project request w in
      let table : w₁.db.visibility_rules ≡ rows₁ = ap (λ (d : Db). d.visibility_rules) e₁ in
      let (rows₂, e₂, s₂) = perform_rules-IsRuleChange requests w₁ (rw table s₁.unique) in
      (
        rows₂,
        e₂ ∙ ap (λ (d : Db). record d { visibility_rules = rows₂ }) e₁,
        record {
          unique = s₂.unique;
          others = λ r h. (
            λ m. (s₁.others r h).0 (rw table at ((s₂.others r h).0 m)),
            λ m.
                (s₂.others r h).1
                  (let k : Memᴰ r w₁.db.visibility_rules = rw table ((s₁.others r h).1 m) in k),
          );
        },
      )
