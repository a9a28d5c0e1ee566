-- ===== src/Projects/VisibilityRules.antt =====
-- projects/services/attribute-visibility-rule.service.ts: the rules that hide attributes of traces from
-- the holders of roles. An audit event has no metadata here.
pub mod Changes
pub mod Laws
use arcane_backend.Common.{
  String, Option, none, some, Bool, true, false, not, ◌&&◌, ◌==◌, List, [], ◌∷◌, ◌++◌, map, Exec,
  pure, reads, modify, throw_if, or_throw, ◌>>=◌, ◌>>◌, includes, filter_by, add_all, gather,
  is_null, if◌then◌else◌,
}
use arcane_backend.Exception.{
  not_found, forbidden, conflict, attribute_visibility_rule_already_exists,
  attribute_visibility_rule_not_found, attribute_visibility_rule_does_not_belong_to_project,
}
use arcane_backend.Platform.{
  Platform, Db, World, AttributeVisibilityRule, AuditEvent, AuditState, rule_state, record_audit,
}
use arcane_backend.Rbac.Role.{Role, RoleResponseDto, to_dto}
use arcane_backend.Rbac.Membership.{is_found}

pub record CreateAttributeVisibilityRule : Type 0 where
  pub attribute_name : String
  pub hidden_role_ids : List String

pub record AttributeVisibilityRuleResponse : Type 0 where
  pub rule : AttributeVisibilityRule
  pub hidden_roles : List RoleResponseDto

-- `AttributeVisibilityRuleMapper.toDto`
unfoldable pub rule_to_dto : AttributeVisibilityRule → List Role → AttributeVisibilityRuleResponse
unfolding filter_by includes
rule_to_dto entity roles = record {
  rule = entity;
  hidden_roles = map to_dto (filter_by (λ r. includes entity.hidden_role_ids r.id) roles);
}

abbrev pub is_rule_of : String → String → AttributeVisibilityRule → Bool
is_rule_of project_id attribute_name r =
    r.project_id == project_id && r.attribute_name == attribute_name

abbrev pub rule_event :
    String → String → String → String → String → Option AuditState → Option AuditState → AuditEvent
rule_event action user_id id organisation_id project_id before after = record {
  action = action;
  actor_id = some user_id;
  resource_type = "attribute-visibility-rule";
  resource_id = id;
  organisation_id = some organisation_id;
  project_id = some project_id;
  before_state = before;
  after_state = after;
}

-- `ids.filter((id) => !set.has(id))`
unfoldable pub not_in : List String → List String → List String
unfolding filter_by includes
not_in set ids = filter_by (λ id. not (includes set id)) ids

module _ (p : Platform) where
  abbrev pub with_rules : World p → List AttributeVisibilityRule → World p
  with_rules w rows = record w { db = record (w.db) { visibility_rules = rows } }

  -- `roleRepository.find({ where: { id: In(ids) } })`, where there are ids
  unfoldable pub roles_with_ids : List String → Db → List Role
  unfolding includes
  roles_with_ids ids db = if is_found ids then p.find (λ r. includes ids r.id) db.roles else []

  unfoldable pub to_dto_with_roles :
      AttributeVisibilityRule → Exec (World p) AttributeVisibilityRuleResponse
  unfolding roles_with_ids
  to_dto_with_roles entity =
      reads (λ w. rule_to_dto entity (roles_with_ids entity.hidden_role_ids w.db))

  -- `repository.save` of a rule that was read before
  unfoldable pub save_rule : AttributeVisibilityRule → Exec (World p) (Unit {0})
  save_rule entity =
      modify (λ w. with_rules w (p.replace (λ r. r.id == entity.id) entity w.db.visibility_rules))

  abbrev pub new_rule :
      String → String → CreateAttributeVisibilityRule → String → AttributeVisibilityRule
  new_rule id project_id dto user_id = record {
    id = id;
    project_id = project_id;
    attribute_name = dto.attribute_name;
    hidden_role_ids = dto.hidden_role_ids;
    created_by_id = user_id;
    updated_by_id = none;
  }

  unfoldable pub create_rule :
      String
      → String
      → CreateAttributeVisibilityRule
      → String
      → Exec (World p) AttributeVisibilityRuleResponse
  unfolding to_dto_with_roles
  create_rule project_id organisation_id dto user_id = do
    existing ←
        reads (λ w. p.find_one (is_rule_of project_id dto.attribute_name) w.db.visibility_rules)
    throw_if (not (is_null existing))
        (conflict (attribute_visibility_rule_already_exists dto.attribute_name))
    id ← reads (λ w. p.new_id (map (λ r. r.id) w.db.visibility_rules))
    modify (λ w. with_rules w (p.insert (new_rule id project_id dto user_id) w.db.visibility_rules))
    record_audit p (
        rule_event "attribute-visibility-rule.created" user_id id organisation_id project_id none
          (some (rule_state (new_rule id project_id dto user_id))))
    to_dto_with_roles (new_rule id project_id dto user_id)

  unfoldable pub find_all_rules : String → Exec (World p) (List AttributeVisibilityRuleResponse)
  unfolding roles_with_ids gather add_all
  find_all_rules project_id = do
    entities ← reads (λ w.
        p.find_in_order (λ r. r.attribute_name) (λ r. r.project_id == project_id)
          w.db.visibility_rules)
    roles ← reads (λ w.
        roles_with_ids
          (add_all [] (gather (λ (r : AttributeVisibilityRule). r.hidden_role_ids) entities)) w.db)
    pure (map (λ r. rule_to_dto r roles) entities)

  unfoldable pub find_one_rule : String → Exec (World p) AttributeVisibilityRule
  find_one_rule id = do
    entity ← reads (λ w. p.find_one (λ r. r.id == id) w.db.visibility_rules)
    or_throw entity (not_found (attribute_visibility_rule_not_found id))

  -- `if (entity.projectId !== projectId) throw …`
  abbrev pub check_project : String → AttributeVisibilityRule → Exec (World p) (Unit {0})
  check_project project_id entity =
      throw_if (not (entity.project_id == project_id))
        (forbidden attribute_visibility_rule_does_not_belong_to_project)

  -- The part of `addRoles` behind the early return.
  abbrev pub add_new_roles :
      String
      → String
      → String
      → AttributeVisibilityRule
      → List String
      → String
      → Exec (World p) AttributeVisibilityRuleResponse
  add_new_roles project_id organisation_id id entity new_role_ids user_id =
      let updated : AttributeVisibilityRule = record entity {
        hidden_role_ids = entity.hidden_role_ids ++ new_role_ids;
        updated_by_id = some user_id;
      } in
      do
        save_rule updated
        record_audit p (
            rule_event "attribute-visibility-rule.roles-added" user_id id organisation_id project_id
              (some (rule_state entity)) (some (rule_state updated)))
        to_dto_with_roles updated

  unfoldable pub add_roles :
      String
      → String
      → String
      → List String
      → String
      → Exec (World p) AttributeVisibilityRuleResponse
  unfolding find_one_rule save_rule to_dto_with_roles not_in
  add_roles project_id organisation_id id role_ids user_id = do
    entity ← find_one_rule id
    check_project project_id entity
    if is_found (not_in entity.hidden_role_ids role_ids)
        then add_new_roles project_id organisation_id id entity
            (not_in entity.hidden_role_ids role_ids) user_id
        else to_dto_with_roles entity

  unfoldable pub remove_roles :
      String
      → String
      → String
      → List String
      → String
      → Exec (World p) AttributeVisibilityRuleResponse
  unfolding find_one_rule save_rule to_dto_with_roles not_in
  remove_roles project_id organisation_id id role_ids user_id = do
    entity ← find_one_rule id
    check_project project_id entity
    let updated = record entity {
      hidden_role_ids = not_in role_ids entity.hidden_role_ids;
      updated_by_id = some user_id;
    }
    save_rule updated
    record_audit p (
        rule_event "attribute-visibility-rule.roles-removed" user_id id organisation_id project_id
          (some (rule_state entity)) (some (rule_state updated)))
    to_dto_with_roles updated

  unfoldable pub delete_rule : String → String → String → String → Exec (World p) (Unit {0})
  unfolding find_one_rule
  delete_rule project_id organisation_id id user_id = do
    entity ← find_one_rule id
    check_project project_id entity
    modify (λ w. with_rules w (p.remove (λ r. r.id == entity.id) w.db.visibility_rules))
    record_audit p (
        rule_event "attribute-visibility-rule.deleted" user_id id organisation_id project_id
          (some (rule_state entity)) none)

  unfoldable pub get_visibility_rules_for_project :
      String → Exec (World p) (List AttributeVisibilityRule)
  get_visibility_rules_for_project project_id =
      reads (λ w. p.find (λ r. r.project_id == project_id) w.db.visibility_rules)
