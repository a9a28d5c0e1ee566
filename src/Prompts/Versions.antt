-- ===== src/Prompts/Versions.antt =====
-- prompts/services/prompt-versions.service.ts: which version of a prompt is used. The lists of versions,
-- and a version by its id, are left out. A version's id is a uuid by the route that asks for it; an
-- identifier may be any text.
use arcane_backend.Common.{
  String, Option, none, some, not, ◌&&◌, ◌==◌, Bool, Exec, pure, reads, modify, throw_if, or_throw,
  ◌>>=◌, ◌>>◌, truthy, or_empty, if◌then◌else◌,
}
use arcane_backend.Entities.{Prompt, PromptVersion}
use arcane_backend.Exception.{
  not_found, forbidden, query_failed, prompt_not_found, prompt_does_not_belong_to_project,
  no_versions_found, version_not_found_for_prompt,
}
use arcane_backend.Platform.{
  Platform, Db, World, AuditEvent, AuditState, promoted_state, record_audit,
}

abbrev pub has_prompt_id : String → String → Prompt → Bool
has_prompt_id project_id id x = x.id == id && x.project_id == project_id

abbrev pub is_prompt_named : String → String → Prompt → Bool
is_prompt_named project_id name x = x.name == name && x.project_id == project_id

abbrev pub is_version_of : String → PromptVersion → Bool
is_version_of prompt_id x = x.prompt_id == prompt_id

abbrev pub is_version : String → String → PromptVersion → Bool
is_version id prompt_id x = x.id == id && x.prompt_id == prompt_id

abbrev pub prompt_event :
    String
    → Option String
    → String
    → Option String
    → String
    → Option AuditState
    → Option AuditState
    → AuditEvent
prompt_event action actor_id prompt_id organisation_id project_id before after = record {
  action = action;
  actor_id = actor_id;
  resource_type = "prompt";
  resource_id = prompt_id;
  organisation_id = organisation_id;
  project_id = some project_id;
  before_state = before;
  after_state = after;
}

module _ (p : Platform) where
  -- `promptRepository.save` of a prompt that is there
  abbrev pub save_prompt : Prompt → World p → World p
  save_prompt x w = record w {
    db = record (w.db) { prompts = p.replace (λ y. y.id == x.id) x w.db.prompts };
  }

  abbrev pub found_or_named : String → String → Db → Option Prompt → Option Prompt
  found_or_named project_id identifier db (some x) = some x
  found_or_named project_id identifier db none =
      p.find_one (is_prompt_named project_id identifier) db.prompts

  unfoldable pub prompt_by_identifier : String → String → Db → Option Prompt
  prompt_by_identifier project_id identifier db =
      found_or_named project_id identifier db
        (p.find_one (has_prompt_id project_id identifier) db.prompts)

  -- The column of ids is a uuid, and the database throws for another text.
  unfoldable pub find_prompt_by_identifier : String → String → Exec (World p) (Option Prompt)
  unfolding prompt_by_identifier
  find_prompt_by_identifier project_id identifier = do
    throw_if (not (p.is_id identifier)) (query_failed identifier)
    reads (λ w. prompt_by_identifier project_id identifier w.db)

  unfoldable pub get_prompt_by_identifier_or_throw : String → String → Exec (World p) Prompt
  unfolding find_prompt_by_identifier
  get_prompt_by_identifier_or_throw project_id identifier = do
    prompt ← find_prompt_by_identifier project_id identifier
    or_throw prompt (not_found (prompt_not_found identifier))

  -- `if (prompt.promotedVersionId)`
  abbrev pub find_promoted : Prompt → Db → Option PromptVersion
  find_promoted prompt db =
      if truthy prompt.promoted_version_id
      then p.find_one (is_version (or_empty prompt.promoted_version_id) prompt.id)
          db.prompt_versions
      else none

  abbrev pub promoted_or_newest : Prompt → Db → Option PromptVersion → Option PromptVersion
  promoted_or_newest prompt db (some x) = some x
  promoted_or_newest prompt db none =
      p.find_latest (λ x. x.created_at) (is_version_of prompt.id) db.prompt_versions

  unfoldable pub get_latest_version_entity : String → String → Exec (World p) PromptVersion
  unfolding get_prompt_by_identifier_or_throw
  get_latest_version_entity project_id prompt_identifier = do
    prompt ← get_prompt_by_identifier_or_throw project_id prompt_identifier
    throw_if (not (prompt.project_id == project_id)) (forbidden prompt_does_not_belong_to_project)
    version ← reads (λ w. promoted_or_newest prompt w.db (find_promoted prompt w.db))
    or_throw version (not_found (no_versions_found prompt_identifier))

  unfoldable pub get_latest_version_by_prompt_id : String → Exec (World p) PromptVersion
  unfolding get_latest_version_entity
  get_latest_version_by_prompt_id prompt_id = do
    prompt ← reads (λ w. p.find_one (λ (x : Prompt). x.id == prompt_id) w.db.prompts)
    found ← or_throw prompt (not_found (prompt_not_found prompt_id))
    get_latest_version_entity found.project_id found.id

  -- `if (organisationId) { … }`
  abbrev pub audit_if : Option String → AuditEvent → Exec (World p) (Unit {0})
  audit_if organisation_id event = if truthy organisation_id then record_audit p event else pure tt

  unfoldable pub promote_version :
      String → String → String → Option String → Option String → Exec (World p) (Unit {0})
  unfolding get_prompt_by_identifier_or_throw
  promote_version project_id prompt_identifier version_id user_id organisation_id = do
    prompt ← get_prompt_by_identifier_or_throw project_id prompt_identifier
    throw_if (not (prompt.project_id == project_id)) (forbidden prompt_does_not_belong_to_project)
    version ← reads (λ w. p.find_one (is_version version_id prompt.id) w.db.prompt_versions)
    _ ← or_throw version (not_found (version_not_found_for_prompt version_id prompt_identifier))
    modify (save_prompt (record prompt { promoted_version_id = some version_id }))
    audit_if organisation_id (
        prompt_event "prompt.version_promoted" user_id prompt.id organisation_id project_id none
          (some (promoted_state version_id)))
