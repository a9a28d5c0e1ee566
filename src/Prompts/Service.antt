-- ===== src/Prompts/Service.antt =====
-- prompts/services/prompts.service.ts and its mappers. The clock is an argument. A version is what
-- the service looks at of it, and the rest; a name or description that is null counts as an empty one.
use Prim.Native.String.{◌++◌ as ◌then◌}
use arcane_backend.Common.{
  ℕ, String, Option, none, some, Bool, true, false, not, ◌==◌, Exec, pure, reads, modify, throw_if,
  or_throw, ◌>>=◌, ◌>>◌, if◌then◌else◌, is_null, length, map, Result, ok, err,
}
use arcane_backend.Entities.{
  Prompt, PromptVersion, TemplateType, chat, str, TemplateFormat, no_format, ModelConfiguration,
}
use arcane_backend.Exception.{
  not_found, forbidden, unprocessable, prompt_does_not_belong_to_project, only_chat_templates,
  model_configuration_not_found, prompt_name_exists,
}
use arcane_backend.Platform.{Platform, World, AuditState, prompt_state, record_audit}
use arcane_backend.Prompts.Identifier.{TextTools, validate}
use arcane_backend.Prompts.Validators.{
  from_adapter, validate_template_type, validate_invocation_parameters,
}
use arcane_backend.Prompts.Versions.{
  is_prompt_named, is_version_of, prompt_event, save_prompt, get_prompt_by_identifier_or_throw,
  audit_if,
}
use arcane_backend.Rbac.Roles.{or_null}

pub record CreatePromptVersionRequest : Type 0 where
  pub model_configuration_id : String
  pub template_type : TemplateType
  -- `template.type`
  pub template_kind : String
  pub template_format : Option TemplateFormat
  -- `invocationParameters.type`
  pub invocation_type : String
  pub content : String

pub record CreatePromptRequest : Type 0 where
  pub name : String
  pub description : Option String
  pub metadata : Option String
  pub version : CreatePromptVersionRequest

pub record UpdatePromptRequest : Type 0 where
  pub name : Option String
  pub description : Option String

abbrev pub to_audit_state : Prompt → AuditState
to_audit_state x = prompt_state x.id x.name x.description x.project_id x.metadata

abbrev pub is_chat : TemplateType → Bool
is_chat chat = true
is_chat str = false

-- `?? TemplateFormat.NONE`
abbrev pub format_or_none : Option TemplateFormat → TemplateFormat
format_or_none none = no_format
format_or_none (some f) = f

-- `metadata || {}`
abbrev pub metadata_or_empty : Option String → String
metadata_or_empty none = "{}"
metadata_or_empty (some m) = m

module _ {S : Type 0} where
  abbrev pub lift_result : {A : Type 0} → Result A → Exec S A
  lift_result (ok a) w = (ok a, w)
  lift_result (err e) w = (err e, w)

module _ (p : Platform) where
  abbrev pub new_prompt : String → String → CreatePromptRequest → World p → Prompt
  new_prompt project_id name body w = record {
    id = p.new_id (map (λ (x : Prompt). x.id) w.db.prompts);
    name = name;
    description = or_null body.description;
    project_id = project_id;
    promoted_version_id = none;
    metadata = metadata_or_empty body.metadata;
  }

  abbrev pub insert_prompt : Prompt → World p → World p
  insert_prompt x w = record w { db = record (w.db) { prompts = p.insert x w.db.prompts } }

  -- The prompt that gets the version: a new one, or the one of that name.
  abbrev pub prompt_for :
      String → String → CreatePromptRequest → Option Prompt → Exec (World p) Prompt
  prompt_for project_id name body none = do
    prompt ← reads (new_prompt project_id name body)
    modify (insert_prompt prompt)
    pure prompt
  prompt_for project_id name body (some x) =
      if is_null body.description
      then pure x
      else (modify (save_prompt p (record x { description = or_null body.description }))
          >> pure (record x { description = or_null body.description }))

  abbrev pub promote_first : Bool → Prompt → PromptVersion → Exec (World p) (Unit {0})
  promote_first is_new prompt version =
      if is_new
      then modify (save_prompt p (record prompt { promoted_version_id = some version.id }))
      else pure tt

  abbrev pub insert_version : PromptVersion → World p → World p
  insert_version x w = record w {
    db = record (w.db) { prompt_versions = p.insert x w.db.prompt_versions };
  }

module _ (p : Platform) (t : TextTools) where
  -- `v${existingCount}`
  abbrev pub version_name : ℕ → String
  version_name n = "v" then t.number_to_string n

  abbrev pub new_version :
      ℕ → Prompt → String → CreatePromptVersionRequest → World p → PromptVersion
  new_version now prompt user_id version w = record {
    id = p.new_id (map (λ (x : PromptVersion). x.id) w.db.prompt_versions);
    prompt_id = prompt.id;
    user_id = some user_id;
    version_name =
        or_null
          (some (version_name (length (p.find (is_version_of prompt.id) w.db.prompt_versions))));
    model_configuration_id = version.model_configuration_id;
    template_type = version.template_type;
    template_format = format_or_none version.template_format;
    content = version.content;
    created_at = now;
  }

  abbrev pub created_action : Bool → String
  created_action is_new = if is_new then "prompt.created" else "prompt.version_created"

  -- The part of `create` behind the query for a prompt of that name.
  abbrev pub save_over :
      String
      → CreatePromptRequest
      → String
      → String
      → ℕ
      → String
      → Option Prompt
      → Exec (World p) PromptVersion
  save_over project_id body user_id organisation_id now name existing = do
    prompt ← prompt_for p project_id name body existing
    version ← reads (new_version now prompt user_id body.version)
    modify (insert_version p version)
    promote_first p (is_null existing) prompt version
    record_audit p (
        prompt_event (created_action (is_null existing)) (some user_id) prompt.id
          (some organisation_id) project_id none (some (to_audit_state prompt)))
    pure version

  -- The part of `create` behind the checks.
  unfoldable pub save_checked :
      String → CreatePromptRequest → String → String → ℕ → String → Exec (World p) PromptVersion
  save_checked project_id body user_id organisation_id now name = do
    existing ← reads (λ w. p.find_one (is_prompt_named project_id name) w.db.prompts)
    save_over project_id body user_id organisation_id now name existing

  unfoldable pub create_prompt :
      String → CreatePromptRequest → String → String → ℕ → Exec (World p) PromptVersion
  unfolding save_checked
  create_prompt project_id body user_id organisation_id now = do
    throw_if (not (is_chat body.version.template_type)) (unprocessable only_chat_templates)
    lift_result (validate_template_type body.version.template_type body.version.template_kind)
    found ← reads (λ w.
        p.find_one (λ (x : ModelConfiguration). x.id == body.version.model_configuration_id)
          w.db.model_configurations)
    model ←
        or_throw found
          (not_found (model_configuration_not_found body.version.model_configuration_id))
    lift_result
        (validate_invocation_parameters (from_adapter model.adapter) body.version.invocation_type)
    name ← lift_result (validate t body.name)
    save_checked project_id body user_id organisation_id now name

  -- `existingPrompt && existingPrompt.id !== prompt.id`
  abbrev pub is_taken : Prompt → Option Prompt → Bool
  is_taken prompt none = false
  is_taken prompt (some x) = not (x.id == prompt.id)

  abbrev pub rename : String → Prompt → Option String → Exec (World p) Prompt
  rename project_id prompt none = pure prompt
  rename project_id prompt (some name) = do
    valid_name ← lift_result (validate t name)
    existing ← reads (λ w. p.find_one (is_prompt_named project_id valid_name) w.db.prompts)
    throw_if (is_taken prompt existing) (unprocessable (prompt_name_exists valid_name))
    pure (record prompt { name = valid_name })

  abbrev pub described : Prompt → Option String → Prompt
  described prompt none = prompt
  described prompt (some description) = record prompt { description = or_null (some description) }

  -- The part of `update` behind the checks of the prompt.
  abbrev pub save_updated :
      String → Prompt → UpdatePromptRequest → Option String → Option String → Exec (World p) Prompt
  save_updated project_id prompt dto user_id organisation_id = do
    renamed ← rename project_id prompt dto.name
    modify (save_prompt p (described renamed dto.description))
    audit_if p organisation_id (
        prompt_event "prompt.updated" user_id prompt.id organisation_id project_id
          (some (to_audit_state prompt))
          (some (to_audit_state (described renamed dto.description))))
    pure (described renamed dto.description)

  unfoldable pub update_prompt :
      String → String → UpdatePromptRequest → Option String → Option String → Exec (World p) Prompt
  unfolding get_prompt_by_identifier_or_throw
  update_prompt project_id prompt_identifier dto user_id organisation_id = do
    prompt ← get_prompt_by_identifier_or_throw p project_id prompt_identifier
    throw_if (not (prompt.project_id == project_id)) (forbidden prompt_does_not_belong_to_project)
    save_updated project_id prompt dto user_id organisation_id

  -- The versions of the prompt go with it (`onDelete: "CASCADE"`).
  abbrev pub remove_prompt_row : Prompt → World p → World p
  remove_prompt_row x w = record w {
    db = record (w.db) {
      prompts = p.remove (λ (y : Prompt). y.id == x.id) w.db.prompts;
      prompt_versions = p.remove (is_version_of x.id) w.db.prompt_versions;
    };
  }

  unfoldable pub remove_prompt :
      String → String → Option String → Option String → Exec (World p) (Unit {0})
  unfolding get_prompt_by_identifier_or_throw
  remove_prompt project_id prompt_identifier user_id organisation_id = do
    prompt ← get_prompt_by_identifier_or_throw p project_id prompt_identifier
    modify (remove_prompt_row prompt)
    audit_if p organisation_id (
        prompt_event "prompt.deleted" user_id prompt.id organisation_id project_id
          (some (to_audit_state prompt)) none)
