-- ===== src/Entities.antt =====
-- The rows of the tables of invitations, prompts and annotation queues (TypeORM entities). A time is
-- a number of milliseconds.
use arcane_backend.Common.{ℕ, String, Option}

pub data InvitationStatus : Type 0 where
  pending accepted expired revoked : InvitationStatus

pub record OrganisationInvitation : Type 0 where
  pub id : String
  pub organisation_id : String
  pub email : String
  pub role_id : Option String
  pub token_hash : String
  pub status : InvitationStatus
  pub expires_at : ℕ
  pub invited_by : String
  pub created_at : ℕ
  pub accepted_at : Option ℕ

pub record Prompt : Type 0 where
  pub id : String
  pub name : String
  pub description : Option String
  pub project_id : String
  pub promoted_version_id : Option String
  -- JSON
  pub metadata : String

pub data TemplateType : Type 0 where
  chat str : TemplateType

pub data TemplateFormat : Type 0 where
  mustache f_string no_format : TemplateFormat

pub record PromptVersion : Type 0 where
  pub id : String
  pub prompt_id : String
  pub user_id : Option String
  pub version_name : Option String
  pub model_configuration_id : String
  pub template_type : TemplateType
  pub template_format : TemplateFormat
  -- the template, the parameters and the description, as JSON
  pub content : String
  pub created_at : ℕ

pub record ModelConfiguration : Type 0 where
  pub id : String
  -- `configuration.adapter`
  pub adapter : String
