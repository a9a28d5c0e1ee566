-- ===== src/Exception.antt =====
-- common/constants/error-messages.constants.ts and the HTTP exceptions of the services: the
-- messages that the modelled code throws, with the values that `formatError` fills in.
use Prim.Native.Nat.{ℕ}
use Prim.Native.String.{String}

pub data ErrorMessage : Type 0 where
  user_not_authenticated user_not_in_organisation user_does_not_belong_to_project : ErrorMessage
  organisation_context_required organisation_and_project_context_required : ErrorMessage
  only_owners_can_assign_owner_role only_owners_can_remove_owner_role : ErrorMessage
  owner_role_not_found cannot_remove_last_owner : ErrorMessage
  cannot_remove_yourself_if_last_owner : ErrorMessage
  cannot_update_system_roles cannot_delete_system_roles cannot_delete_global_roles : ErrorMessage
  role_does_not_belong_to_organisation role_does_not_belong_to_project : ErrorMessage
  project_specific_roles_require_organisation_id : ErrorMessage
  attribute_visibility_rule_already_exists attribute_visibility_rule_not_found :
      String → ErrorMessage
  attribute_visibility_rule_does_not_belong_to_project : ErrorMessage
  csv_header_empty csv_header_contains_empty_column_names
        csv_header_contains_duplicate_column_names :
      ErrorMessage
  csv_file_must_contain_header_row : ErrorMessage
  csv_row_column_mismatch : ℕ → ℕ → ℕ → ErrorMessage
  failed_to_parse_csv : String → ErrorMessage
  cannot_remove_project_creator invite_required : ErrorMessage
  user_already_member : String → ErrorMessage
  prompt_does_not_belong_to_project : ErrorMessage
  -- messages that the services write out themselves
  prompt_not_found no_versions_found : String → ErrorMessage
  version_not_found_for_prompt : String → String → ErrorMessage
  -- the type of the parameters and the model provider
  parameters_do_not_match : String → String → ErrorMessage
  only_chat_templates template_must_be_chat template_must_be_string : ErrorMessage
  model_configuration_not_found prompt_name_exists : String → ErrorMessage
  identifier_empty identifier_has_outer_dot identifier_has_two_dots
        identifier_has_other_characters :
      ErrorMessage
  project_not_found user_not_found_by_email : String → ErrorMessage
  user_does_not_have_permission role_not_found invalid_permission : String → ErrorMessage
  role_name_already_exists default_member_role_not_found : String → ErrorMessage
  default_organisation_member_role_not_found : String → ErrorMessage

pub data Exception : Type 0 where
  forbidden not_found bad_request conflict unauthorized : ErrorMessage → Exception
  unprocessable : ErrorMessage → Exception
  -- `new Error(message)`
  plain_error : ErrorMessage → Exception
  -- what a failed query throws
  query_failed : String → Exception
