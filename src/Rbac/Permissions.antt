-- ===== src/Rbac/Permissions.antt =====
-- rbac/permissions/permissions.ts: each constant object is the list of its values, in order.
use arcane_backend.Common.{String, List, [], ◌∷◌, ◌++◌}

abbrev pub all_access : String
all_access = "*"

unfoldable pub instance_permissions : List String
instance_permissions = all_access ∷ []

abbrev pub organisations_read : String
organisations_read = "organisations:read"

abbrev pub organisations_update : String
organisations_update = "organisations:update"

abbrev pub organisations_delete : String
organisations_delete = "organisations:delete"

abbrev pub organisations_members_read : String
organisations_members_read = "organisations:members:read"

abbrev pub organisations_members_create : String
organisations_members_create = "organisations:members:create"

abbrev pub organisations_members_update : String
organisations_members_update = "organisations:members:update"

abbrev pub organisations_members_delete : String
organisations_members_delete = "organisations:members:delete"

abbrev pub organisations_roles_read : String
organisations_roles_read = "organisations:roles:read"

abbrev pub organisations_roles_create : String
organisations_roles_create = "organisations:roles:create"

abbrev pub organisations_roles_update : String
organisations_roles_update = "organisations:roles:update"

abbrev pub organisations_roles_delete : String
organisations_roles_delete = "organisations:roles:delete"

abbrev pub organisations_configurations_read : String
organisations_configurations_read = "organisations:configurations:read"

unfoldable pub organisation_permissions : List String
organisation_permissions =
    organisations_read ∷ organisations_update ∷ organisations_delete ∷ organisations_members_read
    ∷ organisations_members_create ∷ organisations_members_update ∷ organisations_members_delete
    ∷ organisations_roles_read ∷ organisations_roles_create ∷ organisations_roles_update
    ∷ organisations_roles_delete ∷ organisations_configurations_read ∷ []

abbrev pub projects_create : String
projects_create = "projects:create"

abbrev pub projects_read : String
projects_read = "projects:read"

abbrev pub projects_update : String
projects_update = "projects:update"

abbrev pub projects_delete : String
projects_delete = "projects:delete"

abbrev pub projects_members_read : String
projects_members_read = "projects:members:read"

abbrev pub projects_members_create : String
projects_members_create = "projects:members:create"

abbrev pub projects_members_delete : String
projects_members_delete = "projects:members:delete"

abbrev pub projects_roles_read : String
projects_roles_read = "projects:roles:read"

abbrev pub projects_roles_create : String
projects_roles_create = "projects:roles:create"

abbrev pub projects_roles_update : String
projects_roles_update = "projects:roles:update"

abbrev pub projects_roles_delete : String
projects_roles_delete = "projects:roles:delete"

abbrev pub projects_roles_assign : String
projects_roles_assign = "projects:roles:assign"

abbrev pub projects_roles_remove : String
projects_roles_remove = "projects:roles:remove"

unfoldable pub project_permissions : List String
project_permissions =
    projects_create ∷ projects_read ∷ projects_update ∷ projects_delete ∷ projects_members_read
    ∷ projects_members_create ∷ projects_members_delete ∷ projects_roles_read
    ∷ projects_roles_create ∷ projects_roles_update ∷ projects_roles_delete ∷ projects_roles_assign
    ∷ projects_roles_remove ∷ []

abbrev pub projects_attribute_visibility_read : String
projects_attribute_visibility_read = "projects:attribute-visibility:read"

abbrev pub projects_attribute_visibility_manage : String
projects_attribute_visibility_manage = "projects:attribute-visibility:manage"

unfoldable pub attribute_visibility_rule_permissions : List String
attribute_visibility_rule_permissions =
    projects_attribute_visibility_read ∷ projects_attribute_visibility_manage ∷ []

abbrev pub projects_api_keys_read : String
projects_api_keys_read = "projects:api-keys:read"

abbrev pub projects_api_keys_manage : String
projects_api_keys_manage = "projects:api-keys:manage"

unfoldable pub project_api_key_permissions : List String
project_api_key_permissions = projects_api_keys_read ∷ projects_api_keys_manage ∷ []

abbrev pub datasources_read : String
datasources_read = "datasources:read"

abbrev pub datasources_create : String
datasources_create = "datasources:create"

abbrev pub datasources_update : String
datasources_update = "datasources:update"

abbrev pub datasources_delete : String
datasources_delete = "datasources:delete"

unfoldable pub datasource_permissions : List String
datasource_permissions =
    datasources_read ∷ datasources_create ∷ datasources_update ∷ datasources_delete ∷ []

abbrev pub datasets_read : String
datasets_read = "datasets:read"

abbrev pub datasets_create : String
datasets_create = "datasets:create"

abbrev pub datasets_update : String
datasets_update = "datasets:update"

abbrev pub datasets_delete : String
datasets_delete = "datasets:delete"

abbrev pub datasets_import : String
datasets_import = "datasets:import"

abbrev pub datasets_export : String
datasets_export = "datasets:export"

abbrev pub datasets_rows_create : String
datasets_rows_create = "datasets:rows:create"

unfoldable pub dataset_permissions : List String
dataset_permissions =
    datasets_read ∷ datasets_create ∷ datasets_update ∷ datasets_delete ∷ datasets_import
    ∷ datasets_export ∷ datasets_rows_create ∷ []

abbrev pub traces_read : String
traces_read = "traces:read"

unfoldable pub trace_permissions : List String
trace_permissions = traces_read ∷ []

abbrev pub conversations_read : String
conversations_read = "conversations:read"

unfoldable pub conversation_permissions : List String
conversation_permissions = conversations_read ∷ []

abbrev pub prompts_read : String
prompts_read = "prompts:read"

abbrev pub prompts_create : String
prompts_create = "prompts:create"

abbrev pub prompts_update : String
prompts_update = "prompts:update"

abbrev pub prompts_delete : String
prompts_delete = "prompts:delete"

unfoldable pub prompt_permissions : List String
prompt_permissions = prompts_read ∷ prompts_create ∷ prompts_update ∷ prompts_delete ∷ []

abbrev pub experiments_read : String
experiments_read = "experiments:read"

abbrev pub experiments_create : String
experiments_create = "experiments:create"

abbrev pub experiments_update : String
experiments_update = "experiments:update"

abbrev pub experiments_delete : String
experiments_delete = "experiments:delete"

abbrev pub experiments_rerun : String
experiments_rerun = "experiments:rerun"

unfoldable pub experiment_permissions : List String
experiment_permissions =
    experiments_read ∷ experiments_create ∷ experiments_update ∷ experiments_delete
    ∷ experiments_rerun ∷ []

abbrev pub evaluations_read : String
evaluations_read = "evaluations:read"

abbrev pub evaluations_create : String
evaluations_create = "evaluations:create"

abbrev pub evaluations_update : String
evaluations_update = "evaluations:update"

abbrev pub evaluations_delete : String
evaluations_delete = "evaluations:delete"

abbrev pub evaluations_rerun : String
evaluations_rerun = "evaluations:rerun"

abbrev pub evaluations_results_read : String
evaluations_results_read = "evaluations:results:read"

unfoldable pub evaluation_permissions : List String
evaluation_permissions =
    evaluations_read ∷ evaluations_create ∷ evaluations_update ∷ evaluations_delete
    ∷ evaluations_rerun ∷ evaluations_results_read ∷ []

abbrev pub scores_read : String
scores_read = "scores:read"

abbrev pub scores_create : String
scores_create = "scores:create"

abbrev pub scores_update : String
scores_update = "scores:update"

abbrev pub scores_delete : String
scores_delete = "scores:delete"

unfoldable pub score_permissions : List String
score_permissions = scores_read ∷ scores_create ∷ scores_update ∷ scores_delete ∷ []

abbrev pub annotation_queues_read : String
annotation_queues_read = "annotation-queues:read"

abbrev pub annotation_queues_create : String
annotation_queues_create = "annotation-queues:create"

abbrev pub annotation_queues_update : String
annotation_queues_update = "annotation-queues:update"

abbrev pub annotation_queues_delete : String
annotation_queues_delete = "annotation-queues:delete"

abbrev pub annotation_queues_traces_create : String
annotation_queues_traces_create = "annotation-queues:traces:create"

abbrev pub annotation_queues_traces_delete : String
annotation_queues_traces_delete = "annotation-queues:traces:delete"

abbrev pub annotation_queues_conversations_create : String
annotation_queues_conversations_create = "annotation-queues:conversations:create"

abbrev pub annotation_queues_conversations_delete : String
annotation_queues_conversations_delete = "annotation-queues:conversations:delete"

unfoldable pub annotation_queue_permissions : List String
annotation_queue_permissions =
    annotation_queues_read ∷ annotation_queues_create ∷ annotation_queues_update
    ∷ annotation_queues_delete ∷ annotation_queues_traces_create ∷ annotation_queues_traces_delete
    ∷ annotation_queues_conversations_create ∷ annotation_queues_conversations_delete ∷ []

abbrev pub annotations_read : String
annotations_read = "annotations:read"

abbrev pub annotations_create : String
annotations_create = "annotations:create"

abbrev pub annotations_update : String
annotations_update = "annotations:update"

abbrev pub annotations_delete : String
annotations_delete = "annotations:delete"

unfoldable pub annotation_permissions : List String
annotation_permissions =
    annotations_read ∷ annotations_create ∷ annotations_update ∷ annotations_delete ∷ []

abbrev pub model_configurations_read : String
model_configurations_read = "model-configurations:read"

abbrev pub model_configurations_create : String
model_configurations_create = "model-configurations:create"

abbrev pub model_configurations_update : String
model_configurations_update = "model-configurations:update"

abbrev pub model_configurations_delete : String
model_configurations_delete = "model-configurations:delete"

unfoldable pub model_configuration_permissions : List String
model_configuration_permissions =
    model_configurations_read ∷ model_configurations_create ∷ model_configurations_update
    ∷ model_configurations_delete ∷ []

abbrev pub conversation_configurations_read : String
conversation_configurations_read = "conversation-configurations:read"

abbrev pub conversation_configurations_create : String
conversation_configurations_create = "conversation-configurations:create"

abbrev pub conversation_configurations_update : String
conversation_configurations_update = "conversation-configurations:update"

abbrev pub conversation_configurations_delete : String
conversation_configurations_delete = "conversation-configurations:delete"

unfoldable pub conversation_config_permissions : List String
conversation_config_permissions =
    conversation_configurations_read ∷ conversation_configurations_create
    ∷ conversation_configurations_update ∷ conversation_configurations_delete ∷ []

abbrev pub entities_read : String
entities_read = "entities:read"

abbrev pub entities_create : String
entities_create = "entities:create"

abbrev pub entities_update : String
entities_update = "entities:update"

abbrev pub entities_delete : String
entities_delete = "entities:delete"

unfoldable pub entity_permissions : List String
entity_permissions = entities_read ∷ entities_create ∷ entities_update ∷ entities_delete ∷ []

unfoldable pub all_permissions : List String
unfolding instance_permissions organisation_permissions project_permissions
    attribute_visibility_rule_permissions project_api_key_permissions datasource_permissions
    dataset_permissions trace_permissions conversation_permissions prompt_permissions
    experiment_permissions evaluation_permissions score_permissions annotation_queue_permissions
    annotation_permissions model_configuration_permissions conversation_config_permissions
    entity_permissions
all_permissions =
    instance_permissions
    ++ (organisation_permissions
        ++ (project_permissions
            ++ (attribute_visibility_rule_permissions
                ++ (project_api_key_permissions
                    ++ (datasource_permissions
                        ++ (dataset_permissions
                            ++ (trace_permissions
                                ++ (conversation_permissions
                                    ++ (prompt_permissions
                                        ++ (experiment_permissions
                                            ++ (evaluation_permissions
                                                ++ (score_permissions
                                                    ++ (annotation_queue_permissions
                                                        ++ (annotation_permissions
                                                            ++ (model_configuration_permissions
                                                            ++ (conversation_config_permissions
                                                            ++ (entity_permissions)))))))))))))))))
