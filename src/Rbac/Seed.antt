-- ===== src/Rbac/Seed.antt =====
-- rbac/services/rbac-seed.service.ts: the system roles of an organisation and of a project. The two
-- functions take the rows of the transaction that they are called in, which is the same table here.
pub mod Laws
pub mod Hierarchy
pub mod Instance
use arcane_backend.Common.{
  String, Option, none, some, Bool, true, false, ◌==◌, List, [], ◌∷◌, ◌++◌, Exec, pure, reads,
  ◌>>=◌, find_first, if◌then◌else◌,
}
use arcane_backend.Platform.{Platform, World, Cond, null, equals}
use arcane_backend.Rbac.Permissions.{
  annotation_permissions, annotation_queue_permissions, annotation_queues_read, annotations_read,
  conversation_config_permissions, conversation_configurations_read, conversations_read,
  dataset_permissions, datasets_read, datasource_permissions, datasources_read, entities_read,
  entity_permissions, evaluation_permissions, evaluations_read, evaluations_results_read,
  experiment_permissions, experiments_read, model_configuration_permissions,
  model_configurations_read, organisation_permissions, organisations_read,
  organisations_roles_create, organisations_roles_delete, organisations_roles_read,
  organisations_roles_update, projects_create, projects_delete, projects_members_create,
  projects_members_delete, projects_members_read, projects_read, projects_roles_assign,
  projects_roles_remove, projects_update, prompt_permissions, prompts_read, score_permissions,
  scores_read, traces_read,
}
use arcane_backend.Rbac.Role.{Role, RoleFields}
use arcane_backend.Rbac.Membership.{is_found}
use arcane_backend.Rbac.Roles.{find_roles, scope_where, save_new_role}

unfoldable pub organisation_admin_permissions : List String
unfolding organisation_permissions datasource_permissions dataset_permissions prompt_permissions
    experiment_permissions evaluation_permissions score_permissions annotation_queue_permissions
    annotation_permissions model_configuration_permissions conversation_config_permissions
    entity_permissions
organisation_admin_permissions =
    organisation_permissions
    ++ (projects_create
        ∷ projects_read
        ∷ projects_update
        ∷ projects_delete
        ∷ projects_members_read
        ∷ projects_members_create
        ∷ projects_members_delete
        ∷ projects_roles_assign
        ∷ projects_roles_remove
        ∷ (datasource_permissions
            ++ (dataset_permissions
                ++ (traces_read
                    ∷ conversations_read
                    ∷ (prompt_permissions
                        ++ (experiment_permissions
                            ++ (evaluation_permissions
                                ++ (score_permissions
                                    ++ (annotation_queue_permissions
                                        ++ (annotation_permissions
                                            ++ (model_configuration_permissions
                                                ++ (conversation_config_permissions
                                                    ++ (entity_permissions)))))))))))))

unfoldable pub organisation_member_permissions : List String
organisation_member_permissions =
    organisations_read ∷ entities_read ∷ conversation_configurations_read
    ∷ model_configurations_read ∷ []

unfoldable pub project_admin_permissions : List String
unfolding datasource_permissions dataset_permissions prompt_permissions experiment_permissions
    evaluation_permissions score_permissions annotation_queue_permissions annotation_permissions
project_admin_permissions =
    projects_read
    ∷ projects_update
    ∷ projects_delete
    ∷ projects_members_read
    ∷ projects_members_create
    ∷ projects_members_delete
    ∷ projects_roles_assign
    ∷ projects_roles_remove
    ∷ organisations_roles_read
    ∷ organisations_roles_create
    ∷ organisations_roles_update
    ∷ organisations_roles_delete
    ∷ (datasource_permissions
        ++ (dataset_permissions
            ++ (traces_read
                ∷ conversations_read
                ∷ (prompt_permissions
                    ++ (experiment_permissions
                        ++ (evaluation_permissions
                            ++ (score_permissions
                                ++ (annotation_queue_permissions
                                    ++ (annotation_permissions
                                        ++ (entities_read ∷ conversation_configurations_read
                                            ∷ model_configurations_read ∷ []))))))))))

unfoldable pub member_permissions : List String
unfolding datasource_permissions dataset_permissions prompt_permissions experiment_permissions
    evaluation_permissions score_permissions annotation_queue_permissions annotation_permissions
member_permissions =
    projects_read
    ∷ (datasource_permissions
        ++ (dataset_permissions
            ++ (traces_read
                ∷ conversations_read
                ∷ (prompt_permissions
                    ++ (experiment_permissions
                        ++ (evaluation_permissions
                            ++ (score_permissions
                                ++ (annotation_queue_permissions
                                    ++ (annotation_permissions
                                        ++ (entities_read ∷ conversation_configurations_read
                                            ∷ model_configurations_read ∷ []))))))))))

unfoldable pub viewer_permissions : List String
viewer_permissions =
    projects_read ∷ datasources_read ∷ datasets_read ∷ traces_read ∷ conversations_read
    ∷ prompts_read ∷ experiments_read ∷ evaluations_read ∷ evaluations_results_read ∷ scores_read
    ∷ annotation_queues_read ∷ annotations_read ∷ entities_read ∷ conversation_configurations_read
    ∷ model_configurations_read ∷ []

-- What `roleRepo.create` is given for each of the roles.
abbrev pub system_role : String → String → List String → String → Option String → RoleFields
system_role name description permissions organisation_id project_id = record {
  name = name;
  description = some description;
  permissions = permissions;
  organisation_id = some organisation_id;
  project_id = project_id;
  is_system_role = true;
  is_instance_level = false;
}

abbrev pub organisation_admin_role : String → RoleFields
organisation_admin_role organisation_id =
    system_role "Organisation Admin" "Full control over the organisation"
      organisation_admin_permissions organisation_id none

abbrev pub organisation_member_role : String → RoleFields
organisation_member_role organisation_id =
    system_role "Organisation Member"
      "Can view organisation details and use basic features, but has no project access"
      organisation_member_permissions organisation_id none

abbrev pub project_admin_role : String → String → RoleFields
project_admin_role organisation_id project_id =
    system_role "Project Admin"
      "Full control over the project including editing, member management, and role management"
      project_admin_permissions organisation_id (some project_id)

abbrev pub member_role : String → String → RoleFields
member_role organisation_id project_id =
    system_role "Member" "Can perform all operations except editing/deleting the project"
      member_permissions organisation_id (some project_id)

abbrev pub viewer_role : String → String → RoleFields
viewer_role organisation_id project_id =
    system_role "Viewer" "View-only access to project" viewer_permissions organisation_id
      (some project_id)

-- `roles.find((role) => role.name === name) || null`
abbrev pub find_named : String → List Role → Option Role
find_named name roles = find_first (λ role. role.name == name) roles

module _ (p : Platform) where
  unfoldable pub seed_organisation_roles : String → Exec (World p) (Option Role)
  unfolding save_new_role find_first
  seed_organisation_roles organisation_id = do
    existing ← reads (λ w. find_roles p (scope_where true organisation_id null) w.db)
    if is_found existing then pure none else do
      admin ← save_new_role p (organisation_admin_role organisation_id)
      member ← save_new_role p (organisation_member_role organisation_id)
      pure (find_named "Organisation Admin" (admin ∷ member ∷ []))

  unfoldable pub seed_project_roles : String → String → Exec (World p) (Option Role)
  unfolding save_new_role find_first
  seed_project_roles organisation_id project_id = do
    existing ← reads (λ w. find_roles p (scope_where true organisation_id (equals project_id)) w.db)
    if is_found existing then pure (find_named "Project Admin" existing) else do
      admin ← save_new_role p (project_admin_role organisation_id project_id)
      member ← save_new_role p (member_role organisation_id project_id)
      viewer ← save_new_role p (viewer_role organisation_id project_id)
      pure (find_named "Project Admin" (admin ∷ member ∷ viewer ∷ []))
