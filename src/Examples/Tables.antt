-- ===== src/Examples/Tables.antt =====
-- Small tables in memory: an organisation "o" with a project "q", two owners and a member.
use arcane_backend.Common.{String, none, some, true, false, [], ◌∷◌}
use arcane_backend.Platform.{Db, World}
use arcane_backend.Rbac.Role.{Role, UserRole}
use arcane_backend.Rbac.Guards.{Metadata, Request}
use arcane_backend.Examples.InMemory.{platform}

abbrev pub owner : Role
owner = record {
  id = "r1";
  organisation_id = none;
  project_id = none;
  name = "Owner";
  description = none;
  permissions = "*" ∷ [];
  is_system_role = true;
  is_instance_level = true;
}

abbrev pub member : Role
member = record {
  id = "r2";
  organisation_id = some "o";
  project_id = some "q";
  name = "Member";
  description = none;
  permissions = "projects:read" ∷ "traces:read" ∷ [];
  is_system_role = true;
  is_instance_level = false;
}

abbrev pub custom : Role
custom = record {
  id = "r3";
  organisation_id = some "o";
  project_id = some "q";
  name = "Auditor";
  description = none;
  permissions = "traces:read" ∷ [];
  is_system_role = false;
  is_instance_level = false;
}

abbrev pub assigned : String → String → UserRole
assigned user role = record { user_id = user; role_id = role }

abbrev pub tables : Db
tables = record {
  roles = owner ∷ member ∷ custom ∷ [];
  user_roles = assigned "ann" "r1" ∷ assigned "bob" "r1" ∷ assigned "eve" "r3" ∷ [];
  organisation_users = ("o", "eve") ∷ [];
  project_users = ("q", "eve") ∷ [];
  projects = record { id = "q"; organisation_id = "o"; created_by_id = some "bob" } ∷ [];
  visibility_rules = [];
  invitations = [];
  prompts = [];
  prompt_versions = [];
  model_configurations = [];
}

abbrev pub world : World platform
world = record { db = tables; cache = none; audit_log = [] }

-- The world after the roles of "eve" have been cached.
abbrev pub cached_world : World platform
cached_world = record world {
  cache = some (record { user = "eve"; organisation = "o"; project = "q"; roles = custom ∷ [] });
}

-- The world before anybody is an owner.
abbrev pub ownerless : World platform
ownerless = record world { db = record tables { roles = member ∷ []; user_roles = [] } }

abbrev pub metadata : Metadata
metadata = record {
  handler_permission = some "traces:read";
  controller_permission = none;
  handler_allows_creator = none;
  controller_allows_creator = none;
}

abbrev pub request : Request
request = record {
  user = some "eve";
  organisation_id = some "o";
  project_id = some "q";
  project_uuid = none;
}
