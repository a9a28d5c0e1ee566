-- ===== src/Rbac/Retrieval.antt =====
-- rbac/services/role-retrieval.service.ts: the roles that a user holds, through the cache, and the
-- calls that rbac/services/rbac.service.ts passes on to it. How long an entry lives is the cache's.
use arcane_backend.Common.{
  String, Option, none, some, Bool, ◌&&◌, ◌==◌, List, [], ◌∷◌, ◌++◌, map, Exec, ok, pure, reads,
  ◌>>=◌, same_id, truthy, or_empty, if◌then◌else◌, find_first, filter_by,
}
use arcane_backend.Platform.{
  Platform, Db, World, CacheKey, Cached, user_roles_key, instance_role_key, organisation_role_key,
  project_role_key,
}
use arcane_backend.Rbac.Role.{Role, is_instance_scope, is_organisation_scope, is_project_scope}

-- The loop of `getUserInstanceRole`: both branches take the role, the second with a warning.
unfoldable pub first_instance_role : List Role → Option Role
first_instance_role [] = none
first_instance_role (r ∷ roles) =
    if is_instance_scope r
    then some r
    else if r.is_instance_level
    then some r
    else first_instance_role roles

abbrev pub is_role_of_organisation : String → Role → Bool
is_role_of_organisation organisation_id r =
    is_organisation_scope r && same_id r.organisation_id (some organisation_id)

abbrev pub is_role_of_project : String → Role → Bool
is_role_of_project project_id r = is_project_scope r && same_id r.project_id (some project_id)

abbrev pub is_project_role_in_organisation : String → Role → Bool
is_project_role_in_organisation organisation_id r =
    is_project_scope r && same_id r.organisation_id (some organisation_id)

abbrev pub pushed : Option Role → List Role
pushed none = []
pushed (some role) = role ∷ []

module _ (p : Platform) where
  -- `userRoleRepository.find({ where: { userId }, relations: ["role"] })`, the roles of the rows
  unfoldable pub roles_of_user : Db → String → List Role
  roles_of_user db user_id =
      map (λ row. row.1) (p.join_role (p.find (λ x. x.user_id == user_id) db.user_roles) db.roles)

  pub store : (k : CacheKey) → Cached k → Exec (World p) (Cached k)
  store k v w = (ok v, record w { cache = p.cache_set k v w.cache })

  abbrev answer :
      (k : CacheKey) → Exec (World p) (Cached k) → Option (Cached k) → Exec (World p) (Cached k)
  answer k compute (some v) = pure v
  answer k compute none = compute >>= store k

  -- `cacheManager.get`, and `cacheManager.set` of what is computed where nothing is cached
  unfoldable pub cached : (k : CacheKey) → Exec (World p) (Cached k) → Exec (World p) (Cached k)
  unfolding store
  cached k compute w = answer k compute (p.cache_get k w.cache) w

  unfoldable pub get_user_instance_role : String → Exec (World p) (Option Role)
  unfolding first_instance_role cached
  get_user_instance_role user_id =
      cached (instance_role_key user_id)
        (reads (λ w. first_instance_role (roles_of_user w.db user_id)))

  unfoldable pub get_user_organisation_role : String → String → Exec (World p) (Option Role)
  unfolding cached
  get_user_organisation_role organisation_id user_id =
      cached (organisation_role_key organisation_id user_id) (
        reads
          (λ w. find_first (is_role_of_organisation organisation_id) (roles_of_user w.db user_id)))

  unfoldable pub get_user_project_role : String → String → Exec (World p) (Option Role)
  unfolding cached
  get_user_project_role project_id user_id =
      cached (project_role_key project_id user_id)
        (reads (λ w. find_first (is_role_of_project project_id) (roles_of_user w.db user_id)))

  abbrev pub role_if : Bool → Exec (World p) (Option Role) → Exec (World p) (Option Role)
  role_if test query = if test then query else pure none

  unfoldable pub get_user_roles :
      String → Option String → Option String → Exec (World p) (List Role)
  unfolding cached get_user_instance_role get_user_organisation_role get_user_project_role
  get_user_roles user_id organisation_id project_id =
      cached (user_roles_key user_id (or_empty organisation_id) (or_empty project_id)) do
        instance_role ← get_user_instance_role user_id
        organisation_role ←
            role_if (truthy organisation_id)
              (get_user_organisation_role (or_empty organisation_id) user_id)
        project_role ←
            role_if (truthy project_id) (get_user_project_role (or_empty project_id) user_id)
        pure (pushed instance_role ++ (pushed organisation_role ++ pushed project_role))

  unfoldable pub get_user_project_roles : String → String → Exec (World p) (List Role)
  get_user_project_roles project_id user_id =
      reads (λ w. filter_by (is_role_of_project project_id) (roles_of_user w.db user_id))

  unfoldable pub get_user_project_roles_for_organisation :
      String → String → Exec (World p) (List Role)
  get_user_project_roles_for_organisation organisation_id user_id = reads (λ w.
      filter_by (is_project_role_in_organisation organisation_id) (roles_of_user w.db user_id))
