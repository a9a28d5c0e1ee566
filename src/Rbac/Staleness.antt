-- ===== src/Rbac/Staleness.antt =====
-- What the cache still says after a role has been removed.
use arcane_backend.Common.{
  String, Option, some, false, List, ◌≡◌, refl, ◌≢◌, ◌∙◌, ok, or_empty, Option-cases, inl, inr,
}
use mathlib.Core.List.{append-nil}
use arcane_backend.Platform.{Platform, World, CacheKey, user_roles_key, instance_role_key}
use arcane_backend.Platform.Laws.{IsLawful}
use arcane_backend.Rbac.Role.{Role, UserRole}
use arcane_backend.Rbac.Grants.{has_permission}
use arcane_backend.Rbac.Retrieval.{cached, get_user_roles, get_user_instance_role}
use arcane_backend.Rbac.Current.{instance_role}
use arcane_backend.Rbac.Assignment.{
  find_assignment, remove_role, remove_found_role, invalidate_user_role_caches,
}
use arcane_backend.Rbac.Authorize.{organisation_only, get_checked_roles, has_permission_for_user}

module _ (p : Platform) (user role_id permission : String) (o r : Option String) (w : World p) where
  hit :
      (t : World p) (roles : List Role)
      → organisation_only o r ≡ false
      → p.cache_get (user_roles_key user (or_empty o) (or_empty r)) t.cache ≡ some roles
      → (has_permission_for_user p user permission o r t).0 ≡ ok (has_permission roles permission)
  unfolding has_permission_for_user get_checked_roles get_user_roles cached
  hit t roles placed found = simp (found, placed, append-nil) refl

  cache-remove_role :
      (k : CacheKey)
      → k ≢ instance_role_key user
      → ((j : CacheKey) → k ≢ j → p.cache_get k (p.cache_del j w.cache) ≡ p.cache_get k w.cache)
      → p.cache_get k (remove_role p user role_id false w).1.cache ≡ p.cache_get k w.cache
  unfolding remove_role remove_found_role invalidate_user_role_caches
  cache-remove_role k other keep = elim (Option-cases (find_assignment p user role_id w.db)) [
    | inl missing ↦ rw missing refl
    | inr (found, e) ↦ rw e (keep (instance_role_key user) other)
  ]

  -- Where deleting one key of the cache leaves the others, a user's cached roles still decide after
  -- one of the user's roles has been removed: a permission check in a project, or for the instance,
  -- answers by the roles cached before, whatever the tables say.
  pub has_permission_for_user-remove_role :
      (roles : List Role)
      → organisation_only o r ≡ false
      → ((k j : CacheKey) → k ≢ j → p.cache_get k (p.cache_del j w.cache) ≡ p.cache_get k w.cache)
      → p.cache_get (user_roles_key user (or_empty o) (or_empty r)) w.cache ≡ some roles
      → (has_permission_for_user p user permission o r (remove_role p user role_id false w).1).0
        ≡ ok (has_permission roles permission)
  has_permission_for_user-remove_role roles placed keep found =
      hit (remove_role p user role_id false w).1 roles placed (
        cache-remove_role (user_roles_key user (or_empty o) (or_empty r)) (λ e. cc)
          (keep (user_roles_key user (or_empty o) (or_empty r)))
        ∙ found)

-- After a role that a user had has been removed outside a transaction, the instance role of the user
-- is read from the tables as they then are.
pub get_user_instance_role-remove_role :
    (p : Platform) (laws : IsLawful p) (user role_id : String) (w : World p) (found : UserRole)
    → find_assignment p user role_id w.db ≡ some found
    → (get_user_instance_role p user (remove_role p user role_id false w).1).0
      ≡ ok (instance_role p (remove_role p user role_id false w).1.db user)
unfolding get_user_instance_role cached remove_role remove_found_role invalidate_user_role_caches
get_user_instance_role-remove_role p laws user role_id w found e =
    rw (e, laws.get_del (instance_role_key user) w.cache) refl
