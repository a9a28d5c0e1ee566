-- ===== src/Rbac/Reads.antt =====
-- Actions that always return and write to nothing but the cache, whatever the cache holds.
use arcane_backend.Common.{
  String, Option, none, some, Bool, true, false, [], ◌≡◌, refl, Exec, ok, pure, reads, ◌>>=◌,
  truthy, or_empty, if◌then◌else◌,
}
use arcane_backend.Platform.{
  Platform, World, CacheKey, Cached, user_roles_key, instance_role_key, organisation_role_key,
  project_role_key,
}
use arcane_backend.Rbac.Grants.{has_permission}
use arcane_backend.Rbac.Retrieval.{
  cached, get_user_instance_role, get_user_organisation_role, get_user_project_role, get_user_roles,
}
use arcane_backend.Rbac.Authorize.{organisation_only, get_checked_roles, has_permission_for_user}

module _ (p : Platform) where
  pub record Reads {A : Type 0} (m : Exec (World p) A) : Type 0 where
    pub at :
        (w : World p) → (a : A) × (cache : p.Cache) × (m w ≡ (ok a, record w { cache = cache }))

  Reads-pure : {A : Type 0} (a : A) → Reads (pure a)
  Reads-pure a = record { at = λ w. (a, w.cache, refl) }

  Reads-reads : {A : Type 0} (f : World p → A) → Reads (reads f)
  Reads-reads f = record { at = λ w. (f w, w.cache, refl) }

  Reads-bind :
      {A B : Type 0} {m : Exec (World p) A} {k : A → Exec (World p) B}
      → Reads m
      → ((a : A) → Reads (k a))
      → Reads (m >>= k)
  Reads-bind {A} {B} {m} {k} hm hk = record {
    at = λ w.
        let (a, cache, e) = hm.at w in
        let (b, cache', e') = (hk a).at (record w { cache = cache }) in (b, cache', rw e e');
  }

  Reads-if :
      {A : Type 0} (b : Bool) {m k : Exec (World p) A}
      → Reads m
      → Reads k
      → Reads (if b then m else k)
  Reads-if true hm hk = hm
  Reads-if false hm hk = hk

  Reads-cached :
      (k : CacheKey) {compute : Exec (World p) (Cached k)}
      → Reads compute
      → Reads (cached p k compute)
  unfolding cached
  Reads-cached k {compute} hm = record { at = λ w. go w (p.cache_get k w.cache) refl }
    where
      go :
          (w : World p) (o : Option (Cached k))
          → p.cache_get k w.cache ≡ o
          → (a : Cached k) × (cache : p.Cache) × (cached p k compute w
              ≡ (ok a, record w { cache = cache }))
      go w (some v) found = (v, w.cache, rw found refl)
      go w none missing =
          let (a, cache, e) = hm.at w in (a, p.cache_set k a cache, rw missing (rw e refl))

  pub Reads-get_user_instance_role : (u : String) → Reads (get_user_instance_role p u)
  unfolding get_user_instance_role
  Reads-get_user_instance_role u = Reads-cached (instance_role_key u) (Reads-reads _)

  pub Reads-get_user_organisation_role : (o u : String) → Reads (get_user_organisation_role p o u)
  unfolding get_user_organisation_role
  Reads-get_user_organisation_role o u = Reads-cached (organisation_role_key o u) (Reads-reads _)

  pub Reads-get_user_project_role : (r u : String) → Reads (get_user_project_role p r u)
  unfolding get_user_project_role
  Reads-get_user_project_role r u = Reads-cached (project_role_key r u) (Reads-reads _)

  pub Reads-get_user_roles : (u : String) (o r : Option String) → Reads (get_user_roles p u o r)
  unfolding get_user_roles
  Reads-get_user_roles u o r = Reads-cached (user_roles_key u (or_empty o) (or_empty r)) (
      Reads-bind (Reads-get_user_instance_role u) λ i.
        Reads-bind
          (Reads-if (truthy o) (Reads-get_user_organisation_role (or_empty o) u) (Reads-pure none))
          λ g.
            Reads-bind
              (Reads-if (truthy r) (Reads-get_user_project_role (or_empty r) u) (Reads-pure none))
              λ j. Reads-pure _)

  pub Reads-has_permission_for_user :
      (u permission : String) (o r : Option String)
      → Reads (has_permission_for_user p u permission o r)
  unfolding has_permission_for_user get_checked_roles
  Reads-has_permission_for_user u permission o r =
      Reads-bind
        (Reads-bind (Reads-get_user_roles u o r) λ roles.
          Reads-bind (Reads-if (organisation_only o r) (Reads-reads _) (Reads-pure []))
            λ more. Reads-pure _)
        λ roles. Reads-pure (has_permission roles permission)
