-- ===== src/Rbac/Current.antt =====
-- When the cache is current: each entry is what the tables say now. While it is, the reads through
-- the cache answer from the tables, and change nothing but the cache.
use mathlib.Core.Option
use arcane_backend.Common.{
  String, Option, none, some, Bool, true, false, List, ◌++◌, ◌≡◌, refl, Exec, Result, ok, err, pure,
  throw, reads, ◌>>=◌, ◌>>◌, resume, chain, recover, recover_result, try_catch, throw_if,
  throw_if_result, or_throw, or_throw_result, truthy, or_empty, if◌then◌else◌, find_first,
  Bool-cases, ◌==◌, inl, inr,
}
use arcane_backend.Exception.{Exception}
use arcane_backend.Platform.{
  Platform, Db, World, CacheKey, Cached, user_roles_key, instance_role_key, organisation_role_key,
  project_role_key, default_project_role_key, default_organisation_role_key, owner_role_key,
}
use arcane_backend.Platform.Laws.{IsLawful, AllCached}
use arcane_backend.Rbac.Role.{Role}
use arcane_backend.Rbac.Retrieval.{
  first_instance_role, is_role_of_organisation, is_role_of_project, pushed, roles_of_user, cached,
  get_user_instance_role, get_user_organisation_role, get_user_project_role, role_if,
  get_user_roles,
}
use arcane_backend.Rbac.DefaultRole.{
  project_member_where, organisation_member_where, owner_where, find_role,
}

module _ (p : Platform) where
  -- What the tables say, with no cache in between.
  abbrev pub instance_role : Db → String → Option Role
  instance_role db user_id = first_instance_role (roles_of_user p db user_id)

  abbrev pub organisation_role : Db → String → String → Option Role
  organisation_role db organisation_id user_id =
      find_first (is_role_of_organisation organisation_id) (roles_of_user p db user_id)

  abbrev pub project_role : Db → String → String → Option Role
  project_role db project_id user_id =
      find_first (is_role_of_project project_id) (roles_of_user p db user_id)

  -- `id` is "" where the caller gives none.
  abbrev pub if_given : String → Option Role → Option Role
  if_given id role = if truthy (some id) then role else none

  abbrev pub user_roles : Db → String → String → String → List Role
  user_roles db user_id organisation_id project_id =
      pushed (instance_role db user_id)
      ++ (pushed (if_given organisation_id (organisation_role db organisation_id user_id))
          ++ pushed (if_given project_id (project_role db project_id user_id)))

  abbrev pub IsCurrent : Db → (k : CacheKey) → Cached k → Type 0
  IsCurrent db (user_roles_key u o r) v = v ≡ user_roles db u o r
  IsCurrent db (instance_role_key u) v = v ≡ instance_role db u
  IsCurrent db (organisation_role_key o u) v = v ≡ organisation_role db o u
  IsCurrent db (project_role_key r u) v = v ≡ project_role db r u
  IsCurrent db (default_project_role_key o r) v = find_role p (project_member_where o r) db ≡ some v
  IsCurrent db (default_organisation_role_key o) v =
      find_role p (organisation_member_where o) db ≡ some v
  IsCurrent db owner_role_key v =
      v ≡ Option.map (λ (role : Role). role.id) (find_role p owner_where db)

  abbrev pub CacheIsCurrent : World p → Type 0
  CacheIsCurrent w = AllCached p (IsCurrent w.db) w.cache

  -- From a current cache the action returns `f` of the tables, and writes to nothing but the
  -- cache, which stays current.
  pub record Answers {A : Type 0} (m : Exec (World p) A) (f : Db → Result A) : Type 0 where
    pub at :
        (w : World p)
        → CacheIsCurrent w
        → (cache : p.Cache) × (m w ≡ (f w.db, record w { cache = cache }))
          × CacheIsCurrent (record w { cache = cache })

  pub Answers-pure : {A : Type 0} (a : A) → Answers (pure a) (λ db. ok a)
  Answers-pure a = record { at = λ w h. (w.cache, refl, h) }

  pub Answers-reads : {A : Type 0} (f : Db → A) → Answers (reads (λ w. f w.db)) (λ db. ok (f db))
  Answers-reads f = record { at = λ w h. (w.cache, refl, h) }

  pub Answers-bind :
      {A B : Type 0} {m : Exec (World p) A} {k : A → Exec (World p) B} (f : Db → Result A)
      (g : A → Db → Result B)
      → Answers m f
      → ((a : A) → Answers (k a) (g a))
      → Answers (m >>= k) (λ db. chain (f db) (λ a. g a db))
  Answers-bind {A} {B} {m} {k} f g hm hk = record {
    at =
        λ w h. let (cache, e, h') = hm.at w h in rw e (go (f w.db) (record w { cache = cache }) h');
  }
    where
      go :
          (r : Result A) (w : World p)
          → CacheIsCurrent w
          → (cache : p.Cache) × (resume (r, w) k
              ≡ (chain r (λ a. g a w.db), record w { cache = cache }))
            × CacheIsCurrent (record w { cache = cache })
      go (ok a) w h = (hk a).at w h
      go (err e) w h = (w.cache, refl, h)

  pub Answers-then :
      {B : Type 0} {m : Exec (World p) (Unit {0})} {k : Exec (World p) B}
      (f : Db → Result (Unit {0})) (g : Db → Result B)
      → Answers m f
      → Answers k g
      → Answers (m >> k) (λ db. chain (f db) (λ _. g db))
  Answers-then {B} {m} {k} f g hm hk = Answers-bind f (λ _. g) hm (λ _. hk)

  pub Answers-try_catch :
      {A : Type 0} {m : Exec (World p) A} {k : Exception → Exec (World p) A} (f : Db → Result A)
      (g : Exception → Db → Result A)
      → Answers m f
      → ((e : Exception) → Answers (k e) (g e))
      → Answers (try_catch m k) (λ db. recover_result (f db) (λ e. g e db))
  Answers-try_catch {A} {m} {k} f g hm hk = record {
    at =
        λ w h. let (cache, e, h') = hm.at w h in rw e (go (f w.db) (record w { cache = cache }) h');
  }
    where
      go :
          (r : Result A) (w : World p)
          → CacheIsCurrent w
          → (cache : p.Cache) × (recover (r, w) k
              ≡ (recover_result r (λ e. g e w.db), record w { cache = cache }))
            × CacheIsCurrent (record w { cache = cache })
      go (ok a) w h = (w.cache, refl, h)
      go (err e) w h = (hk e).at w h

  pub Answers-throw_if :
      (b : Bool) (e : Exception) → Answers (throw_if b e) (λ db. throw_if_result b e)
  Answers-throw_if true e = record { at = λ w h. (w.cache, refl, h) }
  Answers-throw_if false e = record { at = λ w h. (w.cache, refl, h) }

  pub Answers-throw : {A : Type 0} (e : Exception) → Answers (throw {A = A} e) (λ db. err e)
  Answers-throw e = record { at = λ w h. (w.cache, refl, h) }

  pub Answers-or_throw :
      {A : Type 0} (o : Option A) (e : Exception)
      → Answers (or_throw o e) (λ db. or_throw_result o e)
  Answers-or_throw none e = record { at = λ w h. (w.cache, refl, h) }
  Answers-or_throw (some a) e = record { at = λ w h. (w.cache, refl, h) }

  pub Answers-if :
      {A : Type 0} (b : Bool) {m k : Exec (World p) A} (f g : Db → Result A)
      → Answers m f
      → Answers k g
      → Answers (if b then m else k) (λ db. if b then f db else g db)
  Answers-if true f g hm hk = hm
  Answers-if false f g hm hk = hk

module _ (p : Platform) (laws : IsLawful p) where
  Answers-cached :
      (k : CacheKey) {compute : Exec (World p) (Cached k)} (f : Db → Cached k)
      → ((db : Db) (v : Cached k) → IsCurrent p db k v → v ≡ f db)
      → ((db : Db) → IsCurrent p db k (f db))
      → Answers p compute (λ db. ok (f db))
      → Answers p (cached p k compute) (λ db. ok (f db))
  unfolding cached
  Answers-cached k {compute} f only is_f hm = record {
    at = λ w h. go w h (p.cache_get k w.cache) refl;
  }
    where
      go :
          (w : World p) (h : CacheIsCurrent p w) (o : Option (Cached k))
          → p.cache_get k w.cache ≡ o
          → (cache : p.Cache) × (cached p k compute w ≡ (ok (f w.db), record w { cache = cache }))
            × CacheIsCurrent p (record w { cache = cache })
      go w h (some v) found = (w.cache, rw found (rw (only w.db v (h k v found)) refl), h)
      go w h none missing =
          let (cache, e, h') = hm.at w h in
          (
            p.cache_set k (f w.db) cache,
            rw missing (rw e refl),
            laws.set_AllCached (IsCurrent p w.db) k (f w.db) cache h' (is_f w.db),
          )

  pub Answers-get_user_instance_role :
      (u : String) → Answers p (get_user_instance_role p u) (λ db. ok (instance_role p db u))
  unfolding get_user_instance_role
  Answers-get_user_instance_role u =
      Answers-cached (instance_role_key u) _ (λ db v e. e) (λ db. refl) (Answers-reads p _)

  pub Answers-get_user_organisation_role :
      (o u : String)
      → Answers p (get_user_organisation_role p o u) (λ db. ok (organisation_role p db o u))
  unfolding get_user_organisation_role
  Answers-get_user_organisation_role o u =
      Answers-cached (organisation_role_key o u) _ (λ db v e. e) (λ db. refl) (Answers-reads p _)

  pub Answers-get_user_project_role :
      (r u : String) → Answers p (get_user_project_role p r u) (λ db. ok (project_role p db r u))
  unfolding get_user_project_role
  Answers-get_user_project_role r u =
      Answers-cached (project_role_key r u) _ (λ db v e. e) (λ db. refl) (Answers-reads p _)

  Answers-role_if :
      (id : Option String) {query : Exec (World p) (Option Role)} (f : Db → Option Role)
      → Answers p query (λ db. ok (f db))
      → Answers p (role_if p (truthy id) query) (λ db. ok (if_given p (or_empty id) (f db)))
  Answers-role_if none f h = Answers-pure p none
  Answers-role_if (some id) f h = elim (Bool-cases (id == "")) [
    | inl empty ↦ rw empty (Answers-pure p none)
    | inr given ↦ rw given h
  ]

  -- From a current cache the roles of a user are those of the tables.
  pub Answers-get_user_roles :
      (u : String) (o r : Option String)
      → Answers p (get_user_roles p u o r) (λ db. ok (user_roles p db u (or_empty o) (or_empty r)))
  unfolding get_user_roles
  Answers-get_user_roles u o r =
      Answers-cached (user_roles_key u (or_empty o) (or_empty r)) _ (λ db v e. e) (λ db. refl)
        (Answers-bind p _ _ (Answers-get_user_instance_role u) (λ i.
          Answers-bind p _ _
            (Answers-role_if o _ (Answers-get_user_organisation_role (or_empty o) u))
            (λ g.
              Answers-bind p _ _
                (Answers-role_if r _ (Answers-get_user_project_role (or_empty r) u))
                (λ j. Answers-pure p _))))
