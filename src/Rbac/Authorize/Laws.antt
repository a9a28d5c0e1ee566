-- ===== src/Rbac/Authorize/Laws.antt =====
-- The permission service against the tables: from a current cache it decides by `grants`.
use mathlib.Core.Path.{fun_ext}
use arcane_backend.Common.{
  String, Option, Bool, true, false, not, List, [], ◌++◌, ◌≡◌, ap, Exec, Result, ok,
  throw_if_result, or_empty, if◌then◌else◌, filter_by,
}
use arcane_backend.Exception.{forbidden, user_does_not_have_permission}
use arcane_backend.Platform.{Platform, Db, World}
use arcane_backend.Platform.Laws.{IsLawful}
use arcane_backend.Rbac.Role.{Role}
use arcane_backend.Rbac.Grants.{has_permission}
use arcane_backend.Rbac.Retrieval.{is_project_role_in_organisation, roles_of_user}
use arcane_backend.Rbac.Current.{
  CacheIsCurrent, Answers, user_roles, Answers-pure, Answers-reads, Answers-bind, Answers-throw_if,
  Answers-get_user_roles,
}
use arcane_backend.Rbac.Authorize.{
  organisation_only, get_checked_roles, has_permission_for_user, check_permission,
}

module _ (p : Platform) where
  -- The roles that count for a user: for the instance, for the organisation and the project that
  -- are given, and with no project given those for the projects of the organisation.
  abbrev pub checked_roles : Db → String → Option String → Option String → List Role
  checked_roles db user_id organisation_id project_id =
      user_roles p db user_id (or_empty organisation_id) (or_empty project_id)
      ++ (if organisation_only organisation_id project_id
          then filter_by (is_project_role_in_organisation (or_empty organisation_id))
              (roles_of_user p db user_id)
          else [])

  unfoldable pub grants : Db → String → String → Option String → Option String → Bool
  grants db user_id permission organisation_id project_id =
      has_permission (checked_roles db user_id organisation_id project_id) permission

  pub Answers-eq :
      {A : Type 0} {m : Exec (World p) A} {f g : Db → Result A}
      → ((db : Db) → f db ≡ g db)
      → Answers p m f
      → Answers p m g
  Answers-eq h a = rw (← fun_ext h) a

  pub result-Answers :
      {A : Type 0} {m : Exec (World p) A} {f : Db → Result A}
      → Answers p m f
      → (w : World p) → CacheIsCurrent p w
      → (m w).0 ≡ f w.db
  result-Answers a w h = let (cache, e, h') = a.at w h in ap (λ r. r.0) e

  pub Answers-if_ok :
      {A : Type 0} (b : Bool) {m k : Exec (World p) A} (f g : Db → A)
      → Answers p m (λ db. ok (f db))
      → Answers p k (λ db. ok (g db))
      → Answers p (if b then m else k) (λ db. ok (if b then f db else g db))
  Answers-if_ok true f g hm hk = hm
  Answers-if_ok false f g hm hk = hk

module _ (p : Platform) (laws : IsLawful p) where
  Answers-get_checked_roles :
      (u : String) (o r : Option String)
      → Answers p (get_checked_roles p u o r) (λ db. ok (checked_roles p db u o r))
  unfolding get_checked_roles
  Answers-get_checked_roles u o r =
      Answers-bind p _ _ (Answers-get_user_roles p laws u o r) (λ roles.
        Answers-bind p _ _
          (Answers-if_ok p (organisation_only o r) _ _ (Answers-reads p _) (Answers-pure p []))
          (λ more. Answers-pure p (roles ++ more)))

  pub Answers-has_permission_for_user :
      (u permission : String) (o r : Option String)
      → Answers p
          (has_permission_for_user p u permission o r)
          (λ db. ok (grants p db u permission o r))
  unfolding has_permission_for_user grants
  Answers-has_permission_for_user u permission o r =
      Answers-bind p _ _ (Answers-get_checked_roles u o r)
        (λ roles. Answers-pure p (has_permission roles permission))

  pub Answers-check_permission :
      (u permission : String) (o r : Option String)
      → Answers p (check_permission p u permission o r) (λ db.
        throw_if_result
          (not (grants p db u permission o r))
          (forbidden (user_does_not_have_permission permission)))
  unfolding check_permission
  Answers-check_permission u permission o r =
      Answers-bind p _ _ (Answers-has_permission_for_user u permission o r)
        (λ granted. Answers-throw_if p (not granted) _)
