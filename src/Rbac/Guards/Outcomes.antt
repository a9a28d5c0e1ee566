-- ===== src/Rbac/Guards/Outcomes.antt =====
-- When each guard lets a request through, in terms of the tables.
use arcane_backend.Common.{
  String, Option, none, some, Bool, true, false, ◌≡◌, refl, ◌⊎◌, ◌↔◌, Result, ok, arith, chain,
  or_throw_result, truthy, or_empty,
}
use arcane_backend.Exception.{Exception}
use arcane_backend.Platform.{Platform, Db, World}
use arcane_backend.Platform.Laws.{IsLawful}
use arcane_backend.Rbac.Current.{CacheIsCurrent}
use arcane_backend.Rbac.Authorize.Laws.{grants, result-Answers}
use arcane_backend.Rbac.Guards.{
  Metadata, Request, required_permission, allow_project_creator, project_of, instance_can_activate,
  organisation_can_activate, project_can_activate,
}
use arcane_backend.Rbac.Guards.Decisions.{
  in_organisation, in_project, is_creator, instance_decision, organisation_decision,
  creator_decision, project_decision, Answers-instance, Answers-organisation, Answers-project,
}

chain_user_iff :
    (o : Option String) (e : Exception) (body : String → Result Bool) (C : String → Type 0)
    → ((user : String) → (body user ≡ ok true) ↔ C user)
    → (chain (or_throw_result o e) body ≡ ok true) ↔ ((user : String) × (o ≡ some user) × C user)
chain_user_iff none e body C h = (λ x. absurd (cc), λ (user, x, y). absurd (cc))
chain_user_iff (some user) e body C h =
    (λ x. (user, refl, (h user).0 x), λ (other, same, c). (h user).1 (rw (some_eq same) c))
  where
    some_eq : {a b : String} → some a ≡ some b → a ≡ b
    some_eq same = cc

module _ (p : Platform) where
  -- What the project guard asks of a user.
  abbrev pub IsAdmitted : Metadata → Request → Db → String → Type 0
  IsAdmitted m request db user =
      (truthy request.organisation_id ≡ true)
      × (truthy (project_of request) ≡ true)
      × (in_organisation p db (or_empty request.organisation_id) user ≡ true)
      × (((in_project p db (or_empty (project_of request)) user ≡ true)
            × ((truthy (required_permission m) ≡ false)
                ⊎ (grants p db user (or_empty (required_permission m))
                      (some (or_empty request.organisation_id))
                      (some (or_empty (project_of request)))
                    ≡ true)))
          ⊎ ((allow_project_creator m ≡ true)
              × (is_creator p db (or_empty (project_of request)) user ≡ true)))

  project_decision_iff :
      (m : Metadata) (request : Request) (db : Db)
      → (project_decision p m request db ≡ ok true)
        ↔ ((user : String) × (request.user ≡ some user) × IsAdmitted m request db user)
  unfolding project_decision creator_decision
  project_decision_iff m request db =
      chain_user_iff request.user _ _ (IsAdmitted m request db) (λ user. ground arith)

  abbrev pub IsOrganisationAdmitted : Metadata → Request → Db → String → Type 0
  IsOrganisationAdmitted m request db user =
      ((truthy request.organisation_id ≡ false) × (truthy (required_permission m) ≡ false))
      ⊎ ((truthy request.organisation_id ≡ true)
          × (in_organisation p db (or_empty request.organisation_id) user ≡ true)
          × ((truthy (required_permission m) ≡ false)
              ⊎ (grants p db user (or_empty (required_permission m)) request.organisation_id none
                  ≡ true)))

  organisation_decision_iff :
      (m : Metadata) (request : Request) (db : Db)
      → (organisation_decision p m request db ≡ ok true)
        ↔ ((user : String) × (request.user ≡ some user) × IsOrganisationAdmitted m request db user)
  unfolding organisation_decision
  organisation_decision_iff m request db =
      chain_user_iff request.user _ _ (IsOrganisationAdmitted m request db) (λ user. ground arith)

  instance_decision_iff :
      (m : Metadata) (request : Request) (db : Db)
      → (instance_decision p m request db ≡ ok true) ↔ (
          (user : String) × (request.user ≡ some user)
          × ((truthy (required_permission m) ≡ false)
              ⊎ (grants p db user (or_empty (required_permission m)) none none ≡ true)))
  unfolding instance_decision
  instance_decision_iff m request db = chain_user_iff request.user _ _ _ (λ user. ground arith)

module _ (p : Platform) (laws : IsLawful p) (m : Metadata) (request : Request) (w : World p) where
  -- With a current cache the project guard lets a request through exactly when there is a user in
  -- the session, both ids are given, the user belongs to the organisation, and either belongs to
  -- the project and has the permission that is asked for, if any, or created the project where the
  -- route allows that.
  pub project_can_activate_iff :
      CacheIsCurrent p w
      → ((project_can_activate p m request w).0 ≡ ok true)
        ↔ ((user : String) × (request.user ≡ some user) × IsAdmitted p m request w.db user)
  project_can_activate_iff h =
      rw (result-Answers p (Answers-project p laws m request) w h)
        (project_decision_iff p m request w.db)

  -- With a current cache the organisation guard lets a request through exactly when there is a user
  -- in the session, and either no organisation is given and no permission asked for, or the user
  -- belongs to the organisation and has the permission that is asked for, if any.
  pub organisation_can_activate_iff :
      CacheIsCurrent p w
      → ((organisation_can_activate p m request w).0 ≡ ok true) ↔ (
          (user : String) × (request.user ≡ some user)
          × IsOrganisationAdmitted p m request w.db user)
  organisation_can_activate_iff h =
      rw (result-Answers p (Answers-organisation p laws m request) w h)
        (organisation_decision_iff p m request w.db)

  -- With a current cache the instance guard lets a request through exactly when there is a user in
  -- the session who has the permission that is asked for, if any, by an instance role.
  pub instance_can_activate_iff :
      CacheIsCurrent p w
      → ((instance_can_activate p m request w).0 ≡ ok true) ↔ (
          (user : String) × (request.user ≡ some user)
          × ((truthy (required_permission m) ≡ false)
              ⊎ (grants p w.db user (or_empty (required_permission m)) none none ≡ true)))
  instance_can_activate_iff h =
      rw (result-Answers p (Answers-instance p laws m request) w h)
        (instance_decision_iff p m request w.db)
