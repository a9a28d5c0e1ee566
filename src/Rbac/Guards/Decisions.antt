-- ===== src/Rbac/Guards/Decisions.antt =====
-- The guards as decisions on the tables: what they answer from a current cache.
use arcane_backend.Common.{
  String, Option, none, some, Bool, true, false, not, ◌||◌, ◌==◌, Result, ok, chain, recover_result,
  throw_if_result, or_throw_result, truthy, or_empty, if◌then◌else◌,
}
use arcane_backend.Exception.{
  Exception, forbidden, user_not_authenticated, user_not_in_organisation,
  user_does_not_have_permission, user_does_not_belong_to_project, organisation_context_required,
  organisation_and_project_context_required,
}
use arcane_backend.Platform.{Platform, Db}
use arcane_backend.Platform.Laws.{IsLawful}
use arcane_backend.Rbac.Membership.{is_found, is_row, is_member, is_project_member}
use arcane_backend.Rbac.Current.{
  Answers, Answers-pure, Answers-reads, Answers-bind, Answers-then, Answers-if, Answers-throw_if,
  Answers-or_throw, Answers-try_catch,
}
use arcane_backend.Rbac.Authorize.Laws.{grants, Answers-if_ok, Answers-check_permission}
use arcane_backend.Rbac.Guards.{
  Metadata, Request, required_permission, allow_project_creator, project_of, created_by,
  instance_can_activate, organisation_can_activate, is_project_creator_fallback,
  validate_org_membership, creator_or_throw, check_permission_with_creator_fallback,
  project_can_activate,
}

module _ (p : Platform) where
  unfoldable pub in_organisation : Db → String → String → Bool
  in_organisation db organisation_id user_id =
      is_found (p.find (is_row p organisation_id user_id) db.organisation_users)

  unfoldable pub in_project : Db → String → String → Bool
  in_project db project_id user_id =
      is_found (p.find (is_row p project_id user_id) db.project_users)

  unfoldable pub is_creator : Db → String → String → Bool
  is_creator db project_id user_id =
      created_by (p.find_one (λ x. x.id == project_id) db.projects) user_id

  abbrev pub checked : Db → String → String → Option String → Option String → Result (Unit {0})
  checked db user permission o r =
      throw_if_result (not (grants p db user permission o r))
        (forbidden (user_does_not_have_permission permission))

  unfoldable pub instance_decision : Metadata → Request → Db → Result Bool
  instance_decision m request db =
      chain (or_throw_result request.user (forbidden user_not_authenticated)) λ user.
        if not (truthy (required_permission m))
        then ok true
        else chain (checked db user (or_empty (required_permission m)) none none) (λ _. ok true)

  unfoldable pub organisation_decision : Metadata → Request → Db → Result Bool
  organisation_decision m request db =
      chain (or_throw_result request.user (forbidden user_not_authenticated)) λ user.
        if not (truthy request.organisation_id)
        then chain
            (throw_if_result (truthy (required_permission m))
              (forbidden organisation_context_required))
            (λ _. ok true)
        else chain
            (throw_if_result (not (in_organisation db (or_empty request.organisation_id) user))
              (forbidden user_not_in_organisation))
            (λ _.
              if not (truthy (required_permission m))
              then ok true
              else chain
                  (checked db user (or_empty (required_permission m)) request.organisation_id none)
                  (λ _. ok true))

  unfoldable pub creator_decision : String → String → Bool → Exception → Db → Result Bool
  creator_decision project_id user allowed error db =
      chain
        (throw_if_result (not (if not allowed then false else is_creator db project_id user)) error)
        (λ _. ok true)

  unfoldable pub project_decision : Metadata → Request → Db → Result Bool
  project_decision m request db =
      chain (or_throw_result request.user (forbidden user_not_authenticated)) λ user.
        chain
          (throw_if_result
            (not (truthy request.organisation_id) || not (truthy (project_of request)))
            (forbidden organisation_and_project_context_required))
          λ _.
            chain
              (throw_if_result (not (in_organisation db (or_empty request.organisation_id) user))
                (forbidden user_not_in_organisation))
              λ _.
                if not (in_project db (or_empty (project_of request)) user)
                then creator_decision (or_empty (project_of request)) user (allow_project_creator m)
                    (forbidden user_does_not_belong_to_project) db
                else if not (truthy (required_permission m))
                then ok true
                else recover_result
                    (chain
                      (checked db user (or_empty (required_permission m))
                        (some (or_empty request.organisation_id))
                        (some (or_empty (project_of request))))
                      (λ _. ok true))
                    (λ e.
                      creator_decision (or_empty (project_of request)) user
                        (allow_project_creator m) e db)

module _ (p : Platform) (laws : IsLawful p) where
  pub Answers-instance :
      (m : Metadata) (request : Request)
      → Answers p (instance_can_activate p m request) (instance_decision p m request)
  unfolding instance_can_activate instance_decision
  Answers-instance m request = Answers-bind p _ _ (Answers-or_throw p request.user _) λ user.
      Answers-if p (not (truthy (required_permission m))) _ _ (Answers-pure p true)
        (Answers-then p _ _ (Answers-check_permission p laws user _ _ _) (Answers-pure p true))

  Answers-is_member :
      (o user : String) → Answers p (is_member p o user) (λ db. ok (in_organisation p db o user))
  unfolding is_member in_organisation
  Answers-is_member o user = Answers-reads p _

  Answers-is_project_member :
      (r user : String) → Answers p (is_project_member p r user) (λ db. ok (in_project p db r user))
  unfolding is_project_member in_project
  Answers-is_project_member r user = Answers-reads p _

  pub Answers-organisation :
      (m : Metadata) (request : Request)
      → Answers p (organisation_can_activate p m request) (organisation_decision p m request)
  unfolding organisation_can_activate organisation_decision
  Answers-organisation m request = Answers-bind p _ _ (Answers-or_throw p request.user _) λ user.
      Answers-if p (not (truthy request.organisation_id)) _ _
        (Answers-then p _ _ (Answers-throw_if p _ _) (Answers-pure p true))
        (Answers-bind p _ _ (Answers-is_member (or_empty request.organisation_id) user) λ belongs.
          Answers-then p _ _ (Answers-throw_if p (not belongs) _) (
            Answers-if p (not (truthy (required_permission m))) _ _ (Answers-pure p true) (
              Answers-then p _ _ (Answers-check_permission p laws user _ _ _)
                (Answers-pure p true))))

  Answers-creator :
      (r user : String) (allowed : Bool) (e : Exception)
      → Answers p (creator_or_throw p r user allowed e) (creator_decision p r user allowed e)
  unfolding creator_or_throw is_project_creator_fallback creator_decision is_creator
  Answers-creator r user allowed e =
      Answers-bind p _ _
        (Answers-if_ok p (not allowed) _ _ (Answers-pure p false) (Answers-reads p _))
        λ created. Answers-then p _ _ (Answers-throw_if p (not created) e) (Answers-pure p true)

  pub Answers-project :
      (m : Metadata) (request : Request)
      → Answers p (project_can_activate p m request) (project_decision p m request)
  unfolding project_can_activate project_decision validate_org_membership
      check_permission_with_creator_fallback
  Answers-project m request = Answers-bind p _ _ (Answers-or_throw p request.user _) λ user.
      Answers-then p _ _ (Answers-throw_if p _ _) (
        Answers-then p _ _
          (Answers-bind p _ _ (Answers-is_member _ user)
            λ belongs. Answers-throw_if p (not belongs) _)
          (Answers-bind p _ _ (Answers-is_project_member _ user) λ belongs.
            Answers-if p (not belongs) _ _ (Answers-creator _ user _ _) (
              Answers-if p (not (truthy (required_permission m))) _ _ (Answers-pure p true) (
                Answers-try_catch p _ _
                  (Answers-then p _ _ (Answers-check_permission p laws user _ _ _)
                    (Answers-pure p true))
                  (λ e. Answers-creator _ user _ e)))))
