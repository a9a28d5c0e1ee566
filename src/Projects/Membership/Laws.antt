-- ===== src/Projects/Membership/Laws.antt =====
-- projects/services/project-membership.service.ts: what removing a member and inviting a user do.
use arcane_backend.Common.{
  String, Option, none, some, Bool, true, false, ◌≡◌, ◌≢◌, refl, ap, ◌∙◌, ◌↔◌, Memᴰ, ok, err,
  eq_iff, and-eq-true, sym, subst,
}
use arcane_backend.Platform.{Platform, World, Project, member_state}
use arcane_backend.Platform.Audit.{record_audit_lem}
use arcane_backend.Platform.Laws.{IsLawful}
use arcane_backend.Projects.Membership.{
  is_project_of, member_event, remove_member, remove_user, get_project_or_throw, add_member,
  add_user, invite_user,
}
use arcane_backend.Projects.Membership.Rows.{
  clash, mem-remove_member, in_project-add_member, made_by_other, remove_member-not-IsAdmitted,
}
use arcane_backend.Rbac.Current.{CacheIsCurrent}
use arcane_backend.Rbac.Retrieval.{roles_of_user}
use arcane_backend.Rbac.Guards.{Metadata, Request, project_of, project_can_activate}
use arcane_backend.Rbac.Guards.Decisions.{in_organisation, in_project}
use arcane_backend.Rbac.Guards.Outcomes.{IsAdmitted, project_can_activate_iff}
use arcane_backend.Rbac.Membership.{is_member, is_project_member}
use arcane_backend.Rbac.Assignment.{id_where}
use arcane_backend.Rbac.DefaultRole.{find_role}
use arcane_backend.Rbac.Roles.{find_one_role}
use arcane_backend.Exception.{not_found, role_not_found}

module _ (p : Platform) (laws : IsLawful p) (user_id_by_email : String → Option String)
    (project : Project) (email user : String) (actor : Option String) (w : World p) where
  removal_runs :
      p.find_one (is_project_of project.organisation_id project.id) w.db.projects ≡ some project
      → user_id_by_email email ≡ some user
      → project.created_by_id ≢ some user
      → in_project p w.db project.id user ≡ true
      → (t : World p) × (remove_user p user_id_by_email project.organisation_id project.id email
            actor w
          ≡ (ok "User removed successfully", t))
        × (t.db ≡ (remove_member p project.id user w).db)
        × (t.cache ≡ w.cache)
  unfolding remove_user get_project_or_throw is_project_member in_project
  removal_runs found known other member =
      let (t, recorded, tables, cache) =
        record_audit_lem p
          (member_event "project_member.removed" actor project.organisation_id project.id
            (some (member_state user email)) none)
          (remove_member p project.id user w) in
      (t, rw (found, known, made_by_other project user other, member, recorded) refl, tables, cache)

  find_one-is_project_of :
      Memᴰ project w.db.projects
      → ((x y : Project) → Memᴰ x w.db.projects → Memᴰ y w.db.projects → x.id ≡ y.id → x ≡ y)
      → p.find_one (is_project_of project.organisation_id project.id) w.db.projects ≡ some project
  find_one-is_project_of listed unique = by_project (p.find_one test w.db.projects) refl
    where
      test : Project → Bool
      test = is_project_of project.organisation_id project.id

      passes : test project ≡ true
      passes =
          rw
            (
              (eq_iff project.id project.id).1 refl,
              (eq_iff project.organisation_id project.organisation_id).1 refl,
            )
            refl

      by_project :
          (q : Option Project)
          → p.find_one test w.db.projects ≡ q
          → p.find_one test w.db.projects ≡ some project
      by_project none e =
          let t = passes in
          let f = laws.find_one_none _ w.db.projects project e listed in absurd (clash f t)
      by_project (some found) e =
          let (m, h) = laws.find_one_some _ w.db.projects found e in
          e
          ∙ ap some
              (unique found project m listed ((eq_iff found.id project.id).0 (and-eq-true _ _ h).0))

  -- Membership of a project is not cached.
  still_current :
      (t : World p)
      → t.db ≡ (remove_member p project.id user w).db
      → t.cache ≡ w.cache
      → CacheIsCurrent p w
      → CacheIsCurrent p t
  unfolding roles_of_user find_role
  still_current t tables cache h = rw (tables, cache) h

  -- Where an id names one project, and from a current cache: removing a member who has not created
  -- the project succeeds, and deletes just that row of the table of members; after it the project
  -- guard lets no request of the user to the project through, whatever roles the user still has.
  pub remove_user_lem :
      (m : Metadata) (request : Request)
      → Memᴰ project w.db.projects
      → ((x y : Project) → Memᴰ x w.db.projects → Memᴰ y w.db.projects → x.id ≡ y.id → x ≡ y)
      → user_id_by_email email ≡ some user
      → project.created_by_id ≢ some user
      → in_project p w.db project.id user ≡ true
      → CacheIsCurrent p w
      → request.user ≡ some user
      → project_of request ≡ some project.id
      → (t : World p) × (remove_user p user_id_by_email project.organisation_id project.id email
            actor w
          ≡ (ok "User removed successfully", t))
        × (t.db ≡ (remove_member p project.id user w).db)
        × ((row : String × String)
            → Memᴰ row t.db.project_users
              ↔ (Memᴰ row w.db.project_users × (row ≢ (project.id, user))))
        × ((project_can_activate p m request t).0 ≢ ok true)
  remove_user_lem m request listed unique known other member current asker target =
      let (t, runs, tables, cache) =
        removal_runs (find_one-is_project_of listed unique) known other member in
      (
        t,
        runs,
        tables,
        λ row. rw tables (mem-remove_member p laws project.id user w row),
        λ let_in.
            let (someone, known_as, admitted) =
              (project_can_activate_iff p laws m request t (still_current t tables cache current)).0
                let_in in
            refused t tables (
              subst (λ (q : String). IsAdmitted p m request t.db q) (out (sym known_as ∙ asker))
                admitted),
      )
    where
      out : {a b : String} → some a ≡ some b → a ≡ b
      out e = cc

      refused :
          (t : World p)
          → t.db ≡ (remove_member p project.id user w).db
          → ¬ IsAdmitted p m request t.db user
      refused t tables =
          rw tables (
            remove_member-not-IsAdmitted p laws project user w listed unique other m request target)

module _ (p : Platform) (laws : IsLawful p) (user_id_by_email : String → Option String)
    (project : Project) (email user role_id : String) (inviter : Option String) (w : World p) where
  -- Inviting somebody of the organisation with a role that does not exist fails for want of the
  -- role, and yet the user belongs to the project from then on.
  pub invite_user-role_not_found :
      p.find_one (is_project_of project.organisation_id project.id) w.db.projects ≡ some project
      → user_id_by_email email ≡ some user
      → in_organisation p w.db project.organisation_id user ≡ true
      → in_project p w.db project.id user ≡ false
      → find_role p (id_where role_id) w.db ≡ none
      → (t : World p) × (invite_user p user_id_by_email project.organisation_id project.id email
            (some role_id)
            inviter
            w
          ≡ (err (not_found (role_not_found role_id)), t))
        × (in_project p t.db project.id user ≡ true)
  unfolding invite_user get_project_or_throw is_member is_project_member add_user in_project
      in_organisation find_one_role find_role
  invite_user-role_not_found found known inside outside missing = (
    add_member p project.id user w,
    rw (found, known, inside, outside, missing) refl,
    in_project-add_member p laws project.id user w,
  )
