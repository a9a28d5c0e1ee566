-- ===== src/Projects/Membership/Rows.antt =====
-- The table of members after a row has gone or come, and what the project guard makes of it.
use arcane_backend.Common.{
  String, Option, none, some, Bool, true, false, ◌≡◌, ◌≢◌, refl, sym, ◌∙◌, ◌↔◌, inl, inr, Memᴰ,
  ◌==◌, eq_iff, eq_false, same_id, same_id_iff,
}
use arcane_backend.Platform.{Platform, World, Project}
use arcane_backend.Platform.Laws.{IsLawful}
use arcane_backend.Projects.Membership.{remove_member, add_member}
use arcane_backend.Rbac.Guards.{Metadata, Request, project_of}
use arcane_backend.Rbac.Guards.Decisions.{in_project, is_creator}
use arcane_backend.Rbac.Guards.Outcomes.{IsAdmitted}
use arcane_backend.Rbac.Membership.{is_row}
use arcane_backend.Rbac.Membership.Laws.{is_found_iff, is_row_iff}

pub clash : {b : Bool} → b ≡ false → b ≡ true → ⊥
clash f t = cc

module _ (p : Platform) (laws : IsLawful p) (project_id user : String) (w : World p) where
  pub mem-remove_member :
      (row : String × String)
      → Memᴰ row (remove_member p project_id user w).db.project_users
        ↔ (Memᴰ row w.db.project_users × (row ≢ (project_id, user)))
  mem-remove_member row = (
    λ m.
        let (k, f) = (laws.mem_remove _ w.db.project_users row).0 m in
        (k, λ q. clash f ((is_row_iff p project_id user row).1 q)),
    λ (k, q).
        (laws.mem_remove _ w.db.project_users row).1
          (k, eq_false _ (λ t. q ((is_row_iff p project_id user row).0 t))),
  )

  in_project-remove_member :
      in_project p (remove_member p project_id user w).db project_id user ≡ false
  unfolding in_project
  in_project-remove_member = eq_false _ (λ h.
      let (row, m) =
        (is_found_iff (
            p.find (is_row p project_id user)
              (remove_member p project_id user w).db.project_users)).0
          h in
      let (k, test) =
        (laws.mem_find _ (remove_member p project_id user w).db.project_users row).0 m in
      ((mem-remove_member row).0 k).1 ((is_row_iff p project_id user row).0 test))

  pub in_project-add_member :
      in_project p (add_member p project_id user w).db project_id user ≡ true
  unfolding in_project
  in_project-add_member = (is_found_iff _).1 (
    (project_id, user),
    (laws.mem_find _ (add_member p project_id user w).db.project_users (project_id, user)).1 (
      (laws.mem_insert (project_id, user) w.db.project_users (project_id, user)).1 (inl refl),
      (is_row_iff p project_id user (project_id, user)).1 refl,
    ),
  )

-- Somebody else made the project, and its id names no other.
pub made_by_other :
    (project : Project) (user : String)
    → project.created_by_id ≢ some user
    → same_id project.created_by_id (some user) ≡ false
made_by_other project user other =
    eq_false _ (λ h.
      let (x, a, b) = (same_id_iff project.created_by_id (some user)).0 h in other (a ∙ sym b))

module _ (p : Platform) (laws : IsLawful p) (project : Project) (user : String) (w : World p)
    (listed : Memᴰ project w.db.projects)
    (unique : (x y : Project) → Memᴰ x w.db.projects → Memᴰ y w.db.projects → x.id ≡ y.id → x ≡ y)
    (other : project.created_by_id ≢ some user) where
  is_creator-made_by_other : is_creator p w.db project.id user ≡ false
  unfolding is_creator
  is_creator-made_by_other = by_found (p.find_one (λ x. x.id == project.id) w.db.projects) refl
    where
      by_found :
          (q : Option Project)
          → p.find_one (λ x. x.id == project.id) w.db.projects ≡ q
          → is_creator p w.db project.id user ≡ false
      by_found none e = rw e refl
      by_found (some found) e =
          let (m, h) = laws.find_one_some _ w.db.projects found e in
          let same = unique found project m listed ((eq_iff found.id project.id).0 h) in
          rw (e, same) (made_by_other project user other)

  pub remove_member-not-IsAdmitted :
      (m : Metadata) (request : Request)
      → project_of request ≡ some project.id
      → ¬ IsAdmitted p m request (remove_member p project.id user w).db user
  unfolding is_creator
  remove_member-not-IsAdmitted m request e (_, _, _, inl (member_now, _)) =
      clash (in_project-remove_member p laws project.id user w) (
        let h : in_project p (remove_member p project.id user w).db project.id user ≡ true =
          rw e at member_now in
        h)
  remove_member-not-IsAdmitted m request e (_, _, _, inr (_, creator_now)) =
      clash (is_creator-made_by_other) (
        let h : is_creator p (remove_member p project.id user w).db project.id user ≡ true =
          rw e at creator_now in
        h)
