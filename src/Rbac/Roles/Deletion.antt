-- ===== src/Rbac/Roles/Deletion.antt =====
-- Deleting a role and giving its users another: deleteRoleWithUserReassignment of
-- rbac/services/roles.service.ts.
use mathlib.Core.List.Memᴰ
use arcane_backend.Common.{
  String, Option, none, some, Bool, true, false, ◌==◌, List, [], ◌∷◌, ◌≡◌, refl, sym, ap, ◌⊎◌, ◌↔◌,
  inl, inr, ◌≢◌, ◌∙◌, Memᴰ, ok, err, eq_iff, Bool-cases, truthy, or_empty, if◌then◌else◌, or_throw,
}
use arcane_backend.Exception.{Exception}
use arcane_backend.Platform.{Platform, Db, World, RoleWhere, transaction}
use arcane_backend.Platform.Laws.{IsLawful, Distinct}
use arcane_backend.Rbac.Role.{Role, UserRole}
use arcane_backend.Rbac.Consistency.{IsConsistent}
use arcane_backend.Rbac.DefaultRole.{find_role, project_member_where, organisation_member_where}
use arcane_backend.Rbac.DefaultRole.Laws.{
  find_role-project_member_where, find_role-organisation_member_where,
}
use arcane_backend.Rbac.Assignment.{get_user_ids_for_role}
use arcane_backend.Rbac.Assignment.Laws.{
  assignment, with_user_roles, mem-holders, remove_role_lem, assign_role_lem,
}
use arcane_backend.Rbac.Roles.{
  reassign, find_replacement, remove_role_row, delete_reassigning,
  delete_role_with_user_reassignment,
}

-- What a deletion leaves: the role and its assignments are gone, each of its users has a system role
-- in its place, all else is there.
pub record IsReplaced (role : Role) (before after : Db) : Type 0 where
  pub removed : (r : Role) → Memᴰ r after.roles ↔ (Memᴰ r before.roles × (r.id ≢ role.id))
  pub unassigned : (x : UserRole) → Memᴰ x after.user_roles → x.role_id ≢ role.id
  pub reassigned :
      (u : String)
      → Memᴰ (assignment u role.id) before.user_roles
      → (d : Role) × Memᴰ d after.roles
        × (d.is_system_role ≡ true)
        × Memᴰ (assignment u d.id) after.user_roles
  pub kept :
      (x : UserRole) → Memᴰ x before.user_roles → x.role_id ≢ role.id → Memᴰ x after.user_roles
  pub consistent : IsConsistent after

-- The role that takes the place of a deleted one, as the service looks it up.
abbrev pub replacement_where : String → Option String → RoleWhere
replacement_where o pr =
    if truthy pr then project_member_where o (or_empty pr) else organisation_member_where o

-- Somebody has the role, and there is no role to give in its place.
abbrev pub HasNoReplacement : (p : Platform) → Role → String → Option String → Db → Type 0
HasNoReplacement p role o pr db =
    ((u : String) × Memᴰ (assignment u role.id) db.user_roles)
    × (find_role p (replacement_where o pr) db ≡ none)

-- A role of the table that may take the place of another.
abbrev IsDefault : Db → Role → Type 0
IsDefault db d = Memᴰ d db.roles × (d.is_system_role ≡ true)

is_false : (b : Bool) → ¬ (b ≡ true) → b ≡ false
is_false true h = absurd (h refl)
is_false false h = refl

-- The role to delete: a row of consistent tables, and no system role.
record IsDeletable (role : Role) (db : Db) : Type 0 where
  consistent : IsConsistent db
  known : Memᴰ role db.roles
  custom : role.is_system_role ≡ false

default-ne : (role d : Role) (db : Db) → IsDeletable role db → IsDefault db d → d.id ≢ role.id
default-ne role d db c h e =
    let same : d ≡ role = c.consistent.unique_ids d role h.0 c.known e in
    let t : d.is_system_role ≡ role.is_system_role = ap (λ (r : Role). r.is_system_role) same in
    let u = h.1 in let v = c.custom in cc

module _ (p : Platform) (laws : IsLawful p) where
  -- The loop of the transaction always returns.
  pub reassign_lem :
      (users : List String) (role_id : String) (role : Role) (w : World p)
      → Memᴰ role w.db.roles
      → role_id ≢ role.id
      → (rows : List UserRole) × (cache : p.Cache) × (reassign p users role_id role.id w
          ≡ (ok tt, with_user_roles p w rows cache))
        × ((x : UserRole) → Memᴰ x rows → Memᴰ x w.db.user_roles ⊎ (x.role_id ≡ role.id))
        × ((x : UserRole) → Memᴰ x w.db.user_roles → x.role_id ≢ role_id → Memᴰ x rows)
        × ((u : String) → Memᴰ u users → Memᴰ (assignment u role.id) rows)
        × (Distinct w.db.user_roles → Distinct rows)
  unfolding reassign
  reassign_lem [] role_id role w known other =
      (w.db.user_roles, w.cache, refl, λ x m. inl m, λ x m h. m, λ u m. elim m [ ], λ d. d)
  reassign_lem (user ∷ users) role_id role w known other =
      let (rows₁, cache₁, e₁, removed, d₁) = remove_role_lem p laws user role_id true w in
      let (rows₂, cache₂, e₂, assigned, d₂) =
        assign_role_lem p laws user role true (with_user_roles p w rows₁ cache₁) known in
      let (rows₃, cache₃, e₃, sound, kept, given, d₃) =
        reassign_lem users role_id role (with_user_roles p w rows₂ cache₂) known other in
      (
        rows₃,
        cache₃,
        rw (e₁, e₂) e₃,
        λ x m. back x (sound x m) (λ k. (assigned x).0 k) (λ k. ((removed x).0 k).0),
        λ x m h.
            kept x
              ((assigned x).1
                (inr ((removed x).1 (m, λ same. h (ap (λ (y : UserRole). y.role_id) same)))))
              h,
        λ u m.
            reach u m
              (kept (assignment user role.id) ((assigned (assignment user role.id)).1 (inl refl))
                (λ same. other (sym same)))
              given,
        λ d. d₃ (d₂ (d₁ d)),
      )
    where
      back :
          {rows₁ rows₂ : List UserRole} (x : UserRole)
          → Memᴰ x rows₂ ⊎ (x.role_id ≡ role.id)
          → (Memᴰ x rows₂ → (x ≡ assignment user role.id) ⊎ Memᴰ x rows₁)
          → (Memᴰ x rows₁ → Memᴰ x w.db.user_roles)
          → Memᴰ x w.db.user_roles ⊎ (x.role_id ≡ role.id)
      back x (inr e) f g = inr e
      back {rows₁} x (inl m) f g = elim (f m) [
        | inl e ↦ inr (ap (λ (y : UserRole). y.role_id) e)
        | inr k ↦ inl (g k)
      ]

      reach :
          {rows : List UserRole} (u : String)
          → Memᴰ u (user ∷ users)
          → Memᴰ (assignment user role.id) rows
          → ((v : String) → Memᴰ v users → Memᴰ (assignment v role.id) rows)
          → Memᴰ (assignment u role.id) rows
      reach u (Memᴰ.head e) m f = rw e m
      reach u (Memᴰ.tail k) m f = f u k

  abbrev without_role : Role → Db → Db
  without_role role db = record db {
    roles = p.remove (λ r. r.id == role.id) db.roles;
    user_roles = p.remove (λ x. x.role_id == role.id) db.user_roles;
  }

  -- What the loop has made of the assignments when the role is removed.
  abbrev IsReassigned : Role → Db → List UserRole → Type 0
  IsReassigned role db rows =
      ((x : UserRole)
        → Memᴰ x rows
        → Memᴰ x db.user_roles ⊎ ((d : Role) × IsDefault db d × (x.role_id ≡ d.id)))
      × ((x : UserRole) → Memᴰ x db.user_roles → x.role_id ≢ role.id → Memᴰ x rows)
      × ((u : String)
          → Memᴰ (assignment u role.id) db.user_roles
          → (d : Role) × IsDefault db d × Memᴰ (assignment u d.id) rows)
      × Distinct rows

  without_role-IsReplaced :
      (role : Role) (db : Db) (rows : List UserRole)
      → IsDeletable role db
      → IsReassigned role db rows
      → IsReplaced role db (without_role role (record db { user_roles = rows }))
  without_role-IsReplaced role db rows c (sound, kept, given, distinct) = record {
    removed = mem_roles;
    unassigned = λ x m same.
        let (k, f) = (laws.mem_remove _ rows x).0 m in
        let t = (eq_iff x.role_id role.id).1 same in cc;
    reassigned = λ u m.
        let (d, h, k) = given u m in
        (
          d,
          (mem_roles d).1 (h.0, default-ne role d db c h),
          h.1,
          stays (assignment u d.id) k (default-ne role d db c h),
        );
    kept = λ x m h. stays x (kept x m h) h;
    consistent = record {
      unique_ids =
          λ r s m k e. c.consistent.unique_ids r s ((mem_roles r).0 m).0 ((mem_roles s).0 k).0 e;
      known_roles =
          λ x m. let (k, f) = (laws.mem_remove _ rows x).0 m in known_role x (sound x k) f;
      distinct = laws.remove_Distinct _ rows distinct;
    };
  }
    where
      mem_roles :
          (r : Role)
          → Memᴰ r (p.remove (λ q. q.id == role.id) db.roles) ↔ (Memᴰ r db.roles × (r.id ≢ role.id))
      mem_roles r = (
        λ m.
            let (k, f) = (laws.mem_remove _ db.roles r).0 m in
            (k, λ e. let t = (eq_iff r.id role.id).1 e in cc),
        λ h.
            (laws.mem_remove _ db.roles r).1
              (h.0, is_false _ (λ t. h.1 ((eq_iff r.id role.id).0 t))),
      )

      stays :
          (x : UserRole)
          → Memᴰ x rows
          → x.role_id ≢ role.id
          → Memᴰ x (p.remove (λ y. y.role_id == role.id) rows)
      stays x m h =
          (laws.mem_remove _ rows x).1 (m, is_false _ (λ t. h ((eq_iff x.role_id role.id).0 t)))

      known_role :
          (x : UserRole)
          → Memᴰ x db.user_roles ⊎ ((d : Role) × IsDefault db d × (x.role_id ≡ d.id))
          → (x.role_id == role.id) ≡ false
          → (r : Role) × Memᴰ r (p.remove (λ q. q.id == role.id) db.roles) × (r.id ≡ x.role_id)
      known_role x (inl m) f =
          let (r, k, e) = c.consistent.known_roles x m in
          (
            r,
            (mem_roles r).1 (k, λ same. let t = (eq_iff x.role_id role.id).1 (sym e ∙ same) in cc),
            e,
          )
      known_role x (inr (d, h, e)) f = (d, (mem_roles d).1 (h.0, default-ne role d db c h), sym e)

  organisation_replacement :
      (o : String) (w : World p) (q : Option Role) (failure : Exception)
      → find_role p (organisation_member_where o) w.db ≡ q
      → ((d : Role) × IsDefault w.db d × (or_throw q failure w ≡ (ok d, w)))
        ⊎ ((e : Exception) × (or_throw q failure w ≡ (err e, w))
            × (find_role p (organisation_member_where o) w.db ≡ none))
  organisation_replacement o w none failure e = inr (failure, refl, e)
  organisation_replacement o w (some d) failure e =
      let h = find_role-organisation_member_where p laws w.db o d e in
      inl (d, (h.known, h.system), refl)

  project_replacement :
      (o r : String) (w : World p) (q : Option Role) (failure : Exception)
      → find_role p (project_member_where o r) w.db ≡ q
      → ((d : Role) × IsDefault w.db d × (or_throw q failure w ≡ (ok d, w)))
        ⊎ ((e : Exception) × (or_throw q failure w ≡ (err e, w))
            × (find_role p (project_member_where o r) w.db ≡ none))
  project_replacement o r w none failure e = inr (failure, refl, e)
  project_replacement o r w (some d) failure e =
      let h = (find_role-project_member_where p laws w.db o d r e).0 in
      inl (d, (h.known, h.system), refl)

  -- The replacement is a system role of the table, or there is none and nothing has changed.
  find_replacement_lem :
      (o : String) (pr : Option String) (w : World p)
      → ((d : Role) × IsDefault w.db d × (find_replacement p o pr w ≡ (ok d, w)))
        ⊎ ((e : Exception) × (find_replacement p o pr w ≡ (err e, w))
            × (find_role p (replacement_where o pr) w.db ≡ none))
  unfolding find_replacement
  find_replacement_lem o none w = organisation_replacement o w _ _ refl
  find_replacement_lem o (some r) w = elim (Bool-cases (r == "")) [
    | inl empty ↦ rw empty (organisation_replacement o w _ _ refl)
    | inr named ↦ rw named (project_replacement o r w _ _ refl)
  ]

  -- The deletion ends in one of two ways: an exception with the tables as they were, or the role
  -- replaced.
  delete_reassigning_lem :
      (role : Role) (o : String) (pr : Option String) (users : List String) (w : World p)
      → IsDeletable role w.db
      → ((u : String) → Memᴰ (assignment u role.id) w.db.user_roles ↔ Memᴰ u users)
      → ((t : World p) × (delete_reassigning p role o pr users w ≡ (ok tt, t))
          × IsReplaced role w.db t.db)
        ⊎ ((e : Exception) × (delete_reassigning p role o pr users w ≡ (err e, w))
            × HasNoReplacement p role o pr w.db)
  unfolding delete_reassigning transaction remove_role_row
  delete_reassigning_lem role o pr [] w c all = inl (
    record w { db = without_role role w.db },
    refl,
    without_role-IsReplaced role w.db w.db.user_roles c (
      λ x m. inl m,
      λ x m h. m,
      λ u m. absurd (Memᴰ.not-nil ((all u).0 m)),
      c.consistent.distinct,
    ),
  )
  delete_reassigning_lem role o pr (user ∷ users) w c all = elim (find_replacement_lem o pr w) [
    | inr (e, failed, missing) ↦
        inr (e, rw failed refl, ((user, (all user).1 (Memᴰ.head refl)), missing))
    | inl (d, h, found) ↦
        let (rows, cache, e, sound, kept, given, distinct) =
          reassign_lem (user ∷ users) role.id d w h.0
            (λ same. default-ne role d w.db c h (sym same)) in
        inl (
          record w { db = without_role role (record (w.db) { user_roles = rows }); cache = cache },
          rw (found, e) refl,
          without_role-IsReplaced role w.db rows c (
            λ x m. from d h (sound x m),
            kept,
            λ u m. (d, h, given u ((all u).0 m)),
            distinct c.consistent.distinct,
          ),
        )
  ]
    where
      from :
          {x : UserRole} (d : Role)
          → IsDefault w.db d
          → Memᴰ x w.db.user_roles ⊎ (x.role_id ≡ d.id)
          → Memᴰ x w.db.user_roles ⊎ ((d : Role) × IsDefault w.db d × (x.role_id ≡ d.id))
      from d h (inl m) = inl m
      from d h (inr e) = inr (d, h, e)

  -- Deleting a custom role of consistent tables replaces it, or fails and leaves everything as it was
  -- because somebody has the role and there is no role to give in its place.
  pub delete_role_with_user_reassignment_lem :
      (role : Role) (o : String) (pr : Option String) (w : World p)
      → IsConsistent w.db
      → Memᴰ role w.db.roles
      → role.is_system_role ≡ false
      → ((t : World p) × (delete_role_with_user_reassignment p role o pr w ≡ (ok tt, t))
          × IsReplaced role w.db t.db)
        ⊎ ((e : Exception) × (delete_role_with_user_reassignment p role o pr w ≡ (err e, w))
            × HasNoReplacement p role o pr w.db)
  unfolding delete_role_with_user_reassignment get_user_ids_for_role
  delete_role_with_user_reassignment_lem role o pr w c known custom =
      delete_reassigning_lem role o pr _ w
        (record { consistent = c; known = known; custom = custom })
        (mem-holders p laws role.id w.db)
