-- ===== src/Rbac/Roles/Outcomes.antt =====
-- How deleting a role ends, and what it has then made of the tables.
use arcane_backend.Common.{
  String, Option, none, some, true, false, ◌≡◌, refl, ap, ◌⊎◌, inl, inr, ◌≢◌, Memᴰ, Result, ok, err,
  eq_iff, Bool-cases, is_null, same_id,
}
use arcane_backend.Exception.{
  Exception, not_found, forbidden, role_not_found, cannot_delete_system_roles,
  cannot_delete_global_roles, role_does_not_belong_to_organisation, role_does_not_belong_to_project,
}
use arcane_backend.Platform.{Platform, Db, World, role_state}
use arcane_backend.Platform.Laws.{IsLawful}
use arcane_backend.Platform.Audit.{record_audit_lem}
use arcane_backend.Rbac.Role.{Role}
use arcane_backend.Rbac.Consistency.{IsConsistent}
use arcane_backend.Rbac.DefaultRole.{find_role}
use arcane_backend.Rbac.Assignment.{id_where}
use arcane_backend.Rbac.Assignment.Laws.{find_role-id_where, find_role-id_where-none}
use arcane_backend.Rbac.Roles.{delete, is_elsewhere, role_event}
use arcane_backend.Rbac.Roles.Deletion.{
  IsReplaced, HasNoReplacement, delete_role_with_user_reassignment_lem,
}

pub same_id-some : (a : Option String) (s : String) → same_id a (some s) ≡ true → a ≡ some s
same_id-some none s h = absurd (cc)
same_id-some (some a) s h = ap some ((eq_iff a s).0 h)

-- A role that a request of the organisation may change.
pub record IsCustom (role : Role) (organisation_id role_id : String) (db : Db) : Type 0 where
  pub known : Memᴰ role db.roles
  pub named : role.id ≡ role_id
  pub custom : role.is_system_role ≡ false
  pub owned : role.organisation_id ≡ some organisation_id

-- What keeps a role of the organisation from being changed: there is none with the id, or it is a
-- system role, is the role of another organisation, or is asked for in another project.
abbrev pub IsOutOfReach : (p : Platform) → String → String → Option String → Db → Type 0
IsOutOfReach p o role_id pr db =
    ((r : Role) → Memᴰ r db.roles → r.id ≢ role_id)
    ⊎ ((r : Role) × Memᴰ r db.roles
        × (r.id ≡ role_id)
        × ((r.is_system_role ≡ true) ⊎ (r.organisation_id ≢ some o) ⊎ (is_elsewhere p r pr ≡ true)))

pub not_same_id : (a : Option String) (s : String) → same_id a (some s) ≡ false → a ≢ some s
not_same_id a s h e = let t : same_id a (some s) ≡ true = rw e ((eq_iff s s).1 refl) in cc

module _ (p : Platform) where
  -- The action threw, the tables are as they were, and there is a reason.
  abbrev pub FailsCleanly : {A : Type 0} → Result A × World p → World p → Type 0 → Type 0
  FailsCleanly {A} r w Reason =
      (e : Exception) × (t : World p) × (r ≡ (err e, t)) × (t.db ≡ w.db) × Reason

  -- How a deletion ends: it fails with the tables as they were, because the role is out of reach or
  -- has users and no role to give them in its place, or it replaces the role.
  abbrev pub DeletionEnds : String → String → String → Option String → World p → Type 0
  DeletionEnds o role_id actor pr w =
      FailsCleanly (delete p o role_id actor pr w) w (
        IsOutOfReach p o role_id pr w.db
        ⊎ ((r : Role) × IsCustom r o role_id w.db × HasNoReplacement p r o pr w.db))
      ⊎ ((role : Role) × IsCustom role o role_id w.db
          × (is_elsewhere p role pr ≡ false)
          × ((t : World p) × (delete p o role_id actor pr w ≡ (ok tt, t))
              × IsReplaced role w.db t.db))

module _ (p : Platform) (laws : IsLawful p) where
  -- From consistent tables, deleting a role either returns and has replaced a custom role of the
  -- organisation, or throws with the tables as they were, and then the role is out of reach, or
  -- somebody has it and there is no role to give in its place.
  pub delete_lem :
      (o role_id actor : String) (pr : Option String) (w : World p)
      → IsConsistent w.db
      → DeletionEnds p o role_id actor pr w
  unfolding delete
  delete_lem o role_id actor pr w c = go (find_role p (id_where role_id) w.db) refl
    where
      Ending : Type 0
      Ending = DeletionEnds p o role_id actor pr w

      stop :
          (x : Exception)
          → delete p o role_id actor pr w ≡ (err x, w)
          → IsOutOfReach p o role_id pr w.db
          → Ending
      stop x e why = inl (x, w, e, refl, inl why)

      go : (q : Option Role) → find_role p (id_where role_id) w.db ≡ q → Ending
      go none e =
          stop (not_found (role_not_found role_id)) (rw e refl)
            (inl (find_role-id_where-none p laws w.db role_id e))
      go (some role) e =
          let (m, named) = find_role-id_where p laws w.db role_id role e in
          elim (Bool-cases role.is_system_role) [
            | inl system ↦
                stop (forbidden cannot_delete_system_roles) (simp (e, system) refl)
                  (inr (role, m, named, inl system))
            | inr custom ↦ elim (Bool-cases (is_null role.organisation_id)) [
              | inl global ↦
                  stop (forbidden cannot_delete_global_roles) (simp (e, custom, global) refl)
                    (inr (role, m, named, inr (inl (not_null role.organisation_id o global))))
              | inr scoped ↦ elim (Bool-cases (same_id role.organisation_id (some o))) [
                | inr foreign ↦
                    stop (forbidden role_does_not_belong_to_organisation)
                      (simp (e, custom, scoped, foreign) refl)
                      (inr (role, m, named, inr (inl (not_same_id role.organisation_id o foreign))))
                | inl own ↦ elim (Bool-cases (is_elsewhere p role pr)) [
                  | inl elsewhere ↦
                      stop (forbidden role_does_not_belong_to_project)
                        (simp (e, custom, scoped, own, elsewhere) refl)
                        (inr (role, m, named, inr (inr elsewhere)))
                  | inr here ↦ finish role e scoped own here (record {
                    known = m;
                    named = named;
                    custom = custom;
                    owned = same_id-some role.organisation_id o own;
                  })
                ]
              ]
            ]
          ]
        where
          not_null : (a : Option String) (s : String) → is_null a ≡ true → a ≢ some s
          not_null a s h e = let t : is_null a ≡ false = rw e refl in cc

          finish :
              (role : Role)
              → find_role p (id_where role_id) w.db ≡ some role
              → is_null role.organisation_id ≡ false
              → same_id role.organisation_id (some o) ≡ true
              → is_elsewhere p role pr ≡ false
              → IsCustom role o role_id w.db
              → Ending
          finish role e scoped own here k =
              let custom = k.custom in
              elim (delete_role_with_user_reassignment_lem p laws role o pr w c k.known k.custom) [
                | inr (x, failed, why) ↦ inl (
                  x,
                  w,
                  simp (e, custom, scoped, own, here, failed) refl,
                  refl,
                  inr (role, k, why),
                )
                | inl (u, done, replaced) ↦
                    let (t, recorded, same, _) =
                      record_audit_lem p
                        (role_event "role.deleted" actor role_id role.organisation_id
                          role.project_id (some (role_state role)) none)
                        u in
                    inr (
                      role,
                      k,
                      here,
                      (t, simp (e, custom, scoped, own, here, done) recorded, rw same replaced),
                    )
              ]
