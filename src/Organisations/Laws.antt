-- ===== src/Organisations/Laws.antt =====
-- Giving a user another role in an organisation: what becomes of the assignments.
use arcane_backend.Common.{
  String, Option, none, some, Bool, ◌==◌, ◌≡◌, refl, sym, ap, ◌⊎◌, ◌↔◌, inl, inr, ◌≢◌, Memᴰ, ok,
  true, eq_iff, Bool-cases, ◌∙◌, List,
}
use arcane_backend.Platform.{Platform, Db, World}
use arcane_backend.Platform.Laws.{IsLawful}
use arcane_backend.Platform.Audit.{record_audit_lem}
use arcane_backend.Rbac.Role.{Role, UserRole}
use arcane_backend.Rbac.Current.{
  CacheIsCurrent, organisation_role, Answers-get_user_organisation_role,
}
use arcane_backend.Rbac.Reads.{Reads-get_user_organisation_role}
use arcane_backend.Rbac.Assignment.{is_assignment}
use arcane_backend.Rbac.Assignment.Laws.{
  assignment, with_user_roles, is_assignment_iff, assign_role_lem, remove_role_lem,
}
use arcane_backend.Organisations.{organisation_role_event, remove_other, assign_organisation_role}

module _ (p : Platform) (laws : IsLawful p) (o user : String) (role : Role) (b : Bool)
    (w : World p) where
  -- The assignment of the role that the user had in the organisation.
  abbrev pub IsOldAssignment : UserRole → Type 0
  IsOldAssignment x =
      (old : Role) × (organisation_role p w.db o user ≡ some old) × (x ≡ assignment user old.id)

  remove_other_lem :
      (cache : p.Cache)
      → (rows : List UserRole) × (cache' : p.Cache) × (remove_other p user role.id b
            (organisation_role p w.db o user)
            (record w { cache = cache })
          ≡ (ok tt, with_user_roles p w rows cache'))
        × ((x : UserRole)
            → ((x ≡ assignment user role.id) ⊎ Memᴰ x rows)
              ↔ ((x ≡ assignment user role.id) ⊎ (Memᴰ x w.db.user_roles × (¬ IsOldAssignment x))))
  remove_other_lem cache = go (organisation_role p w.db o user) refl
    where
      Goal : Option Role → Type 0
      Goal q =
          (rows : List UserRole) × (cache' : p.Cache) × (remove_other p user role.id b q
              (record w { cache = cache })
            ≡ (ok tt, with_user_roles p w rows cache'))
          × ((x : UserRole)
              → ((x ≡ assignment user role.id) ⊎ Memᴰ x rows) ↔ (
                  (x ≡ assignment user role.id) ⊎ (Memᴰ x w.db.user_roles × (¬ IsOldAssignment x))))

      go : (q : Option Role) → organisation_role p w.db o user ≡ q → Goal q
      go none e = (w.db.user_roles, cache, refl, λ x. (to x, from x))
        where
          to :
              (x : UserRole)
              → (x ≡ assignment user role.id) ⊎ Memᴰ x w.db.user_roles
              → (x ≡ assignment user role.id) ⊎ (Memᴰ x w.db.user_roles × (¬ IsOldAssignment x))
          to x (inl h) = inl h
          to x (inr m) = inr (m, λ (old, f, _). let g = sym e ∙ f in cc)

          from :
              (x : UserRole)
              → (x ≡ assignment user role.id) ⊎ (Memᴰ x w.db.user_roles × (¬ IsOldAssignment x))
              → (x ≡ assignment user role.id) ⊎ Memᴰ x w.db.user_roles
          from x (inl h) = inl h
          from x (inr h) = inr h.0
      go (some old) e = elim (Bool-cases (old.id == role.id)) [
        | inl same ↦ (w.db.user_roles, cache, rw same refl, λ x. (kept x same, dropped x))
        | inr other ↦
            let (rows, cache', run, members, _) =
              remove_role_lem p laws user old.id b (record w { cache = cache }) in
            (
              rows,
              cache',
              rw other run,
              λ x. (
                without x (λ m. (members x).0 m),
                with_new x (λ h. (members x).1 (h.0, λ eq. h.1 (old, e, eq))),
              ),
            )
      ]
        where
          is_old : (x : UserRole) → IsOldAssignment x → x ≡ assignment user old.id
          is_old x (other, f, h) =
              let same : other ≡ old = some_injective (sym f ∙ e) in
              h ∙ ap (λ (r : Role). assignment user r.id) same
            where
              some_injective : {r s : Role} → some r ≡ some s → r ≡ s
              some_injective q = cc

          kept :
              (x : UserRole)
              → (old.id == role.id) ≡ true
              → (x ≡ assignment user role.id) ⊎ Memᴰ x w.db.user_roles
              → (x ≡ assignment user role.id) ⊎ (Memᴰ x w.db.user_roles × (¬ IsOldAssignment x))
          kept x same (inl h) = inl h
          kept x same (inr m) = elim (Bool-cases (is_assignment user role.id x)) [
            | inl t ↦ inl ((is_assignment_iff user role.id x).0 t)
            | inr f ↦ inr (
              m,
              λ h.
                  let t =
                    (is_assignment_iff user role.id x).1
                      (is_old x h ∙ ap (assignment user) ((eq_iff old.id role.id).0 same)) in
                  cc,
            )
          ]

          dropped :
              (x : UserRole)
              → (x ≡ assignment user role.id) ⊎ (Memᴰ x w.db.user_roles × (¬ IsOldAssignment x))
              → (x ≡ assignment user role.id) ⊎ Memᴰ x w.db.user_roles
          dropped x (inl h) = inl h
          dropped x (inr h) = inr h.0

          without :
              {rows : List UserRole} (x : UserRole)
              → (Memᴰ x rows → Memᴰ x w.db.user_roles × (x ≢ assignment user old.id))
              → (x ≡ assignment user role.id) ⊎ Memᴰ x rows
              → (x ≡ assignment user role.id) ⊎ (Memᴰ x w.db.user_roles × (¬ IsOldAssignment x))
          without x f (inl h) = inl h
          without x f (inr m) = inr ((f m).0, λ h. (f m).1 (is_old x h))

          with_new :
              {rows : List UserRole} (x : UserRole)
              → (Memᴰ x w.db.user_roles × (¬ IsOldAssignment x) → Memᴰ x rows)
              → (x ≡ assignment user role.id) ⊎ (Memᴰ x w.db.user_roles × (¬ IsOldAssignment x))
              → (x ≡ assignment user role.id) ⊎ Memᴰ x rows
          with_new x f (inl h) = inl h
          with_new x f (inr h) = inr (f h)

  -- The tables after giving a user a role differ from those before in the assignments alone.
  pub assign_organisation_role-tables :
      CacheIsCurrent p w
      → Memᴰ role w.db.roles
      → (t : World p) × (rows : List UserRole) × (assign_organisation_role p o user role.id b w
          ≡ (ok tt, t))
        × (t.db ≡ record (w.db) { user_roles = rows })
        × ((x : UserRole)
            → Memᴰ x rows
              ↔ ((x ≡ assignment user role.id) ⊎ (Memᴰ x w.db.user_roles × (¬ IsOldAssignment x))))
  unfolding assign_organisation_role
  assign_organisation_role-tables current known =
      let (cache₁, e₁, _) = (Answers-get_user_organisation_role p laws o user).at w current in
      let (rows₂, cache₂, e₂, members₂) = remove_other_lem cache₁ in
      let (rows₃, cache₃, e₃, members₃, _) =
        assign_role_lem p laws user role b (with_user_roles p w rows₂ cache₂) known in
      let (new_role, cache₄, e₄) =
        (Reads-get_user_organisation_role p o user).at (with_user_roles p w rows₃ cache₃) in
      let (t, recorded, same, _) =
        record_audit_lem p
          (organisation_role_event o user role.id (organisation_role p w.db o user) new_role)
          (with_user_roles p w rows₃ cache₄) in
      (
        t,
        rows₃,
        rw (e₁, e₂, e₃, e₄) recorded,
        same,
        λ x. (λ m. (members₂ x).0 ((members₃ x).0 m), λ h. (members₃ x).1 ((members₂ x).1 h)),
      )

  -- From a current cache, giving a user a role that exists returns. The user then has that role, has
  -- lost the role of the organisation that was there before, and all other assignments are as they
  -- were; the roles are the same.
  pub assign_organisation_role_lem :
      CacheIsCurrent p w
      → Memᴰ role w.db.roles
      → (t : World p) × (assign_organisation_role p o user role.id b w ≡ (ok tt, t))
        × (t.db.roles ≡ w.db.roles)
        × ((x : UserRole)
            → Memᴰ x t.db.user_roles
              ↔ ((x ≡ assignment user role.id) ⊎ (Memᴰ x w.db.user_roles × (¬ IsOldAssignment x))))
  assign_organisation_role_lem current known =
      let (t, rows, run, same, members) = assign_organisation_role-tables current known in
      (t, run, ap (λ (d : Db). d.roles) same, λ x. rw same (members x))
