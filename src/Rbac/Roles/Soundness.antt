-- ===== src/Rbac/Roles/Soundness.antt =====
-- What one request may make of the tables of roles: they stay sound, and the system roles the same.
use arcane_backend.Common.{
  String, Option, none, some, Bool, true, false, ◌==◌, List, [], ◌≡◌, refl, sym, ap, ◌⊎◌, ◌↔◌, inl,
  inr, ◌≢◌, ◌∙◌, subst, Memᴰ, eq_iff, Bool-cases,
}
use arcane_backend.Platform.{Db}
use arcane_backend.Rbac.Role.{Role, UserRole, to_entity}
use arcane_backend.Rbac.Consistency.{IsConsistent}
use arcane_backend.Rbac.Validator.Laws.{AreKnown}
use arcane_backend.Rbac.Roles.{CreateRoleRequest, UpdateRoleRequest, updated, given}
use arcane_backend.Rbac.Roles.Deletion.{IsReplaced}
use arcane_backend.Rbac.Roles.Outcomes.{IsCustom}
use arcane_backend.Rbac.Roles.Creation.{new_fields, IsCreated}

-- An update that names neither the id nor whether the role is a system role.
abbrev pub IsPlainUpdate : UpdateRoleRequest → Type 0
IsPlainUpdate dto = (dto.id ≡ none) × (dto.is_system_role ≡ none)

-- The tables are consistent, and a custom role has known permissions only.
pub record IsRoleTable (db : Db) : Type 0 where
  pub consistent : IsConsistent db
  pub permissions_known :
      (r : Role) → Memᴰ r db.roles → r.is_system_role ≡ false → AreKnown r.permissions

-- The system roles are the same, and soundness is kept.
pub record IsSafeStep (before after : Db) : Type 0 where
  pub sound : IsRoleTable after
  pub system_roles : (r : Role) → r.is_system_role ≡ true → Memᴰ r after.roles ↔ Memᴰ r before.roles

id-updated :
    (role : Role) (dto : UpdateRoleRequest) → IsPlainUpdate dto → (updated role dto).id ≡ role.id
unfolding updated
id-updated role dto (e, _) = rw e refl

system-updated :
    (role : Role) (dto : UpdateRoleRequest)
    → IsPlainUpdate dto
    → (updated role dto).is_system_role ≡ role.is_system_role
unfolding updated
system-updated role dto (_, e) = rw e refl

permissions-updated :
    (role : Role) (dto : UpdateRoleRequest)
    → (updated role dto).permissions ≡ given dto.permissions role.permissions
unfolding updated
permissions-updated role dto = refl

not_both : {b : Bool} → b ≡ true → b ≡ false → ⊥
not_both h k = cc

pub IsReplaced-IsSafeStep :
    (role : Role) (before after : Db)
    → IsRoleTable before
    → Memᴰ role before.roles
    → role.is_system_role ≡ false
    → IsReplaced role before after
    → IsSafeStep before after
IsReplaced-IsSafeStep role before after s known custom h = record {
  sound = record {
    consistent = h.consistent;
    permissions_known = λ r m. s.permissions_known r ((h.removed r).0 m).0;
  };
  system_roles = λ r system. (
    λ m. ((h.removed r).0 m).0,
    λ m. (h.removed r).1 (
      m,
      λ e. not_both system (
          subst (λ (q : Role). q.is_system_role ≡ false)
            (sym (s.consistent.unique_ids r role m known e)) custom),
    ),
  );
}

pub IsCreated-IsSafeStep :
    (o : String) (pr : Option String) (dto : CreateRoleRequest) (before : Db) (id : String)
    (after : Db)
    → IsRoleTable before
    → IsCreated o pr dto before id after
    → IsSafeStep before after
unfolding to_entity
IsCreated-IsSafeStep o pr dto before id after s h = record {
  sound = record {
    consistent = record {
      unique_ids = λ r q m k e. unique r q ((h.inserted r).0 m) ((h.inserted q).0 k) e;
      known_roles = λ x m.
          let (r, k, e) = s.consistent.known_roles x (rw h.same_assignments at m) in
          (r, (h.inserted r).1 (inr k), e);
      distinct = rw h.same_assignments s.consistent.distinct;
    };
    permissions_known = λ r m. known r ((h.inserted r).0 m);
  };
  system_roles =
      λ r system. (λ m. old r system ((h.inserted r).0 m), λ m. (h.inserted r).1 (inr m));
}
  where
    new : Role
    new = to_entity id (new_fields o pr dto)

    unique :
        (r q : Role)
        → (r ≡ new) ⊎ Memᴰ r before.roles
        → (q ≡ new) ⊎ Memᴰ q before.roles
        → r.id ≡ q.id
        → r ≡ q
    unique r q (inl a) (inl b) e = a ∙ sym b
    unique r q (inl a) (inr k) e = absurd (h.fresh q k (sym e ∙ ap (λ (y : Role). y.id) a))
    unique r q (inr m) (inl b) e = absurd (h.fresh r m (e ∙ ap (λ (y : Role). y.id) b))
    unique r q (inr m) (inr k) e = s.consistent.unique_ids r q m k e

    known :
        (r : Role)
        → (r ≡ new) ⊎ Memᴰ r before.roles
        → r.is_system_role ≡ false
        → AreKnown r.permissions
    known r (inl e) custom =
        subst (λ (y : Role). AreKnown y.permissions) (sym e) h.known_permissions
    known r (inr m) custom = s.permissions_known r m custom

    old :
        (r : Role) → r.is_system_role ≡ true → (r ≡ new) ⊎ Memᴰ r before.roles → Memᴰ r before.roles
    old r system (inl e) = absurd (not_both system (ap (λ (y : Role). y.is_system_role) e))
    old r system (inr m) = m

given-AreKnown :
    (change : Option (List String)) (old : List String)
    → AreKnown (given change [])
    → AreKnown old
    → AreKnown (given change old)
given-AreKnown none old h k = k
given-AreKnown (some new) old h k = h

module _ (o role_id : String) (dto : UpdateRoleRequest) (before after : Db) (s : IsRoleTable before)
    (role : Role) (c : IsCustom role o role_id before) (known : AreKnown (given dto.permissions []))
    (assignments : after.user_roles ≡ before.user_roles)
    (replaced : (r : Role)
      → Memᴰ r after.roles
        ↔ ((Memᴰ r before.roles × (r.id ≢ (updated role dto).id)) ⊎ (r ≡ updated role dto))) where
  abbrev IsAfter : Role → Type 0
  IsAfter r = (Memᴰ r before.roles × (r.id ≢ (updated role dto).id)) ⊎ (r ≡ updated role dto)

  id_of_new : (r : Role) → r ≡ updated role dto → r.id ≡ (updated role dto).id
  id_of_new r e = ap (λ (y : Role). y.id) e

  unique_ids : (r q : Role) → IsAfter r → IsAfter q → r.id ≡ q.id → r ≡ q
  unique_ids r q (inl (m, h)) (inl (k, g)) e = s.consistent.unique_ids r q m k e
  unique_ids r q (inl (m, h)) (inr b) e = absurd (h (e ∙ id_of_new q b))
  unique_ids r q (inr a) (inl (k, g)) e = absurd (g (sym e ∙ id_of_new r a))
  unique_ids r q (inr a) (inr b) e = a ∙ sym b

  known_role :
      (x : UserRole)
      → Memᴰ x before.user_roles
      → (r : Role) × Memᴰ r after.roles × (r.id ≡ x.role_id)
  known_role x m =
      let (r, k, e) = s.consistent.known_roles x m in
      elim (Bool-cases (r.id == (updated role dto).id)) [
        | inl same ↦ (
          updated role dto,
          (replaced (updated role dto)).1 (inr refl),
          sym ((eq_iff r.id (updated role dto).id).0 same) ∙ e,
        )
        | inr other ↦ (
          r,
          (replaced r).1
              (inl (k, λ same. not_both ((eq_iff r.id (updated role dto).id).1 same) other)),
          e,
        )
      ]

  new-AreKnown : AreKnown (updated role dto).permissions
  new-AreKnown = rw permissions-updated (
      given-AreKnown dto.permissions role.permissions known
        (s.permissions_known role c.known c.custom))

  permissions_after : (r : Role) → IsAfter r → r.is_system_role ≡ false → AreKnown r.permissions
  permissions_after r (inl (m, h)) custom = s.permissions_known r m custom
  permissions_after r (inr e) custom =
      subst (λ (y : Role). AreKnown y.permissions) (sym e) new-AreKnown

  pub IsUpdated-IsRoleTable : IsRoleTable after
  IsUpdated-IsRoleTable = record {
    consistent = record {
      unique_ids = λ r q m k. unique_ids r q ((replaced r).0 m) ((replaced q).0 k);
      known_roles = λ x m. known_role x (rw assignments at m);
      distinct = rw assignments s.consistent.distinct;
    };
    permissions_known = λ r m. permissions_after r ((replaced r).0 m);
  }

  module _ (plain : IsPlainUpdate dto) where
    new_is_custom : (r : Role) → r ≡ updated role dto → r.is_system_role ≡ false
    new_is_custom r e =
        ap (λ (y : Role). y.is_system_role) e ∙ system-updated role dto plain ∙ c.custom

    system_before : (r : Role) → r.is_system_role ≡ true → IsAfter r → Memᴰ r before.roles
    system_before r system (inl (m, h)) = m
    system_before r system (inr e) = absurd (not_both system (new_is_custom r e))

    system-IsAfter : (r : Role) → r.is_system_role ≡ true → Memᴰ r before.roles → IsAfter r
    system-IsAfter r system m = inl (
      m,
      λ e. not_both system (
          subst (λ (q : Role). q.is_system_role ≡ false)
            (sym (s.consistent.unique_ids r role m c.known (e ∙ id-updated role dto plain)))
            c.custom),
    )

    pub IsUpdated-IsSafeStep : IsSafeStep before after
    IsUpdated-IsSafeStep = record {
      sound = IsUpdated-IsRoleTable;
      system_roles = λ r system. (
        λ m. system_before r system ((replaced r).0 m),
        λ m. (replaced r).1 (system-IsAfter r system m),
      );
    }

pub IsSafeStep-same :
    (before after : Db) → IsRoleTable before → after ≡ before → IsSafeStep before after
IsSafeStep-same before after s e =
    rw e (record { sound = s; system_roles = λ r system. (λ m. m, λ m. m) })
