-- ===== src/Rbac/Roles/Changes.antt =====
-- How updating a role ends, and what it has then made of the table.
use arcane_backend.Common.{
  String, Option, none, some, Bool, true, false, ◌==◌, List, [], ◌≡◌, refl, ap, ◌⊎◌, ◌↔◌, inl, inr,
  ◌≢◌, Memᴰ, ok, err, eq_iff, Bool-cases, same_id,
}
use arcane_backend.Exception.{
  Exception, not_found, forbidden, bad_request, role_not_found, cannot_update_system_roles,
  role_does_not_belong_to_organisation, role_does_not_belong_to_project, invalid_permission,
}
use arcane_backend.Platform.{Platform, Db, World, role_state, record_audit}
use arcane_backend.Platform.Laws.{IsLawful}
use arcane_backend.Platform.Audit.{record_audit_lem}
use arcane_backend.Rbac.Role.{Role, RoleResponseDto, to_dto}
use arcane_backend.Rbac.DefaultRole.{find_role}
use arcane_backend.Rbac.Assignment.{id_where}
use arcane_backend.Rbac.Assignment.Laws.{find_role-id_where, find_role-id_where-none}
use arcane_backend.Rbac.Validator.Laws.{AreKnown, validate_permissions_lem}
use arcane_backend.Rbac.Roles.{
  UpdateRoleRequest, updated, update, saved_roles, put_role, is_elsewhere, role_event,
  validate_given, given,
}
use arcane_backend.Rbac.Roles.Outcomes.{
  IsCustom, IsOutOfReach, FailsCleanly, same_id-some, not_same_id,
}

module _ (p : Platform) where
  -- A custom role of the organisation has been changed by the fields of the request, whose permissions
  -- are known, and is the one row with its id, which the request may name; the answer shows it.
  abbrev pub IsUpdated :
      String → String → UpdateRoleRequest → Option String → Db → RoleResponseDto → Db → Type 0
  IsUpdated o role_id dto pr before answer after =
      (role : Role) × IsCustom role o role_id before
      × (is_elsewhere p role pr ≡ false)
      × (answer ≡ to_dto (updated role dto))
      × (AreKnown (given dto.permissions []))
      × (after.user_roles ≡ before.user_roles)
      × ((r : Role)
          → Memᴰ r after.roles
            ↔ ((Memᴰ r before.roles × (r.id ≢ (updated role dto).id)) ⊎ (r ≡ updated role dto)))

  abbrev pub UpdateEnds :
      String → String → String → UpdateRoleRequest → Option String → World p → Type 0
  UpdateEnds o role_id actor dto pr w =
      FailsCleanly p (update p o role_id dto actor pr w) w
        (IsOutOfReach p o role_id pr w.db ⊎ ¬ AreKnown (given dto.permissions []))
      ⊎ ((answer : RoleResponseDto) × (t : World p) × (update p o role_id dto actor pr w
            ≡ (ok answer, t))
          × IsUpdated o role_id dto pr w.db answer t.db)

module _ (p : Platform) (laws : IsLawful p) where
  -- A role that is saved is the one row with its id.
  mem-saved_roles :
      (new : Role) (rows : List Role) (r : Role)
      → Memᴰ r (saved_roles p new rows) ↔ ((Memᴰ r rows × (r.id ≢ new.id)) ⊎ (r ≡ new))
  mem-saved_roles new rows r = by_row (p.find_one test rows) refl
    where
      test : Role → Bool
      test q = q.id == new.id

      is_false : (b : Bool) → ¬ (b ≡ true) → b ≡ false
      is_false true h = absurd (h refl)
      is_false false h = refl

      differs : test r ≡ false → r.id ≢ new.id
      differs f e = let t = (eq_iff r.id new.id).1 e in cc

      by_row :
          (q : Option Role)
          → p.find_one test rows ≡ q
          → Memᴰ r (put_role p new rows q) ↔ ((Memᴰ r rows × (r.id ≢ new.id)) ⊎ (r ≡ new))
      by_row none e = (
        λ m. elim ((laws.mem_insert new rows r).0 m) [
          | inl same ↦ inr same
          | inr k ↦ inl (k, differs (laws.find_one_none test rows r e k))
        ],
        λ h. (laws.mem_insert new rows r).1 (elim h [ inl (k, _) ↦ inr k | inr same ↦ inl same ]),
      )
      by_row (some z) e = (
        λ m. elim ((laws.mem_replace test new rows r).0 m) [
          | inl (k, f) ↦ inl (k, differs f)
          | inr (same, _) ↦ inr same
        ],
        λ h. (laws.mem_replace test new rows r).1 (elim h [
          | inl (k, other) ↦ inl (k, is_false _ (λ t. other ((eq_iff r.id new.id).0 t)))
          | inr same ↦ let (k, t) = laws.find_one_some test rows z e in inr (same, (z, k, t))
        ]),
      )

  validate_given_lem :
      (permissions : Option (List String)) (w : World p)
      → ((validate_given p permissions w ≡ (ok tt, w)) × AreKnown (given permissions []))
        ⊎ ((x : Exception) × (validate_given p permissions w ≡ (err x, w))
            × (¬ AreKnown (given permissions [])))
  validate_given_lem none w = inl (refl, λ x m. elim m [ ])
  validate_given_lem (some permissions) w = elim (validate_permissions_lem p permissions w) [
    | inl (e, known) ↦ inl (e, known)
    | inr (x, m, unknown, e) ↦
        inr (bad_request (invalid_permission x), e, λ known. unknown (known x m))
  ]

  -- Updating a role either returns and has put, in place of the row with the id of the new role, if
  -- there is one, a custom role of the organisation changed by all fields of the request, its id
  -- included, and no other row has changed; or it throws with the tables as they were, and then the
  -- role is out of reach or the request has an unknown permission.
  pub update_lem :
      (o role_id actor : String) (dto : UpdateRoleRequest) (pr : Option String) (w : World p)
      → UpdateEnds p o role_id actor dto pr w
  unfolding update
  update_lem o role_id actor dto pr w = go (find_role p (id_where role_id) w.db) refl
    where
      Ending : Type 0
      Ending = UpdateEnds p o role_id actor dto pr w

      Unreachable : Type 0
      Unreachable = IsOutOfReach p o role_id pr w.db

      stop : (x : Exception) → update p o role_id dto actor pr w ≡ (err x, w) → Unreachable → Ending
      stop x e why = inl (x, w, e, refl, inl why)

      saved : Role → World p
      saved role = record w {
        db = record (w.db) { roles = saved_roles p (updated role dto) w.db.roles };
      }

      finish :
          (role : Role)
          → IsCustom role o role_id w.db
          → is_elsewhere p role pr ≡ false
          → AreKnown (given dto.permissions [])
          → ((t : World p)
              → record_audit p
                  (role_event "role.updated" actor role_id
                    (some o)
                    pr
                    (some (role_state role))
                    (some (role_state (updated role dto))))
                  (saved role)
                ≡ (ok tt, t)
              → update p o role_id dto actor pr w ≡ (ok (to_dto (updated role dto)), t))
          → Ending
      finish role c here known run =
          let (t, recorded, same, _) =
            record_audit_lem p
              (role_event "role.updated" actor role_id (some o) pr (some (role_state role))
                (some (role_state (updated role dto))))
              (saved role) in
          inr (
            to_dto (updated role dto),
            t,
            run t recorded,
            (
              role,
              c,
              here,
              refl,
              known,
              ap (λ (d : Db). d.user_roles) same,
              rw same (mem-saved_roles (updated role dto) w.db.roles),
            ),
          )

      go : (q : Option Role) → find_role p (id_where role_id) w.db ≡ q → Ending
      go none e =
          stop (not_found (role_not_found role_id)) (rw e refl)
            (inl (find_role-id_where-none p laws w.db role_id e))
      go (some role) e =
          let (m, named) = find_role-id_where p laws w.db role_id role e in
          elim (Bool-cases role.is_system_role) [
            | inl system ↦
                stop (forbidden cannot_update_system_roles) (simp (e, system) refl)
                  (inr (role, m, named, inl system))
            | inr custom ↦ elim (Bool-cases (same_id role.organisation_id (some o))) [
              | inr foreign ↦
                  stop (forbidden role_does_not_belong_to_organisation)
                    (simp (e, custom, foreign) refl)
                    (inr (role, m, named, inr (inl (not_same_id role.organisation_id o foreign))))
              | inl own ↦ elim (Bool-cases (is_elsewhere p role pr)) [
                | inl elsewhere ↦
                    stop (forbidden role_does_not_belong_to_project)
                      (simp (e, custom, own, elsewhere) refl)
                      (inr (role, m, named, inr (inr elsewhere)))
                | inr here ↦ elim (validate_given_lem dto.permissions w) [
                  | inl (passed, known) ↦
                      finish role
                        (record {
                          known = m;
                          named = named;
                          custom = custom;
                          owned = same_id-some role.organisation_id o own;
                        })
                        here known
                        (λ t recorded. simp (e, custom, own, here, passed) (rw recorded refl))
                  | inr (x, failed, unknown) ↦
                      inl (x, w, simp (e, custom, own, here, failed) refl, refl, inr unknown)
                ]
              ]
            ]
          ]
