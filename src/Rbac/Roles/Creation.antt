-- ===== src/Rbac/Roles/Creation.antt =====
-- Creating a role: what is checked first, and what the table has afterwards.
use mathlib.Core.List.Memᴰ
use arcane_backend.Common.{
  String, Option, none, some, true, false, not, ◌&&◌, ◌==◌, map, ◌≡◌, refl, ap, ◌⊎◌, ◌↔◌, inl, inr,
  ◌≢◌, Memᴰ, ok, err, eq_iff, Bool-cases, Option-cases, truthy, same_id, arith,
}
use arcane_backend.Exception.{
  Exception, bad_request, invalid_permission, project_specific_roles_require_organisation_id,
  role_name_already_exists,
}
use arcane_backend.Platform.{
  Platform, Db, World, role_state, any_role, equals, RoleWhere, holds, matches_role, AuditEvent,
}
use arcane_backend.Platform.Laws.{IsLawful}
use arcane_backend.Platform.Audit.{record_audit_lem}
use arcane_backend.Rbac.Role.{Role, RoleFields, to_entity, to_dto}
use arcane_backend.Rbac.DefaultRole.{find_role}
use arcane_backend.Rbac.Validator.{validate_role_scope}
use arcane_backend.Rbac.Validator.Laws.{AreKnown, validate_permissions_lem}
use arcane_backend.Rbac.Roles.{CreateRoleRequest, create, role_event, or_null, cond_of}
use arcane_backend.Rbac.Roles.Outcomes.{FailsCleanly, same_id-some}

-- The fields of a new role: of the request, in the scope of the path, and never a system role.
abbrev pub new_fields : String → Option String → CreateRoleRequest → RoleFields
new_fields o pr dto = record {
  name = dto.name;
  description = dto.description;
  permissions = dto.permissions;
  organisation_id = some o;
  project_id = or_null pr;
  is_system_role = false;
  is_instance_level = false;
}

pub record IsCreated (o : String) (pr : Option String) (dto : CreateRoleRequest) (before : Db)
    (id : String) (after : Db) : Type 0 where
  pub known_permissions : AreKnown dto.permissions
  pub free_name :
      (r : Role)
      → Memᴰ r before.roles
      → ¬ ((r.name ≡ dto.name) × (r.organisation_id ≡ some o) × (r.project_id ≡ or_null pr))
  pub fresh : (r : Role) → Memᴰ r before.roles → r.id ≢ id
  pub inserted :
      (r : Role)
      → Memᴰ r after.roles ↔ ((r ≡ to_entity id (new_fields o pr dto)) ⊎ Memᴰ r before.roles)
  pub same_assignments : after.user_roles ≡ before.user_roles

-- What keeps a role from being created: an unknown permission, a project with no organisation, or a
-- role of the organisation that has the name.
abbrev pub IsNotCreatable : String → Option String → CreateRoleRequest → Db → Type 0
IsNotCreatable o pr dto db =
    (¬ AreKnown dto.permissions)
    ⊎ ((truthy pr && not (truthy (some o))) ≡ true)
    ⊎ ((r : Role) × Memᴰ r db.roles × (r.name ≡ dto.name) × (r.organisation_id ≡ some o))

abbrev pub CreationEnds :
    (p : Platform) → String → String → CreateRoleRequest → Option String → World p → Type 0
CreationEnds p o actor dto pr w =
    FailsCleanly p (create p o dto actor pr w) w (IsNotCreatable o pr dto w.db)
    ⊎ ((id : String) × (t : World p) × (create p o dto actor pr w
          ≡ (ok (to_dto (to_entity id (new_fields o pr dto))), t))
        × IsCreated o pr dto w.db id t.db)

abbrev name_where : String → Option String → CreateRoleRequest → RoleWhere
name_where o pr dto = record any_role {
  name = equals dto.name;
  organisation_id = equals o;
  project_id = cond_of (or_null pr);
}

module _ (p : Platform) (laws : IsLawful p) where
  holds-cond_of : (v : Option String) → holds p (cond_of v) v ≡ true
  holds-cond_of none = laws.null_where_none
  holds-cond_of (some s) = (eq_iff s s).1 refl

  name_is_free :
      (o : String) (pr : Option String) (dto : CreateRoleRequest) (db : Db)
      → find_role p (name_where o pr dto) db ≡ none
      → (r : Role) → Memᴰ r db.roles
      → ¬ ((r.name ≡ dto.name) × (r.organisation_id ≡ some o) × (r.project_id ≡ or_null pr))
  unfolding find_role matches_role
  name_is_free o pr dto db e r m (named, owned, placed) =
      let f = laws.find_one_none (matches_role p (name_where o pr dto)) db.roles r e m in
      let a : (r.name == dto.name) ≡ true = (eq_iff r.name dto.name).1 named in
      let b : same_id r.organisation_id (some o) ≡ true = rw owned ((eq_iff o o).1 refl) in
      let c : holds p (cond_of (or_null pr)) r.project_id ≡ true =
        rw placed (holds-cond_of (or_null pr)) in
      cc (rw (a, b, c) at f)

  name_is_taken :
      (o : String) (pr : Option String) (dto : CreateRoleRequest) (db : Db) (r : Role)
      → find_role p (name_where o pr dto) db ≡ some r
      → IsNotCreatable o pr dto db
  unfolding find_role matches_role
  name_is_taken o pr dto db r e =
      let (m, t) = laws.find_one_some _ db.roles r e in
      inr (
        inr (
          r,
          m,
          (eq_iff r.name dto.name).0 (ground arith),
          same_id-some r.organisation_id o (ground arith),
        ))

  -- Creating a role either returns and has added one custom role with known permissions, a name that
  -- was free and a new id, or throws with the tables as they were, and then a permission is unknown,
  -- a project is given with an empty organisation, or a role of the organisation has the name.
  pub create_lem :
      (o actor : String) (dto : CreateRoleRequest) (pr : Option String) (w : World p)
      → CreationEnds p o actor dto pr w
  unfolding create validate_role_scope
  create_lem o actor dto pr w = elim (validate_permissions_lem p dto.permissions w) [
    | inr (x, m, unknown, failed) ↦
        stop (bad_request (invalid_permission x)) (simp failed refl)
          (inl (λ known. unknown (known x m)))
    | inl (passed, known) ↦ elim (Bool-cases (truthy pr && not (truthy (some o)))) [
      | inl unscoped ↦
          stop (bad_request project_specific_roles_require_organisation_id)
            (simp (passed, unscoped) refl) (inr (inl unscoped))
      | inr scoped ↦ elim (Option-cases (find_role p (name_where o pr dto) w.db)) [
        | inr (r, taken) ↦
            stop (bad_request (role_name_already_exists dto.name))
              (simp (passed, scoped, taken) refl) (name_is_taken o pr dto w.db r taken)
        | inl free ↦
            let (t, recorded, same, _) = record_audit_lem p event saved in
            inr (
              id,
              t,
              simp (passed, scoped, free) (rw recorded refl),
              record {
                known_permissions = known;
                free_name = name_is_free o pr dto w.db free;
                fresh = λ r m e.
                    laws.new_id_fresh (map (λ q. q.id) w.db.roles)
                      (rw e at (Memᴰ.map (λ (q : Role). q.id) m));
                inserted =
                    rw same (laws.mem_insert (to_entity id (new_fields o pr dto)) w.db.roles);
                same_assignments = ap (λ (d : Db). d.user_roles) same;
              },
            )
      ]
    ]
  ]
    where
      id : String
      id = p.new_id (map (λ q. q.id) w.db.roles)

      saved : World p
      saved = record w {
        db = record (w.db) { roles = p.insert (to_entity id (new_fields o pr dto)) w.db.roles };
      }

      event : AuditEvent
      event =
          role_event "role.created" actor (to_entity id (new_fields o pr dto)).id (some o) pr none
            (some (role_state (to_entity id (new_fields o pr dto))))

      stop :
          (x : Exception)
          → create p o dto actor pr w ≡ (err x, w)
          → IsNotCreatable o pr dto w.db
          → CreationEnds p o actor dto pr w
      stop x e why = inl (x, w, e, refl, why)
