-- ===== src/Rbac/Seed/Laws.antt =====
-- rbac/services/rbac-seed.service.ts: what seeding a project leaves in the table of roles.
use mathlib.Core.Bool.{false≢true}
use arcane_backend.Common.{
  String, none, some, true, false, ◌==◌, List, [], ◌∷◌, map, ◌≡◌, refl, sym, ap, ◌⊎◌, inl, inr, ◌∙◌,
  Memᴰ, eq_iff, Option-cases,
}
use arcane_backend.Platform.{Platform, World, matches_role, equals}
use arcane_backend.Platform.Laws.{IsLawful}
use arcane_backend.Rbac.Role.{Role, RoleFields, to_entity}
use arcane_backend.Rbac.DefaultRole.{find_role, project_member_where}
use arcane_backend.Rbac.DefaultRole.Laws.{find_role-project_member_where}
use arcane_backend.Rbac.Roles.{find_roles, scope_where, save_new_role, with_roles}
use arcane_backend.Rbac.Seed.{
  member_permissions, project_admin_role, member_role, viewer_role, seed_project_roles,
}

not_in_empty : {d : Role} {rows : List Role} → rows ≡ [] → ¬ Memᴰ d rows
not_in_empty e m = elim (rw e at m) [ ]

module _ (p : Platform) where
  abbrev added : RoleFields → World p → World p
  added fields w = record w {
    db =
        with_roles p w.db
          (p.insert (to_entity (p.new_id (map (λ r. r.id) w.db.roles)) fields) w.db.roles);
  }

  -- The rows after the three roles have been saved.
  abbrev seeded : String → String → World p → World p
  seeded o r w =
      added (viewer_role o r) (added (member_role o r) (added (project_admin_role o r) w))

  abbrev seeded_id : RoleFields → World p → String
  seeded_id fields w = p.new_id (map (λ r. r.id) w.db.roles)

module _ (p : Platform) (laws : IsLawful p) (o r : String) where
  matches_scope :
      (d : Role)
      → d.is_system_role ≡ true
      → d.organisation_id ≡ some o
      → d.project_id ≡ some r
      → matches_role p (scope_where true o (equals r)) d ≡ true
  unfolding matches_role
  matches_scope d system owned placed =
      rw (system, owned, placed, (eq_iff o o).1 refl, (eq_iff r r).1 refl) refl

  matches_member :
      (d : Role)
      → d.name ≡ "Member"
      → d.is_system_role ≡ true
      → d.organisation_id ≡ some o
      → d.project_id ≡ some r
      → matches_role p (project_member_where o r) d ≡ true
  unfolding matches_role
  matches_member d named system owned placed =
      rw (named, system, owned, placed, (eq_iff o o).1 refl, (eq_iff r r).1 refl) refl

  -- The role of the seeded table that the query for members finds.
  found_is_member :
      (w : World p) (d : Role)
      → find_roles p (scope_where true o (equals r)) w.db ≡ []
      → Memᴰ d (seeded p o r w).db.roles
      → d.name ≡ "Member"
      → matches_role p (scope_where true o (equals r)) d ≡ true
      → d.permissions ≡ member_permissions
  unfolding to_entity
  found_is_member w d fresh m named placed = third ((laws.mem_insert _ _ d).0 m)
    where
      misnamed :
          (x : String) → (x == "Member") ≡ false → d.name ≡ x → d.permissions ≡ member_permissions
      misnamed x other e = absurd (false≢true (sym other ∙ (eq_iff x "Member").1 (sym e ∙ named)))

      old : Memᴰ d w.db.roles → d.permissions ≡ member_permissions
      old k = absurd (
          not_in_empty fresh (
            (laws.mem_find (matches_role p (scope_where true o (equals r))) w.db.roles d).1
              (k, placed)))

      first :
          {a : Role}
          → a.name ≡ "Project Admin"
          → (d ≡ a) ⊎ Memᴰ d w.db.roles
          → d.permissions ≡ member_permissions
      first n (inl e) = misnamed "Project Admin" refl (ap (λ (x : Role). x.name) e ∙ n)
      first n (inr k) = old k

      second :
          {b : Role}
          → b.permissions ≡ member_permissions
          → (d ≡ b) ⊎ Memᴰ d (added p (project_admin_role o r) w).db.roles
          → d.permissions ≡ member_permissions
      second n (inl e) = ap (λ (x : Role). x.permissions) e ∙ n
      second n (inr k) = first refl ((laws.mem_insert _ _ d).0 k)

      third :
          (d
              ≡ to_entity
                  (seeded_id p
                    (viewer_role o r)
                    (added p (member_role o r) (added p (project_admin_role o r) w)))
                  (viewer_role o r))
            ⊎ Memᴰ d (added p (member_role o r) (added p (project_admin_role o r) w)).db.roles
          → d.permissions ≡ member_permissions
      third (inl e) = misnamed "Viewer" refl (ap (λ (x : Role). x.name) e)
      third (inr k) = second refl ((laws.mem_insert _ _ d).0 k)

  has_member :
      (w : World p)
      → (m : Role) × Memᴰ m (seeded p o r w).db.roles
        × (matches_role p (project_member_where o r) m ≡ true)
        × (matches_role p (scope_where true o (equals r)) m ≡ true)
  unfolding to_entity
  has_member w =
      let m : Role =
        to_entity (seeded_id p (member_role o r) (added p (project_admin_role o r) w))
          (member_role o r) in
      (
        m,
        (laws.mem_insert _ _ m).1 (inr ((laws.mem_insert _ _ m).1 (inl refl))),
        matches_member m refl refl refl refl,
        matches_scope m refl refl refl,
      )

  -- In a project that has no system role yet, seeding leaves a role for the members to get: the query
  -- of `getDefaultProjectRole` then finds one, and it has the permissions of members.
  pub seed_project_roles-find_role :
      (w : World p)
      → find_roles p (scope_where true o (equals r)) w.db ≡ []
      → (d : Role) × (find_role p (project_member_where o r) (seed_project_roles p o r w).1.db
          ≡ some d)
        × (d.permissions ≡ member_permissions)
  unfolding seed_project_roles save_new_role find_role
  seed_project_roles-find_role w fresh =
      rw fresh (go (Option-cases (find_role p (project_member_where o r) (seeded p o r w).db)))
    where
      go :
          (find_role p (project_member_where o r) (seeded p o r w).db ≡ none)
            ⊎ ((d : Role) × (find_role p (project_member_where o r) (seeded p o r w).db ≡ some d))
          → (d : Role) × (find_role p (project_member_where o r) (seeded p o r w).db ≡ some d)
            × (d.permissions ≡ member_permissions)
      go (inl e) =
          let (m, k, t, _) = has_member w in
          absurd (false≢true (sym (laws.find_one_none _ _ m e k) ∙ t))
      go (inr (d, e)) =
          let (h, placed) = find_role-project_member_where p laws (seeded p o r w).db o d r e in
          (
            d,
            e,
            found_is_member w d fresh h.known h.named (matches_scope d h.system h.owned placed),
          )

  -- A second seeding of the project, right after the first, writes nothing.
  pub seed_project_roles-seed_project_roles :
      (w : World p)
      → find_roles p (scope_where true o (equals r)) w.db ≡ []
      → (seed_project_roles p o r (seed_project_roles p o r w).1).1 ≡ (seed_project_roles p o r w).1
  unfolding seed_project_roles save_new_role
  seed_project_roles-seed_project_roles w fresh = rw fresh (go _ refl)
    where
      go :
          (rows : List Role)
          → find_roles p (scope_where true o (equals r)) (seeded p o r w).db ≡ rows
          → (seed_project_roles p o r (seeded p o r w)).1 ≡ seeded p o r w
      go [] e =
          let (m, k, _, t) = has_member w in
          absurd (not_in_empty e ((laws.mem_find _ _ m).1 (k, t)))
      go (x ∷ rows) e = rw e refl
