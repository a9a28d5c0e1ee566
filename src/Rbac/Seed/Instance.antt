-- ===== src/Rbac/Seed/Instance.antt =====
-- rbac/seed/seed-system-roles.ts: `seedSystemRoles`, which makes the owner role of the instance, and
-- what it leaves for the owner services.
use mathlib.Core.Bool.{false≢true}
use arcane_backend.Common.{
  Option, none, some, true, [], ◌∷◌, map, ◌≡◌, refl, sym, ap, ◌⊎◌, inl, inr, ◌∙◌, Memᴰ, Exec, pure,
  reads, ◌>>=◌, arith, Option-cases, ok,
}
use arcane_backend.Platform.{Platform, Db, World, RoleWhere, any_role, null, matches_role}
use arcane_backend.Platform.Laws.{IsLawful}
use arcane_backend.Rbac.Permissions.{all_access}
use arcane_backend.Rbac.Role.{Role, RoleFields, to_entity}
use arcane_backend.Rbac.DefaultRole.{find_role, owner_where}
use arcane_backend.Rbac.Roles.{save_new_role, with_roles}

abbrev pub instance_role_where : RoleWhere
instance_role_where = record any_role {
  is_system_role = some true;
  is_instance_level = some true;
  organisation_id = null;
  project_id = null;
}

abbrev pub owner_role_fields : RoleFields
owner_role_fields = record {
  name = "Owner";
  description = some "Full control over the entire application instance";
  permissions = all_access ∷ [];
  organisation_id = none;
  project_id = none;
  is_system_role = true;
  is_instance_level = true;
}

module _ (p : Platform) where
  -- The part behind the early return.
  abbrev save_owner_role : Option Role → Exec (World p) (Unit {0})
  save_owner_role (some _) = pure tt
  save_owner_role none = do _ ← save_new_role p owner_role_fields; pure tt

  unfoldable pub seed_system_roles : Exec (World p) (Unit {0})
  seed_system_roles = do
    existing ← reads (λ w. find_role p instance_role_where w.db)
    save_owner_role existing

module _ (p : Platform) (laws : IsLawful p) (w : World p) where
  abbrev new_owner : Role
  new_owner = to_entity (p.new_id (map (λ r. r.id) w.db.roles)) owner_role_fields

  abbrev seeded : Db
  seeded = with_roles p w.db (p.insert new_owner w.db.roles)

  matches_new_owner : matches_role p owner_where new_owner ≡ true
  unfolding matches_role to_entity
  matches_new_owner = rw laws.null_where_none refl

  matches_weaker :
      (d : Role) → matches_role p owner_where d ≡ true → matches_role p instance_role_where d ≡ true
  unfolding matches_role
  matches_weaker d h = ground arith

  -- Where there is no system role of the instance, seeding returns, and the query of the owner
  -- services then finds a role whose one permission is "*".
  pub seed_system_roles-find_role :
      find_role p instance_role_where w.db ≡ none
      → (d : Role) × ((seed_system_roles p w).0 ≡ ok tt)
        × (find_role p owner_where (seed_system_roles p w).1.db ≡ some d)
        × (d.permissions ≡ all_access ∷ [])
  unfolding seed_system_roles save_new_role find_role to_entity
  seed_system_roles-find_role missing =
      let (d, e, h) = go (Option-cases (find_role p owner_where seeded)) in
      (d, rw missing refl, rw missing e, h)
    where
      which :
          (d : Role)
          → (d ≡ new_owner) ⊎ Memᴰ d w.db.roles
          → matches_role p owner_where d ≡ true
          → d.permissions ≡ all_access ∷ []
      which d (inl e) t = ap (λ (r : Role). r.permissions) e
      which d (inr m) t =
          absurd (false≢true (sym (laws.find_one_none _ _ d missing m) ∙ matches_weaker d t))

      go :
          (find_role p owner_where seeded ≡ none)
            ⊎ ((d : Role) × (find_role p owner_where seeded ≡ some d))
          → (d : Role) × (find_role p owner_where seeded ≡ some d)
            × (d.permissions ≡ all_access ∷ [])
      go (inl e) = absurd (
          false≢true (
            sym (laws.find_one_none _ _ new_owner e ((laws.mem_insert _ _ new_owner).1 (inl refl)))
            ∙ matches_new_owner))
      go (inr (d, e)) =
          let (m, t) = laws.find_one_some _ _ d e in (d, e, which d ((laws.mem_insert _ _ d).0 m) t)
