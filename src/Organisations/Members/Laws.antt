-- ===== src/Organisations/Members/Laws.antt =====
-- organisations/services/organisations.service.ts: what adding a user to an organisation comes to.
use mathlib.Core.List.Memᴰ
use arcane_backend.Common.{
  String, Option, none, some, true, false, List, ◌≡◌, refl, sym, ap, inl, ◌∙◌, Memᴰ, eq_false, ok,
  truthy, same_id, same_id_iff,
}
use arcane_backend.Platform.{
  Platform, World, CacheKey, Cached, user_roles_key, instance_role_key, organisation_role_key,
  project_role_key, default_project_role_key, default_organisation_role_key, owner_role_key,
}
use arcane_backend.Platform.Laws.{IsLawful}
use arcane_backend.Organisations.Laws.{assign_organisation_role-tables}
use arcane_backend.Organisations.Members.{insert_member, add_user_by_id}
use arcane_backend.Rbac.Assignment.{id_where}
use arcane_backend.Rbac.Assignment.Laws.{assignment, find_role-id_where, find_role-id_where-none}
use arcane_backend.Rbac.Current.{IsCurrent, CacheIsCurrent}
use arcane_backend.Rbac.DefaultRole.{find_role}
use arcane_backend.Rbac.Membership.{is_found, is_row, is_member}
use arcane_backend.Rbac.Role.{Role, UserRole}
use arcane_backend.Rbac.Roles.{find_one_role}
use arcane_backend.Rbac.Retrieval.{roles_of_user}
use arcane_backend.Rbac.Membership.Laws.{is_found_iff, is_row_iff}

module _ (p : Platform) (laws : IsLawful p) (o user : String) (role : Role) (w : World p) where
  -- A new member leaves the roles and their assignments alone.
  still_current : CacheIsCurrent p w → CacheIsCurrent p (insert_member p o user w)
  unfolding roles_of_user find_role
  still_current current k v e = go k v (current k v e)
    where
      go :
          (k : CacheKey) (v : Cached k)
          → IsCurrent p w.db k v
          → IsCurrent p (insert_member p o user w).db k v
      go (user_roles_key a b c) v h = h
      go (instance_role_key a) v h = h
      go (organisation_role_key a b) v h = h
      go (project_role_key a b) v h = h
      go (default_project_role_key a b) v h = h
      go (default_organisation_role_key a) v h = h
      go owner_role_key v h = h

  by_id :
      ((r : Role) → Memᴰ r w.db.roles → r.id ≡ role.id → r ≡ role)
      → Memᴰ role w.db.roles
      → find_role p (id_where role.id) w.db ≡ some role
  by_id unique known = go _ refl
    where
      go :
          (q : Option Role)
          → find_role p (id_where role.id) w.db ≡ q
          → find_role p (id_where role.id) w.db ≡ some role
      go none e = absurd (find_role-id_where-none p laws w.db role.id e role known refl)
      go (some r) e =
          let (m, h) = find_role-id_where p laws w.db role.id r e in e ∙ ap some (unique r m h)

  not_row :
      ¬ Memᴰ (o, user) w.db.organisation_users
      → is_found (p.find (is_row p o user) w.db.organisation_users) ≡ false
  not_row out = eq_false _ (λ h.
      let (row, m) = (is_found_iff (p.find (is_row p o user) w.db.organisation_users)).0 h in
      let (k, test) = (laws.mem_find _ w.db.organisation_users row).0 m in
      out (Memᴰ.cast (sym ((is_row_iff p o user row).0 test)) k))

  -- Somebody who is no member yet is added with a role of the organisation.
  pub add_user_by_id_lem :
      CacheIsCurrent p w
      → ¬ Memᴰ (o, user) w.db.organisation_users
      → ((r : Role) → Memᴰ r w.db.roles → r.id ≡ role.id → r ≡ role)
      → Memᴰ role w.db.roles
      → truthy (some role.id) ≡ true
      → role.organisation_id ≡ some o
      → role.project_id ≡ none
      → (u : World p) × (rows : List UserRole) × (add_user_by_id p o user (some role.id) w
          ≡ (ok tt, u))
        × (u.db ≡ record ((insert_member p o user w).db) { user_roles = rows })
        × Memᴰ (assignment user role.id) rows
  unfolding add_user_by_id is_member find_one_role
  add_user_by_id_lem current out unique known given owned general =
      let (u, rows, run, same, members) =
        assign_organisation_role-tables p laws o user role false (insert_member p o user w)
          (still_current current) known in
      (
        u,
        rows,
        rw (not_row out, given, by_id unique known, own, free) run,
        same,
        (members (assignment user role.id)).1 (inl refl),
      )
    where
      own : same_id role.organisation_id (some o) ≡ true
      own = (same_id_iff _ _).1 (o, owned, refl)

      free : truthy role.project_id ≡ false
      free = ap truthy general
