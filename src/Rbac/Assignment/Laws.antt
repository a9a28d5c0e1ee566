-- ===== src/Rbac/Assignment/Laws.antt =====
-- What assigning and removing a role do to the table of assignments.
use mathlib.Core.List.Memᴰ
use arcane_backend.Common.{
  String, Option, none, some, Bool, true, false, ◌&&◌, ◌==◌, List, ◌≡◌, refl, sym, map, ap, ◌⊎◌,
  ◌↔◌, inl, inr, ◌≢◌, Memᴰ, ok, arith, eq_iff, Option-cases, and-eq-true,
}
use arcane_backend.Platform.{Platform, Db, World, matches_role, instance_role_key}
use arcane_backend.Platform.Laws.{IsLawful, Distinct}
use arcane_backend.Rbac.Role.{Role, UserRole}
use arcane_backend.Rbac.DefaultRole.{find_role}
use arcane_backend.Rbac.Assignment.{
  id_where, is_assignment, find_assignment, assign_role, remove_role, assign_new_role,
  remove_found_role, invalidate_user_role_caches,
}

abbrev pub assignment : String → String → UserRole
assignment user_id role_id = record { user_id = user_id; role_id = role_id }

pub is_assignment_iff :
    (u r : String) (x : UserRole) → (is_assignment u r x ≡ true) ↔ (x ≡ assignment u r)
is_assignment_iff u r x = (to, from)
  where
    to : (x.user_id == u && x.role_id == r) ≡ true → x ≡ assignment u r
    to h =
        let (a, b) = and-eq-true (x.user_id == u) (x.role_id == r) h in
        λ i. record { user_id = (eq_iff x.user_id u).0 a i; role_id = (eq_iff x.role_id r).0 b i }

    from : x ≡ assignment u r → (x.user_id == u && x.role_id == r) ≡ true
    from e =
        let a : x.user_id == u ≡ true =
          (eq_iff x.user_id u).1 (ap (λ (y : UserRole). y.user_id) e) in
        let b : x.role_id == r ≡ true =
          (eq_iff x.role_id r).1 (ap (λ (y : UserRole). y.role_id) e) in
        rw (a, b) refl

module _ (p : Platform) where
  abbrev pub with_user_roles : (w : World p) → List UserRole → p.Cache → World p
  with_user_roles w rows cache = record w {
    db = record (w.db) { user_roles = rows };
    cache = cache;
  }

module _ (p : Platform) (laws : IsLawful p) where
  -- A role that is found by its id, and one that is not.
  pub find_role-id_where :
      (db : Db) (role_id : String) (role : Role)
      → find_role p (id_where role_id) db ≡ some role
      → Memᴰ role db.roles × (role.id ≡ role_id)
  unfolding find_role matches_role
  find_role-id_where db role_id role e =
      let (m, t) = laws.find_one_some _ db.roles role e in
      (m, (eq_iff role.id role_id).0 (ground arith))

  pub find_role-id_where-none :
      (db : Db) (role_id : String)
      → find_role p (id_where role_id) db ≡ none
      → (role : Role) → Memᴰ role db.roles
      → role.id ≢ role_id
  unfolding find_role matches_role
  find_role-id_where-none db role_id e role m same =
      let f = laws.find_one_none _ db.roles role e m in
      let t = (eq_iff role.id role_id).1 same in ground arith

  abbrev cache_after : String → Bool → World p → p.Cache
  cache_after u true w = w.cache
  cache_after u false w = p.cache_del (instance_role_key u) w.cache

  find_assignment-eq-some :
      (u r : String) (db : Db) (found : UserRole)
      → find_assignment p u r db ≡ some found
      → Memᴰ found db.user_roles × (found ≡ assignment u r)
  find_assignment-eq-some u r db found e =
      let (m, t) = laws.find_one_some (is_assignment u r) db.user_roles found e in
      (m, (is_assignment_iff u r found).0 t)

  find_assignment-eq-none :
      (u r : String) (db : Db)
      → find_assignment p u r db ≡ none
      → ¬ Memᴰ (assignment u r) db.user_roles
  find_assignment-eq-none u r db e m =
      let f = laws.find_one_none (is_assignment u r) db.user_roles (assignment u r) e m in
      let t = (is_assignment_iff u r (assignment u r)).1 refl in cc

  mem-remove :
      (u r : String) (rows : List UserRole) (x : UserRole)
      → Memᴰ x (p.remove (is_assignment u r) rows) ↔ (Memᴰ x rows × (x ≢ assignment u r))
  mem-remove u r rows x = (
    λ m.
        let (k, f) = (laws.mem_remove (is_assignment u r) rows x).0 m in
        (k, λ e. let t = (is_assignment_iff u r x).1 e in cc),
    λ h.
        (laws.mem_remove (is_assignment u r) rows x).1
          (h.0, is_false (is_assignment u r x) λ t. h.1 ((is_assignment_iff u r x).0 t)),
  )
    where
      is_false : (b : Bool) → ¬ (b ≡ true) → b ≡ false
      is_false true h = absurd (h refl)
      is_false false h = refl

  remove_found :
      (u : String) (b : Bool) (w : World p) (found : UserRole)
      → remove_found_role p u b (some found) w ≡ (
        ok tt,
        with_user_roles p w
            (p.remove (is_assignment found.user_id found.role_id) w.db.user_roles)
            (cache_after u b w),
      )
  unfolding remove_found_role invalidate_user_role_caches
  remove_found u true w found = refl
  remove_found u false w found = refl

  assign_new :
      (u r : String) (b : Bool) (w : World p) (role : Role)
      → find_role p (id_where r) w.db ≡ some role
      → assign_new_role p u r b none w ≡ (
        ok tt,
        with_user_roles p w (p.insert (assignment u r) w.db.user_roles) (cache_after u b w),
      )
  unfolding assign_new_role invalidate_user_role_caches
  assign_new u r true w role e = rw e refl
  assign_new u r false w role e = rw e refl

  -- Removing a role always returns. Afterwards the assignment is not there, and all others are as
  -- they were; where no assignment came twice, none does.
  pub remove_role_lem :
      (u r : String) (b : Bool) (w : World p)
      → (rows : List UserRole) × (cache : p.Cache) × (remove_role p u r b w
          ≡ (ok tt, with_user_roles p w rows cache))
        × ((x : UserRole) → Memᴰ x rows ↔ (Memᴰ x w.db.user_roles × (x ≢ assignment u r)))
        × (Distinct w.db.user_roles → Distinct rows)
  unfolding remove_role remove_found_role
  remove_role_lem u r b w = go (find_assignment p u r w.db) refl
    where
      go :
          (o : Option UserRole)
          → find_assignment p u r w.db ≡ o
          → (rows : List UserRole) × (cache : p.Cache) × (remove_role p u r b w
              ≡ (ok tt, with_user_roles p w rows cache))
            × ((x : UserRole) → Memᴰ x rows ↔ (Memᴰ x w.db.user_roles × (x ≢ assignment u r)))
            × (Distinct w.db.user_roles → Distinct rows)
      go none e = (
        w.db.user_roles,
        w.cache,
        rw e refl,
        λ x. (λ m. (m, λ same. find_assignment-eq-none u r w.db e (rw same at m)), λ h. h.0),
        λ d. d,
      )
      go (some found) e =
          let (m, same) = find_assignment-eq-some u r w.db found e in
          (
            p.remove (is_assignment u r) w.db.user_roles,
            cache_after u b w,
            rw (e, remove_found u b w found, same) refl,
            mem-remove u r w.db.user_roles,
            laws.remove_Distinct (is_assignment u r) w.db.user_roles,
          )

  -- Assigning a role that exists always returns. Afterwards the assignment is there, and all others
  -- are as they were; where no assignment came twice, none does.
  pub assign_role_lem :
      (u : String) (role : Role) (b : Bool) (w : World p)
      → Memᴰ role w.db.roles
      → (rows : List UserRole) × (cache : p.Cache) × (assign_role p u role.id b w
          ≡ (ok tt, with_user_roles p w rows cache))
        × ((x : UserRole) → Memᴰ x rows ↔ ((x ≡ assignment u role.id) ⊎ Memᴰ x w.db.user_roles))
        × (Distinct w.db.user_roles → Distinct rows)
  unfolding assign_role assign_new_role
  assign_role_lem u role b w known =
      go (find_assignment p u role.id w.db) refl (find_role p (id_where role.id) w.db) refl
    where
      old :
          (x : UserRole)
          → find_assignment p u role.id w.db ≢ none
          → (x ≡ assignment u role.id) ⊎ Memᴰ x w.db.user_roles
          → Memᴰ x w.db.user_roles
      old x h (inr m) = m
      old x h (inl e) = elim (Option-cases (find_assignment p u role.id w.db)) [
        | inl missing ↦ absurd (h missing)
        | inr (found, f) ↦
            let (m, same) = find_assignment-eq-some u role.id w.db found f in rw (e, ← same) m
      ]

      go :
          (o : Option UserRole)
          → find_assignment p u role.id w.db ≡ o
          → (q : Option Role) → find_role p (id_where role.id) w.db ≡ q
          → (rows : List UserRole) × (cache : p.Cache) × (assign_role p u role.id b w
              ≡ (ok tt, with_user_roles p w rows cache))
            × ((x : UserRole) → Memᴰ x rows ↔ ((x ≡ assignment u role.id) ⊎ Memᴰ x w.db.user_roles))
            × (Distinct w.db.user_roles → Distinct rows)
      go (some found) e q f =
          (w.db.user_roles, w.cache, rw e refl, λ x. (inr, old x (λ missing. cc)), λ d. d)
      go none e none f = absurd (find_role-id_where-none w.db role.id f role known refl)
      go none e (some r) f = (
        p.insert (assignment u role.id) w.db.user_roles,
        cache_after u b w,
        rw e (assign_new u role.id b w r f),
        laws.mem_insert (assignment u role.id) w.db.user_roles,
        λ d.
            laws.insert_Distinct (assignment u role.id) w.db.user_roles d
              (find_assignment-eq-none u role.id w.db e),
      )

  -- The users that a role is taken from are those that have it.
  pub mem-holders :
      (role_id : String) (db : Db) (u : String)
      → Memᴰ (assignment u role_id) db.user_roles
        ↔ Memᴰ u (map (λ x. x.user_id) (p.find (λ x. x.role_id == role_id) db.user_roles))
  mem-holders role_id db u = (to, from)
    where
      rows : List UserRole
      rows = p.find (λ x. x.role_id == role_id) db.user_roles

      to : Memᴰ (assignment u role_id) db.user_roles → Memᴰ u (map (λ x. x.user_id) rows)
      to m =
          Memᴰ.map (λ (x : UserRole). x.user_id)
            ((laws.mem_find (λ x. x.role_id == role_id) db.user_roles (assignment u role_id)).1
              (m, (eq_iff role_id role_id).1 refl))

      named : (x : UserRole) → x.user_id ≡ u → x.role_id ≡ role_id → x ≡ assignment u role_id
      named x a b = λ i. record { user_id = a i; role_id = b i }

      from : Memᴰ u (map (λ x. x.user_id) rows) → Memᴰ (assignment u role_id) db.user_roles
      from m =
          let (x, k, e) = Memᴰ.of_map (λ (x : UserRole). x.user_id) rows m in
          let (known, t) = (laws.mem_find (λ y. y.role_id == role_id) db.user_roles x).0 k in
          Memᴰ.cast (sym (named x e ((eq_iff x.role_id role_id).0 t))) known
