-- ===== src/Examples/Facts.antt =====
-- What the witnesses need to know of the small tables.
use mathlib.Core.List.Memᴰ
use arcane_backend.Common.{
  Option, or_empty, String, none, some, Bool, true, false, not, ◌&&◌, List, [], ◌∷◌, map, ◌≡◌, refl,
  sym, ap, ◌∙◌, Memᴰ, includes, includes_iff, and-eq-true, filter_by, find_first, add, add_all, ◌≢◌,
  eq_iff,
}
use arcane_backend.Platform.{user_roles_key, matches_role, equals}
use arcane_backend.Platform.Laws.{Distinct}
use arcane_backend.Rbac.Permissions.{all_permissions, all_access}
use arcane_backend.Rbac.Role.{
  Role, UserRole, is_instance_scope, is_organisation_scope, is_project_scope,
}
use arcane_backend.Rbac.Consistency.{IsConsistent}
use arcane_backend.Rbac.Retrieval.{roles_of_user, first_instance_role}
use arcane_backend.Rbac.Current.{IsCurrent, CacheIsCurrent}
use arcane_backend.Rbac.DefaultRole.{find_role, owner_where}
use arcane_backend.Rbac.Validator.Laws.{AreKnown}
use arcane_backend.Rbac.Roles.Soundness.{IsRoleTable}
use arcane_backend.Rbac.InstanceOwner.Laws.{IsOwner}
use arcane_backend.Rbac.Grants.{
  has_permission, aggregate_permissions, permissions_of, get_permissions_with_context,
}
use arcane_backend.Rbac.Assignment.{find_assignment}
use arcane_backend.Rbac.Authorize.Laws.{grants}
use arcane_backend.Rbac.Roles.{find_roles, scope_where}
use arcane_backend.Rbac.Seed.Instance.{instance_role_where}
use arcane_backend.Examples.Tables.{ownerless}
use arcane_backend.Examples.InMemory.{platform}
use arcane_backend.Examples.Lawful.{lawful}
use arcane_backend.Examples.SlotLaws.{empty-AllCached}
use arcane_backend.Examples.Tables.{tables, world, cached_world, owner, custom, assigned}

clash : {b : Bool} → not b ≡ true → b ≡ true → ⊥
clash {b} h k = cc

abbrev different_ids : List Role → Bool
different_ids [] = true
different_ids (r ∷ rows) = not (includes (map (λ q. q.id) rows) r.id) && different_ids rows

unique_ids_of :
    (rows : List Role)
    → different_ids rows ≡ true
    → (r s : Role) → Memᴰ r rows
    → Memᴰ s rows
    → r.id ≡ s.id
    → r ≡ s
unique_ids_of (a ∷ rows) d r s (Memᴰ.head e) (Memᴰ.head f) same = e ∙ sym f
unique_ids_of (a ∷ rows) d r s (Memᴰ.head e) (Memᴰ.tail k) same =
    let t = (and-eq-true _ _ d).0 in
    absurd (
      clash t (
        (includes_iff (map (λ q. q.id) rows) a.id).1
          (Memᴰ.cast (sym (ap (λ (q : Role). q.id) e) ∙ same) (Memᴰ.map (λ (q : Role). q.id) k))))
unique_ids_of (a ∷ rows) d r s (Memᴰ.tail m) (Memᴰ.head f) same =
    let t = (and-eq-true _ _ d).0 in
    absurd (
      clash t (
        (includes_iff (map (λ q. q.id) rows) a.id).1 (
          Memᴰ.cast (sym (ap (λ (q : Role). q.id) f) ∙ sym same)
            (Memᴰ.map (λ (q : Role). q.id) m))))
unique_ids_of (a ∷ rows) d r s (Memᴰ.tail m) (Memᴰ.tail k) same =
    unique_ids_of rows (and-eq-true _ _ d).1 r s m k same
unique_ids_of [] d r s m k same = elim m [ ]

abbrev different_users : List UserRole → Bool
different_users [] = true
different_users (x ∷ rows) =
    not (includes (map (λ y. y.user_id) rows) x.user_id) && different_users rows

different_users-Distinct : (rows : List UserRole) → different_users rows ≡ true → Distinct rows
different_users-Distinct [] d = tt
different_users-Distinct (x ∷ rows) d =
    let (t, rest) = and-eq-true _ _ d in
    (
      λ m. clash t (
          (includes_iff (map (λ y. y.user_id) rows) x.user_id).1
            (Memᴰ.map (λ (y : UserRole). y.user_id) m)),
      different_users-Distinct rows rest,
    )

pub tables-Distinct : Distinct tables.user_roles
unfolding includes
tables-Distinct = different_users-Distinct tables.user_roles refl

known_role :
    (x : UserRole)
    → Memᴰ x tables.user_roles
    → (r : Role) × Memᴰ r tables.roles × (r.id ≡ x.role_id)
known_role x (Memᴰ.head e) = (owner, Memᴰ.head refl, sym (ap (λ (y : UserRole). y.role_id) e))
known_role x (Memᴰ.tail (Memᴰ.head e)) =
    (owner, Memᴰ.head refl, sym (ap (λ (y : UserRole). y.role_id) e))
known_role x (Memᴰ.tail (Memᴰ.tail (Memᴰ.head e))) =
    (custom, Memᴰ.tail (Memᴰ.tail (Memᴰ.head refl)), sym (ap (λ (y : UserRole). y.role_id) e))
known_role x (Memᴰ.tail (Memᴰ.tail (Memᴰ.tail m))) = elim m [ ]

pub tables-IsConsistent : IsConsistent tables
unfolding includes
tables-IsConsistent = record {
  unique_ids = unique_ids_of tables.roles refl;
  known_roles = known_role;
  distinct = tables-Distinct;
}

pub traces-AreKnown : AreKnown custom.permissions
unfolding includes all_permissions
traces-AreKnown x m =
    Memᴰ.cast (Memᴰ.eq_of_singleton m) ((includes_iff all_permissions "traces:read").0 refl)

system_clash : {r a : Role} → r ≡ a → a.is_system_role ≡ true → r.is_system_role ≡ false → ⊥
system_clash e t f = let s = ap (λ (q : Role). q.is_system_role) e in cc

permissions_known :
    (r : Role) → Memᴰ r tables.roles → r.is_system_role ≡ false → AreKnown r.permissions
permissions_known r (Memᴰ.head e) f = absurd (system_clash e refl f)
permissions_known r (Memᴰ.tail (Memᴰ.head e)) f = absurd (system_clash e refl f)
permissions_known r (Memᴰ.tail (Memᴰ.tail (Memᴰ.head e))) f = rw e traces-AreKnown
permissions_known r (Memᴰ.tail (Memᴰ.tail (Memᴰ.tail m))) f = elim m [ ]

pub tables-IsRoleTable : IsRoleTable tables
tables-IsRoleTable = record {
  consistent = tables-IsConsistent;
  permissions_known = permissions_known;
}

pub world-CacheIsCurrent : CacheIsCurrent platform world
world-CacheIsCurrent = empty-AllCached (IsCurrent platform tables)

pub cached_world-CacheIsCurrent : CacheIsCurrent platform cached_world
unfolding roles_of_user first_instance_role find_first filter_by is_instance_scope
    is_organisation_scope is_project_scope
cached_world-CacheIsCurrent =
    lawful.set_AllCached (IsCurrent platform tables) (user_roles_key "eve" "o" "q") (custom ∷ [])
      none world-CacheIsCurrent refl

pub owner_found : find_role platform owner_where tables ≡ some owner
unfolding find_role find_first matches_role
owner_found = refl

pub bob-IsOwner : IsOwner platform tables "bob"
bob-IsOwner = record { role = owner; found = owner_found; assigned = Memᴰ.tail (Memᴰ.head refl) }

pub eve_refused : grants platform tables "eve" all_access none none ≡ false
unfolding grants has_permission includes aggregate_permissions roles_of_user first_instance_role
    filter_by is_instance_scope add_all add
eve_refused = refl

pub bob_allowed : grants platform tables "bob" all_access none none ≡ true
unfolding grants has_permission includes aggregate_permissions roles_of_user first_instance_role
    filter_by is_instance_scope add_all add
bob_allowed = refl

pub bob_ne_ann : ◌≢◌ {A = String} "bob" "ann"
bob_ne_ann e = clash refl ((eq_iff "bob" "ann").1 e)

pub bob_ne_eve : ◌≢◌ {A = Option String} (some "bob") (some "eve")
bob_ne_eve e = clash refl ((eq_iff "bob" "eve").1 (ap or_empty e))

pub first_ne_second : ◌≢◌ {A = String} "t1" "t9"
first_ne_second e = clash refl ((eq_iff "t1" "t9").1 e)

pub zoe_ne_eve : ◌≢◌ {A = String} "zoe" "eve"
zoe_ne_eve e = clash refl ((eq_iff "zoe" "eve").1 e)

pub eve_assigned : find_assignment platform "eve" "r3" tables ≡ some (assigned "eve" "r3")
unfolding find_first
eve_assigned = refl

pub empty_project : find_roles platform (scope_where true "o" (equals "z")) tables ≡ []
unfolding filter_by matches_role
empty_project = refl

pub custom_listed :
    Memᴰ "traces:read"
      (get_permissions_with_context (custom ∷ []) (some "o") (some "q")).project_permissions
unfolding get_permissions_with_context find_first is_project_scope permissions_of
    aggregate_permissions add_all add includes
custom_listed = Memᴰ.head refl

pub no_owner_role : find_role platform instance_role_where ownerless.db ≡ none
unfolding find_role find_first matches_role
no_owner_role = refl
