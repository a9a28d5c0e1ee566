-- ===== src/Examples/InMemory.antt =====
-- A platform in memory: the tables are lists, the cache has one slot, for the roles of a user, and the
-- audit log takes every event.
use Prim.Native.Nat.{Ordering}
use Prim.Native.String.{compare, ◌++◌ as ◌then◌}
use arcane_backend.Common.{
  ℕ, leb, String, Option, none, some, Bool, true, false, ◌&&◌, ◌==◌, List, [], ◌∷◌, ◌++◌,
  find_first, filter_by, not, if◌then◌else◌,
}
use arcane_backend.Rbac.Role.{Role, UserRole}
use arcane_backend.Platform.{
  Platform, CacheKey, Cached, user_roles_key, instance_role_key, organisation_role_key,
  project_role_key, default_project_role_key, default_organisation_role_key, owner_role_key,
}

-- The entry of the slot: user, organisation, project, and the roles.
pub record Slot : Type 0 where
  pub user : String
  pub organisation : String
  pub project : String
  pub roles : List Role

abbrev pub is_slot : String → String → String → Slot → Bool
is_slot u o r s = s.user == u && (s.organisation == o && s.project == r)

abbrev pub read_slot : String → String → String → Option Slot → Option (List Role)
read_slot u o r none = none
read_slot u o r (some s) = if is_slot u o r s then some s.roles else none

abbrev pub delete_slot : String → String → String → Option Slot → Option Slot
delete_slot u o r none = none
delete_slot u o r (some s) = if is_slot u o r s then none else some s

abbrev pub get_entry : (k : CacheKey) → Option Slot → Option (Cached k)
get_entry (user_roles_key u o r) slot = read_slot u o r slot
get_entry (instance_role_key _) _ = none
get_entry (organisation_role_key _ _) _ = none
get_entry (project_role_key _ _) _ = none
get_entry (default_project_role_key _ _) _ = none
get_entry (default_organisation_role_key _) _ = none
get_entry owner_role_key _ = none

abbrev pub set_entry : (k : CacheKey) → Cached k → Option Slot → Option Slot
set_entry (user_roles_key u o r) v slot =
    some (record { user = u; organisation = o; project = r; roles = v })
set_entry (instance_role_key _) _ slot = slot
set_entry (organisation_role_key _ _) _ slot = slot
set_entry (project_role_key _ _) _ slot = slot
set_entry (default_project_role_key _ _) _ slot = slot
set_entry (default_organisation_role_key _) _ slot = slot
set_entry owner_role_key _ slot = slot

abbrev pub delete_entry : CacheKey → Option Slot → Option Slot
delete_entry (user_roles_key u o r) slot = delete_slot u o r slot
delete_entry (instance_role_key _) slot = slot
delete_entry (organisation_role_key _ _) slot = slot
delete_entry (project_role_key _ _) slot = slot
delete_entry (default_project_role_key _ _) slot = slot
delete_entry (default_organisation_role_key _) slot = slot
delete_entry owner_role_key slot = slot

abbrev pub is_found_by {ℓ} : {A : Type ℓ} → (A → Bool) → List A → Bool
is_found_by test [] = false
is_found_by test (x ∷ xs) = if test x then true else is_found_by test xs

unfoldable pub without {ℓ} : {A : Type ℓ} → (A → Bool) → List A → List A
unfolding filter_by
without test rows = filter_by (λ x. not (test x)) rows

unfoldable pub replaced_by {ℓ} : {A : Type ℓ} → (A → Bool) → A → List A → List A
unfolding without
replaced_by test y rows = if is_found_by test rows then y ∷ without test rows else without test rows

-- The assignments of one role, and all of them.
abbrev pub joined_with : List UserRole → Role → List (UserRole × Role)
joined_with [] role = []
joined_with (x ∷ xs) role =
    if role.id == x.role_id then (x, role) ∷ joined_with xs role else joined_with xs role

abbrev pub joined : List UserRole → List Role → List (UserRole × Role)
joined xs [] = []
joined xs (role ∷ roles) = joined_with xs role ++ joined xs roles

abbrev pub is_before : String → String → Bool
is_before s t = elim (compare s t) [ Ordering.lt ↦ true | Ordering.eq ↦ true | Ordering.gt ↦ false ]

abbrev pub placed {ℓ} : {A : Type ℓ} → (A → String) → A → List A → List A
placed column y [] = y ∷ []
placed column y (x ∷ xs) =
    if is_before (column y) (column x) then y ∷ x ∷ xs else x ∷ placed column y xs

-- insertion sort by a column
abbrev pub sorted {ℓ} : {A : Type ℓ} → (A → String) → List A → List A
sorted column [] = []
sorted column (x ∷ xs) = placed column x (sorted column xs)

-- The later of a row and what has been found behind it.
abbrev pub later_of {ℓ} : {A : Type ℓ} → (A → ℕ) → A → Option A → Option A
later_of at x none = some x
later_of at x (some y) = if leb (at y) (at x) then some x else some y

abbrev pub latest {ℓ} : {A : Type ℓ} → (A → ℕ) → List A → Option A
latest at [] = none
latest at (x ∷ xs) = later_of at x (latest at xs)

abbrev pub all_ids : List String → String
all_ids [] = ""
all_ids (id ∷ ids) = id then all_ids ids

abbrev pub platform : Platform
platform = record {
  Cache = Option Slot;
  cache_get = get_entry;
  cache_set = set_entry;
  cache_del = delete_entry;
  find = filter_by;
  find_in_order = λ column test rows. sorted column (filter_by test rows);
  find_one = find_first;
  find_latest = λ at test rows. latest at (filter_by test rows);
  insert = λ y rows. y ∷ rows;
  replace = replaced_by;
  remove = without;
  join_role = joined;
  new_id = λ ids. "x" then all_ids ids;
  is_id = λ s. not (s == "");
  null_where = λ v. true;
  sink_write = λ event log. some (event ∷ log);
}
