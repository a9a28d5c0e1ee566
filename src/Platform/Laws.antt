-- ===== src/Platform/Laws.antt =====
-- The documented behaviour of the third-party code that the proofs rely on.
use arcane_backend.Common.{
  ℕ, ◌≤◌, String, none, some, Bool, true, false, List, [], ◌∷◌, ◌≡◌, ◌⊎◌, ◌↔◌, Memᴰ,
}
use arcane_backend.Rbac.Role.{Role, UserRole}
use arcane_backend.Platform.{Platform, CacheKey, Cached}

-- Every entry of the cache has the property.
abbrev pub AllCached : (p : Platform) → ((k : CacheKey) → Cached k → Type 0) → p.Cache → Type 0
AllCached p P cache = (k : CacheKey) (v : Cached k) → p.cache_get k cache ≡ some v → P k v

-- No row comes twice.
abbrev pub Distinct : {E : Type 0} → List E → Type 0
Distinct [] = Unit
Distinct (x ∷ xs) = (¬ Memᴰ x xs) × Distinct xs

pub record IsLawful (p : Platform) : Type 1 where
  -- A query answers with the rows that meet its condition, in some order.
  pub mem_find :
      {E : Type 0} (test : E → Bool) (rows : List E) (x : E)
      → Memᴰ x (p.find test rows) ↔ (Memᴰ x rows × (test x ≡ true))
  pub find_one_some :
      {E : Type 0} (test : E → Bool) (rows : List E) (x : E)
      → p.find_one test rows ≡ some x
      → Memᴰ x rows × (test x ≡ true)
  pub find_one_none :
      {E : Type 0} (test : E → Bool) (rows : List E) (x : E)
      → p.find_one test rows ≡ none
      → Memᴰ x rows
      → test x ≡ false
  pub find_latest_some :
      {E : Type 0} (at : E → ℕ) (test : E → Bool) (rows : List E) (x : E)
      → p.find_latest at test rows ≡ some x
      → Memᴰ x rows × (test x ≡ true) × ((y : E) → Memᴰ y rows → test y ≡ true → at y ≤ at x)
  pub find_latest_none :
      {E : Type 0} (at : E → ℕ) (test : E → Bool) (rows : List E) (x : E)
      → p.find_latest at test rows ≡ none
      → Memᴰ x rows
      → test x ≡ false
  pub mem_insert :
      {E : Type 0} (y : E) (rows : List E) (x : E)
      → Memᴰ x (p.insert y rows) ↔ ((x ≡ y) ⊎ Memᴰ x rows)
  pub mem_replace :
      {E : Type 0} (test : E → Bool) (y : E) (rows : List E) (x : E)
      → Memᴰ x (p.replace test y rows)
        ↔ ((Memᴰ x rows × (test x ≡ false)) ⊎ ((x ≡ y) × ((z : E) × Memᴰ z rows × (test z ≡ true))))
  pub mem_remove :
      {E : Type 0} (test : E → Bool) (rows : List E) (x : E)
      → Memᴰ x (p.remove test rows) ↔ (Memᴰ x rows × (test x ≡ false))
  -- Distinct rows stay distinct.
  pub find_Distinct :
      {E : Type 0} (test : E → Bool) (rows : List E) → Distinct rows → Distinct (p.find test rows)
  pub insert_Distinct :
      {E : Type 0} (y : E) (rows : List E)
      → Distinct rows
      → ¬ Memᴰ y rows
      → Distinct (p.insert y rows)
  pub remove_Distinct :
      {E : Type 0} (test : E → Bool) (rows : List E) → Distinct rows → Distinct (p.remove test rows)
  pub mem_join_role :
      (user_roles : List UserRole) (roles : List Role) (x : UserRole) (r : Role)
      → Memᴰ (x, r) (p.join_role user_roles roles)
        ↔ (Memᴰ x user_roles × Memᴰ r roles × (r.id ≡ x.role_id))
  pub new_id_fresh : (ids : List String) → ¬ Memᴰ (p.new_id ids) ids
  -- A null column meets the condition null. Whether other columns do depends on a setting.
  pub null_where_none : p.null_where none ≡ true
  -- The cache invents no entry: what it holds has been set, and not deleted since. It may drop
  -- entries at any time.
  pub set_AllCached :
      (P : (k : CacheKey) → Cached k → Type 0) (k : CacheKey) (v : Cached k) (cache : p.Cache)
      → AllCached p P cache
      → P k v
      → AllCached p P (p.cache_set k v cache)
  pub del_AllCached :
      (P : (k : CacheKey) → Cached k → Type 0) (k : CacheKey) (cache : p.Cache)
      → AllCached p P cache
      → AllCached p P (p.cache_del k cache)
  pub get_del : (k : CacheKey) (cache : p.Cache) → p.cache_get k (p.cache_del k cache) ≡ none
