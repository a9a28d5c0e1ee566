-- ===== src/Examples/SlotLaws.antt =====
-- The one slot of the cache in memory keeps the laws of a cache.
use arcane_backend.Common.{
  String, Option, none, some, true, ◌&&◌, ◌==◌, List, ◌≡◌, refl, sym, ◌∙◌, ◌≢◌, inl, inr, eq_iff,
  Bool-cases, and-eq-true,
}
use arcane_backend.Rbac.Role.{Role}
use arcane_backend.Platform.{
  CacheKey, Cached, user_roles_key, instance_role_key, organisation_role_key, project_role_key,
  default_project_role_key, default_organisation_role_key, owner_role_key,
}
use arcane_backend.Platform.Laws.{AllCached}
use arcane_backend.Examples.InMemory.{Slot, platform, is_slot, set_entry, delete_entry, get_entry}

pub set_AllCached :
    (P : (k : CacheKey) → Cached k → Type 0) (k : CacheKey) (v : Cached k) (cache : Option Slot)
    → AllCached platform P cache
    → P k v
    → AllCached platform P (set_entry k v cache)
set_AllCached P (user_roles_key u o r) v cache h hv (user_roles_key x y z) found e =
    elim (Bool-cases (u == x && (o == y && r == z))) [
      | inr other ↦ absurd (no_entry (rw other at e))
      | inl same ↦
          let (a, rest) = and-eq-true (u == x) (o == y && r == z) same in
          let (b, c) = and-eq-true (o == y) (r == z) rest in
          entry ((eq_iff u x).0 a) ((eq_iff o y).0 b) ((eq_iff r z).0 c) (rw same at e)
    ]
  where
    no_entry : {w : List Role} → none ≢ some w
    no_entry q = cc

    entry : u ≡ x → o ≡ y → r ≡ z → some v ≡ some found → P (user_roles_key x y z) found
    entry a b c q = let same : v ≡ found = cc in rw (← a, ← b, ← c, ← same) hv
set_AllCached P (user_roles_key u o r) v cache h hv (instance_role_key _) found e = absurd (cc)
set_AllCached P (user_roles_key u o r) v cache h hv (organisation_role_key _ _) found e =
    absurd (cc)
set_AllCached P (user_roles_key u o r) v cache h hv (project_role_key _ _) found e = absurd (cc)
set_AllCached P (user_roles_key u o r) v cache h hv (default_project_role_key _ _) found e =
    absurd (cc)
set_AllCached P (user_roles_key u o r) v cache h hv (default_organisation_role_key _) found e =
    absurd (cc)
set_AllCached P (user_roles_key u o r) v cache h hv owner_role_key found e = absurd (cc)
set_AllCached P (instance_role_key _) v cache h hv k found e = h k found e
set_AllCached P (organisation_role_key _ _) v cache h hv k found e = h k found e
set_AllCached P (project_role_key _ _) v cache h hv k found e = h k found e
set_AllCached P (default_project_role_key _ _) v cache h hv k found e = h k found e
set_AllCached P (default_organisation_role_key _) v cache h hv k found e = h k found e
set_AllCached P owner_role_key v cache h hv k found e = h k found e

get-none : (k : CacheKey) → get_entry k none ≡ none
get-none (user_roles_key _ _ _) = refl
get-none (instance_role_key _) = refl
get-none (organisation_role_key _ _) = refl
get-none (project_role_key _ _) = refl
get-none (default_project_role_key _ _) = refl
get-none (default_organisation_role_key _) = refl
get-none owner_role_key = refl

pub empty-AllCached : (P : (k : CacheKey) → Cached k → Type 0) → AllCached platform P none
empty-AllCached P k v e = let n = get-none k in absurd (cc)

pub del_AllCached :
    (P : (k : CacheKey) → Cached k → Type 0) (k : CacheKey) (cache : Option Slot)
    → AllCached platform P cache
    → AllCached platform P (delete_entry k cache)
del_AllCached P (user_roles_key u o r) none h = h
del_AllCached P (user_roles_key u o r) (some s) h = elim (Bool-cases (is_slot u o r s)) [
  | inl e ↦ rw e (empty-AllCached P)
  | inr e ↦ rw e h
]
del_AllCached P (instance_role_key _) cache h = h
del_AllCached P (organisation_role_key _ _) cache h = h
del_AllCached P (project_role_key _ _) cache h = h
del_AllCached P (default_project_role_key _ _) cache h = h
del_AllCached P (default_organisation_role_key _) cache h = h
del_AllCached P owner_role_key cache h = h

pub get_del : (k : CacheKey) (cache : Option Slot) → get_entry k (delete_entry k cache) ≡ none
get_del (user_roles_key u o r) none = refl
get_del (user_roles_key u o r) (some s) = elim (Bool-cases (is_slot u o r s)) [
  | inl e ↦ rw e refl
  | inr e ↦ rw (e, e) refl
]
get_del (instance_role_key _) cache = refl
get_del (organisation_role_key _ _) cache = refl
get_del (project_role_key _ _) cache = refl
get_del (default_project_role_key _ _) cache = refl
get_del (default_organisation_role_key _) cache = refl
get_del owner_role_key cache = refl

same_key :
    (u o r a b c : String) (s : Slot)
    → is_slot u o r s ≡ true
    → is_slot a b c s ≡ true
    → user_roles_key a b c ≡ user_roles_key u o r
same_key u o r a b c s h k =
    let (h₁, h₂) = and-eq-true (s.user == u) (s.organisation == o && s.project == r) h in
    let (h₃, h₄) = and-eq-true (s.organisation == o) (s.project == r) h₂ in
    let (k₁, k₂) = and-eq-true (s.user == a) (s.organisation == b && s.project == c) k in
    let (k₃, k₄) = and-eq-true (s.organisation == b) (s.project == c) k₂ in
    let e₁ = sym ((eq_iff s.user a).0 k₁) ∙ (eq_iff s.user u).0 h₁ in
    let e₂ = sym ((eq_iff s.organisation b).0 k₃) ∙ (eq_iff s.organisation o).0 h₃ in
    let e₃ = sym ((eq_iff s.project c).0 k₄) ∙ (eq_iff s.project r).0 h₄ in
    λ i. user_roles_key (e₁ i) (e₂ i) (e₃ i)

pub get-del_other :
    (cache : Option Slot) (k j : CacheKey)
    → k ≢ j
    → get_entry k (delete_entry j cache) ≡ get_entry k cache
get-del_other none (user_roles_key a b c) (user_roles_key u o r) h = refl
get-del_other (some s) (user_roles_key a b c) (user_roles_key u o r) h =
    elim (Bool-cases (is_slot u o r s)) [
      | inr e ↦ rw e refl
      | inl e ↦ elim (Bool-cases (is_slot a b c s)) [
        | inr f ↦ rw (e, f) refl
        | inl f ↦ absurd (h (same_key u o r a b c s e f))
      ]
    ]
get-del_other cache (user_roles_key a b c) (instance_role_key _) h = refl
get-del_other cache (user_roles_key a b c) (organisation_role_key _ _) h = refl
get-del_other cache (user_roles_key a b c) (project_role_key _ _) h = refl
get-del_other cache (user_roles_key a b c) (default_project_role_key _ _) h = refl
get-del_other cache (user_roles_key a b c) (default_organisation_role_key _) h = refl
get-del_other cache (user_roles_key a b c) owner_role_key h = refl
get-del_other cache (instance_role_key _) j h = refl
get-del_other cache (organisation_role_key _ _) j h = refl
get-del_other cache (project_role_key _ _) j h = refl
get-del_other cache (default_project_role_key _ _) j h = refl
get-del_other cache (default_organisation_role_key _) j h = refl
get-del_other cache owner_role_key j h = refl
