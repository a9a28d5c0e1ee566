-- ===== src/Rbac/Seed/Hierarchy.antt =====
-- How the seeded roles compare.
use arcane_backend.Common.{
  String, Bool, true, ◌&&◌, List, [], ◌∷◌, ◌≡◌, refl, ◌⊎◌, inl, inr, Memᴰ, includes, includes_iff,
  and-eq-true,
}
use mathlib.Core.List.Memᴰ
use arcane_backend.Rbac.Permissions.{all_access, all_permissions}
use arcane_backend.Rbac.Role.{Role}
use arcane_backend.Rbac.Grants.{has_permission}
use arcane_backend.Rbac.Grants.Laws.{has_permission_iff}
use arcane_backend.Rbac.Validator.Laws.{AreKnown}
use arcane_backend.Rbac.Seed.{
  organisation_admin_permissions, organisation_member_permissions, project_admin_permissions,
  member_permissions, viewer_permissions,
}

includes_all : List String → List String → Bool
includes_all ys [] = true
includes_all ys (x ∷ xs) = includes ys x && includes_all ys xs

mem-includes_all :
    (ys xs : List String) → includes_all ys xs ≡ true → (x : String) → Memᴰ x xs → Memᴰ x ys
unfolding includes_all
mem-includes_all ys [] h x m = elim m [ ]
mem-includes_all ys (z ∷ zs) h x (Memᴰ.head e) =
    Memᴰ.cast e ((includes_iff ys z).0 (and-eq-true (includes ys z) (includes_all ys zs) h).0)
mem-includes_all ys (z ∷ zs) h x (Memᴰ.tail m) =
    mem-includes_all ys zs (and-eq-true (includes ys z) (includes_all ys zs) h).1 x m

-- Every permission of every seeded role is one that the validator knows.
pub seeded-AreKnown :
    AreKnown organisation_admin_permissions
    × AreKnown organisation_member_permissions
    × AreKnown project_admin_permissions
    × AreKnown member_permissions
    × AreKnown viewer_permissions
unfolding includes_all includes all_permissions organisation_admin_permissions
    organisation_member_permissions project_admin_permissions member_permissions viewer_permissions
seeded-AreKnown = (
  mem-includes_all all_permissions organisation_admin_permissions refl,
  mem-includes_all all_permissions organisation_member_permissions refl,
  mem-includes_all all_permissions project_admin_permissions refl,
  mem-includes_all all_permissions member_permissions refl,
  mem-includes_all all_permissions viewer_permissions refl,
)

has_permission_mono :
    (weak strong : Role)
    → ((x : String) → Memᴰ x weak.permissions → Memᴰ x strong.permissions)
    → (permission : String) → has_permission (weak ∷ []) permission ≡ true
    → has_permission (strong ∷ []) permission ≡ true
has_permission_mono weak strong h permission granted =
    let (r, m, k) = (has_permission_iff (weak ∷ []) permission).0 granted in
    (has_permission_iff (strong ∷ []) permission).1
      (strong, Memᴰ.head refl, move r (Memᴰ.eq_of_singleton m) k)
  where
    move :
        (r : Role)
        → r ≡ weak
        → Memᴰ all_access r.permissions ⊎ Memᴰ permission r.permissions
        → Memᴰ all_access strong.permissions ⊎ Memᴰ permission strong.permissions
    move r e (inl k) = inl (h all_access (rw e at k))
    move r e (inr k) = inr (h permission (rw e at k))

-- Whatever the role "Viewer" permits "Member" permits, and whatever "Member" permits "Project Admin"
-- permits; whatever "Organisation Member" permits "Organisation Admin" permits.
pub seeded_hierarchy :
    (viewer member admin organisation_member organisation_admin : Role) (permission : String)
    → viewer.permissions ≡ viewer_permissions
    → member.permissions ≡ member_permissions
    → admin.permissions ≡ project_admin_permissions
    → organisation_member.permissions ≡ organisation_member_permissions
    → organisation_admin.permissions ≡ organisation_admin_permissions
    → (has_permission (viewer ∷ []) permission ≡ true
        → has_permission (member ∷ []) permission ≡ true)
      × (has_permission (member ∷ []) permission ≡ true
          → has_permission (admin ∷ []) permission ≡ true)
      × (has_permission (organisation_member ∷ []) permission ≡ true
          → has_permission (organisation_admin ∷ []) permission ≡ true)
unfolding includes_all includes organisation_admin_permissions organisation_member_permissions
    project_admin_permissions member_permissions viewer_permissions
seeded_hierarchy viewer member admin organisation_member organisation_admin permission e₁ e₂ e₃ e₄
      e₅ =
    (
      has_permission_mono viewer member
          (rw (e₁, e₂) (mem-includes_all member_permissions viewer_permissions refl)) permission,
      has_permission_mono member admin
          (rw (e₂, e₃) (mem-includes_all project_admin_permissions member_permissions refl))
          permission,
      has_permission_mono organisation_member organisation_admin
          (rw (e₄, e₅)
            (mem-includes_all organisation_admin_permissions organisation_member_permissions refl))
          permission,
    )
