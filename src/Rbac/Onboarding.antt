-- ===== src/Rbac/Onboarding.antt =====
-- rbac/services/user-onboarding.service.ts. The number of users is an argument: their table is the
-- authentication library's.
use arcane_backend.Common.{ℕ, Bool, leb, not, ◌&&◌, Exec, reads}
use arcane_backend.Platform.{Platform, World}
use arcane_backend.Rbac.Membership.{is_found}

module _ (p : Platform) where
  unfoldable pub is_first_user : ℕ → Exec (World p) Bool
  is_first_user user_count = reads (λ w. not (is_found w.db.user_roles) && leb user_count 1)
