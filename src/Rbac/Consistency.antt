-- ===== src/Rbac/Consistency.antt =====
-- What the constraints of the tables promise: the key of the roles, the foreign key and the unique
-- pairs of the assignments.
use arcane_backend.Common.{◌≡◌, Memᴰ}
use arcane_backend.Platform.{Db}
use arcane_backend.Platform.Laws.{Distinct}
use arcane_backend.Rbac.Role.{Role, UserRole}

pub record IsConsistent (db : Db) : Type 0 where
  pub unique_ids : (r s : Role) → Memᴰ r db.roles → Memᴰ s db.roles → r.id ≡ s.id → r ≡ s
  pub known_roles :
      (x : UserRole) → Memᴰ x db.user_roles → (r : Role) × Memᴰ r db.roles × (r.id ≡ x.role_id)
  pub distinct : Distinct db.user_roles
