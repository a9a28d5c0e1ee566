-- ===== src/Rbac/Membership.antt =====
-- rbac/services/rbac-membership.service.ts
pub mod Laws
use arcane_backend.Common.{
  String, some, Bool, true, false, ◌&&◌, ◌||◌, ◌==◌, List, [], ◌∷◌, map, Exec, reads, same_id, add,
  if◌then◌else◌,
}
use arcane_backend.Platform.{Platform, World}
use arcane_backend.Rbac.Role.{Role, UserRole, is_instance_scope}

-- `result.length > 0`
abbrev pub is_found {ℓ} : {A : Type ℓ} → List A → Bool
is_found [] = false
is_found (_ ∷ _) = true

abbrev pub has_project_access : String → Role → Bool
has_project_access project_id role =
    is_instance_scope role || same_id role.project_id (some project_id)

-- the loop of `getUsersWithProjectAccess`
pub access_from : String → List String → List (UserRole × Role) → List String
access_from project_id user_ids [] = user_ids
access_from project_id user_ids ((x, role) ∷ rows) =
    access_from project_id
      (if has_project_access project_id role then add user_ids x.user_id else user_ids) rows

module _ (p : Platform) where
  -- the row (organisation, user) of a membership table
  abbrev pub is_row : String → String → String × String → Bool
  is_row owner_id user_id row = row.0 == owner_id && row.1 == user_id

  unfoldable pub is_member : String → String → Exec (World p) Bool
  is_member organisation_id user_id =
      reads (λ w. is_found (p.find (is_row organisation_id user_id) w.db.organisation_users))

  unfoldable pub is_project_member : String → String → Exec (World p) Bool
  is_project_member project_id user_id =
      reads (λ w. is_found (p.find (is_row project_id user_id) w.db.project_users))

  unfoldable pub get_user_organisation_ids : String → Exec (World p) (List String)
  get_user_organisation_ids user_id =
      reads (λ w. map (λ row. row.0) (p.find (λ row. row.1 == user_id) w.db.organisation_users))

  unfoldable pub get_user_project_ids : String → Exec (World p) (List String)
  get_user_project_ids user_id =
      reads (λ w. map (λ row. row.0) (p.find (λ row. row.1 == user_id) w.db.project_users))

  unfoldable pub get_users_with_project_access : String → Exec (World p) (List String)
  unfolding access_from
  get_users_with_project_access project_id =
      reads (λ w. access_from project_id [] (p.join_role w.db.user_roles w.db.roles))
