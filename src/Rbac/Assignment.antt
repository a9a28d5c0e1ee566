-- ===== src/Rbac/Assignment.antt =====
-- rbac/services/rbac-assignment.service.ts. The flag is whether an entity manager is passed, that
-- is, whether the call is a part of a transaction.
pub mod Laws
use arcane_backend.Common.{
  String, Option, none, some, Bool, true, false, ◌&&◌, ◌==◌, List, map, Exec, pure, reads, modify,
  or_throw, ◌>>=◌, ◌>>◌,
}
use arcane_backend.Exception.{not_found, role_not_found}
use arcane_backend.Platform.{Platform, Db, World, RoleWhere, any_role, equals, instance_role_key}
use arcane_backend.Rbac.Role.{UserRole}
use arcane_backend.Rbac.DefaultRole.{find_role}

abbrev pub id_where : String → RoleWhere
id_where role_id = record any_role { id = equals role_id }

abbrev pub is_assignment : String → String → UserRole → Bool
is_assignment user_id role_id x = x.user_id == user_id && x.role_id == role_id

module _ (p : Platform) where
  unfoldable pub invalidate_user_role_caches : String → Exec (World p) (Unit {0})
  invalidate_user_role_caches user_id =
      modify (λ w. record w { cache = p.cache_del (instance_role_key user_id) w.cache })

  abbrev pub unless : Bool → Exec (World p) (Unit {0}) → Exec (World p) (Unit {0})
  unless true action = pure tt
  unless false action = action

  abbrev pub find_assignment : String → String → Db → Option UserRole
  find_assignment user_id role_id db = p.find_one (is_assignment user_id role_id) db.user_roles

  abbrev pub insert_assignment : String → String → World p → World p
  insert_assignment user_id role_id w = record w {
    db = record (w.db) {
      user_roles = p.insert (record { user_id = user_id; role_id = role_id }) w.db.user_roles;
    };
  }

  abbrev pub delete_assignment : UserRole → World p → World p
  delete_assignment found w = record w {
    db = record (w.db) {
      user_roles = p.remove (is_assignment found.user_id found.role_id) w.db.user_roles;
    };
  }

  -- The part of `assignRole` behind the early return.
  unfoldable pub assign_new_role :
      String → String → Bool → Option UserRole → Exec (World p) (Unit {0})
  assign_new_role user_id role_id in_transaction (some _) = pure tt
  assign_new_role user_id role_id in_transaction none = do
    role ← reads (λ w. find_role p (id_where role_id) w.db)
    _ ← or_throw role (not_found (role_not_found role_id))
    modify (insert_assignment user_id role_id)
    unless in_transaction (invalidate_user_role_caches user_id)

  unfoldable pub assign_role : String → String → Bool → Exec (World p) (Unit {0})
  unfolding assign_new_role invalidate_user_role_caches find_role
  assign_role user_id role_id in_transaction = do
    existing ← reads (λ w. find_assignment user_id role_id w.db)
    assign_new_role user_id role_id in_transaction existing

  unfoldable pub remove_found_role : String → Bool → Option UserRole → Exec (World p) (Unit {0})
  remove_found_role user_id in_transaction none = pure tt
  remove_found_role user_id in_transaction (some found) = do
    modify (delete_assignment found)
    unless in_transaction (invalidate_user_role_caches user_id)

  unfoldable pub remove_role : String → String → Bool → Exec (World p) (Unit {0})
  unfolding remove_found_role invalidate_user_role_caches
  remove_role user_id role_id in_transaction = do
    found ← reads (λ w. find_assignment user_id role_id w.db)
    remove_found_role user_id in_transaction found

  unfoldable pub get_user_ids_for_role : String → Exec (World p) (List String)
  get_user_ids_for_role role_id =
      reads (λ w. map (λ x. x.user_id) (p.find (λ x. x.role_id == role_id) w.db.user_roles))
