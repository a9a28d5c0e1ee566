-- ===== src/Rbac/DefaultRole/Laws.antt =====
-- What the queries for the default roles find.
use arcane_backend.Common.{String, Option, none, some, true, ◌≡◌, ap, Memᴰ, arith, eq_iff, same_id}
use arcane_backend.Platform.{Platform, Db, matches_role}
use arcane_backend.Platform.Laws.{IsLawful}
use arcane_backend.Rbac.Role.{Role}
use arcane_backend.Rbac.DefaultRole.{project_member_where, organisation_member_where, find_role}

pub record IsDefaultRole (name organisation_id : String) (db : Db) (role : Role) : Type 0 where
  pub known : Memᴰ role db.roles
  pub system : role.is_system_role ≡ true
  pub named : role.name ≡ name
  pub owned : role.organisation_id ≡ some organisation_id

same_id-eq : (a : Option String) (s : String) → same_id a (some s) ≡ true → a ≡ some s
same_id-eq none s h = absurd (cc)
same_id-eq (some a) s h = ap some ((eq_iff a s).0 h)

module _ (p : Platform) (laws : IsLawful p) (db : Db) (o : String) (role : Role) where
  pub find_role-project_member_where :
      (r : String)
      → find_role p (project_member_where o r) db ≡ some role
      → IsDefaultRole "Member" o db role × (role.project_id ≡ some r)
  unfolding find_role matches_role
  find_role-project_member_where r e =
      let (m, t) = laws.find_one_some _ db.roles role e in
      (
        record {
          known = m;
          system = ground arith;
          named = (eq_iff role.name "Member").0 (ground arith);
          owned = same_id-eq role.organisation_id o (ground arith);
        },
        same_id-eq role.project_id r (ground arith),
      )

  pub find_role-organisation_member_where :
      find_role p (organisation_member_where o) db ≡ some role
      → IsDefaultRole "Organisation Member" o db role
  unfolding find_role matches_role
  find_role-organisation_member_where e =
      let (m, t) = laws.find_one_some _ db.roles role e in
      record {
        known = m;
        system = ground arith;
        named = (eq_iff role.name "Organisation Member").0 (ground arith);
        owned = same_id-eq role.organisation_id o (ground arith);
      }
