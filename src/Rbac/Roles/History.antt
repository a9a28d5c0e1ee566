-- ===== src/Rbac/Roles/History.antt =====
-- Any sequence of requests to the roles service: what it can never change.
use arcane_backend.Common.{String, Option, List, [], ◌∷◌, refl, inl, inr}
use arcane_backend.Platform.{Platform, World}
use arcane_backend.Platform.Laws.{IsLawful}
use arcane_backend.Rbac.Roles.{CreateRoleRequest, UpdateRoleRequest, create, update, delete}
use arcane_backend.Rbac.Roles.Outcomes.{delete_lem}
use arcane_backend.Rbac.Roles.Changes.{update_lem}
use arcane_backend.Rbac.Roles.Creation.{create_lem}
use arcane_backend.Rbac.Roles.Soundness.{
  IsPlainUpdate, IsRoleTable, IsSafeStep, IsReplaced-IsSafeStep, IsCreated-IsSafeStep,
  IsSafeStep-same, IsUpdated-IsRoleTable, IsUpdated-IsSafeStep,
}

-- A request of an organisation, by an actor, with or without a project.
pub data RoleRequest : Type 0 where
  creating : String → CreateRoleRequest → String → Option String → RoleRequest
  updating : String → String → UpdateRoleRequest → String → Option String → RoleRequest
  deleting : String → String → String → Option String → RoleRequest

-- No update of the list names the id or the flag of a system role.
abbrev pub IsPlain : RoleRequest → Type 0
IsPlain (creating o dto actor pr) = Unit
IsPlain (updating o role_id dto actor pr) = IsPlainUpdate dto
IsPlain (deleting o role_id actor pr) = Unit

abbrev pub ArePlain : List RoleRequest → Type 0
ArePlain [] = Unit
ArePlain (request ∷ requests) = IsPlain request × ArePlain requests

module _ (p : Platform) where
  -- What a request leaves behind, whether it is answered or refused.
  pub perform : RoleRequest → World p → World p
  perform (creating o dto actor pr) w = (create p o dto actor pr w).1
  perform (updating o role_id dto actor pr) w = (update p o role_id dto actor pr w).1
  perform (deleting o role_id actor pr) w = (delete p o role_id actor pr w).1

  pub perform_all : List RoleRequest → World p → World p
  perform_all [] w = w
  perform_all (request ∷ requests) w = perform_all requests (perform request w)

module _ (p : Platform) (laws : IsLawful p) where
  -- What an update has put keeps the tables sound, and a plain one the system roles.
  update-IsRoleTable :
      (o role_id actor : String) (dto : UpdateRoleRequest) (pr : Option String) (w : World p)
      → IsRoleTable w.db
      → IsRoleTable (update p o role_id dto actor pr w).1.db
        × (IsPlainUpdate dto → IsSafeStep w.db (update p o role_id dto actor pr w).1.db)
  update-IsRoleTable o role_id actor dto pr w s =
      elim (update_lem p laws o role_id actor dto pr w) [
        | inl (x, t, e, same, _) ↦
            let step = IsSafeStep-same w.db t.db s same in (rw e step.sound, λ _. rw e step)
        | inr (answer, t, e, (role, c, _, _, known, assignments, replaced)) ↦ (
          rw e (IsUpdated-IsRoleTable o role_id dto w.db t.db s role c known assignments replaced),
          λ plain. rw e (
              IsUpdated-IsSafeStep o role_id dto w.db t.db s role c known assignments replaced
                plain),
        )
      ]

  perform-IsSafeStep :
      (request : RoleRequest) (w : World p)
      → IsRoleTable w.db
      → IsRoleTable (perform p request w).db
        × (IsPlain request → IsSafeStep w.db (perform p request w).db)
  unfolding perform
  perform-IsSafeStep (creating o dto actor pr) w s = elim (create_lem p laws o actor dto pr w) [
    | inl (x, t, e, same, _) ↦
        let step = IsSafeStep-same w.db t.db s same in
        (rw (e, perform) step.sound, λ _. rw (e, perform) step)
    | inr (id, t, e, h) ↦
        let step = IsCreated-IsSafeStep o pr dto w.db id t.db s h in
        (rw (e, perform) step.sound, λ _. rw (e, perform) step)
  ]
  perform-IsSafeStep (updating o role_id dto actor pr) w s =
      update-IsRoleTable o role_id actor dto pr w s
  perform-IsSafeStep (deleting o role_id actor pr) w s =
      elim (delete_lem p laws o role_id actor pr w s.consistent) [
        | inl (x, t, e, same, _) ↦
            let step = IsSafeStep-same w.db t.db s same in
            (rw (e, perform) step.sound, λ _. rw (e, perform) step)
        | inr (role, c, _, (t, e, h)) ↦
            let step = IsReplaced-IsSafeStep role w.db t.db s c.known c.custom h in
            (rw (e, perform) step.sound, λ _. rw (e, perform) step)
      ]

  -- From sound tables, whatever creations, updates and deletions of roles are asked for, answered or
  -- refused, the tables are sound at the end: ids are unique, every assignment has its role and
  -- comes once, and custom roles hold known permissions only. This is so also where an update
  -- names columns that it should not, as the id.
  pub perform_all-IsRoleTable :
      (requests : List RoleRequest) (w : World p)
      → IsRoleTable w.db
      → IsRoleTable (perform_all p requests w).db
  unfolding perform_all
  perform_all-IsRoleTable [] w s = s
  perform_all-IsRoleTable (request ∷ requests) w s =
      perform_all-IsRoleTable requests (perform p request w) (perform-IsSafeStep request w s).0

  -- From sound tables, after creations, deletions and updates of roles, none of which names the id
  -- or the flag of a system role, answered or refused: the tables are sound, and the system roles
  -- are exactly those of the start, unchanged.
  pub perform_all-IsSafeStep :
      (requests : List RoleRequest) (w : World p)
      → ArePlain requests
      → IsRoleTable w.db
      → IsSafeStep w.db (perform_all p requests w).db
  unfolding perform_all
  perform_all-IsSafeStep [] w plain s = IsSafeStep-same w.db w.db s refl
  perform_all-IsSafeStep (request ∷ requests) w (here, later) s =
      let first = (perform-IsSafeStep request w s).1 here in
      let rest = perform_all-IsSafeStep requests (perform p request w) later first.sound in
      record {
        sound = rest.sound;
        system_roles = λ r system. (
          λ m. (first.system_roles r system).0 ((rest.system_roles r system).0 m),
          λ m. (rest.system_roles r system).1 ((first.system_roles r system).1 m),
        );
      }
