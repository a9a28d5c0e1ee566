-- ===== src/SignUp/Laws.antt =====
-- auth/services/auth-hooks.service.ts: whom an invitation lets in.
use arcane_backend.Common.{
  ℕ, ◌≤◌, ◌<◌, String, Option, none, some, Bool, true, false, List, ◌≡◌, refl, sym, ap, ◌⊎◌, ◌↔◌,
  inr, ◌∙◌, Memᴰ, eq_iff, ok, err, ltb, truthy, arith, subst,
}
use arcane_backend.Exception.{bad_request, invite_required}
use arcane_backend.Entities.{pending, accepted}
use arcane_backend.Platform.{Platform, Db, World}
use arcane_backend.Platform.Laws.{IsLawful}
use arcane_backend.Organisations.Invitations.{
  InviteTools, pending_where, drop_expired, expire, find_pending_by_email, with_invitations,
  consume_invite, has_id, save_invitation,
}
use arcane_backend.Organisations.Invitations.Changes.{Invite}
use arcane_backend.Organisations.Invitations.Laws.{waits, is_pending_iff}
use arcane_backend.Organisations.Members.{add_user_by_id}
use arcane_backend.Rbac.Assignment.Laws.{assignment}
use arcane_backend.Rbac.Current.{CacheIsCurrent}
use arcane_backend.Organisations.Members.Laws.{add_user_by_id_lem}
use arcane_backend.Rbac.Membership.Laws.{is_found_iff}
use arcane_backend.Rbac.Onboarding.{is_first_user}
use arcane_backend.Rbac.Role.{Role, UserRole}
use arcane_backend.Rbac.Roles.{or_null}
use arcane_backend.SignUp.{process_user, process_invitation}

-- An invitation once it has been accepted.
abbrev pub accepted_at_time : Invite → ℕ → Invite
accepted_at_time x now = record x { status = accepted; accepted_at = some now }

module _ (p : Platform) (laws : IsLawful p) (t : InviteTools) (now : ℕ) (email : String)
    (w : World p) where
  -- A pending invitation for the email, and no later one there is.
  abbrev pub IsNewest : Invite → Type 0
  IsNewest x =
      Memᴰ x w.db.invitations
      × (x.email ≡ t.normalize_email email)
      × (x.status ≡ pending)
      × ((y : Invite)
          → Memᴰ y w.db.invitations
          → y.email ≡ t.normalize_email email
          → y.status ≡ pending
          → y.created_at ≤ x.created_at)

  waiting :
      (y : Invite)
      → y.email ≡ t.normalize_email email
      → y.status ≡ pending
      → pending_where p t now email none y ≡ true
  waiting y e s =
      rw ((eq_iff y.email (t.normalize_email email)).1 e) ((is_pending_iff y.status).1 s)

  latest-IsNewest :
      (x : Invite)
      → p.find_latest
          (λ (y : Invite). y.created_at)
          (pending_where p t now email none)
          w.db.invitations
        ≡ some x
      → IsNewest x
  latest-IsNewest x e =
      let (m, h, most) = laws.find_latest_some _ _ w.db.invitations x e in
      let (a, b) = waits p laws t now email none x h in
      (m, a, b, λ y k f s. most y k (waiting y f s))

  find_pending-none :
      ((x : Invite) → IsNewest x → x.expires_at < now)
      → (rows : List Invite) × (find_pending_by_email p t now email none w
          ≡ (ok none, with_invitations p w rows))
  unfolding find_pending_by_email
  find_pending-none late = go _ refl
    where
      go :
          (q : Option Invite)
          → p.find_latest
              (λ (y : Invite). y.created_at)
              (pending_where p t now email none)
              w.db.invitations
            ≡ q
          → (rows : List Invite) × (drop_expired p t now q w ≡ (ok none, with_invitations p w rows))
      go none e = (w.db.invitations, refl)
      go (some x) e = (
        (save_invitation p (expire x) w).db.invitations,
        rw (lt_ltb x.expires_at now (late x (latest-IsNewest x e))) refl,
      )
        where
          lt_ltb : (a b : ℕ) → a < b → ltb a b ≡ true
          lt_ltb a b h = ground arith

  find_pending-some :
      (x : Invite)
      → IsNewest x
      → ((y : Invite) → IsNewest y → y ≡ x)
      → now ≤ x.expires_at
      → find_pending_by_email p t now email none w ≡ (ok (some x), w)
  unfolding find_pending_by_email
  find_pending-some x newest only soon = go _ refl
    where
      le_ltb : (a b : ℕ) → b ≤ a → ltb a b ≡ false
      le_ltb a b h = ground arith

      go :
          (q : Option Invite)
          → p.find_latest
              (λ (y : Invite). y.created_at)
              (pending_where p t now email none)
              w.db.invitations
            ≡ q
          → drop_expired p t now q w ≡ (ok (some x), w)
      go none e =
          let f = laws.find_latest_none _ _ w.db.invitations x e newest.0 in
          let g = waiting x newest.1 newest.2 in absurd (clash f g)
        where
          clash : {b : Bool} → b ≡ false → b ≡ true → ⊥
          clash f g = cc
      go (some y) e = rw (only y (latest-IsNewest y e), le_ltb x.expires_at now soon) refl

module _ (p : Platform) (laws : IsLawful p) (t : InviteTools) (user_count now : ℕ)
    (user email : String) (w : World p) (holder : UserRole) where
  -- Once somebody has a role: who signs up by email is refused where the newest pending invitation for
  -- the email has expired, also if an older one has not, and where there is none; nothing but
  -- invitations changes then.
  pub process_user-invite_required :
      Memᴰ holder w.db.user_roles
      → truthy (some email) ≡ true
      → ((x : Invite) → IsNewest p laws t now email w x → x.expires_at < now)
      → (rows : List Invite) × (process_user p t user_count now true user (some email) w
          ≡ (err (bad_request invite_required), with_invitations p w rows))
  unfolding process_user process_invitation is_first_user
  process_user-invite_required held given late =
      let (rows, e) = find_pending-none p laws t now email w late in
      (rows, rw ((is_found_iff w.db.user_roles).1 (holder, held), given, e) refl)

module _ (p : Platform) (laws : IsLawful p) (t : InviteTools) (user_count now : ℕ) (required : Bool)
    (user email : String) (w : World p) (holder : UserRole) (x : Invite) (role : Role) where
  -- Once somebody has a role, and from a current cache: a user who signs up or in with an email
  -- whose newest pending invitation has not expired, for a role of the organisation, and
  -- who is no member of it yet, becomes a member of that organisation and no other, has the role, and
  -- the invitation is accepted at that time.
  pub process_user-accepted :
      Memᴰ holder w.db.user_roles
      → truthy (some email) ≡ true
      → IsNewest p laws t now email w x
      → ((y : Invite) → IsNewest p laws t now email w y → y ≡ x)
      → now ≤ x.expires_at
      → CacheIsCurrent p w
      → ¬ Memᴰ (x.organisation_id, user) w.db.organisation_users
      → ((r : Role) → Memᴰ r w.db.roles → r.id ≡ role.id → r ≡ role)
      → Memᴰ role w.db.roles
      → truthy (some role.id) ≡ true
      → x.role_id ≡ some role.id
      → role.organisation_id ≡ some x.organisation_id
      → role.project_id ≡ none
      → (u : World p) × (process_user p t user_count now required user (some email) w ≡ (ok tt, u))
        × ((row : String × String)
            → Memᴰ row u.db.organisation_users
              ↔ ((row ≡ (x.organisation_id, user)) ⊎ Memᴰ row w.db.organisation_users))
        × Memᴰ (assignment user role.id) u.db.user_roles
        × Memᴰ (accepted_at_time x now) u.db.invitations
  unfolding process_user process_invitation is_first_user consume_invite
  process_user-accepted held given newest only soon current out unique known named wanted owned
        general =
      let (u, rows, run, tables, has) =
        add_user_by_id_lem p laws x.organisation_id user role w current out unique known named owned
          general in
      (
        (save_invitation p (accepted_at_time x now) u),
        rw
            (
              (is_found_iff w.db.user_roles).1 (holder, held),
              given,
              find_pending-some p laws t now email w x newest only soon,
              added u run,
            )
            refl,
        λ row.
            subst
              (λ (l : List (String × String)).
                Memᴰ row l ↔ ((row ≡ (x.organisation_id, user)) ⊎ Memᴰ row w.db.organisation_users))
              (sym (ap (λ (d : Db). d.organisation_users) tables))
              (laws.mem_insert (x.organisation_id, user) w.db.organisation_users row),
        subst (Memᴰ (assignment user role.id)) (sym (ap (λ (d : Db). d.user_roles) tables)) has,
        subst
            (λ (l : List Invite).
              Memᴰ (accepted_at_time x now) (p.replace (has_id x.id) (accepted_at_time x now) l))
            (sym (ap (λ (d : Db). d.invitations) tables))
            ((laws.mem_replace (has_id x.id) (accepted_at_time x now) w.db.invitations _).1
              (inr (refl, (x, newest.0, (eq_iff x.id x.id).1 refl)))),
      )
    where
      added :
          (u : World p)
          → add_user_by_id p x.organisation_id user (some role.id) w ≡ (ok tt, u)
          → add_user_by_id p x.organisation_id user (or_null x.role_id) w ≡ (ok tt, u)
      added u run =
          subst (λ (q : Option String). add_user_by_id p x.organisation_id user q w ≡ (ok tt, u))
            (sym (ap or_null wanted ∙ rw named refl)) run
