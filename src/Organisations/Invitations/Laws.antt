-- ===== src/Organisations/Invitations/Laws.antt =====
-- The table of invitations under any sequence of calls of the service.
use mathlib.Core.List.Memᴰ
use arcane_backend.Common.{
  ℕ, String, Option, none, some, Bool, true, ◌≡◌, refl, sym, ap, ◌⊎◌, ◌↔◌, inl, inr, ◌≢◌, ◌∙◌, Memᴰ,
  eq_iff, Bool-cases, and-eq-true, ltb, subst, truthy, or_empty, ◌==◌,
}
use arcane_backend.Entities.{InvitationStatus, pending, accepted, expired, revoked}
use arcane_backend.Platform.{Platform, World}
use arcane_backend.Platform.Laws.{IsLawful}
use arcane_backend.Organisations.Invitations.{
  InviteTools, InviteCheckResult, valid, is_pending, is_pending_in, expire, has_id, has_token,
  resent, new_invitation, save_invitation, invite_anew, invite_over, create_invite, check_dates,
  check_status, check_found, check_invite, is_for_other, drop_expired, pending_where,
  find_pending_by_email, consume_invite,
}
use arcane_backend.Organisations.Invitations.Changes.{
  Invite, Leads, stay, lapse, take_up, IsInviteTable, IsSettled, IsLater, IsInviteStep,
  IsInviteStep-same, IsInviteStep-trans, insert-IsInviteStep, save-IsInviteStep,
}

pub is_pending_iff : (s : InvitationStatus) → (is_pending s ≡ true) ↔ (s ≡ pending)
is_pending_iff pending = (λ h. refl, λ h. refl)
is_pending_iff accepted = (λ h. cc, λ h. cc)
is_pending_iff expired = (λ h. cc, λ h. cc)
is_pending_iff revoked = (λ h. cc, λ h. cc)

pub is_pending_in_iff :
    (o email : String) (x : Invite)
    → (is_pending_in o email x ≡ true)
      ↔ ((x.organisation_id ≡ o) × (x.email ≡ email) × (x.status ≡ pending))
is_pending_in_iff o email x = (
  λ h.
      let (a, r) = and-eq-true _ _ h in
      let (b, c) = and-eq-true _ _ r in
      ((eq_iff x.organisation_id o).0 a, (eq_iff x.email email).0 b, (is_pending_iff x.status).0 c),
  λ (a, b, c).
      rw ((eq_iff x.organisation_id o).1 a, (eq_iff x.email email).1 b)
        ((is_pending_iff x.status).1 c),
)

IsOpen : Invite → Type 0
IsOpen x = (x.status ≡ pending) ⊎ (x.status ≡ expired)

pending-IsOpen : (x : Invite) → x.status ≡ pending → IsOpen x
unfolding IsOpen
pending-IsOpen x e = inl e

IsOpen-not-IsSettled : (x : Invite) → IsOpen x → ¬ IsSettled x
unfolding IsOpen
IsOpen-not-IsSettled x (inl e) (inl h) = let k : pending ≡ accepted = sym e ∙ h in cc
IsOpen-not-IsSettled x (inl e) (inr h) = let k : pending ≡ revoked = sym e ∙ h in cc
IsOpen-not-IsSettled x (inr e) (inl h) = let k : expired ≡ accepted = sym e ∙ h in cc
IsOpen-not-IsSettled x (inr e) (inr h) = let k : expired ≡ revoked = sym e ∙ h in cc

expire-IsLater : (x : Invite) → IsOpen x → IsLater x (expire x)
unfolding IsOpen
expire-IsLater x h = record {
  same_id = refl;
  same_organisation = refl;
  same_email = refl;
  leads = lead h;
}
  where
    lead : (x.status ≡ pending) ⊎ (x.status ≡ expired) → Leads x.status expired
    lead (inl e) = subst (λ (s : InvitationStatus). Leads s expired) (sym e) lapse
    lead (inr e) = subst (λ (s : InvitationStatus). Leads s expired) (sym e) stay

module _ (p : Platform) (laws : IsLawful p) (t : InviteTools) (now : ℕ) where
  -- The step that a call makes of the table.
  abbrev pub Steps : World p → World p → Type 0
  Steps w u = IsInviteStep w.db.invitations u.db.invitations

  expire-Steps :
      (w : World p) (x : Invite)
      → IsInviteTable w.db.invitations
      → Memᴰ x w.db.invitations
      → IsOpen x
      → Steps w (save_invitation p (expire x) w)
  expire-Steps w x s m h =
      save-IsInviteStep p laws w.db.invitations s x (expire x) m (IsOpen-not-IsSettled x h)
        (expire-IsLater x h)

  invite_anew-Steps :
      (o email by : String) (role : Option String) (token : String) (w : World p)
      → IsInviteTable w.db.invitations
      → ((x : Invite)
          → Memᴰ x w.db.invitations
          → x.status ≡ pending
          → x.organisation_id ≡ o
          → x.email ≢ email)
      → Steps w (invite_anew p t now o email by role token w).1
  invite_anew-Steps o email by role token w s free =
      insert-IsInviteStep p laws w.db.invitations s (new_invitation p t now o email by role token w)
        (λ x m e. laws.new_id_fresh _ (Memᴰ.cast (sym e) (Memᴰ.map (λ (y : Invite). y.id) m))) free

  invite_over-Steps :
      (o email by : String) (role : Option String) (token : String) (w : World p)
      (q : Option Invite)
      → IsInviteTable w.db.invitations
      → p.find_one (is_pending_in o email) w.db.invitations ≡ q
      → Steps w (invite_over p t now o email by role token q w).1
  invite_over-Steps o email by role token w none s e =
      invite_anew-Steps o email by role token w s (λ x m h i f.
        let a = laws.find_one_none _ w.db.invitations x e m in
        let b = (is_pending_in_iff o email x).1 (i, f, h) in cc)
  invite_over-Steps o email by role token w (some x) s e =
      elim (Bool-cases (ltb x.expires_at now)) [
        | inl late ↦ rw late (
            IsInviteStep-trans gone (
              invite_anew-Steps o email by role token (save_invitation p (expire x) w) gone.sound
                left))
        | inr fresh ↦ rw fresh (
            save-IsInviteStep p laws w.db.invitations s x (resent p t now x by role token) known
              (IsOpen-not-IsSettled x waiting) again)
      ]
    where
      known : Memᴰ x w.db.invitations
      known = (laws.find_one_some _ w.db.invitations x e).0

      facts : (x.organisation_id ≡ o) × (x.email ≡ email) × (x.status ≡ pending)
      facts = (is_pending_in_iff o email x).0 (laws.find_one_some _ w.db.invitations x e).1

      waiting : IsOpen x
      waiting = pending-IsOpen x facts.2

      gone : Steps w (save_invitation p (expire x) w)
      gone = expire-Steps w x s known waiting

      again : IsLater x (resent p t now x by role token)
      again = record { same_id = refl; same_organisation = refl; same_email = refl; leads = stay }

      left :
          (z : Invite)
          → Memᴰ z (save_invitation p (expire x) w).db.invitations
          → z.status ≡ pending
          → z.organisation_id ≡ o
          → z.email ≢ email
      left z m h i f = elim ((laws.mem_replace (has_id x.id) (expire x) w.db.invitations z).0 m) [
        | inl (k, off) ↦
            let same = s.one_pending z x k known h facts.2 (i ∙ sym facts.0) (f ∙ sym facts.1) in
            let on = (eq_iff z.id x.id).1 (ap (λ (y : Invite). y.id) same) in cc
        | inr (q, _) ↦ let r : expired ≡ pending = sym (ap (λ (y : Invite). y.status) q) ∙ h in cc
      ]

  pub create_invite-Steps :
      (o email by : String) (role : Option String) (token : String) (w : World p)
      → IsInviteTable w.db.invitations
      → Steps w (create_invite p t now o email by role token w).1
  unfolding create_invite
  create_invite-Steps o email by role token w s =
      invite_over-Steps o (t.normalize_email email) by role token w _ s refl

  check_dates-Steps :
      (x : Invite) (r : InviteCheckResult) (w : World p)
      → IsInviteTable w.db.invitations
      → Memᴰ x w.db.invitations
      → IsOpen x
      → Steps w (check_dates p t now x r w).1
  check_dates-Steps x r w s m h = elim (Bool-cases (ltb x.expires_at now)) [
    | inl late ↦ rw late (expire-Steps w x s m h)
    | inr fresh ↦ rw fresh (IsInviteStep-same s)
  ]

  check_status-Steps :
      (x : Invite) (status : InvitationStatus) (w : World p)
      → IsInviteTable w.db.invitations
      → Memᴰ x w.db.invitations
      → x.status ≡ status
      → Steps w (check_status p t now x status w).1
  unfolding IsOpen
  check_status-Steps x pending w s m e = check_dates-Steps x (valid x) w s m (inl e)
  check_status-Steps x accepted w s m e = IsInviteStep-same s
  check_status-Steps x expired w s m e = check_dates-Steps x _ w s m (inr e)
  check_status-Steps x revoked w s m e = IsInviteStep-same s

  pub check_invite-Steps :
      (token : String) (email : Option String) (w : World p)
      → IsInviteTable w.db.invitations
      → Steps w (check_invite p t now token email w).1
  unfolding check_invite
  check_invite-Steps token email w s = go _ refl
    where
      test : Invite → Bool
      test = has_token (t.token_hash token)

      go :
          (q : Option Invite)
          → p.find_one test w.db.invitations ≡ q
          → Steps w (check_found p t now email q w).1
      go none e = IsInviteStep-same s
      go (some x) e = elim (Bool-cases (is_for_other p t now email x)) [
        | inl other ↦ rw other (IsInviteStep-same s)
        | inr own ↦ rw own (
            check_status-Steps x x.status w s (laws.find_one_some test w.db.invitations x e).0 refl)
      ]

  drop_expired-Steps :
      (test : Invite → Bool) (w : World p) (q : Option Invite)
      → IsInviteTable w.db.invitations
      → ((x : Invite) → test x ≡ true → x.status ≡ pending)
      → p.find_latest (λ (x : Invite). x.created_at) test w.db.invitations ≡ q
      → Steps w (drop_expired p t now q w).1
  drop_expired-Steps test w none s h e = IsInviteStep-same s
  drop_expired-Steps test w (some x) s h e = elim (Bool-cases (ltb x.expires_at now)) [
    | inl late ↦ rw late (
        let (m, k, _) = laws.find_latest_some _ test w.db.invitations x e in
        expire-Steps w x s m (pending-IsOpen x (h x k)))
    | inr fresh ↦ rw fresh (IsInviteStep-same s)
  ]

  pub waits :
      (email : String) (o : Option String) (x : Invite)
      → pending_where p t now email o x ≡ true
      → (x.email ≡ t.normalize_email email) × (x.status ≡ pending)
  waits email o x h = elim (Bool-cases (truthy o)) [
    | inl e ↦
        let (_, b, c) =
          (is_pending_in_iff (or_empty o) (t.normalize_email email) x).0 (rw e at h) in
        (b, c)
    | inr e ↦
        let (a, b) =
          and-eq-true (x.email == t.normalize_email email) (is_pending x.status) (rw e at h) in
        ((eq_iff x.email _).0 a, (is_pending_iff x.status).0 b)
  ]

  pub find_pending_by_email-Steps :
      (email : String) (o : Option String) (w : World p)
      → IsInviteTable w.db.invitations
      → Steps w (find_pending_by_email p t now email o w).1
  unfolding find_pending_by_email
  find_pending_by_email-Steps email o w s =
      drop_expired-Steps (pending_where p t now email o) w _ s (λ x h. (waits email o x h).1) refl

  pub consume_invite-Steps :
      (x : Invite) (w : World p)
      → IsInviteTable w.db.invitations
      → Memᴰ x w.db.invitations
      → x.status ≡ pending
      → Steps w (consume_invite p t now x w).1
  unfolding consume_invite
  consume_invite-Steps x w s m e =
      save-IsInviteStep p laws w.db.invitations s x _ m
        (IsOpen-not-IsSettled x (pending-IsOpen x e))
        (record {
          same_id = refl;
          same_organisation = refl;
          same_email = refl;
          leads = subst (λ (q : InvitationStatus). Leads q accepted) (sym e) take_up;
        })
