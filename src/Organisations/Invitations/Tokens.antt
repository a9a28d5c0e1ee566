-- ===== src/Organisations/Invitations/Tokens.antt =====
-- The token that goes out with an invitation.
use mathlib.Core.List.Memᴰ
use arcane_backend.Common.{
  ℕ, ◌≤◌, String, Option, none, some, Bool, true, false, not, ◌&&◌, List, ◌≡◌, refl, sym, ap, ◌⊎◌,
  inl, inr, ◌≢◌, ◌∙◌, Memᴰ, eq_iff, ok, Result, Bool-cases, ltb, truthy, arith, subst,
}
use arcane_backend.Entities.{InvitationStatus, pending, accepted, expired, revoked}
use arcane_backend.Platform.{Platform, World}
use arcane_backend.Platform.Laws.{IsLawful}
use arcane_backend.Organisations.Invitations.{
  InviteTools, CreatedInvite, valid, is_pending_in, expire, has_id, has_token, resent,
  new_invitation, save_invitation, invite_anew, invite_over, create_invite, check_dates,
  is_for_other, InviteCheckResult, InvalidReason, invalid, was_not_found, was_expired, check_status,
  check_found, check_invite, invite_ttl_days,
}
use arcane_backend.Organisations.Invitations.Changes.{Invite, IsInviteTable}
use arcane_backend.Organisations.Invitations.Laws.{is_pending_in_iff, create_invite-Steps}

module _ (p : Platform) (laws : IsLawful p) (t : InviteTools) where
  found_by_token :
      (hash : String) (rows : List Invite) (y : Invite)
      → Memᴰ y rows
      → y.token_hash ≡ hash
      → ((z : Invite) → Memᴰ z rows → z.token_hash ≡ hash → z ≡ y)
      → p.find_one (has_token hash) rows ≡ some y
  found_by_token hash rows y m e only = go _ refl
    where
      go :
          (q : Option Invite)
          → p.find_one (has_token hash) rows ≡ q
          → p.find_one (has_token hash) rows ≡ some y
      go none k =
          let a = laws.find_one_none _ rows y k m in
          let b = (eq_iff y.token_hash hash).1 e in absurd (clash a b)
        where
          clash : {b : Bool} → b ≡ false → b ≡ true → ⊥
          clash f g = cc
      go (some z) k =
          let (n, h) = laws.find_one_some _ rows z k in
          k ∙ ap some (only z n ((eq_iff z.token_hash hash).0 h))

  module _ (now : ℕ) (email : String) (w : World p) where
    checked_pending :
        (x : Invite) (s : InvitationStatus)
        → s ≡ pending
        → ltb x.expires_at now ≡ false
        → check_status p t now x s w ≡ (ok (valid x), w)
    checked_pending x pending e h = rw h refl
    checked_pending x accepted e h = absurd (cc)
    checked_pending x expired e h = absurd (cc)
    checked_pending x revoked e h = absurd (cc)

    and_false : (b : Bool) → (b && not true) ≡ false
    and_false true = refl
    and_false false = refl

    checked :
        (x : Invite)
        → x.email ≡ t.normalize_email email
        → x.status ≡ pending
        → ltb x.expires_at now ≡ false
        → check_found p t now (some email) (some x) w ≡ (ok (valid x), w)
    checked x e s h =
        rw ((eq_iff (t.normalize_email email) x.email).1 (sym e), and_false (truthy (some email)))
          (checked_pending x x.status s h)

-- An invitation of the rows is for the same person, and has the same token.
abbrev IsFrom : List Invite → Invite → Type 0
IsFrom rows z =
    (y : Invite) × Memᴰ y rows
    × (z.token_hash ≡ y.token_hash)
    × (z.organisation_id ≡ y.organisation_id)
    × (z.email ≡ y.email)

-- What an invitation that has been sent is, in the tables before and after.
record IsSent (o email hash : String) (expires : ℕ) (before after : List Invite) (x : Invite)
    : Type 0 where
  row : Memᴰ x after
  same_hash : x.token_hash ≡ hash
  same_organisation : x.organisation_id ≡ o
  same_email : x.email ≡ email
  is_open : x.status ≡ pending
  lasts : x.expires_at ≡ expires
  others : (z : Invite) → Memᴰ z after → (z ≡ x) ⊎ IsFrom before z

module _ (p : Platform) (laws : IsLawful p) (t : InviteTools) (now : ℕ) (o email by raw : String)
    (role : Option String) where
  abbrev Sent : List Invite → World p → Invite → Type 0
  Sent before u x =
      IsSent o email (t.token_hash raw) (t.add_days invite_ttl_days now) before u.db.invitations x

  anew-IsSent :
      (w : World p)
      → Sent w.db.invitations
          (invite_anew p t now o email by role raw w).1
          (new_invitation p t now o email by role raw w)
  anew-IsSent w = record {
    row =
        (laws.mem_insert (new_invitation p t now o email by role raw w) w.db.invitations _).1
          (inl refl);
    same_hash = refl;
    same_organisation = refl;
    same_email = refl;
    is_open = refl;
    lasts = refl;
    others = λ z m.
        elim ((laws.mem_insert (new_invitation p t now o email by role raw w) w.db.invitations z).0
          m) [ inl e ↦ inl e | inr k ↦ inr (z, k, refl, refl, refl) ];
  }

  saved_from :
      (w : World p) (x y : Invite)
      → Memᴰ x w.db.invitations
      → (z : Invite) → Memᴰ z (save_invitation p y w).db.invitations
      → (z ≡ y) ⊎ Memᴰ z w.db.invitations
  saved_from w x y known z m = elim ((laws.mem_replace (has_id y.id) y w.db.invitations z).0 m) [
    | inl (k, _) ↦ inr k
    | inr (e, _) ↦ inl e
  ]

  sent :
      (w : World p) (q : Option Invite)
      → p.find_one (is_pending_in o email) w.db.invitations ≡ q
      → (r : CreatedInvite) × (u : World p) × (invite_over p t now o email by role raw q w
          ≡ (ok r, u))
        × (r.token ≡ raw)
        × Sent w.db.invitations u r.invite
  sent w none e = (_, _, refl, refl, anew-IsSent w)
  sent w (some x) e = elim (Bool-cases (ltb x.expires_at now)) [
    | inl late ↦ (
      record {
        invite = new_invitation p t now o email by role raw left;
        token = raw;
        is_resend = false;
      },
      (invite_anew p t now o email by role raw left).1,
      rw late refl,
      refl,
      again (invite_anew p t now o email by role raw left).1 _ (anew-IsSent left),
    )
    | inr fresh ↦ (
      record { invite = resent p t now x by role raw; token = raw; is_resend = true },
      save_invitation p (resent p t now x by role raw) w,
      rw fresh refl,
      refl,
      record {
        row =
            (laws.mem_replace (has_id x.id) (resent p t now x by role raw) w.db.invitations _).1
              (inr (refl, (x, known, (eq_iff x.id x.id).1 refl)));
        same_hash = refl;
        same_organisation = facts.0;
        same_email = facts.1;
        is_open = facts.2;
        lasts = refl;
        others = λ z m. elim (saved_from w x (resent p t now x by role raw) known z m) [
          | inl g ↦ inl g
          | inr k ↦ inr (z, k, refl, refl, refl)
        ];
      },
    )
  ]
    where
      left : World p
      left = save_invitation p (expire x) w

      known : Memᴰ x w.db.invitations
      known = (laws.find_one_some _ w.db.invitations x e).0

      facts : (x.organisation_id ≡ o) × (x.email ≡ email) × (x.status ≡ pending)
      facts = (is_pending_in_iff o email x).0 (laws.find_one_some _ w.db.invitations x e).1

      back : (z : Invite) → (z ≡ expire x) ⊎ Memᴰ z w.db.invitations → IsFrom w.db.invitations z
      back z (inl g) = (
        x,
        known,
        ap (λ (q : Invite). q.token_hash) g,
        ap (λ (q : Invite). q.organisation_id) g,
        ap (λ (q : Invite). q.email) g,
      )
      back z (inr k) = (z, k, refl, refl, refl)

      again :
          (u : World p) (y : Invite)
          → Sent (save_invitation p (expire x) w).db.invitations u y
          → Sent w.db.invitations u y
      again u y s = record {
        row = s.row;
        same_hash = s.same_hash;
        same_organisation = s.same_organisation;
        same_email = s.same_email;
        is_open = s.is_open;
        lasts = s.lasts;
        others = λ z m. elim (s.others z m) [
          | inl g ↦ inl g
          | inr (v, k, a, b, c) ↦
              let (y', k', a', b', c') = back v (saved_from w x (expire x) known v k) in
              inr (y', k', a ∙ a', b ∙ b', c ∙ c')
        ];
      }

leb_ltb : (a b : ℕ) → b ≤ a → ltb a b ≡ false
leb_ltb a b h = ground arith

module _ (p : Platform) (laws : IsLawful p) (t : InviteTools) (now later : ℕ)
    (o email by raw : String) (role : Option String) (w : World p) where
  -- Where no invitation has the hash of the new token: creating an invitation returns, and until the
  -- invitation expires, seven days after, checking it by its token and email answers with
  -- just that invitation, and changes nothing.
  pub create_invite-check_invite :
      ((x : Invite) → Memᴰ x w.db.invitations → x.token_hash ≢ t.token_hash raw)
      → later ≤ t.add_days invite_ttl_days now
      → (r : CreatedInvite) × (u : World p) × (create_invite p t now o email by role raw w
          ≡ (ok r, u))
        × (r.token ≡ raw)
        × (r.invite.organisation_id ≡ o)
        × (check_invite p t later raw (some email) u ≡ (ok (valid r.invite), u))
  unfolding create_invite check_invite
  create_invite-check_invite fresh soon =
      let (r, u, e, same, s) = sent p laws t now o (t.normalize_email email) by raw role w _ refl in
      let found =
        found_by_token p laws t (t.token_hash raw) u.db.invitations r.invite s.row s.same_hash
          (λ z m h. only r u s z h (s.others z m)) in
      (
        r,
        u,
        e,
        same,
        s.same_organisation,
        rw found (
            checked p laws t later email u r.invite s.same_email s.is_open
              (rw s.lasts (leb_ltb _ _ soon))),
      )
    where
      only :
          (r : CreatedInvite) (u : World p)
          → IsSent o
              (t.normalize_email email)
              (t.token_hash raw)
              (t.add_days invite_ttl_days now)
              w.db.invitations
              u.db.invitations
              r.invite
          → (z : Invite) → z.token_hash ≡ t.token_hash raw
          → (z ≡ r.invite) ⊎ IsFrom w.db.invitations z
          → z ≡ r.invite
      only r u s z h (inl e) = e
      only r u s z h (inr (y, k, a, b, c)) = absurd (fresh y k (sym a ∙ h))

  valid-IsListed :
      (token : String) (who : Option String) (u : World p) (y : Invite)
      → (check_invite p t later token who u).0 ≡ ok (valid y)
      → Memᴰ y u.db.invitations × (y.token_hash ≡ t.token_hash token) × (y.status ≡ pending)
  unfolding check_invite
  valid-IsListed token who u y h = go _ refl h
    where
      dated : (x : Invite) → (check_dates p t later x (valid x) u).0 ≡ ok (valid y) → x ≡ y
      dated x h = elim (Bool-cases (ltb x.expires_at later)) [
        | inl late ↦ let k = rw late at h in absurd (differ k)
        | inr fresh ↦ same (rw fresh at h)
      ]
        where
          differ : ◌≡◌ {A = Result InviteCheckResult} (ok (invalid was_expired)) (ok (valid y)) → ⊥
          differ k = cc

          same : ◌≡◌ {A = Result InviteCheckResult} (ok (valid x)) (ok (valid y)) → x ≡ y
          same k = cc

      status :
          (x : Invite) (s : InvitationStatus)
          → (check_status p t later x s u).0 ≡ ok (valid y)
          → (x ≡ y) × (s ≡ pending)
      status x pending h = (dated x h, refl)
      status x accepted h = absurd (cc)
      status x revoked h = absurd (cc)
      status x expired h = elim (Bool-cases (ltb x.expires_at later)) [
        | inl late ↦ absurd (differ (rw late at h))
        | inr fresh ↦ absurd (differ (rw fresh at h))
      ]
        where
          differ :
              {r : InvalidReason}
              → ◌≡◌ {A = Result InviteCheckResult} (ok (invalid r)) (ok (valid y))
              → ⊥
          differ k = cc

      found :
          (x : Invite)
          → (check_found p t later who (some x) u).0 ≡ ok (valid y)
          → (x ≡ y) × (x.status ≡ pending)
      found x h = elim (Bool-cases (is_for_other p t later who x)) [
        | inl other ↦ absurd (differ (rw other at h))
        | inr own ↦ status x x.status (rw own at h)
      ]
        where
          differ :
              ◌≡◌ {A = Result InviteCheckResult} (ok (invalid was_not_found)) (ok (valid y)) → ⊥
          differ k = cc

      go :
          (q : Option Invite)
          → p.find_one (has_token (t.token_hash token)) u.db.invitations ≡ q
          → (check_found p t later who q u).0 ≡ ok (valid y)
          → Memᴰ y u.db.invitations × (y.token_hash ≡ t.token_hash token) × (y.status ≡ pending)
      go none e k = absurd (cc)
      go (some x) e k =
          let (m, test) = laws.find_one_some _ u.db.invitations x e in
          let (same, waits) = found x k in
          (
            Memᴰ.cast (sym same) m,
            ap (λ (q : Invite). q.token_hash) (sym same) ∙ (eq_iff x.token_hash _).0 test,
            ap (λ (q : Invite). q.status) (sym same) ∙ waits,
          )

  -- Where the table of invitations is in order: right after an invitation for an email has been
  -- created, no other token that was sent to this email for this organisation is found to be valid,
  -- at whatever time it is checked.
  pub create_invite-older_token :
      IsInviteTable w.db.invitations
      → (older : String) (who : Option String) (y : Invite) → t.token_hash older ≢ t.token_hash raw
      → ((x : Invite)
          → Memᴰ x w.db.invitations
          → x.token_hash ≡ t.token_hash older
          → (x.organisation_id ≡ o) × (x.email ≡ t.normalize_email email))
      → (check_invite p t later older who (create_invite p t now o email by role raw w).1).0
        ≢ ok (valid y)
  unfolding create_invite
  create_invite-older_token table older who y different own answer =
      let (m, hash, waits) =
        valid-IsListed older who (create_invite p t now o email by role raw w).1 y answer in
      let (r, u, e, _, s) = sent p laws t now o (t.normalize_email email) by raw role w _ refl in
      let after = ap (λ (q : Result CreatedInvite × World p). q.1.db.invitations) e in
      let sound =
        subst IsInviteTable after
          (create_invite-Steps p laws t now o email by role raw w table).sound in
      let k = subst (Memᴰ y) after m in refuse r u sound s k hash waits (s.others y k)
    where
      refuse :
          (r : CreatedInvite) (u : World p)
          → IsInviteTable u.db.invitations
          → IsSent o
              (t.normalize_email email)
              (t.token_hash raw)
              (t.add_days invite_ttl_days now)
              w.db.invitations
              u.db.invitations
              r.invite
          → Memᴰ y u.db.invitations
          → y.token_hash ≡ t.token_hash older
          → y.status ≡ pending
          → (y ≡ r.invite) ⊎ IsFrom w.db.invitations y
          → ⊥
      refuse r u sound s k hash waits (inl e) =
          different (sym hash ∙ ap (λ (q : Invite). q.token_hash) e ∙ s.same_hash)
      refuse r u sound s k hash waits (inr (x, n, a, b, c)) =
          let (d, f) = own x n (sym a ∙ hash) in
          let e =
            sound.one_pending y r.invite k s.row waits s.is_open (b ∙ d ∙ sym s.same_organisation)
              (c ∙ f ∙ sym s.same_email) in
          different (sym hash ∙ ap (λ (q : Invite). q.token_hash) e ∙ s.same_hash)
