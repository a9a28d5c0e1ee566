-- ===== src/Organisations/Invitations.antt =====
-- organisations/services/organisation-invitation.service.ts. The clock is an argument, and stands still
-- during a call; so is the random token. Trimming and lower case, SHA-256 and the calendar are
-- the record `InviteTools`.
pub mod Changes
pub mod Laws
pub mod History
pub mod Tokens
use arcane_backend.Common.{
  ℕ, String, Option, none, some, Bool, true, false, ◌&&◌, not, ◌==◌, Exec, pure, reads, modify,
  ◌>>=◌, ◌>>◌, if◌then◌else◌, ltb, truthy, or_empty, map, List,
}
use arcane_backend.Entities.{
  OrganisationInvitation, InvitationStatus, pending, accepted, expired, revoked,
}
use arcane_backend.Platform.{Platform, World}
use arcane_backend.Rbac.Roles.{or_null}

pub record InviteTools : Type 0 where
  -- `email.trim().toLowerCase()`
  pub normalize_email : String → String
  -- `createHash("sha256").update(token).digest("hex")`
  pub token_hash : String → String
  -- `date.setDate(date.getDate() + days)`
  pub add_days : ℕ → ℕ → ℕ

pub data InvalidReason : Type 0 where
  was_not_found was_accepted was_revoked was_expired : InvalidReason

pub data InviteCheckResult : Type 0 where
  valid : OrganisationInvitation → InviteCheckResult
  invalid : InvalidReason → InviteCheckResult

pub record CreatedInvite : Type 0 where
  pub invite : OrganisationInvitation
  pub token : String
  pub is_resend : Bool

abbrev pub invite_ttl_days : ℕ
invite_ttl_days = 7

abbrev pub is_pending : InvitationStatus → Bool
is_pending pending = true
is_pending accepted = false
is_pending expired = false
is_pending revoked = false

-- `where: { organisationId, email, status: PENDING }`
abbrev pub is_pending_in : String → String → OrganisationInvitation → Bool
is_pending_in organisation_id email x =
    x.organisation_id == organisation_id && (x.email == email && is_pending x.status)

-- `where: { email, status: PENDING }`
abbrev pub is_pending_for : String → OrganisationInvitation → Bool
is_pending_for email x = x.email == email && is_pending x.status

abbrev pub has_token : String → OrganisationInvitation → Bool
has_token hash x = x.token_hash == hash

-- `invite.status = OrganisationInvitationStatus.EXPIRED`
abbrev pub expire : OrganisationInvitation → OrganisationInvitation
expire x = record x { status = expired }

abbrev pub has_id : String → OrganisationInvitation → Bool
has_id id x = x.id == id

module _ (p : Platform) where
  abbrev pub with_invitations : World p → List OrganisationInvitation → World p
  with_invitations w rows = record w { db = record (w.db) { invitations = rows } }

  -- `invitationRepository.save` of a row that is there
  abbrev pub save_invitation : OrganisationInvitation → World p → World p
  save_invitation x w = with_invitations w (p.replace (has_id x.id) x w.db.invitations)

  abbrev pub insert_invitation : OrganisationInvitation → World p → World p
  insert_invitation x w = with_invitations w (p.insert x w.db.invitations)

module _ (p : Platform) (t : InviteTools) (now : ℕ) where
  abbrev pub get_expiry_date : ℕ
  get_expiry_date = t.add_days invite_ttl_days now

  abbrev pub resent :
      OrganisationInvitation → String → Option String → String → OrganisationInvitation
  resent x invited_by role_id raw_token = record x {
    token_hash = t.token_hash raw_token;
    expires_at = get_expiry_date;
    invited_by = invited_by;
    role_id = or_null role_id;
  }

  abbrev pub new_invitation :
      String → String → String → Option String → String → World p → OrganisationInvitation
  new_invitation organisation_id email invited_by role_id raw_token w = record {
    id = p.new_id (map (λ (x : OrganisationInvitation). x.id) w.db.invitations);
    organisation_id = organisation_id;
    email = email;
    role_id = or_null role_id;
    token_hash = t.token_hash raw_token;
    status = pending;
    expires_at = get_expiry_date;
    invited_by = invited_by;
    created_at = now;
    accepted_at = none;
  }

  abbrev pub invite_anew :
      String → String → String → Option String → String → Exec (World p) CreatedInvite
  invite_anew organisation_id email invited_by role_id raw_token = do
    invite ← reads (new_invitation organisation_id email invited_by role_id raw_token)
    modify (insert_invitation p invite)
    pure (record { invite = invite; token = raw_token; is_resend = false })

  abbrev pub resend :
      OrganisationInvitation → String → Option String → String → Exec (World p) CreatedInvite
  resend x invited_by role_id raw_token = do
    modify (save_invitation p (resent x invited_by role_id raw_token))
    pure (record {
      invite = resent x invited_by role_id raw_token;
      token = raw_token;
      is_resend = true;
    })

  -- The part of `createInvite` behind the query for a pending invitation.
  abbrev pub invite_over :
      String
      → String
      → String
      → Option String
      → String
      → Option OrganisationInvitation
      → Exec (World p) CreatedInvite
  invite_over organisation_id email invited_by role_id raw_token none =
      invite_anew organisation_id email invited_by role_id raw_token
  invite_over organisation_id email invited_by role_id raw_token (some x) =
      if ltb x.expires_at now
      then (modify (save_invitation p (expire x))
          >> invite_anew organisation_id email invited_by role_id raw_token)
      else resend x invited_by role_id raw_token

  unfoldable pub create_invite :
      String → String → String → Option String → String → Exec (World p) CreatedInvite
  create_invite organisation_id email invited_by role_id raw_token = do
    existing ←
        reads (λ w.
          p.find_one (is_pending_in organisation_id (t.normalize_email email)) w.db.invitations)
    invite_over organisation_id (t.normalize_email email) invited_by role_id raw_token existing

  -- `email && this.normalizeEmail(email) !== invite.email`
  abbrev pub is_for_other : Option String → OrganisationInvitation → Bool
  is_for_other email x = truthy email && not (t.normalize_email (or_empty email) == x.email)

  abbrev pub check_dates :
      OrganisationInvitation → InviteCheckResult → Exec (World p) InviteCheckResult
  check_dates x result =
      if ltb x.expires_at now
      then (modify (save_invitation p (expire x)) >> pure (invalid was_expired))
      else pure result

  abbrev pub check_status :
      OrganisationInvitation → InvitationStatus → Exec (World p) InviteCheckResult
  check_status x accepted = pure (invalid was_accepted)
  check_status x revoked = pure (invalid was_revoked)
  check_status x pending = check_dates x (valid x)
  check_status x expired = check_dates x (invalid was_not_found)

  abbrev pub check_found :
      Option String → Option OrganisationInvitation → Exec (World p) InviteCheckResult
  check_found email none = pure (invalid was_not_found)
  check_found email (some x) =
      if is_for_other email x then pure (invalid was_not_found) else check_status x x.status

  unfoldable pub check_invite : String → Option String → Exec (World p) InviteCheckResult
  check_invite token email = do
    invite ← reads (λ w. p.find_one (has_token (t.token_hash token)) w.db.invitations)
    check_found email invite

  abbrev pub pending_where : String → Option String → OrganisationInvitation → Bool
  pending_where email organisation_id =
      if truthy organisation_id
      then is_pending_in (or_empty organisation_id) (t.normalize_email email)
      else is_pending_for (t.normalize_email email)

  abbrev pub drop_expired :
      Option OrganisationInvitation → Exec (World p) (Option OrganisationInvitation)
  drop_expired none = pure none
  drop_expired (some x) =
      if ltb x.expires_at now
      then (modify (save_invitation p (expire x)) >> pure none)
      else pure (some x)

  unfoldable pub find_pending_by_email :
      String → Option String → Exec (World p) (Option OrganisationInvitation)
  find_pending_by_email email organisation_id = do
    invite ← reads (λ w.
        p.find_latest (λ x. x.created_at) (pending_where email organisation_id) w.db.invitations)
    drop_expired invite

  unfoldable pub consume_invite : OrganisationInvitation → Exec (World p) (Unit {0})
  consume_invite x =
      modify (save_invitation p (record x { status = accepted; accepted_at = some now }))
