-- ===== src/Examples/InviteWitnesses.antt =====
-- The theorems on invitations and signing up, at an organisation with one open invitation.
use mathlib.Core.List.Memᴰ
use arcane_backend.Common.{
  ℕ, ◌+◌, String, none, some, true, List, [], ◌∷◌, ◌≡◌, refl, sym, ap, ◌⊎◌, ◌↔◌, ◌≢◌, ◌∙◌, Memᴰ, ok,
  err, arith,
}
use arcane_backend.Entities.{pending}
use arcane_backend.Exception.{bad_request, invite_required}
use arcane_backend.Platform.{World}
use arcane_backend.Examples.Facts.{first_ne_second, zoe_ne_eve}
use arcane_backend.Examples.SlotLaws.{empty-AllCached}
use arcane_backend.Examples.InMemory.{platform}
use arcane_backend.Examples.Lawful.{lawful}
use arcane_backend.Examples.Tables.{tables, world, assigned, member}
use arcane_backend.Organisations.Invitations.{
  InviteTools, CreatedInvite, create_invite, check_invite, valid, with_invitations,
}
use arcane_backend.Organisations.Invitations.Changes.{Invite, IsInviteTable, IsInviteStep}
use arcane_backend.Organisations.Invitations.History.{
  here, next, creating, checking, Calls-IsInviteStep,
}
use arcane_backend.Organisations.Invitations.Tokens.{
  create_invite-check_invite, create_invite-older_token,
}
use arcane_backend.Rbac.Assignment.Laws.{assignment}
use arcane_backend.Rbac.Current.{IsCurrent, CacheIsCurrent}
use arcane_backend.Rbac.Role.{Role}
use arcane_backend.SignUp.{process_user}
use arcane_backend.SignUp.Laws.{
  IsNewest, accepted_at_time, process_user-invite_required, process_user-accepted,
}

-- Emails are in the normal form, and a day has ten units of time.
abbrev tools : InviteTools
tools = record {
  normalize_email = λ s. s;
  token_hash = λ s. s;
  add_days = λ days date. date + (days + days);
}

abbrev helper : Role
helper = record member { id = "r4"; project_id = none }

abbrev invitation : Invite
invitation = record {
  id = "i1";
  organisation_id = "o";
  email = "new@host";
  role_id = some "r4";
  token_hash = "t1";
  status = pending;
  expires_at = 7;
  invited_by = "bob";
  created_at = 0;
  accepted_at = none;
}

abbrev inviting : World platform
inviting = record world {
  db = record tables {
    roles = helper ∷ [];
    user_roles = assigned "ann" "r4" ∷ [];
    invitations = invitation ∷ [];
  };
}

only_one : (x y : Invite) → Memᴰ x (invitation ∷ []) → Memᴰ y (invitation ∷ []) → x ≡ y
only_one x y m k = Memᴰ.eq_of_singleton m ∙ sym (Memᴰ.eq_of_singleton k)

inviting-IsInviteTable : IsInviteTable inviting.db.invitations
inviting-IsInviteTable = record {
  unique_ids = λ x y m k e. only_one x y m k;
  one_pending = λ x y m k h i e f. only_one x y m k;
}

inviting-CacheIsCurrent : CacheIsCurrent platform inviting
inviting-CacheIsCurrent = empty-AllCached (IsCurrent platform inviting.db)

newest : (now : ℕ) → IsNewest platform lawful tools now "new@host" inviting invitation
newest now = (Memᴰ.head refl, refl, refl, λ y m e s. rw (Memᴰ.eq_of_singleton m) (omega arith))

abbrev reinvited : World platform
reinvited = (create_invite platform tools 3 "o" "new@host" "bob" none "t9" inviting).1

abbrev rechecked : World platform
rechecked = (check_invite platform tools 40 "t9" none reinvited).1

Calls-IsInviteStep_example : IsInviteStep inviting.db.invitations rechecked.db.invitations
Calls-IsInviteStep_example =
    Calls-IsInviteStep platform lawful tools inviting-IsInviteTable (
      next (next here (creating 3 "o" "new@host" "bob" none "t9" refl))
        (checking 40 "t9" none refl))

create_invite-check_invite_example :
    (r : CreatedInvite) × (u : World platform) × (create_invite platform tools 3 "o" "new@host"
        "bob" none "t9" inviting
      ≡ (ok r, u))
    × (r.token ≡ "t9")
    × (r.invite.organisation_id ≡ "o")
    × (check_invite platform tools 5 "t9" (some "new@host") u ≡ (ok (valid r.invite), u))
create_invite-check_invite_example =
    create_invite-check_invite platform lawful tools 3 5 "o" "new@host" "bob" "t9" none inviting
      (λ x m e.
        first_ne_second (sym (ap (λ (q : Invite). q.token_hash) (Memᴰ.eq_of_singleton m)) ∙ e))
      (omega arith)

create_invite-older_token_example :
    (check_invite platform tools 5 "t1" none reinvited).0 ≢ ok (valid invitation)
create_invite-older_token_example =
    create_invite-older_token platform lawful tools 3 5 "o" "new@host" "bob" "t9" none inviting
      inviting-IsInviteTable "t1" none invitation first_ne_second
      (λ x m e. (
        ap (λ (q : Invite). q.organisation_id) (Memᴰ.eq_of_singleton m),
        ap (λ (q : Invite). q.email) (Memᴰ.eq_of_singleton m),
      ))

process_user-invite_required_example :
    (rows : List Invite) × (process_user platform tools 2 9 true "zoe" (some "new@host") inviting
      ≡ (err (bad_request invite_required), with_invitations platform inviting rows))
process_user-invite_required_example =
    process_user-invite_required platform lawful tools 2 9 "zoe" "new@host" inviting
      (assigned "ann" "r4") (Memᴰ.head refl) refl
      (λ x h. rw (Memᴰ.eq_of_singleton h.0) (omega arith))

process_user-accepted_example :
    (u : World platform) × (process_user platform tools 2 5 true "zoe" (some "new@host") inviting
      ≡ (ok tt, u))
    × ((row : String × String)
        → Memᴰ row u.db.organisation_users
          ↔ ((row ≡ ("o", "zoe")) ⊎ Memᴰ row tables.organisation_users))
    × Memᴰ (assignment "zoe" "r4") u.db.user_roles
    × Memᴰ (accepted_at_time invitation 5) u.db.invitations
process_user-accepted_example =
    process_user-accepted platform lawful tools 2 5 true "zoe" "new@host" inviting
      (assigned "ann" "r4") invitation helper (Memᴰ.head refl) refl (newest 5)
      (λ y h. Memᴰ.eq_of_singleton h.0) (omega arith) inviting-CacheIsCurrent
      (λ m. zoe_ne_eve (ap (λ (q : String × String). q.1) (Memᴰ.eq_of_singleton m)))
      (λ r m e. Memᴰ.eq_of_singleton m) (Memᴰ.head refl) refl refl refl refl
