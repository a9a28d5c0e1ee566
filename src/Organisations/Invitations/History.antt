-- ===== src/Organisations/Invitations/History.antt =====
-- Sequences of calls of the invitation service.
use arcane_backend.Common.{ℕ, String, Option, ◌≡◌, Memᴰ, subst, sym}
use arcane_backend.Entities.{pending}
use arcane_backend.Platform.{Platform, World}
use arcane_backend.Platform.Laws.{IsLawful}
use arcane_backend.Organisations.Invitations.{
  InviteTools, create_invite, check_invite, find_pending_by_email, consume_invite,
}
use arcane_backend.Organisations.Invitations.Changes.{
  Invite, IsInviteTable, IsInviteStep, IsInviteStep-same, IsInviteStep-trans,
}
use arcane_backend.Organisations.Invitations.Laws.{
  create_invite-Steps, check_invite-Steps, find_pending_by_email-Steps, consume_invite-Steps,
}

module _ (p : Platform) (t : InviteTools) where
  -- One call, at some time. An invitation is consumed while it is pending.
  pub data Call (w u : World p) : Type 0 where
    creating :
        (now : ℕ) (organisation_id email invited_by : String) (role_id : Option String)
        (token : String)
        → u ≡ (create_invite p t now organisation_id email invited_by role_id token w).1
        → Call w u
    checking :
        (now : ℕ) (token : String) (email : Option String)
        → u ≡ (check_invite p t now token email w).1
        → Call w u
    finding :
        (now : ℕ) (email : String) (organisation_id : Option String)
        → u ≡ (find_pending_by_email p t now email organisation_id w).1
        → Call w u
    consuming :
        (now : ℕ) (x : Invite)
        → Memᴰ x w.db.invitations
        → x.status ≡ pending
        → u ≡ (consume_invite p t now x w).1
        → Call w u

  pub data Calls (w : World p) : World p → Type 0 where
    here : Calls w w
    next : {v u : World p} → Calls w v → Call v u → Calls w u

module _ (p : Platform) (laws : IsLawful p) (t : InviteTools) where
  Call-IsInviteStep :
      {w u : World p}
      → IsInviteTable w.db.invitations
      → Call p t w u
      → IsInviteStep w.db.invitations u.db.invitations
  Call-IsInviteStep {w} s (creating now o email by role token e) =
      subst (λ (v : World p). IsInviteStep w.db.invitations v.db.invitations) (sym e)
        (create_invite-Steps p laws t now o email by role token w s)
  Call-IsInviteStep {w} s (checking now token email e) =
      subst (λ (v : World p). IsInviteStep w.db.invitations v.db.invitations) (sym e)
        (check_invite-Steps p laws t now token email w s)
  Call-IsInviteStep {w} s (finding now email o e) =
      subst (λ (v : World p). IsInviteStep w.db.invitations v.db.invitations) (sym e)
        (find_pending_by_email-Steps p laws t now email o w s)
  Call-IsInviteStep {w} s (consuming now x m h e) =
      subst (λ (v : World p). IsInviteStep w.db.invitations v.db.invitations) (sym e)
        (consume_invite-Steps p laws t now x w s m h)

  -- Whatever calls of the service are made, in any order and at any times, where an invitation is
  -- consumed only while it is pending: an organisation never has two pending invitations for one
  -- email, and no two invitations have one id, if it was so before; no invitation goes or comes to
  -- be for somebody else; a pending one can only expire or be accepted, an expired one stays expired;
  -- and an accepted or revoked one stays exactly as it is.
  pub Calls-IsInviteStep :
      {w u : World p}
      → IsInviteTable w.db.invitations
      → Calls p t w u
      → IsInviteStep w.db.invitations u.db.invitations
  Calls-IsInviteStep s here = IsInviteStep-same s
  Calls-IsInviteStep s (next before call) =
      let f = Calls-IsInviteStep s before in IsInviteStep-trans f (Call-IsInviteStep f.sound call)
