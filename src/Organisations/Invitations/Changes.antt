-- ===== src/Organisations/Invitations/Changes.antt =====
-- What saving and inserting an invitation do to their table.
use arcane_backend.Common.{
  ◌==◌, List, ◌≡◌, refl, sym, ap, ◌⊎◌, inl, inr, ◌≢◌, ◌∙◌, Memᴰ, eq_iff, eq_false, Bool-cases,
}
use arcane_backend.Entities.{
  OrganisationInvitation, InvitationStatus, pending, accepted, expired, revoked,
}
use arcane_backend.Platform.{Platform}
use arcane_backend.Platform.Laws.{IsLawful}
use arcane_backend.Organisations.Invitations.{has_id}

abbrev pub Invite : Type 0
Invite = OrganisationInvitation

-- How the status of an invitation may go on.
pub data Leads : InvitationStatus → InvitationStatus → Type 0 where
  stay : {s : InvitationStatus} → Leads s s
  lapse : Leads pending expired
  take_up : Leads pending accepted

pub Leads-trans : {s t u : InvitationStatus} → Leads s t → Leads t u → Leads s u
Leads-trans stay h = h
Leads-trans lapse stay = lapse
Leads-trans take_up stay = take_up

from_pending : {s t : InvitationStatus} → Leads s t → t ≡ pending → s ≡ pending
from_pending stay e = e
from_pending lapse e = refl
from_pending take_up e = refl

-- No two invitations have one id, and an organisation has one pending invitation for an email.
pub record IsInviteTable (rows : List Invite) : Type 0 where
  pub unique_ids : (x y : Invite) → Memᴰ x rows → Memᴰ y rows → x.id ≡ y.id → x ≡ y
  pub one_pending :
      (x y : Invite)
      → Memᴰ x rows
      → Memᴰ y rows
      → x.status ≡ pending
      → y.status ≡ pending
      → x.organisation_id ≡ y.organisation_id
      → x.email ≡ y.email
      → x ≡ y

abbrev pub IsSettled : Invite → Type 0
IsSettled x = (x.status ≡ accepted) ⊎ (x.status ≡ revoked)

-- What has become of an invitation: it is for the same person, and its status has gone on.
pub record IsLater (x y : Invite) : Type 0 where
  pub same_id : y.id ≡ x.id
  pub same_organisation : y.organisation_id ≡ x.organisation_id
  pub same_email : y.email ≡ x.email
  pub leads : Leads x.status y.status

pub IsLater-refl : (x : Invite) → IsLater x x
IsLater-refl x = record {
  same_id = refl;
  same_organisation = refl;
  same_email = refl;
  leads = stay;
}

pub IsLater-trans : {x y z : Invite} → IsLater x y → IsLater y z → IsLater x z
IsLater-trans a b = record {
  same_id = b.same_id ∙ a.same_id;
  same_organisation = b.same_organisation ∙ a.same_organisation;
  same_email = b.same_email ∙ a.same_email;
  leads = Leads-trans a.leads b.leads;
}

-- The table stays in order, every invitation is still there, and a settled one as it was.
pub record IsInviteStep (before after : List Invite) : Type 0 where
  pub sound : IsInviteTable after
  pub lasting : (x : Invite) → Memᴰ x before → (y : Invite) × Memᴰ y after × IsLater x y
  pub settled : (x : Invite) → Memᴰ x before → IsSettled x → Memᴰ x after

pub IsInviteStep-same : {rows : List Invite} → IsInviteTable rows → IsInviteStep rows rows
IsInviteStep-same s = record {
  sound = s;
  lasting = λ x m. (x, m, IsLater-refl x);
  settled = λ x m h. m;
}

pub IsInviteStep-trans :
    {a b c : List Invite} → IsInviteStep a b → IsInviteStep b c → IsInviteStep a c
IsInviteStep-trans f g = record {
  sound = g.sound;
  lasting = λ x m.
      let (y, k, h) = f.lasting x m in let (z, n, i) = g.lasting y k in (z, n, IsLater-trans h i);
  settled = λ x m h. g.settled x (f.settled x m h) h;
}

module _ (p : Platform) (laws : IsLawful p) (rows : List Invite) (s : IsInviteTable rows) where
  pub insert-IsInviteStep :
      (y : Invite)
      → ((x : Invite) → Memᴰ x rows → x.id ≢ y.id)
      → ((x : Invite)
          → Memᴰ x rows
          → x.status ≡ pending
          → x.organisation_id ≡ y.organisation_id
          → x.email ≢ y.email)
      → IsInviteStep rows (p.insert y rows)
  insert-IsInviteStep y fresh free = record {
    sound = record {
      unique_ids = λ x z m k. ids x z (cases x m) (cases z k);
      one_pending = λ x z m k. waiting x z (cases x m) (cases z k);
    };
    lasting = λ x m. (x, (laws.mem_insert y rows x).1 (inr m), IsLater-refl x);
    settled = λ x m h. (laws.mem_insert y rows x).1 (inr m);
  }
    where
      cases : (x : Invite) → Memᴰ x (p.insert y rows) → (x ≡ y) ⊎ Memᴰ x rows
      cases x m = (laws.mem_insert y rows x).0 m

      ids : (x z : Invite) → (x ≡ y) ⊎ Memᴰ x rows → (z ≡ y) ⊎ Memᴰ z rows → x.id ≡ z.id → x ≡ z
      ids x z (inl a) (inl b) e = a ∙ sym b
      ids x z (inl a) (inr k) e = absurd (fresh z k (sym e ∙ ap (λ (q : Invite). q.id) a))
      ids x z (inr m) (inl b) e = absurd (fresh x m (e ∙ ap (λ (q : Invite). q.id) b))
      ids x z (inr m) (inr k) e = s.unique_ids x z m k e

      waiting :
          (x z : Invite)
          → (x ≡ y) ⊎ Memᴰ x rows
          → (z ≡ y) ⊎ Memᴰ z rows
          → x.status ≡ pending
          → z.status ≡ pending
          → x.organisation_id ≡ z.organisation_id
          → x.email ≡ z.email
          → x ≡ z
      waiting x z (inl a) (inl b) h i e f = a ∙ sym b
      waiting x z (inl a) (inr k) h i e f = absurd (
          free z k i (sym e ∙ ap (λ (q : Invite). q.organisation_id) a)
            (sym f ∙ ap (λ (q : Invite). q.email) a))
      waiting x z (inr m) (inl b) h i e f = absurd (
          free x m h (e ∙ ap (λ (q : Invite). q.organisation_id) b)
            (f ∙ ap (λ (q : Invite). q.email) b))
      waiting x z (inr m) (inr k) h i e f = s.one_pending x z m k h i e f

  pub save-IsInviteStep :
      (x y : Invite)
      → Memᴰ x rows
      → ¬ IsSettled x
      → IsLater x y
      → IsInviteStep rows (p.replace (has_id y.id) y rows)
  save-IsInviteStep x y known open_still later = record {
    sound = record {
      unique_ids = λ z u m k. ids z u (cases z m) (cases u k);
      one_pending = λ z u m k. waiting z u (cases z m) (cases u k);
    };
    lasting = λ z m. kept z m (same z m);
    settled = λ z m h.
        other z m
          (λ e. open_still (subst_settled z (s.unique_ids z x m known (e ∙ later.same_id)) h));
  }
    where
      Case : Invite → Type 0
      Case z = (Memᴰ z rows × (z.id ≢ y.id)) ⊎ (z ≡ y)

      cases : (z : Invite) → Memᴰ z (p.replace (has_id y.id) y rows) → Case z
      cases z m = elim ((laws.mem_replace (has_id y.id) y rows z).0 m) [
        | inl (k, f) ↦ inl (k, λ e. let t = (eq_iff z.id y.id).1 e in cc)
        | inr (e, _) ↦ inr e
      ]

      other : (z : Invite) → Memᴰ z rows → z.id ≢ y.id → Memᴰ z (p.replace (has_id y.id) y rows)
      other z m h =
          (laws.mem_replace (has_id y.id) y rows z).1
            (inl (m, eq_false _ (λ t. h ((eq_iff z.id y.id).0 t))))

      saved : Memᴰ y (p.replace (has_id y.id) y rows)
      saved =
          (laws.mem_replace (has_id y.id) y rows y).1
            (inr (refl, (x, known, (eq_iff x.id y.id).1 (sym later.same_id))))

      subst_settled : (z : Invite) → z ≡ x → IsSettled z → IsSettled x
      subst_settled z e h = rw (← e) h

      same : (z : Invite) → Memᴰ z rows → (z.id ≡ y.id) ⊎ (z.id ≢ y.id)
      same z m = elim (Bool-cases (z.id == y.id)) [
        | inl t ↦ inl ((eq_iff z.id y.id).0 t)
        | inr f ↦ inr (λ e. let t = (eq_iff z.id y.id).1 e in cc)
      ]

      kept :
          (z : Invite)
          → Memᴰ z rows
          → (z.id ≡ y.id) ⊎ (z.id ≢ y.id)
          → (u : Invite) × Memᴰ u (p.replace (has_id y.id) y rows) × IsLater z u
      kept z m (inl e) = (y, saved, rw (s.unique_ids z x m known (e ∙ later.same_id)) later)
      kept z m (inr h) = (z, other z m h, IsLater-refl z)

      ids : (z u : Invite) → Case z → Case u → z.id ≡ u.id → z ≡ u
      ids z u (inr a) (inr b) e = a ∙ sym b
      ids z u (inr a) (inl (k, h)) e = absurd (h (sym e ∙ ap (λ (q : Invite). q.id) a))
      ids z u (inl (m, h)) (inr b) e = absurd (h (e ∙ ap (λ (q : Invite). q.id) b))
      ids z u (inl (m, _)) (inl (k, _)) e = s.unique_ids z u m k e

      clash :
          (z : Invite)
          → Memᴰ z rows
          → z.id ≢ y.id
          → z.status ≡ pending
          → y.status ≡ pending
          → z.organisation_id ≡ y.organisation_id
          → z.email ≡ y.email
          → ⊥
      clash z m h i j e f = h (
          ap (λ (q : Invite). q.id)
            (s.one_pending z x m known i (from_pending later.leads j) (e ∙ later.same_organisation)
              (f ∙ later.same_email))
          ∙ sym later.same_id)

      waiting :
          (z u : Invite)
          → Case z
          → Case u
          → z.status ≡ pending
          → u.status ≡ pending
          → z.organisation_id ≡ u.organisation_id
          → z.email ≡ u.email
          → z ≡ u
      waiting z u (inr a) (inr b) i j e f = a ∙ sym b
      waiting z u (inr a) (inl (k, h)) i j e f = absurd (
          clash u k h j (sym (ap (λ (q : Invite). q.status) a) ∙ i)
            (sym e ∙ ap (λ (q : Invite). q.organisation_id) a)
            (sym f ∙ ap (λ (q : Invite). q.email) a))
      waiting z u (inl (m, h)) (inr b) i j e f = absurd (
          clash z m h i (sym (ap (λ (q : Invite). q.status) b) ∙ j)
            (e ∙ ap (λ (q : Invite). q.organisation_id) b) (f ∙ ap (λ (q : Invite). q.email) b))
      waiting z u (inl (m, _)) (inl (k, _)) i j e f = s.one_pending z u m k i j e f
