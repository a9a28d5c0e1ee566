-- ===== src/Retention/Invitations.antt =====
-- What `deleteOldOrganisationInvitations` leaves of the invitations.
use arcane_backend.Common.{
  ltb, ℕ, ◌+◌, Option, none, some, Bool, true, List, Result, ok, err, ◌≡◌, refl, ◌↔◌, ◌⊎◌, inl, inr,
  and-eq-true, eq_false,
}
use arcane_backend.Retention.Loop.{Expires}
use arcane_backend.Retention.Outcome.{Turned, IsGrown, same-IsGrown, record_deletion_if-IsLogged}
use arcane_backend.Retention.Policies.{
  Tables, is_lapsed, is_settled, is_expired_or_revoked, is_accepted, is_some_before,
  expired_rejected_days, accepted_days, delete_invitations, delete_old_organisation_invitations,
  or_default,
}
use arcane_backend.Retention.Store.{
  AuditLog, OrganisationInvitation, InvitationStatus, pending, accepted, expired, revoked,
  RetentionStore, IsRetentionLawful,
}

module _ (s : RetentionStore) where
  -- An invitation that was not taken up in time, or that was accepted some time ago.
  abbrev pub IsLapsed : OrganisationInvitation s.Time → Type 0
  IsLapsed i =
      ((i.status ≡ expired) ⊎ (i.status ≡ revoked))
      × (s.is_before i.created_at (s.cutoff_date "" expired_rejected_days) ≡ true)

  abbrev pub IsSettled : OrganisationInvitation s.Time → Type 0
  IsSettled i =
      (i.status ≡ accepted)
      × ((time : s.Time) × (i.accepted_at ≡ some time)
          × (s.is_before time (s.cutoff_date "" accepted_days) ≡ true))

  abbrev pub IsInvitationDue : OrganisationInvitation s.Time → Type 0
  IsInvitationDue i = IsLapsed i ⊎ IsSettled i

  is_lapsed_iff : (i : OrganisationInvitation s.Time) → (is_lapsed s i ≡ true) ↔ IsLapsed i
  unfolding is_lapsed
  is_lapsed_iff i = (
    λ h. let (status, late) = and-eq-true _ _ h in (closed i.status status, late),
    λ (status, late). rw (test i.status status, late) refl,
  )
    where
      closed :
          (x : InvitationStatus) → is_expired_or_revoked x ≡ true → (x ≡ expired) ⊎ (x ≡ revoked)
      closed expired h = inl refl
      closed revoked h = inr refl
      closed pending h = cc
      closed accepted h = cc

      test : (x : InvitationStatus) → (x ≡ expired) ⊎ (x ≡ revoked) → is_expired_or_revoked x ≡ true
      test x (inl e) = rw e refl
      test x (inr e) = rw e refl

  is_settled_iff : (i : OrganisationInvitation s.Time) → (is_settled s i ≡ true) ↔ IsSettled i
  unfolding is_settled
  is_settled_iff i = (
    λ h.
        let (status, late) = and-eq-true _ _ h in
        (taken i.status status, reached i.accepted_at late),
    λ (status, (time, e, late)). rw (status, e) (late),
  )
    where
      taken : (x : InvitationStatus) → is_accepted x ≡ true → x ≡ accepted
      taken accepted h = refl
      taken expired h = cc
      taken revoked h = cc
      taken pending h = cc

      reached :
          (o : Option s.Time)
          → is_some_before s o (s.cutoff_date "" accepted_days) ≡ true
          → (time : s.Time) × (o ≡ some time)
            × (s.is_before time (s.cutoff_date "" accepted_days) ≡ true)
      reached none h = cc
      reached (some time) h = (time, refl, h)

  -- Only the invitations have changed, and the audit log, which has grown.
  abbrev pub OnlyInvitations : Tables s → Tables s → Type 0
  OnlyInvitations t u =
      (rows : List (OrganisationInvitation s.Time)) × (logs : List (AuditLog s.Time)) × (u
        ≡ record t { invitations = rows; audit_logs = logs })
      × IsGrown s t.audit_logs logs

  module _ (laws : IsRetentionLawful s) where
    delete_invitations_lem :
        (test : OrganisationInvitation s.Time → Bool) (t : Tables s)
        → (r : Result ℕ) × (left : List (OrganisationInvitation s.Time)) × (delete_invitations s
              test t
            ≡ some (r, record t { invitations = left }))
          × Expires (λ i. test i ≡ true) (λ _. ⊥) r t.invitations left
    unfolding delete_invitations
    delete_invitations_lem test t = go (s.delete test t.invitations) refl
      where
        go :
            (q : Result (List (OrganisationInvitation s.Time)))
            → s.delete test t.invitations ≡ q
            → (r : Result ℕ) × (left : List (OrganisationInvitation s.Time)) × (delete_invitations s
                  test t
                ≡ some (r, record t { invitations = left }))
              × Expires (λ i. test i ≡ true) (λ _. ⊥) r t.invitations left
        go (err c) e = (
          err c,
          t.invitations,
          rw e refl,
          record { kept = λ i m _. m; sources = λ i m. inl m; gone = λ a i q. cc },
        )
        go (ok left) e = (
          ok (or_default 0 (s.affected test t.invitations)),
          left,
          rw e refl,
          record {
            kept = λ i m young. (laws.mem_delete test t.invitations i e).1 (m, eq_false _ young);
            sources = λ i m. inl ((laws.mem_delete test t.invitations i e).0 m).0;
            gone = λ a i _ m old. let f = ((laws.mem_delete test t.invitations i e).0 m).1 in cc;
          },
        )

    -- The policy comes to an end. It deletes no invitation but those that expired or were revoked, and
    -- are older than the one limit, and those that were accepted before the other; unless a deletion
    -- fails it leaves none of these. No other table changes but the audit log, which grows.
    pub delete_old_organisation_invitations_lem :
        (t : Tables s)
        → Turned
            (λ (u : Tables s). u.invitations)
            (λ _. ⊥)
            OnlyInvitations
            IsInvitationDue
            (λ _. Unit {0})
            (delete_old_organisation_invitations s t)
            t
    unfolding delete_old_organisation_invitations
    delete_old_organisation_invitations_lem t = by_first (delete_invitations_lem (is_lapsed s) t)
      where
        Goal : Type 0
        Goal =
            Turned (λ (u : Tables s). u.invitations) (λ _. ⊥) OnlyInvitations IsInvitationDue
              (λ _. Unit {0}) (delete_old_organisation_invitations s t) t

        Deleted : (OrganisationInvitation s.Time → Bool) → Tables s → Type 0
        Deleted test u =
            (r : Result ℕ) × (left : List (OrganisationInvitation s.Time)) × (delete_invitations s
                test u
              ≡ some (r, record u { invitations = left }))
            × Expires (λ i. test i ≡ true) (λ _. ⊥) r u.invitations left

        young_lapsed :
            (i : OrganisationInvitation s.Time) → ¬ IsInvitationDue i → ¬ (is_lapsed s i ≡ true)
        young_lapsed i young h = young (inl ((is_lapsed_iff i).0 h))

        young_settled :
            (i : OrganisationInvitation s.Time) → ¬ IsInvitationDue i → ¬ (is_settled s i ≡ true)
        young_settled i young h = young (inr ((is_settled_iff i).0 h))

        by_second :
            (n : ℕ) (first : List (OrganisationInvitation s.Time))
            → delete_invitations s (is_lapsed s) t ≡ some (ok n, record t { invitations = first })
            → Expires (λ i. is_lapsed s i ≡ true) (λ _. ⊥) (ok n) t.invitations first
            → Deleted (is_settled s) (record t { invitations = first })
            → Goal
        by_second n first e h (err c, left, f, k) = (
          err c,
          record t { invitations = left },
          rw (e, f) refl,
          tt,
          record {
            kept =
                λ i m young. k.kept i (h.kept i m (young_lapsed i young)) (young_settled i young);
            sources = λ i m. elim (k.sources i m) [ inl q ↦ h.sources i q | inr q ↦ inr q ];
            gone = λ a i q. cc;
          },
          (left, t.audit_logs, refl, same-IsGrown s t.audit_logs),
        )
        by_second n first e h (ok m', left, f, k) =
            let (logs, recorded, logged) =
              record_deletion_if-IsLogged s laws (ltb 0 (n + m'))
                (record {
                  resource_type = "organisation_invitation";
                  organisation_id = none;
                  project_id = none;
                  retention_policy = "organisation_invitations";
                  retention_days = none;
                  records_deleted = n + m';
                  evaluations_deleted = none;
                })
                (record t { invitations = left }) in
            (
              ok (n + m'),
              record t { invitations = left; audit_logs = logs },
              rw (e, f, recorded) refl,
              tt,
              record {
                kept = λ i m young.
                    k.kept i (h.kept i m (young_lapsed i young)) (young_settled i young);
                sources = λ i m. elim (k.sources i m) [ inl q ↦ h.sources i q | inr q ↦ inr q ];
                gone = λ a i _ m due. elim due [
                  | inl lapsed ↦ elim (k.sources i m) [
                    | inl q ↦ h.gone n i refl q ((is_lapsed_iff i).1 lapsed)
                    | inr q ↦ q
                  ]
                  | inr settled ↦ k.gone m' i refl m ((is_settled_iff i).1 settled)
                ];
              },
              (left, logs, refl, logged.grown),
            )

        by_first : Deleted (is_lapsed s) t → Goal
        by_first (err c, left, e, h) = (
          err c,
          record t { invitations = left },
          rw e refl,
          tt,
          record {
            kept = λ i m young. h.kept i m (young_lapsed i young);
            sources = h.sources;
            gone = λ a i q. cc;
          },
          (left, t.audit_logs, refl, same-IsGrown s t.audit_logs),
        )
        by_first (ok n, left, e, h) =
            by_second n left e h
              (delete_invitations_lem (is_settled s) (record t { invitations = left }))
