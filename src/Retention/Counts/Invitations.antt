-- ===== src/Retention/Counts/Invitations.antt =====
-- The number that the invitations policy returns.
use arcane_backend.Common.{
  ltb, length, ℕ, ◌+◌, Option, none, some, Bool, List, Result, ok, err, ◌≡◌, refl, arith,
}
use arcane_backend.Retention.Outcome.{record_deletion_if-IsLogged}
use arcane_backend.Retention.Store.{RetentionStore, IsRetentionLawful, OrganisationInvitation}
use arcane_backend.Retention.Policies.{
  Tables, delete_invitations, delete_old_organisation_invitations, is_lapsed, is_settled,
}

module _ (s : RetentionStore) where
  -- The driver reports how many rows a deletion has affected.
  abbrev pub IsReporting : Type 0
  IsReporting =
      (test : OrganisationInvitation s.Time → Bool) (rows : List (OrganisationInvitation s.Time))
      → (n : ℕ) × (s.affected test rows ≡ some n)

  module _ (laws : IsRetentionLawful s) (reports : IsReporting) where
    delete_invitations-counts :
        (test : OrganisationInvitation s.Time → Bool) (t : Tables s) (n : ℕ) (u : Tables s)
        → delete_invitations s test t ≡ some (ok n, u)
        → length u.invitations + n ≡ length t.invitations
    unfolding delete_invitations
    delete_invitations-counts test t n u run =
        let (k, f) = reports test t.invitations in go k f (s.delete test t.invitations) refl
      where
        Goal : Type 0
        Goal = length u.invitations + n ≡ length t.invitations

        out :
            {a : ℕ} {v : Tables s}
            → ◌≡◌ {A = Option (Result ℕ × Tables s)} (some (ok a, v)) (some (ok n, u))
            → (a ≡ n) × (v ≡ u)
        out f = (cc, cc)

        go :
            (k : ℕ)
            → s.affected test t.invitations ≡ some k
            → (q : Result (List (OrganisationInvitation s.Time))) → s.delete test t.invitations ≡ q
            → Goal
        go k f (err x) d = let g = rw d at run in absurd (cc)
        go k f (ok left) d =
            let (a, v) = out (rw (d, f) at run) in
            rw (← a, ← v) (laws.delete_affected test t.invitations k d f)

    -- The invitations policy returns the number of the invitations that it has deleted.
    pub delete_old_organisation_invitations-counts :
        (t : Tables s) (n : ℕ) (u : Tables s)
        → delete_old_organisation_invitations s t ≡ some (ok n, u)
        → length u.invitations + n ≡ length t.invitations
    unfolding delete_old_organisation_invitations
    delete_old_organisation_invitations-counts t n u run =
        by_lapsed (delete_invitations s (is_lapsed s) t) refl
      where
        Goal : Type 0
        Goal = length u.invitations + n ≡ length t.invitations

        out :
            {a : ℕ} {v : Tables s}
            → ◌≡◌ {A = Option (Result ℕ × Tables s)} (some (ok a, v)) (some (ok n, u))
            → (a ≡ n) × (v ≡ u)
        out f = (cc, cc)

        by_settled :
            (a : ℕ) (v : Tables s)
            → delete_invitations s (is_lapsed s) t ≡ some (ok a, v)
            → (q : Option (Result ℕ × Tables s)) → delete_invitations s (is_settled s) v ≡ q
            → Goal
        by_settled a v e none f = let g = rw (e, f) at run in absurd (cc)
        by_settled a v e (some (err x, w)) f = let g = rw (e, f) at run in absurd (cc)
        by_settled a v e (some (ok b, w)) f =
            let (logs, recorded, _) =
              record_deletion_if-IsLogged s laws (ltb 0 (a + b))
                (record {
                  resource_type = "organisation_invitation";
                  organisation_id = none;
                  project_id = none;
                  retention_policy = "organisation_invitations";
                  retention_days = none;
                  records_deleted = a + b;
                  evaluations_deleted = none;
                })
                w in
            let (same, tables) = out (rw (e, f, recorded) at run) in
            let first = delete_invitations-counts (is_lapsed s) t a v e in
            let second = delete_invitations-counts (is_settled s) v b w f in
            rw (← same, ← tables) (omega arith)

        by_lapsed :
            (q : Option (Result ℕ × Tables s)) → delete_invitations s (is_lapsed s) t ≡ q → Goal
        by_lapsed none e = let g = rw e at run in absurd (cc)
        by_lapsed (some (err x, v)) e = let g = rw e at run in absurd (cc)
        by_lapsed (some (ok a, v)) e = by_settled a v e (delete_invitations s (is_settled s) v) refl
