-- ===== src/Prompts/Promotion.antt =====
-- After the promotion of a version of a prompt.
use arcane_backend.Common.{
  Bool-cases, inl, inr, String, Option, none, some, true, ◌==◌, ◌≡◌, refl, sym, ap, ◌∙◌, Memᴰ,
  eq_iff, and-eq-true, Result, ok, err, truthy, subst,
}
use arcane_backend.Entities.{Prompt, PromptVersion}
use arcane_backend.Exception.{Exception}
use arcane_backend.Platform.{Platform, Db, World, AuditEvent, promoted_state}
use arcane_backend.Platform.Laws.{IsLawful}
use arcane_backend.Prompts.Finding.{found, audit_if_lem}
use arcane_backend.Prompts.Sound.{IsSound}
use arcane_backend.Prompts.Updates.{promote_version-IsSound}
use arcane_backend.Prompts.Identifier.{TextTools}
use arcane_backend.Prompts.Tables.{IsPromptTable}
use arcane_backend.Prompts.Versions.{
  is_version, prompt_by_identifier, get_prompt_by_identifier_or_throw, find_prompt_by_identifier,
  save_prompt, get_latest_version_entity, promote_version, audit_if, prompt_event,
}
use arcane_backend.Prompts.InUse.{promoted_in_use}
use arcane_backend.Prompts.Saved.{promotion, found_again}

module _ (p : Platform) (laws : IsLawful p) (t : TextTools)
    (project_id identifier version_id : String) (user_id organisation_id : Option String)
    (w : World p) where
  PromotedRow : World p → Type 0
  PromotedRow u =
      (x : Prompt) × (v : PromptVersion) × (prompt_by_identifier p project_id identifier w.db
        ≡ some x)
      × Memᴰ v w.db.prompt_versions
      × (v.id ≡ version_id)
      × (v.prompt_id ≡ x.id)
      × (u.db ≡ (save_prompt p (promotion version_id x) w).db)

  -- What a promotion that succeeds has found, and what it leaves.
  promoted_row :
      {u : World p}
      → promote_version p project_id identifier version_id user_id organisation_id w ≡ (ok tt, u)
      → (p.is_id identifier ≡ true) × PromotedRow u
  unfolding PromotedRow promote_version get_prompt_by_identifier_or_throw find_prompt_by_identifier
  promoted_row {u} run = elim (Bool-cases (p.is_id identifier)) [
    | inr off ↦ absurd (clash (rw off at run))
    | inl is ↦ (is, with_prompt is (prompt_by_identifier p project_id identifier w.db) refl)
  ]
    where
      clash :
          {e : Exception} {q : World p}
          → ◌≡◌ {A = Result (Unit {0}) × World p} (err e, q) (ok tt, u)
          → ⊥
      clash f = cc

      event : Prompt → AuditEvent
      event x =
          prompt_event "prompt.version_promoted" user_id x.id organisation_id project_id none
            (some (promoted_state version_id))

      left_by :
          (x : Prompt)
          → audit_if p organisation_id (event x) (save_prompt p (promotion version_id x) w)
            ≡ (ok tt, u)
          → u.db ≡ (save_prompt p (promotion version_id x) w).db
      left_by x f =
          let (q, g, same) =
            audit_if_lem p (save_prompt p (promotion version_id x) w) organisation_id (event x) in
          ap (λ k. k.1.db) (sym f ∙ g) ∙ same

      with_version :
          (x : Prompt)
          → p.is_id identifier ≡ true
          → prompt_by_identifier p project_id identifier w.db ≡ some x
          → (q : Option PromptVersion)
          → p.find_one (is_version version_id x.id) w.db.prompt_versions ≡ q
          → PromotedRow u
      with_version x is e none h =
          let own =
            (eq_iff x.project_id project_id).1 (found p laws t project_id identifier w.db x e).1 in
          absurd (clash (rw (is, e, own, h) at run))
      with_version x is e (some v) h =
          let own =
            (eq_iff x.project_id project_id).1 (found p laws t project_id identifier w.db x e).1 in
          let (m, k) = laws.find_one_some (is_version version_id x.id) w.db.prompt_versions v h in
          let (a, b) = and-eq-true (v.id == version_id) (v.prompt_id == x.id) k in
          (
            x,
            v,
            e,
            m,
            (eq_iff v.id version_id).0 a,
            (eq_iff v.prompt_id x.id).0 b,
            left_by x (rw (is, e, own, h) at run),
          )

      with_prompt :
          p.is_id identifier ≡ true
          → (q : Option Prompt) → prompt_by_identifier p project_id identifier w.db ≡ q
          → PromotedRow u
      with_prompt is none e = absurd (clash (rw (is, e) at run))
      with_prompt is (some x) e =
          with_version x is e (p.find_one (is_version version_id x.id) w.db.prompt_versions) refl

  -- Where the tables are in order: once the promotion of a version, whose id is not empty, has
  -- succeeded, that version is the one that is used under the same identifier.
  pub promote_version-get_latest_version_entity :
      {u : World p}
      → IsSound p w
      → truthy (some version_id) ≡ true
      → promote_version p project_id identifier version_id user_id organisation_id w ≡ (ok tt, u)
      → (v : PromptVersion) × (get_latest_version_entity p project_id identifier u ≡ (ok v, u))
        × (v.id ≡ version_id)
  unfolding PromotedRow
  promote_version-get_latest_version_entity {u} s given run =
      let (is, row) = promoted_row run in
      let (x, v, e, m, a, b, same) = row in
      let found_now =
        subst
          (λ (d : Db).
            prompt_by_identifier p project_id identifier d ≡ some (promotion version_id x))
          (sym same) (found_again p laws t project_id identifier version_id w x (sound x same) e) in
      (
        v,
        promoted_in_use p laws t project_id u sound_after identifier (promotion version_id x) v
            found_now (subst (λ (d : Db). Memᴰ v d.prompt_versions) (sym same) m, b)
            (given, ap some (sym a)) is,
        a,
      )
    where
      sound_after : IsSound p u
      sound_after =
          subst (λ (d : Db). IsPromptTable d.prompts d.prompt_versions) (ap (λ q. q.1.db) run)
            (promote_version-IsSound p laws t project_id identifier version_id user_id
              organisation_id w s)

      sound :
          (x : Prompt)
          → u.db ≡ (save_prompt p (promotion version_id x) w).db
          → IsSound p (save_prompt p (promotion version_id x) w)
      sound x same = subst (λ (d : Db). IsPromptTable d.prompts d.prompt_versions) same sound_after
