-- ===== src/Prompts/Updates.antt =====
-- A promotion, an update and a deletion leave the tables of prompts in order.
use arcane_backend.Common.{
  String, Option, none, some, true, ◌==◌, ◌≡◌, refl, sym, ap, ◌⊎◌, inl, inr, ◌∙◌, Memᴰ, eq_iff,
  Bool-cases, Option-cases, and-eq-true, Result, ok, err,
}
use arcane_backend.Entities.{Prompt, PromptVersion}
use arcane_backend.Exception.{Exception, unprocessable, prompt_name_exists}
use arcane_backend.Platform.{Platform, Db, World}
use arcane_backend.Platform.Laws.{IsLawful}
use arcane_backend.Prompts.Finding.{found, named, unnamed}
use arcane_backend.Prompts.Sound.{IsSound, keep_audit_if, resave-IsSound}
use arcane_backend.Prompts.Identifier.{TextTools, validate}
use arcane_backend.Prompts.Service.{
  UpdatePromptRequest, rename, described, save_updated, update_prompt, remove_prompt,
}
use arcane_backend.Prompts.Tables.{save-IsPromptTable, remove-IsPromptTable}
use arcane_backend.Prompts.Versions.{
  is_prompt_named, is_version, prompt_by_identifier, get_prompt_by_identifier_or_throw,
  find_prompt_by_identifier, save_prompt, promote_version,
}

module _ (p : Platform) (laws : IsLawful p) (t : TextTools) where
  pub promote_version-IsSound :
      (project_id identifier version_id : String) (user_id organisation_id : Option String)
      (w : World p)
      → IsSound p w
      → IsSound p (promote_version p project_id identifier version_id user_id organisation_id w).1
  unfolding promote_version get_prompt_by_identifier_or_throw find_prompt_by_identifier
  promote_version-IsSound project_id identifier version_id user_id organisation_id w s =
      elim (Bool-cases (p.is_id identifier)) [
        | inr off ↦ rw off s
        | inl is ↦ rw is (elim (Option-cases (prompt_by_identifier p project_id identifier w.db)) [
          | inl e ↦ rw e s
          | inr (x, e) ↦
              rw (e, own x e)
                (elim (Option-cases
                  (p.find_one (is_version version_id x.id) w.db.prompt_versions)) [
                    | inl e' ↦ rw e' s
                    | inr (v, e') ↦
                        rw e'
                          (keep_audit_if p _ organisation_id _ tt
                            (saved x v (found p laws t project_id identifier w.db x e).0 e')).0
                  ])
        ])
      ]
    where
      own :
          (x : Prompt)
          → prompt_by_identifier p project_id identifier w.db ≡ some x
          → (x.project_id == project_id) ≡ true
      own x e = (eq_iff x.project_id project_id).1 (found p laws t project_id identifier w.db x e).1

      saved :
          (x : Prompt) (v : PromptVersion)
          → Memᴰ x w.db.prompts
          → p.find_one (is_version version_id x.id) w.db.prompt_versions ≡ some v
          → IsSound p (save_prompt p (record x { promoted_version_id = some version_id }) w)
      saved x v m e =
          let (k, h) = laws.find_one_some _ w.db.prompt_versions v e in
          let (a, b) = and-eq-true _ _ h in
          resave-IsSound p laws t w x (record x { promoted_version_id = some version_id }) s m refl
            refl refl
            (λ u f. (v, k, (eq_iff v.id version_id).0 a ∙ out f, (eq_iff v.prompt_id x.id).0 b))
        where
          out : {u : String} → some version_id ≡ some u → version_id ≡ u
          out f = cc

  -- A renamed prompt: the name is its own.
  IsRenamed : Db → Prompt → Prompt → Type 0
  IsRenamed db x y =
      (y.id ≡ x.id)
      × (y.project_id ≡ x.project_id)
      × (y.promoted_version_id ≡ x.promoted_version_id)
      × ((z : Prompt)
          → Memᴰ z db.prompts
          → z.project_id ≡ y.project_id
          → z.name ≡ y.name
          → z.id ≡ x.id)

  rename_lem :
      (project_id : String) (x : Prompt) (name : Option String) (w : World p)
      → IsSound p w
      → Memᴰ x w.db.prompts
      → x.project_id ≡ project_id
      → ((e : Exception) × (rename p t project_id x name w ≡ (err e, w)))
        ⊎ ((y : Prompt) × (rename p t project_id x name w ≡ (ok y, w)) × IsRenamed w.db x y)
  unfolding IsRenamed
  rename_lem project_id x none w s m own = inr (
    x,
    refl,
    (
      refl,
      refl,
      refl,
      λ z k a b. ap (λ (q : Prompt). q.id) (s.unique_names z x k m (λ i. (a i, b i))),
    ),
  )
  rename_lem project_id x (some name) w s m own = validated (validate t name) refl
    where
      Goal : Type 0
      Goal =
          ((e : Exception) × (rename p t project_id x (some name) w ≡ (err e, w)))
          ⊎ ((y : Prompt) × (rename p t project_id x (some name) w ≡ (ok y, w))
              × IsRenamed w.db x y)

      validated : (r : Result String) → validate t name ≡ r → Goal
      validated (err e) h = inl (e, rw h refl)
      validated (ok n) h = tried (p.find_one (is_prompt_named project_id n) w.db.prompts) refl
        where
          tried :
              (q : Option Prompt)
              → p.find_one (is_prompt_named project_id n) w.db.prompts ≡ q
              → Goal
          tried none e = inr (
            record x { name = n },
            rw (h, e) refl,
            (
              refl,
              refl,
              refl,
              λ z k a b. absurd (unnamed p laws t project_id n w.db e z k (a ∙ own) b),
            ),
          )
          tried (some q) e = elim (Bool-cases (q.id == x.id)) [
            | inl same ↦ inr (
              record x { name = n },
              rw (h, e, same) refl,
              (
                refl,
                refl,
                refl,
                λ z k a b.
                    let (k', c, d) = named p laws t project_id n w.db q e in
                    ap (λ (u : Prompt). u.id)
                      (s.unique_names z q k k' (λ i. ((a ∙ own ∙ sym d) i, (b ∙ sym c) i)))
                    ∙ (eq_iff q.id x.id).0 same,
              ),
            )
            | inr other ↦ inl (unprocessable (prompt_name_exists n), rw (h, e, other) refl)
          ]

  described_lem :
      (x : Prompt) (d : Option String)
      → ((described p t x d).id ≡ x.id)
        × ((described p t x d).project_id ≡ x.project_id)
        × ((described p t x d).name ≡ x.name)
        × ((described p t x d).promoted_version_id ≡ x.promoted_version_id)
  described_lem x none = (refl, refl, refl, refl)
  described_lem x (some d) = (refl, refl, refl, refl)

  pub update_prompt-IsSound :
      (project_id identifier : String) (dto : UpdatePromptRequest)
      (user_id organisation_id : Option String) (w : World p)
      → IsSound p w
      → IsSound p (update_prompt p t project_id identifier dto user_id organisation_id w).1
  unfolding update_prompt get_prompt_by_identifier_or_throw find_prompt_by_identifier IsRenamed
  update_prompt-IsSound project_id identifier dto user_id organisation_id w s =
      elim (Bool-cases (p.is_id identifier)) [
        | inr off ↦ rw off s
        | inl is ↦ rw is (elim (Option-cases (prompt_by_identifier p project_id identifier w.db)) [
          | inl e ↦ rw e s
          | inr (x, e) ↦
              rw
                (
                  e,
                  (eq_iff x.project_id project_id).1
                      (found p laws t project_id identifier w.db x e).1,
                )
                (renamed x (found p laws t project_id identifier w.db x e).0 (
                  rename_lem project_id x dto.name w s
                    (found p laws t project_id identifier w.db x e).0
                    (found p laws t project_id identifier w.db x e).1))
        ])
      ]
    where
      renamed :
          (x : Prompt)
          → Memᴰ x w.db.prompts
          → ((e : Exception) × (rename p t project_id x dto.name w ≡ (err e, w)))
            ⊎ ((y : Prompt) × (rename p t project_id x dto.name w ≡ (ok y, w)) × IsRenamed w.db x y)
          → IsSound p (save_updated p t project_id x dto user_id organisation_id w).1
      renamed x m (inl (e, h)) = rw h s
      renamed x m (inr (y, h, (a, b, c, free))) =
          let (a', b', n, c') = described_lem y dto.description in
          rw h
            (keep_audit_if p (save_prompt p (described p t y dto.description) w) organisation_id _
              (described p t y dto.description)
              (save-IsPromptTable p laws w.db.prompts w.db.prompt_versions s x
                (described p t y dto.description) m (a' ∙ a) (λ z k e f. free z k (e ∙ b') (f ∙ n))
                (λ v e.
                  let (q, k, d, f) = s.promoted x v m (sym (c' ∙ c) ∙ e) in
                  (q, k, d, f ∙ sym (a' ∙ a))))).1

  pub remove_prompt-IsSound :
      (project_id identifier : String) (user_id organisation_id : Option String) (w : World p)
      → IsSound p w
      → IsSound p (remove_prompt p t project_id identifier user_id organisation_id w).1
  unfolding remove_prompt get_prompt_by_identifier_or_throw find_prompt_by_identifier
  remove_prompt-IsSound project_id identifier user_id organisation_id w s =
      elim (Bool-cases (p.is_id identifier)) [
        | inr off ↦ rw off s
        | inl is ↦ rw is (elim (Option-cases (prompt_by_identifier p project_id identifier w.db)) [
          | inl e ↦ rw e s
          | inr (x, e) ↦
              rw e
                (keep_audit_if p _ organisation_id _ tt
                  (remove-IsPromptTable p laws w.db.prompts w.db.prompt_versions s x.id)).0
        ])
      ]
