-- ===== src/Prompts/Saved.antt =====
-- A prompt whose promotion has been saved is found again.
use arcane_backend.Common.{
  String, Option, none, some, Bool, true, false, ◌==◌, List, ◌≡◌, refl, sym, ap, inl, inr, ◌∙◌,
  Memᴰ, eq_iff, and-eq-true, subst,
}
use arcane_backend.Entities.{Prompt}
use arcane_backend.Platform.{Platform, World}
use arcane_backend.Platform.Laws.{IsLawful}
use arcane_backend.Prompts.Finding.{named, unnamed}
use arcane_backend.Prompts.Sound.{IsSound}
use arcane_backend.Prompts.Identifier.{TextTools}
use arcane_backend.Prompts.Versions.{
  has_prompt_id, is_prompt_named, found_or_named, prompt_by_identifier, save_prompt,
}

abbrev pub promotion : String → Prompt → Prompt
promotion version_id x = record x { promoted_version_id = some version_id }

module _ (p : Platform) (laws : IsLawful p) (t : TextTools)
    (project_id identifier version_id : String) (w : World p) where
  -- The prompt that has been saved is found again.
  pub found_again :
      (x : Prompt)
      → IsSound p (save_prompt p (promotion version_id x) w)
      → prompt_by_identifier p project_id identifier w.db ≡ some x
      → prompt_by_identifier p project_id identifier (save_prompt p (promotion version_id x) w).db
        ≡ some (promotion version_id x)
  unfolding prompt_by_identifier
  found_again x s h = old (p.find_one (has_prompt_id project_id identifier) w.db.prompts) refl h
    where
      after : List Prompt
      after = p.replace (λ y. y.id == x.id) (promotion version_id x) w.db.prompts

      clash : {b : Bool} → b ≡ false → b ≡ true → ⊥
      clash f g = cc

      saved : Memᴰ x w.db.prompts → Memᴰ (promotion version_id x) after
      saved m =
          (laws.mem_replace _ (promotion version_id x) w.db.prompts _).1
            (inr (refl, (x, m, (eq_iff x.id x.id).1 refl)))

      old :
          (q : Option Prompt)
          → p.find_one (has_prompt_id project_id identifier) w.db.prompts ≡ q
          → found_or_named p project_id identifier w.db q ≡ some x
          → found_or_named p project_id identifier
              (save_prompt p (promotion version_id x) w).db
              (p.find_one (has_prompt_id project_id identifier) after)
            ≡ some (promotion version_id x)
      old (some y) e k = again (p.find_one (has_prompt_id project_id identifier) after) refl
        where
          same : y ≡ x
          same = cc

          facts : Memᴰ x w.db.prompts × (has_prompt_id project_id identifier x ≡ true)
          facts = laws.find_one_some (has_prompt_id project_id identifier) w.db.prompts x (e ∙ k)

          again :
              (r : Option Prompt)
              → p.find_one (has_prompt_id project_id identifier) after ≡ r
              → found_or_named p project_id identifier
                  (save_prompt p (promotion version_id x) w).db
                  r
                ≡ some (promotion version_id x)
          again none e' = absurd (
              clash (laws.find_one_none _ after (promotion version_id x) e' (saved facts.0))
                facts.1)
          again (some z) e' =
              let (m, h') = laws.find_one_some (has_prompt_id project_id identifier) after z e' in
              let a =
                (eq_iff z.id identifier).0
                  (and-eq-true (z.id == identifier) (z.project_id == project_id) h').0 in
              let b =
                (eq_iff x.id identifier).0
                  (and-eq-true (x.id == identifier) (x.project_id == project_id) facts.1).0 in
              ap some (s.unique_ids z (promotion version_id x) m (saved facts.0) (a ∙ sym b))
      old none e k = by_id (p.find_one (has_prompt_id project_id identifier) after) refl
        where
          facts : Memᴰ x w.db.prompts × (x.name ≡ identifier) × (x.project_id ≡ project_id)
          facts = named p laws t project_id identifier w.db x k

          by_name :
              (r : Option Prompt)
              → p.find_one (is_prompt_named project_id identifier) after ≡ r
              → r ≡ some (promotion version_id x)
          by_name none e' = absurd (
              unnamed p laws t project_id identifier (save_prompt p (promotion version_id x) w).db
                e' (promotion version_id x) (saved facts.0) facts.2 facts.1)
          by_name (some z) e' =
              let (m, a, b) =
                named p laws t project_id identifier (save_prompt p (promotion version_id x) w).db z
                  e' in
              ap some (
                s.unique_names z (promotion version_id x) m (saved facts.0)
                  (λ i. ((b ∙ sym facts.2) i, (a ∙ sym facts.1) i)))

          by_id :
              (r : Option Prompt)
              → p.find_one (has_prompt_id project_id identifier) after ≡ r
              → found_or_named p project_id identifier
                  (save_prompt p (promotion version_id x) w).db
                  r
                ≡ some (promotion version_id x)
          by_id none e' = by_name (p.find_one (is_prompt_named project_id identifier) after) refl
          by_id (some z) e' =
              let (m, h') = laws.find_one_some (has_prompt_id project_id identifier) after z e' in
              elim ((laws.mem_replace _ (promotion version_id x) w.db.prompts z).0 m) [
                | inl (old_one, _) ↦
                    absurd (clash (laws.find_one_none _ w.db.prompts z e old_one) h')
                | inr (new_one, _) ↦ absurd (
                    clash (laws.find_one_none _ w.db.prompts x e facts.0) (
                      subst (λ (q : Prompt). has_prompt_id project_id identifier q ≡ true) new_one
                        h'))
              ]
