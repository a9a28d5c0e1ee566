-- ===== src/Prompts/InUse.antt =====
-- The version of a prompt that is used, once the prompt is known.
use arcane_backend.Common.{
  String, Option, none, some, Bool, true, false, ◌==◌, ◌≡◌, refl, sym, ap, ◌⊎◌, inl, inr, ◌∙◌, Memᴰ,
  eq_iff, and-eq-true, ok, err, subst,
}
use arcane_backend.Entities.{Prompt, PromptVersion}
use arcane_backend.Exception.{not_found, no_versions_found}
use arcane_backend.Platform.{Platform, World}
use arcane_backend.Platform.Laws.{IsLawful}
use arcane_backend.Prompts.Active.{
  IsVersionOf, IsActive, Promotes, promoted, newest, LatestEnds, get_latest_version_entity_lem,
}
use arcane_backend.Prompts.Identifier.{TextTools}
use arcane_backend.Prompts.Sound.{IsSound}
use arcane_backend.Prompts.Versions.{
  has_prompt_id, found_or_named, prompt_by_identifier, get_latest_version_entity,
}

module _ (p : Platform) (laws : IsLawful p) (t : TextTools) (project_id : String) (w : World p)
    (s : IsSound p w) where
  -- A prompt of the project is found by its id.
  pub found_by_id :
      (x : Prompt)
      → Memᴰ x w.db.prompts
      → x.project_id ≡ project_id
      → prompt_by_identifier p project_id x.id w.db ≡ some x
  unfolding prompt_by_identifier
  found_by_id x m own = go (p.find_one (has_prompt_id project_id x.id) w.db.prompts) refl
    where
      clash : {b : Bool} → b ≡ false → b ≡ true → ⊥
      clash f g = cc

      go :
          (q : Option Prompt)
          → p.find_one (has_prompt_id project_id x.id) w.db.prompts ≡ q
          → found_or_named p project_id x.id w.db q ≡ some x
      go none e = absurd (
          clash (laws.find_one_none _ w.db.prompts x e m)
            (rw ((eq_iff x.id x.id).1 refl, (eq_iff x.project_id project_id).1 own) refl))
      go (some y) e =
          let (k, h) = laws.find_one_some (has_prompt_id project_id x.id) w.db.prompts y e in
          ap some (
            s.unique_ids y x k m
              ((eq_iff y.id x.id).0 (and-eq-true (y.id == x.id) (y.project_id == project_id) h).0))

  -- The version that is promoted is the one that is used.
  pub promoted_in_use :
      (identifier : String) (x : Prompt) (v : PromptVersion)
      → prompt_by_identifier p project_id identifier w.db ≡ some x
      → IsVersionOf w.db x v
      → Promotes x v
      → p.is_id identifier ≡ true
      → get_latest_version_entity p project_id identifier w ≡ (ok v, w)
  promoted_in_use identifier x v e own given is =
      ends (get_latest_version_entity_lem p laws t project_id identifier w)
    where
      ends :
          LatestEnds p laws t project_id identifier w
          → get_latest_version_entity p project_id identifier w ≡ (ok v, w)
      ends (inl (off, _)) = absurd (cc)
      ends (inr (_, inl (_, h, _))) = absurd (cc)
      ends (inr (_, inr (y, e', _, h))) = active h
        where
          same : x ≡ y
          same = cc

          own_y : IsVersionOf w.db y v
          own_y = subst (λ (q : Prompt). IsVersionOf w.db q v) same own

          given_y : Promotes y v
          given_y = subst (λ (q : Prompt). Promotes q v) same given

          id_of : {c d : String} → some c ≡ some d → c ≡ d
          id_of f = cc

          active :
              ((get_latest_version_entity p project_id identifier w
                    ≡ (err (not_found (no_versions_found identifier)), w))
                  × ((z : PromptVersion) → ¬ IsVersionOf w.db y z))
                ⊎ ((z : PromptVersion) × (get_latest_version_entity p project_id identifier w
                      ≡ (ok z, w))
                    × IsActive w.db y z)
              → get_latest_version_entity p project_id identifier w ≡ (ok v, w)
          active (inl (_, bare)) = absurd (bare v own_y)
          active (inr (z, k, promoted (m, _) (_, f))) = rw k (
              ap (λ (q : PromptVersion). (ok q, w))
                (s.unique_versions z v m own_y.0 (id_of (sym f ∙ given_y.1))))
          active (inr (z, k, newest _ no_one _)) = absurd (no_one v own_y given_y)
