-- ===== src/Prompts/Creation.antt =====
-- The creation of a prompt, and of a version of one, leaves the tables of prompts in order.
use mathlib.Core.List.Memᴰ
use arcane_backend.Common.{
  ℕ, String, Option, none, some, Bool, ◌==◌, ◌≡◌, refl, sym, ◌⊎◌, inl, inr, eq_iff, Bool-cases,
  Option-cases, Result, ok, err, is_null,
}
use arcane_backend.Entities.{Prompt, PromptVersion, ModelConfiguration}
use arcane_backend.Exception.{
  Exception, not_found, unprocessable, only_chat_templates, model_configuration_not_found,
}
use arcane_backend.Platform.{Platform, World}
use arcane_backend.Platform.Laws.{IsLawful}
use arcane_backend.Prompts.Finding.{named, unnamed}
use arcane_backend.Prompts.Sound.{IsSound, keep_audit, save_version-IsSound, resave-IsSound}
use arcane_backend.Prompts.Identifier.{TextTools, validate}
use arcane_backend.Prompts.Service.{
  CreatePromptRequest, new_prompt, new_version, insert_prompt, insert_version, save_over,
  save_checked, create_prompt, is_chat,
}
use arcane_backend.Prompts.Tables.{insert-IsPromptTable}
use arcane_backend.Prompts.Validators.{
  from_adapter, validate_template_type, validate_invocation_parameters,
}
use arcane_backend.Prompts.Versions.{is_prompt_named, save_prompt}
use arcane_backend.Rbac.Roles.{or_null}

module _ (p : Platform) (laws : IsLawful p) (t : TextTools) where
  save_new-IsSound :
      (project_id : String) (body : CreatePromptRequest) (user_id organisation_id : String)
      (now : ℕ) (name : String) (w : World p)
      → IsSound p w
      → p.find_one (is_prompt_named project_id name) w.db.prompts ≡ none
      → IsSound p (save_over p t project_id body user_id organisation_id now name none w).1
  save_new-IsSound project_id body user_id organisation_id now name w s e =
      keep_audit p (save_prompt p (record prompt { promoted_version_id = some version.id }) left) _
        version
        (resave-IsSound p laws t left prompt
          (record prompt { promoted_version_id = some version.id })
          (save_version-IsSound p laws t (insert_prompt p prompt w) version inserted refl
            (prompt, (laws.mem_insert prompt w.db.prompts prompt).1 (inl refl), refl))
          ((laws.mem_insert prompt w.db.prompts prompt).1 (inl refl)) refl refl refl
          (λ u f. (
            version,
            (laws.mem_insert version w.db.prompt_versions version).1 (inl refl),
            out f,
            refl,
          )))
    where
      prompt : Prompt
      prompt = new_prompt p project_id name body w

      version : PromptVersion
      version = new_version p t now prompt user_id body.version (insert_prompt p prompt w)

      left : World p
      left = insert_version p version (insert_prompt p prompt w)

      inserted : IsSound p (insert_prompt p prompt w)
      inserted =
          insert-IsPromptTable p laws w.db.prompts w.db.prompt_versions s prompt
            (λ x m i. laws.new_id_fresh _ (Memᴰ.cast (sym i) (Memᴰ.map (λ (y : Prompt). y.id) m)))
            (λ x m i. unnamed p laws t project_id name w.db e x m i) refl

      out : {u : String} → some version.id ≡ some u → version.id ≡ u
      out f = cc

  save_over-IsSound :
      (project_id : String) (body : CreatePromptRequest) (user_id organisation_id : String)
      (now : ℕ) (name : String) (w : World p) (q : Option Prompt)
      → IsSound p w
      → p.find_one (is_prompt_named project_id name) w.db.prompts ≡ q
      → IsSound p (save_over p t project_id body user_id organisation_id now name q w).1
  save_over-IsSound project_id body user_id organisation_id now name w none s e =
      save_new-IsSound project_id body user_id organisation_id now name w s e
  save_over-IsSound project_id body user_id organisation_id now name w (some x) s e =
      elim (Bool-cases (is_null body.description)) [
        | inl same ↦ rw same (
            keep_audit p (insert_version p (version x w) w) _ (version x w) (
              save_version-IsSound p laws t w (version x w) s refl
                (x, (named p laws t project_id name w.db x e).0, refl)))
        | inr other ↦ rw other (
            keep_audit p (insert_version p (version redescribed saved) saved) _
              (version redescribed saved)
              (save_version-IsSound p laws t saved (version redescribed saved)
                (resave-IsSound p laws t w x redescribed s
                  (named p laws t project_id name w.db x e).0 refl refl refl
                  (λ v f. s.promoted x v (named p laws t project_id name w.db x e).0 f))
                refl
                (
                  redescribed,
                  (laws.mem_replace _ redescribed w.db.prompts redescribed).1 (
                      inr (
                        refl,
                        (x, (named p laws t project_id name w.db x e).0, (eq_iff x.id x.id).1 refl),
                      )),
                  refl,
                )))
      ]
    where
      version : Prompt → World p → PromptVersion
      version y u = new_version p t now y user_id body.version u

      redescribed : Prompt
      redescribed = record x { description = or_null body.description }

      saved : World p
      saved = save_prompt p redescribed w

  Result-cases :
      {A : Type 0} (r : Result A) → ((e : Exception) × (r ≡ err e)) ⊎ ((a : A) × (r ≡ ok a))
  Result-cases (err e) = inl (e, refl)
  Result-cases (ok a) = inr (a, refl)

  module _ (project_id : String) (body : CreatePromptRequest) (user_id organisation_id : String)
      (now : ℕ) (w : World p) where
    -- A creation is refused before anything is written, or it comes to the save under a valid name.
    pub create_prompt_ending :
        ((e : Exception) × (create_prompt p t project_id body user_id organisation_id now w
            ≡ (err e, w)))
        ⊎ ((name : String) × (create_prompt p t project_id body user_id organisation_id now w
              ≡ save_over p t project_id body user_id organisation_id now name
                  (p.find_one (is_prompt_named project_id name) w.db.prompts)
                  w))
    unfolding create_prompt save_checked
    create_prompt_ending = elim (Bool-cases (is_chat body.version.template_type)) [
      | inr other ↦ inl (unprocessable only_chat_templates, rw other refl)
      | inl chatting ↦
          elim (Result-cases
            (validate_template_type body.version.template_type body.version.template_kind)) [
              | inl (e, h) ↦ inl (e, rw (chatting, h) refl)
              | inr (_, h) ↦ elim (Option-cases (p.find_one configured w.db.model_configurations)) [
                | inl h' ↦ inl (
                  not_found (model_configuration_not_found body.version.model_configuration_id),
                  rw (chatting, h, h') refl,
                )
                | inr (model, h') ↦
                    elim (Result-cases (
                      validate_invocation_parameters (from_adapter model.adapter)
                        body.version.invocation_type)) [
                          | inl (e, k) ↦ inl (e, rw (chatting, h, h', k) refl)
                          | inr (_, k) ↦ elim (Result-cases (validate t body.name)) [
                            | inl (e, l) ↦ inl (e, rw (chatting, h, h', k, l) refl)
                            | inr (name, l) ↦ inr (name, rw (chatting, h, h', k, l) refl)
                          ]
                        ]
              ]
            ]
    ]
      where
        configured : ModelConfiguration → Bool
        configured x = x.id == body.version.model_configuration_id

    pub create_prompt-IsSound :
        IsSound p w → IsSound p (create_prompt p t project_id body user_id organisation_id now w).1
    create_prompt-IsSound s = elim create_prompt_ending [
      | inl (_, h) ↦ rw h s
      | inr (name, h) ↦
          rw h (save_over-IsSound project_id body user_id organisation_id now name w _ s refl)
    ]
