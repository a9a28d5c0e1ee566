-- ===== src/Prompts/Addition.antt =====
-- What the creation of a version does to the version that is used.
use mathlib.Core.List.Memᴰ
use arcane_backend.Common.{
  ℕ, String, none, some, false, ◌≡◌, refl, sym, ap, ◌⊎◌, inl, inr, ◌≢◌, ◌∙◌, Memᴰ, eq_iff,
  Bool-cases, Result, ok, truthy, is_null, subst, ◌>>◌, pure,
}
use arcane_backend.Entities.{Prompt, PromptVersion}
use arcane_backend.Platform.{Platform, Db, World, AuditEvent, record_audit}
use arcane_backend.Platform.Audit.{record_audit_lem}
use arcane_backend.Platform.Laws.{IsLawful}
use arcane_backend.Prompts.Active.{IsVersionOf, Promotes}
use arcane_backend.Prompts.Identifier.{TextTools}
use arcane_backend.Prompts.Service.{
  CreatePromptRequest, new_prompt, new_version, insert_prompt, insert_version, save_over,
}
use arcane_backend.Prompts.Versions.{save_prompt, get_latest_version_entity}
use arcane_backend.Rbac.Roles.{or_null}

module _ (p : Platform) where
  -- What is recorded and returned leaves the tables.
  recorded :
      {A : Type 0} (w : World p) (event : AuditEvent) (a b : A) {u : World p}
      → (record_audit p event >> pure a) w ≡ (ok b, u)
      → (a ≡ b) × (u.db ≡ w.db)
  recorded {A} w event a b {u} h =
      let (q, run, same, _) = record_audit_lem p event w in
      let left : ◌≡◌ {A = Result A × World p} (ok a, q) (ok b, u) = rw run at h in
      (
        out (ap (λ (k : Result A × World p). k.0) left),
        ap (λ (k : Result A × World p). k.1.db) (sym left) ∙ same,
      )
    where
      out : ◌≡◌ {A = Result A} (ok a) (ok b) → a ≡ b
      out f = cc

  module _ (project_id : String) (w u : World p) (v : PromptVersion) where
    -- The version of a new prompt is used.
    abbrev pub IsFirst : Type 0
    IsFirst =
        ((x : Prompt) → Memᴰ x w.db.prompts → x.id ≢ v.prompt_id)
        × (get_latest_version_entity p project_id v.prompt_id u ≡ (ok v, u))

    -- The version of a prompt that was there is not used before it is promoted.
    abbrev pub IsDraft : Type 0
    IsDraft =
        (x : Prompt) × Memᴰ x w.db.prompts
        × (x.project_id ≡ project_id)
        × (x.id ≡ v.prompt_id)
        × ((truthy x.promoted_version_id ≡ false)
            ⊎ ((y : PromptVersion) × IsVersionOf w.db x y
                × Promotes x y
                × (get_latest_version_entity p project_id x.id w ≡ (ok y, w))
                × (get_latest_version_entity p project_id x.id u ≡ (ok y, u))))

    -- What the save under a name leaves of the prompt that was there.
    abbrev pub IsKept : Prompt → Type 0
    IsKept x =
        (x' : Prompt) × Memᴰ x' u.db.prompts
        × (x'.id ≡ x.id)
        × (x'.project_id ≡ x.project_id)
        × (x'.promoted_version_id ≡ x.promoted_version_id)
        × (x.id ≡ v.prompt_id)
        × ((y : PromptVersion) → Memᴰ y w.db.prompt_versions → Memᴰ y u.db.prompt_versions)

module _ (p : Platform) (laws : IsLawful p) (t : TextTools) (project_id : String)
    (body : CreatePromptRequest) (user_id organisation_id : String) (now : ℕ) (w : World p) where
  pub kept :
      (name : String) (x : Prompt) {v : PromptVersion} {u : World p}
      → Memᴰ x w.db.prompts
      → save_over p t project_id body user_id organisation_id now name (some x) w ≡ (ok v, u)
      → IsKept p project_id w u v x
  kept name x {v} {u} m run = elim (Bool-cases (is_null body.description)) [
    | inl same ↦
        plain (recorded p (insert_version p (version x w) w) _ (version x w) v (rw same at run))
    | inr other ↦ saved_too (
        recorded p (insert_version p (version redescribed saved) saved) _
          (version redescribed saved) v (rw other at run))
  ]
    where
      version : Prompt → World p → PromptVersion
      version y q = new_version p t now y user_id body.version q

      redescribed : Prompt
      redescribed = record x { description = or_null body.description }

      saved : World p
      saved = save_prompt p redescribed w

      plain :
          (version x w ≡ v) × (u.db ≡ (insert_version p (version x w) w).db)
          → IsKept p project_id w u v x
      plain (a, e) = (
        x,
        subst (λ (d : Db). Memᴰ x d.prompts) (sym e) m,
        refl,
        refl,
        refl,
        ap (λ (q : PromptVersion). q.prompt_id) a,
        λ y k.
            subst (λ (d : Db). Memᴰ y d.prompt_versions) (sym e)
              ((laws.mem_insert _ _ y).1 (inr k)),
      )

      saved_too :
          (version redescribed saved ≡ v)
            × (u.db ≡ (insert_version p (version redescribed saved) saved).db)
          → IsKept p project_id w u v x
      saved_too (a, e) = (
        redescribed,
        subst (λ (d : Db). Memᴰ redescribed d.prompts) (sym e)
            ((laws.mem_replace _ redescribed w.db.prompts _).1
              (inr (refl, (x, m, (eq_iff x.id x.id).1 refl)))),
        refl,
        refl,
        refl,
        ap (λ (q : PromptVersion). q.prompt_id) a,
        λ y k.
            subst (λ (d : Db). Memᴰ y d.prompt_versions) (sym e)
              ((laws.mem_insert _ _ y).1 (inr k)),
      )

  -- The save of a new prompt leaves it with its first version promoted.
  pub begun :
      (name : String) {v : PromptVersion} {u : World p}
      → save_over p t project_id body user_id organisation_id now name none w ≡ (ok v, u)
      → (x : Prompt) × Memᴰ x u.db.prompts
        × (x.project_id ≡ project_id)
        × (x.promoted_version_id ≡ some v.id)
        × (v.prompt_id ≡ x.id)
        × Memᴰ v u.db.prompt_versions
        × ((y : Prompt) → Memᴰ y w.db.prompts → y.id ≢ x.id)
  begun name {v} {u} run = ends (recorded p (save_prompt p prompt left) _ version v run)
    where
      fresh : Prompt
      fresh = new_prompt p project_id name body w

      version : PromptVersion
      version = new_version p t now fresh user_id body.version (insert_prompt p fresh w)

      left : World p
      left = insert_version p version (insert_prompt p fresh w)

      prompt : Prompt
      prompt = record fresh { promoted_version_id = some version.id }

      ends :
          (version ≡ v) × (u.db ≡ (save_prompt p prompt left).db)
          → (x : Prompt) × Memᴰ x u.db.prompts
            × (x.project_id ≡ project_id)
            × (x.promoted_version_id ≡ some v.id)
            × (v.prompt_id ≡ x.id)
            × Memᴰ v u.db.prompt_versions
            × ((y : Prompt) → Memᴰ y w.db.prompts → y.id ≢ x.id)
      ends (a, e) = (
        prompt,
        subst (λ (d : Db). Memᴰ prompt d.prompts) (sym e)
            ((laws.mem_replace _ prompt left.db.prompts _).1 (
              inr (
                refl,
                (
                  fresh,
                  (laws.mem_insert fresh w.db.prompts fresh).1 (inl refl),
                  (eq_iff fresh.id fresh.id).1 refl,
                ),
              ))),
        refl,
        ap (λ (q : PromptVersion). some q.id) a,
        ap (λ (q : PromptVersion). q.prompt_id) (sym a),
        subst (λ (d : Db). Memᴰ v d.prompt_versions) (sym e)
            ((laws.mem_insert version w.db.prompt_versions v).1 (inl (sym a))),
        λ y m i. laws.new_id_fresh _ (Memᴰ.cast (sym i) (Memᴰ.map (λ (q : Prompt). q.id) m)),
      )
