-- ===== src/Prompts/Sound.antt =====
-- Worlds whose tables of prompts are in order, and the writes of the services.
use mathlib.Core.List.Memᴰ
use arcane_backend.Common.{String, Option, some, ◌≡◌, sym, ap, ◌∙◌, Memᴰ, subst, ◌>>◌, pure, map}
use arcane_backend.Entities.{Prompt, PromptVersion}
use arcane_backend.Platform.{Platform, Db, World, AuditEvent, record_audit}
use arcane_backend.Platform.Audit.{record_audit_lem}
use arcane_backend.Platform.Laws.{IsLawful}
use arcane_backend.Prompts.Finding.{audit_if_lem}
use arcane_backend.Prompts.Identifier.{TextTools}
use arcane_backend.Prompts.Service.{insert_version}
use arcane_backend.Prompts.Tables.{IsPromptTable, save-IsPromptTable, insert_version-IsPromptTable}
use arcane_backend.Prompts.Versions.{save_prompt, audit_if}

module _ (p : Platform) where
  abbrev pub IsSound : World p → Type 0
  IsSound w = IsPromptTable w.db.prompts w.db.prompt_versions

  pub keep_audit :
      {A : Type 0} (w : World p) (event : AuditEvent) (a : A)
      → IsSound w
      → IsSound ((record_audit p event >> pure a) w).1
  keep_audit w event a s =
      let (u, run, same, _) = record_audit_lem p event w in
      rw run (subst (λ (d : Db). IsPromptTable d.prompts d.prompt_versions) (sym same) s)

  pub keep_audit_if :
      {A : Type 0} (w : World p) (o : Option String) (event : AuditEvent) (a : A)
      → IsSound w
      → IsSound (audit_if p o event w).1 × IsSound ((audit_if p o event >> pure a) w).1
  keep_audit_if w o event a s =
      let (u, run, same) = audit_if_lem p w o event in
      let sound = subst (λ (d : Db). IsPromptTable d.prompts d.prompt_versions) (sym same) s in
      (rw run sound, rw run sound)

module _ (p : Platform) (laws : IsLawful p) (t : TextTools) where
  pub save_version-IsSound :
      (w : World p) (y : PromptVersion)
      → IsSound p w
      → y.id ≡ p.new_id (map (λ (v : PromptVersion). v.id) w.db.prompt_versions)
      → (x : Prompt) × Memᴰ x w.db.prompts × (x.id ≡ y.prompt_id)
      → IsSound p (insert_version p y w)
  save_version-IsSound w y s new known =
      insert_version-IsPromptTable p laws w.db.prompts w.db.prompt_versions s y
        (λ v m i.
          laws.new_id_fresh _
            (Memᴰ.cast (sym (i ∙ new)) (Memᴰ.map (λ (q : PromptVersion). q.id) m)))
        known

  -- A save that leaves the project and the name alone.
  pub resave-IsSound :
      (w : World p) (x y : Prompt)
      → IsSound p w
      → Memᴰ x w.db.prompts
      → y.id ≡ x.id
      → y.project_id ≡ x.project_id
      → y.name ≡ x.name
      → ((v : String)
          → y.promoted_version_id ≡ some v
          → (q : PromptVersion) × Memᴰ q w.db.prompt_versions × (q.id ≡ v) × (q.prompt_id ≡ y.id))
      → IsSound p (save_prompt p y w)
  resave-IsSound w x y s m a b c belongs =
      save-IsPromptTable p laws w.db.prompts w.db.prompt_versions s x y m a
        (λ z k e f.
          ap (λ (q : Prompt). q.id) (s.unique_names z x k m (λ i. ((e ∙ b) i, (f ∙ c) i))))
        belongs
