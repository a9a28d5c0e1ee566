-- ===== src/Prompts/NewVersion.antt =====
-- The version that is used once a version has been created.
use arcane_backend.Common.{
  ℕ, true, String, Option, none, some, ◌≡◌, refl, sym, ap, ◌⊎◌, inl, inr, ◌∙◌, Memᴰ, Bool-cases,
  Result, ok, err, truthy, or_empty, subst,
}
use arcane_backend.Entities.{Prompt, PromptVersion}
use arcane_backend.Exception.{Exception}
use arcane_backend.Platform.{Platform, Db, World}
use arcane_backend.Platform.Laws.{IsLawful}
use arcane_backend.Prompts.Active.{Promotes, or_some}
use arcane_backend.Prompts.Addition.{IsFirst, IsDraft, IsKept, kept, begun}
use arcane_backend.Prompts.Creation.{create_prompt_ending, create_prompt-IsSound}
use arcane_backend.Prompts.Finding.{named}
use arcane_backend.Prompts.Identifier.{TextTools}
use arcane_backend.Prompts.InUse.{found_by_id, promoted_in_use}
use arcane_backend.Prompts.Service.{CreatePromptRequest, save_over, create_prompt}
use arcane_backend.Prompts.Sound.{IsSound}
use arcane_backend.Prompts.Tables.{IsPromptTable}
use arcane_backend.Prompts.Versions.{is_prompt_named, prompt_by_identifier}

module _ (p : Platform) (laws : IsLawful p) (t : TextTools) (project_id : String) where
  -- The promoted version is used before and after.
  still_used :
      (w u : World p) (x : Prompt) (v : PromptVersion)
      → IsSound p w
      → IsSound p u
      → Memᴰ x w.db.prompts
      → x.project_id ≡ project_id
      → IsKept p project_id w u v x
      → p.is_id v.prompt_id ≡ true
      → IsDraft p project_id w u v
  still_used w u x v s s' m own (x', m', a, b, c, d, old) is =
      elim (Bool-cases (truthy x.promoted_version_id)) [
        | inr e ↦ (x, m, own, d, inl e)
        | inl e ↦
            let is_own = subst (λ (i : String). p.is_id i ≡ true) (sym d) is in
            let same = or_some x.promoted_version_id e in
            let (y, k, f, g) = s.promoted x (or_empty x.promoted_version_id) m same in
            let given : Promotes x y = (e, same ∙ ap some (sym f)) in
            let given' : Promotes x' y = (rw c e, c ∙ given.1) in
            (
              x,
              m,
              own,
              d,
              inr (
                y,
                (k, g),
                given,
                promoted_in_use p laws t project_id w s x.id x y
                    (found_by_id p laws t project_id w s x m own) (k, g) given is_own,
                promoted_in_use p laws t project_id u s' x.id x' y
                    (subst (λ (i : String). prompt_by_identifier p project_id i u.db ≡ some x') a
                      (found_by_id p laws t project_id u s' x' m' (b ∙ own)))
                    (old y k, g ∙ sym a) given' is_own,
              ),
            )
      ]

  module _ (body : CreatePromptRequest) (user_id organisation_id : String) (now : ℕ)
      (w : World p) where
    -- Where the tables are in order, and a version with an id that is not empty has been created
    -- for a prompt whose id is a uuid:
    -- either its prompt is new, and the version is the one that is used; or the prompt was there,
    -- and the version that is promoted, if there is one, is used before and after.
    pub create_prompt-get_latest_version_entity :
        {v : PromptVersion} {u : World p}
        → IsSound p w
        → truthy (some v.id) ≡ true
        → p.is_id v.prompt_id ≡ true
        → create_prompt p t project_id body user_id organisation_id now w ≡ (ok v, u)
        → IsFirst p project_id w u v ⊎ IsDraft p project_id w u v
    create_prompt-get_latest_version_entity {v} {u} s given is run =
        elim (create_prompt_ending p laws t project_id body user_id organisation_id now w) [
          | inl (e, h) ↦ absurd (clash (sym h ∙ run))
          | inr (name, h) ↦
              saved name (p.find_one (is_prompt_named project_id name) w.db.prompts) refl
                (sym h ∙ run)
        ]
      where
        clash : {e : Exception} → ◌≡◌ {A = Result PromptVersion × World p} (err e, w) (ok v, u) → ⊥
        clash f = cc

        after : IsSound p u
        after =
            subst (λ (d : Db). IsPromptTable d.prompts d.prompt_versions) (ap (λ q. q.1.db) run)
              (create_prompt-IsSound p laws t project_id body user_id organisation_id now w s)

        saved :
            (name : String) (q : Option Prompt)
            → p.find_one (is_prompt_named project_id name) w.db.prompts ≡ q
            → save_over p t project_id body user_id organisation_id now name q w ≡ (ok v, u)
            → IsFirst p project_id w u v ⊎ IsDraft p project_id w u v
        saved name none e h =
            let (x, m, own, a, b, k, new) =
              begun p laws t project_id body user_id organisation_id now w name h in
            let found_now =
              subst (λ (i : String). prompt_by_identifier p project_id i u.db ≡ some x) (sym b)
                (found_by_id p laws t project_id u after x m own) in
            inl (
              λ y i f. new y i (f ∙ b),
              promoted_in_use p laws t project_id u after v.prompt_id x v found_now (k, b)
                  (rw a given, a) is,
            )
        saved name (some x) e h =
            let (m, _, own) = named p laws t project_id name w.db x e in
            inr (
              still_used w u x v s after m own
                (kept p laws t project_id body user_id organisation_id now w name x m h) is)
