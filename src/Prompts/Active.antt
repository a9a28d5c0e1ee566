-- ===== src/Prompts/Active.antt =====
-- Which version of a prompt is the active one.
use arcane_backend.Common.{
  ◌≤◌, String, Option, none, some, Bool, true, false, ◌==◌, ◌≡◌, refl, sym, ap, ◌⊎◌, inl, inr, ◌≢◌,
  ◌∙◌, Memᴰ, eq_iff, Bool-cases, Option-cases, and-eq-true, ok, err, truthy, or_empty,
}
use arcane_backend.Entities.{Prompt, PromptVersion}
use arcane_backend.Exception.{query_failed, not_found, prompt_not_found, no_versions_found}
use arcane_backend.Platform.{Platform, Db, World}
use arcane_backend.Platform.Laws.{IsLawful}
use arcane_backend.Prompts.Finding.{found, unfound}
use arcane_backend.Prompts.Identifier.{TextTools}
use arcane_backend.Prompts.Versions.{
  is_version, is_version_of, prompt_by_identifier, get_prompt_by_identifier_or_throw,
  find_prompt_by_identifier, find_promoted, promoted_or_newest, get_latest_version_entity,
}

-- The prompt has an id of a promoted version, and it is that of this version.
abbrev pub Promotes : Prompt → PromptVersion → Type 0
Promotes x v = (truthy x.promoted_version_id ≡ true) × (x.promoted_version_id ≡ some v.id)

abbrev pub IsVersionOf : Db → Prompt → PromptVersion → Type 0
IsVersionOf db x v = Memᴰ v db.prompt_versions × (v.prompt_id ≡ x.id)

-- The active version of a prompt: the promoted one; and if there is none, the newest.
pub data IsActive (db : Db) (x : Prompt) (v : PromptVersion) : Type 0 where
  promoted : IsVersionOf db x v → Promotes x v → IsActive db x v
  newest :
      IsVersionOf db x v
      → ((y : PromptVersion) → IsVersionOf db x y → ¬ Promotes x y)
      → ((y : PromptVersion) → IsVersionOf db x y → y.created_at ≤ v.created_at)
      → IsActive db x v

pub or_some : (o : Option String) → truthy o ≡ true → o ≡ some (or_empty o)
or_some none h = absurd (cc)
or_some (some s) h = refl

module _ (p : Platform) (laws : IsLawful p) (t : TextTools) where
  version_of_iff :
      (db : Db) (x : Prompt) (v : PromptVersion) → is_version_of x.id v ≡ true → v.prompt_id ≡ x.id
  version_of_iff db x v h = (eq_iff v.prompt_id x.id).0 h

  -- The version that the promotion of the prompt names, if there is one.
  find_promoted_lem :
      (db : Db) (x : Prompt)
      → ((v : PromptVersion) × (find_promoted p x db ≡ some v) × IsVersionOf db x v × Promotes x v)
        ⊎ ((find_promoted p x db ≡ none)
            × ((y : PromptVersion) → IsVersionOf db x y → ¬ Promotes x y))
  find_promoted_lem db x = elim (Bool-cases (truthy x.promoted_version_id)) [
    | inl e ↦
        set e (p.find_one (is_version (or_empty x.promoted_version_id) x.id) db.prompt_versions)
          refl
    | inr e ↦ inr (rw e refl, λ y h (a, _). clash e a)
  ]
    where
      clash : {b : Bool} → b ≡ false → b ≡ true → ⊥
      clash f g = cc

      Goal : Type 0
      Goal =
          ((v : PromptVersion) × (find_promoted p x db ≡ some v)
            × IsVersionOf db x v
            × Promotes x v)
          ⊎ ((find_promoted p x db ≡ none)
              × ((y : PromptVersion) → IsVersionOf db x y → ¬ Promotes x y))

      set :
          truthy x.promoted_version_id ≡ true
          → (q : Option PromptVersion)
          → p.find_one (is_version (or_empty x.promoted_version_id) x.id) db.prompt_versions ≡ q
          → Goal
      set e none h = inr (
        rw (e, h) refl,
        λ y (m, own) (_, same). clash (laws.find_one_none _ db.prompt_versions y h m) (
            rw
              (
                (eq_iff y.id (or_empty x.promoted_version_id)).1 (sym (ap or_empty same)),
                (eq_iff y.prompt_id x.id).1 own,
              )
              refl),
      )
      set e (some v) h =
          let (m, k) = laws.find_one_some _ db.prompt_versions v h in
          let (a, b) =
            and-eq-true (v.id == or_empty x.promoted_version_id) (v.prompt_id == x.id) k in
          inl (
            v,
            rw (e, h) refl,
            (m, (eq_iff v.prompt_id x.id).0 b),
            (
              e,
              or_some x.promoted_version_id e
                  ∙ ap some (sym ((eq_iff v.id (or_empty x.promoted_version_id)).0 a)),
            ),
          )

  version_lem :
      (db : Db) (x : Prompt)
      → ((promoted_or_newest p x db (find_promoted p x db) ≡ none)
          × ((v : PromptVersion) → ¬ IsVersionOf db x v))
        ⊎ ((v : PromptVersion) × (promoted_or_newest p x db (find_promoted p x db) ≡ some v)
            × IsActive db x v)
  version_lem db x = elim (find_promoted_lem db x) [
    | inl (v, e, own, h) ↦ inr (v, rw e refl, promoted own h)
    | inr (e, no_one) ↦ rw e (
        go no_one
          (p.find_latest (λ (y : PromptVersion). y.created_at) (is_version_of x.id)
            db.prompt_versions)
          refl)
  ]
    where
      latest : Option PromptVersion
      latest =
          p.find_latest (λ (y : PromptVersion). y.created_at) (is_version_of x.id)
            db.prompt_versions

      is_own : (y : PromptVersion) → y.prompt_id ≡ x.id → is_version_of x.id y ≡ true
      is_own y own = (eq_iff y.prompt_id x.id).1 own

      go :
          ((y : PromptVersion) → IsVersionOf db x y → ¬ Promotes x y)
          → (q : Option PromptVersion) → latest ≡ q
          → ((q ≡ none) × ((v : PromptVersion) → ¬ IsVersionOf db x v))
            ⊎ ((v : PromptVersion) × (q ≡ some v) × IsActive db x v)
      go no_one none e = inl (
        refl,
        λ v (m, own). clash (laws.find_latest_none _ _ db.prompt_versions v e m) (is_own v own),
      )
        where
          clash : {b : Bool} → b ≡ false → b ≡ true → ⊥
          clash f g = cc
      go no_one (some v) e =
          let (m, h, most) = laws.find_latest_some _ _ db.prompt_versions v e in
          inr (
            v,
            refl,
            newest (m, (eq_iff v.prompt_id x.id).0 h) no_one
                (λ y (k, own). most y k (is_own y own)),
          )

  module _ (project_id identifier : String) (w : World p) where
    abbrev pub FoundEnds : Type 0
    FoundEnds =
        ((get_latest_version_entity p project_id identifier w
            ≡ (err (not_found (prompt_not_found identifier)), w))
          × (prompt_by_identifier p project_id identifier w.db ≡ none)
          × ((x : Prompt)
              → Memᴰ x w.db.prompts
              → x.project_id ≡ project_id
              → (x.id ≢ identifier) × (x.name ≢ identifier)))
        ⊎ ((x : Prompt) × (prompt_by_identifier p project_id identifier w.db ≡ some x)
            × (x.project_id ≡ project_id)
            × (((get_latest_version_entity p project_id identifier w
                    ≡ (err (not_found (no_versions_found identifier)), w))
                  × ((v : PromptVersion) → ¬ IsVersionOf w.db x v))
                ⊎ ((v : PromptVersion) × (get_latest_version_entity p project_id identifier w
                      ≡ (ok v, w))
                    × IsActive w.db x v)))

    abbrev pub LatestEnds : Type 0
    LatestEnds =
        ((p.is_id identifier ≡ false)
          × (get_latest_version_entity p project_id identifier w
              ≡ (err (query_failed identifier), w)))
        ⊎ ((p.is_id identifier ≡ true) × FoundEnds)

    -- The version of a prompt that is used: either the identifier is no uuid, and the query fails; or
    -- the project has no prompt with that id or name, and the answer says so; or the prompt that is
    -- found has no version, and the answer says so; or the answer is the active version of that
    -- prompt: the promoted one, and the newest if there is none. Nothing changes.
    pub get_latest_version_entity_lem : LatestEnds
    unfolding get_latest_version_entity get_prompt_by_identifier_or_throw find_prompt_by_identifier
    get_latest_version_entity_lem = elim (Bool-cases (p.is_id identifier)) [
      | inr off ↦ inl (off, rw off refl)
      | inl is ↦ inr (
        is,
        elim (Option-cases (prompt_by_identifier p project_id identifier w.db)) [
          | inl e ↦ inl (rw (is, e) refl, e, unfound p laws t project_id identifier w.db e)
          | inr (x, e) ↦
              let (_, own) = found p laws t project_id identifier w.db x e in
              inr (
                x,
                e,
                own,
                ends x is e ((eq_iff x.project_id project_id).1 own) (version_lem w.db x),
              )
        ],
      )
    ]
      where
        ends :
            (x : Prompt)
            → p.is_id identifier ≡ true
            → prompt_by_identifier p project_id identifier w.db ≡ some x
            → (x.project_id == project_id) ≡ true
            → ((promoted_or_newest p x w.db (find_promoted p x w.db) ≡ none)
                × ((v : PromptVersion) → ¬ IsVersionOf w.db x v))
              ⊎ ((v : PromptVersion) × (promoted_or_newest p x w.db (find_promoted p x w.db)
                    ≡ some v)
                  × IsActive w.db x v)
            → ((get_latest_version_entity p project_id identifier w
                  ≡ (err (not_found (no_versions_found identifier)), w))
                × ((v : PromptVersion) → ¬ IsVersionOf w.db x v))
              ⊎ ((v : PromptVersion) × (get_latest_version_entity p project_id identifier w
                    ≡ (ok v, w))
                  × IsActive w.db x v)
        ends x is e own (inl (h, bare)) = inl (rw (is, e, own, h) refl, bare)
        ends x is e own (inr (v, h, active)) = inr (v, rw (is, e, own, h) refl, active)
