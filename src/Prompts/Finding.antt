-- ===== src/Prompts/Finding.antt =====
-- What the queries for a prompt find, and that the audit log leaves the tables alone.
use arcane_backend.Common.{
  String, Option, none, some, false, ◌==◌, ◌≡◌, refl, inl, inr, ◌≢◌, Memᴰ, eq_iff, Bool-cases,
  arith, and-eq-true, ok, truthy,
}
use arcane_backend.Entities.{Prompt}
use arcane_backend.Platform.{Platform, Db, World, AuditEvent}
use arcane_backend.Platform.Audit.{record_audit_lem}
use arcane_backend.Platform.Laws.{IsLawful}
use arcane_backend.Prompts.Identifier.{TextTools}
use arcane_backend.Prompts.Versions.{
  has_prompt_id, is_prompt_named, found_or_named, prompt_by_identifier, audit_if,
}

module _ (p : Platform) where
  pub audit_if_lem :
      (w : World p) (o : Option String) (event : AuditEvent)
      → (u : World p) × (audit_if p o event w ≡ (ok tt, u)) × (u.db ≡ w.db)
  audit_if_lem w o event = elim (Bool-cases (truthy o)) [
    | inl e ↦ let (u, run, same, _) = record_audit_lem p event w in (u, rw e run, same)
    | inr e ↦ (w, rw e refl, refl)
  ]

module _ (p : Platform) (laws : IsLawful p) (t : TextTools) where
  -- A prompt that is found is one of the project.
  pub found :
      (project_id identifier : String) (db : Db) (x : Prompt)
      → prompt_by_identifier p project_id identifier db ≡ some x
      → Memᴰ x db.prompts × (x.project_id ≡ project_id)
  unfolding prompt_by_identifier
  found project_id identifier db x =
      go (p.find_one (has_prompt_id project_id identifier) db.prompts) refl
    where
      first :
          (y : Prompt)
          → p.find_one (has_prompt_id project_id identifier) db.prompts ≡ some y
          → Memᴰ y db.prompts × (y.project_id ≡ project_id)
      first y e =
          let (m, h) = laws.find_one_some (has_prompt_id project_id identifier) db.prompts y e in
          (
            m,
            (eq_iff y.project_id project_id).0
                (and-eq-true (y.id == identifier) (y.project_id == project_id) h).1,
          )

      go :
          (q : Option Prompt)
          → p.find_one (has_prompt_id project_id identifier) db.prompts ≡ q
          → found_or_named p project_id identifier db q ≡ some x
          → Memᴰ x db.prompts × (x.project_id ≡ project_id)
      go none e h =
          let (m, k) = laws.find_one_some (is_prompt_named project_id identifier) db.prompts x h in
          (
            m,
            (eq_iff x.project_id project_id).0
                (and-eq-true (x.name == identifier) (x.project_id == project_id) k).1,
          )
      go (some y) e h = let same : y ≡ x = cc in rw (← same) (first y e)

  -- Of the prompt with that name in the project, if there is one.
  pub named :
      (project_id name : String) (db : Db) (x : Prompt)
      → p.find_one (is_prompt_named project_id name) db.prompts ≡ some x
      → Memᴰ x db.prompts × (x.name ≡ name) × (x.project_id ≡ project_id)
  named project_id name db x e =
      let (m, h) = laws.find_one_some (is_prompt_named project_id name) db.prompts x e in
      let (a, b) = and-eq-true (x.name == name) (x.project_id == project_id) h in
      (m, (eq_iff x.name name).0 a, (eq_iff x.project_id project_id).0 b)

  pub unnamed :
      (project_id name : String) (db : Db)
      → p.find_one (is_prompt_named project_id name) db.prompts ≡ none
      → (x : Prompt) → Memᴰ x db.prompts
      → x.project_id ≡ project_id
      → x.name ≢ name
  unnamed project_id name db e x m a b =
      clash (laws.find_one_none (is_prompt_named project_id name) db.prompts x e m)
    where
      clash : is_prompt_named project_id name x ≡ false → ⊥
      clash f =
          let g = (eq_iff x.name name).1 b in
          let h = (eq_iff x.project_id project_id).1 a in ground arith

  -- Where no prompt is found, none of the project has the id or the name.
  pub unfound :
      (project_id identifier : String) (db : Db)
      → prompt_by_identifier p project_id identifier db ≡ none
      → (x : Prompt) → Memᴰ x db.prompts
      → x.project_id ≡ project_id
      → (x.id ≢ identifier) × (x.name ≢ identifier)
  unfolding prompt_by_identifier
  unfound project_id identifier db h x m own =
      go (p.find_one (has_prompt_id project_id identifier) db.prompts) refl h
    where
      other : has_prompt_id project_id identifier x ≡ false → x.id ≢ identifier
      other f b =
          let g = (eq_iff x.id identifier).1 b in
          let k = (eq_iff x.project_id project_id).1 own in ground arith

      go :
          (q : Option Prompt)
          → p.find_one (has_prompt_id project_id identifier) db.prompts ≡ q
          → found_or_named p project_id identifier db q ≡ none
          → (x.id ≢ identifier) × (x.name ≢ identifier)
      go none e k = (
        other (laws.find_one_none (has_prompt_id project_id identifier) db.prompts x e m),
        unnamed project_id identifier db k x m own,
      )
      go (some y) e k = absurd (cc)
