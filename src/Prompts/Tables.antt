-- ===== src/Prompts/Tables.antt =====
-- The tables of prompts and versions, and what the writes of the services do to them.
use arcane_backend.Common.{
  String, none, some, true, false, ◌==◌, List, ◌≡◌, refl, sym, ap, ◌⊎◌, inl, inr, ◌≢◌, ◌∙◌, Memᴰ,
  eq_iff, Bool-cases, subst,
}
use arcane_backend.Entities.{Prompt, PromptVersion}
use arcane_backend.Platform.{Platform}
use arcane_backend.Platform.Keys.{IsKey, insert-IsKey, replace-IsKey, remove-IsKey}
use arcane_backend.Platform.Laws.{IsLawful}
use arcane_backend.Prompts.Versions.{is_version_of}

-- Ids are keys, and so are the names in a project; the version that is promoted is one of the prompt, and a version has a prompt.
pub record IsPromptTable (prompts : List Prompt) (versions : List PromptVersion) : Type 0 where
  pub unique_ids : IsKey (λ (x : Prompt). x.id) prompts
  pub unique_versions : IsKey (λ (v : PromptVersion). v.id) versions
  pub unique_names : IsKey {K = String × String} (λ (x : Prompt). (x.project_id, x.name)) prompts
  pub promoted :
      (x : Prompt) (v : String)
      → Memᴰ x prompts
      → x.promoted_version_id ≡ some v
      → (y : PromptVersion) × Memᴰ y versions × (y.id ≡ v) × (y.prompt_id ≡ x.id)
  pub owned :
      (y : PromptVersion) → Memᴰ y versions → (x : Prompt) × Memᴰ x prompts × (x.id ≡ y.prompt_id)

module _ (p : Platform) (laws : IsLawful p) (prompts : List Prompt) (versions : List PromptVersion)
    (s : IsPromptTable prompts versions) where
  pub insert-IsPromptTable :
      (y : Prompt)
      → ((x : Prompt) → Memᴰ x prompts → x.id ≢ y.id)
      → ((x : Prompt) → Memᴰ x prompts → x.project_id ≡ y.project_id → x.name ≢ y.name)
      → y.promoted_version_id ≡ none
      → IsPromptTable (p.insert y prompts) versions
  insert-IsPromptTable y fresh free bare = record {
    unique_ids = insert-IsKey p laws (λ (x : Prompt). x.id) prompts s.unique_ids y fresh;
    unique_versions = s.unique_versions;
    unique_names =
        insert-IsKey p laws (λ (x : Prompt). (x.project_id, x.name)) prompts s.unique_names y
          (λ x m e.
            free x m (ap (λ (q : String × String). q.0) e) (ap (λ (q : String × String). q.1) e));
    promoted = λ x v m e. belongs x v e ((laws.mem_insert y prompts x).0 m);
    owned = λ v m. let (x, k, a) = s.owned v m in (x, (laws.mem_insert y prompts x).1 (inr k), a);
  }
    where
      belongs :
          (x : Prompt) (v : String)
          → x.promoted_version_id ≡ some v
          → (x ≡ y) ⊎ Memᴰ x prompts
          → (q : PromptVersion) × Memᴰ q versions × (q.id ≡ v) × (q.prompt_id ≡ x.id)
      belongs x v e (inl a) =
          let h = sym e ∙ ap (λ (q : Prompt). q.promoted_version_id) a ∙ bare in absurd (cc)
      belongs x v e (inr m) = s.promoted x v m e

  pub save-IsPromptTable :
      (x y : Prompt)
      → Memᴰ x prompts
      → y.id ≡ x.id
      → ((z : Prompt)
          → Memᴰ z prompts
          → z.project_id ≡ y.project_id
          → z.name ≡ y.name
          → z.id ≡ x.id)
      → ((v : String)
          → y.promoted_version_id ≡ some v
          → (q : PromptVersion) × Memᴰ q versions × (q.id ≡ v) × (q.prompt_id ≡ y.id))
      → IsPromptTable (p.replace (λ z. z.id == y.id) y prompts) versions
  save-IsPromptTable x y known same free belongs = record {
    unique_ids =
        replace-IsKey p laws (λ (z : Prompt). z.id) prompts s.unique_ids (λ z. z.id == y.id) y
          (λ z m f e. off z f e);
    unique_versions = s.unique_versions;
    unique_names =
        replace-IsKey p laws (λ (z : Prompt). (z.project_id, z.name)) prompts s.unique_names
          (λ z. z.id == y.id) y
          (λ z m f e. off z f (
            free z m (ap (λ (q : String × String). q.0) e) (ap (λ (q : String × String). q.1) e)
            ∙ sym same));
    promoted = λ z v m e. has z v e ((laws.mem_replace (λ z. z.id == y.id) y prompts z).0 m);
    owned = λ v m. let (z, k, a) = s.owned v m in owner v z k a;
  }
    where
      owner :
          (v : PromptVersion) (z : Prompt)
          → Memᴰ z prompts
          → z.id ≡ v.prompt_id
          → (q : Prompt) × Memᴰ q (p.replace (λ z. z.id == y.id) y prompts) × (q.id ≡ v.prompt_id)
      owner v z k a = elim (Bool-cases (z.id == y.id)) [
        | inl e ↦ (
          y,
          (laws.mem_replace (λ z. z.id == y.id) y prompts y).1 (inr (refl, (z, k, e))),
          sym ((eq_iff z.id y.id).0 e) ∙ a,
        )
        | inr e ↦ (z, (laws.mem_replace (λ z. z.id == y.id) y prompts z).1 (inl (k, e)), a)
      ]

      off : (z : Prompt) → (z.id == y.id) ≡ false → z.id ≢ y.id
      off z f e = let t = (eq_iff z.id y.id).1 e in cc

      has :
          (z : Prompt) (v : String)
          → z.promoted_version_id ≡ some v
          → (Memᴰ z prompts × ((z.id == y.id) ≡ false))
            ⊎ ((z ≡ y) × ((q : Prompt) × Memᴰ q prompts × ((q.id == y.id) ≡ true)))
          → (q : PromptVersion) × Memᴰ q versions × (q.id ≡ v) × (q.prompt_id ≡ z.id)
      has z v e (inl (m, _)) = s.promoted z v m e
      has z v e (inr (a, _)) =
          let (q, m, b, c) = belongs v (sym (ap (λ (u : Prompt). u.promoted_version_id) a) ∙ e) in
          (q, m, b, c ∙ sym (ap (λ (u : Prompt). u.id) a))

  pub insert_version-IsPromptTable :
      (y : PromptVersion)
      → ((v : PromptVersion) → Memᴰ v versions → v.id ≢ y.id)
      → (x : Prompt) × Memᴰ x prompts × (x.id ≡ y.prompt_id)
      → IsPromptTable prompts (p.insert y versions)
  insert_version-IsPromptTable y fresh known = record {
    unique_ids = s.unique_ids;
    unique_versions =
        insert-IsKey p laws (λ (v : PromptVersion). v.id) versions s.unique_versions y fresh;
    unique_names = s.unique_names;
    promoted = λ x v m e.
        let (q, k, a, b) = s.promoted x v m e in
        (q, (laws.mem_insert y versions q).1 (inr k), a, b);
    owned = λ v m. elim ((laws.mem_insert y versions v).0 m) [
      | inl e ↦ let (x, k, a) = known in (x, k, a ∙ sym (ap (λ (q : PromptVersion). q.prompt_id) e))
      | inr k ↦ s.owned v k
    ];
  }

  -- A prompt that goes with its versions.
  pub remove-IsPromptTable :
      (id : String)
      → IsPromptTable (p.remove (λ x. x.id == id) prompts) (p.remove (is_version_of id) versions)
  remove-IsPromptTable id = record {
    unique_ids = remove-IsKey p laws (λ (x : Prompt). x.id) prompts s.unique_ids (λ x. x.id == id);
    unique_versions =
        remove-IsKey p laws (λ (v : PromptVersion). v.id) versions s.unique_versions
          (is_version_of id);
    unique_names =
        remove-IsKey p laws (λ (x : Prompt). (x.project_id, x.name)) prompts s.unique_names
          (λ x. x.id == id);
    promoted = λ x v m e.
        let (k, off) = (laws.mem_remove (λ x. x.id == id) prompts x).0 m in
        let (y, l, a, b) = s.promoted x v k e in
        (y, (laws.mem_remove (is_version_of id) versions y).1 (l, other (sym b) off), a, b);
    owned = λ y m.
        let (k, off) = (laws.mem_remove (is_version_of id) versions y).0 m in
        let (x, l, a) = s.owned y k in
        (x, (laws.mem_remove (λ x. x.id == id) prompts x).1 (l, other (sym a) off), a);
  }
    where
      other : {a b : String} → a ≡ b → (a == id) ≡ false → (b == id) ≡ false
      other e f = subst (λ (c : String). (c == id) ≡ false) e f
