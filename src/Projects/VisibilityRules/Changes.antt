-- ===== src/Projects/VisibilityRules/Changes.antt =====
-- What an insertion, a replacement and a removal do to the table of visibility rules.
use arcane_backend.Common.{
  String, Bool, true, false, ◌==◌, List, ◌≡◌, refl, sym, ap, ◌⊎◌, ◌↔◌, inl, inr, ◌≢◌, ◌∙◌, Memᴰ,
  eq_iff,
}
use arcane_backend.Platform.{Platform, AttributeVisibilityRule}
use arcane_backend.Platform.Laws.{IsLawful}

abbrev pub Rule : Type 0
Rule = AttributeVisibilityRule

-- No two rules have one id, and no two rules of a project are for one attribute.
pub record HasUniqueRules (rows : List Rule) : Type 0 where
  pub unique_ids : (r s : Rule) → Memᴰ r rows → Memᴰ s rows → r.id ≡ s.id → r ≡ s
  pub unique_names :
      (r s : Rule)
      → Memᴰ r rows
      → Memᴰ s rows
      → r.project_id ≡ s.project_id
      → r.attribute_name ≡ s.attribute_name
      → r ≡ s

-- Rules stay unique, and those of other projects stay as they were.
pub record IsRuleStep (project : String) (before after : List Rule) : Type 0 where
  pub unique : HasUniqueRules after
  pub others : (r : Rule) → r.project_id ≢ project → Memᴰ r after ↔ Memᴰ r before

pub IsRuleStep-same :
    (project : String) {rows : List Rule} → HasUniqueRules rows → IsRuleStep project rows rows
IsRuleStep-same project u = record { unique = u; others = λ r h. (λ m. m, λ m. m) }

test_false : (a b : String) → a ≢ b → (a == b) ≡ false
test_false a b h = is_false (a == b) (λ t. h ((eq_iff a b).0 t))
  where
    is_false : (x : Bool) → ¬ (x ≡ true) → x ≡ false
    is_false true k = absurd (k refl)
    is_false false k = refl

test_ne : (a b : String) → (a == b) ≡ false → a ≢ b
test_ne a b f e = let t = (eq_iff a b).1 e in cc

module _ (p : Platform) (laws : IsLawful p) (project : String) (rows : List Rule)
    (u : HasUniqueRules rows) where
  pub insert-IsRuleStep :
      (y : Rule)
      → y.project_id ≡ project
      → ((r : Rule) → Memᴰ r rows → r.id ≢ y.id)
      → ((r : Rule) → Memᴰ r rows → r.project_id ≡ project → r.attribute_name ≢ y.attribute_name)
      → IsRuleStep project rows (p.insert y rows)
  insert-IsRuleStep y own fresh free = record {
    unique = record {
      unique_ids = λ r s m k e. ids r s (cases r m) (cases s k) e;
      unique_names = λ r s m k e f. names r s (cases r m) (cases s k) e f;
    };
    others = λ r h. (λ m. old r h (cases r m), λ m. (laws.mem_insert y rows r).1 (inr m));
  }
    where
      cases : (x : Rule) → Memᴰ x (p.insert y rows) → (x ≡ y) ⊎ Memᴰ x rows
      cases x m = (laws.mem_insert y rows x).0 m

      ids : (r s : Rule) → (r ≡ y) ⊎ Memᴰ r rows → (s ≡ y) ⊎ Memᴰ s rows → r.id ≡ s.id → r ≡ s
      ids r s (inl a) (inl b) e = a ∙ sym b
      ids r s (inl a) (inr k) e = absurd (fresh s k (sym e ∙ ap (λ (x : Rule). x.id) a))
      ids r s (inr m) (inl b) e = absurd (fresh r m (e ∙ ap (λ (x : Rule). x.id) b))
      ids r s (inr m) (inr k) e = u.unique_ids r s m k e

      names :
          (r s : Rule)
          → (r ≡ y) ⊎ Memᴰ r rows
          → (s ≡ y) ⊎ Memᴰ s rows
          → r.project_id ≡ s.project_id
          → r.attribute_name ≡ s.attribute_name
          → r ≡ s
      names r s (inl a) (inl b) e f = a ∙ sym b
      names r s (inl a) (inr k) e f = absurd (
          free s k (sym e ∙ ap (λ (x : Rule). x.project_id) a ∙ own)
            (sym f ∙ ap (λ (x : Rule). x.attribute_name) a))
      names r s (inr m) (inl b) e f = absurd (
          free r m (e ∙ ap (λ (x : Rule). x.project_id) b ∙ own)
            (f ∙ ap (λ (x : Rule). x.attribute_name) b))
      names r s (inr m) (inr k) e f = u.unique_names r s m k e f

      old : (r : Rule) → r.project_id ≢ project → (r ≡ y) ⊎ Memᴰ r rows → Memᴰ r rows
      old r h (inl a) = absurd (h (ap (λ (x : Rule). x.project_id) a ∙ own))
      old r h (inr m) = m

  pub replace-IsRuleStep :
      (entity y : Rule)
      → Memᴰ entity rows
      → entity.project_id ≡ project
      → y.id ≡ entity.id
      → y.project_id ≡ entity.project_id
      → y.attribute_name ≡ entity.attribute_name
      → IsRuleStep project rows (p.replace (λ r. r.id == y.id) y rows)
  replace-IsRuleStep entity y known own same_id same_project same_name = record {
    unique = record {
      unique_ids = λ r s m k e. ids r s (cases r m) (cases s k) e;
      unique_names = λ r s m k e f. names r s (cases r m) (cases s k) e f;
    };
    others = λ r h. (
      λ m. old r h (cases r m),
      λ m. (laws.mem_replace (λ q. q.id == y.id) y rows r).1 (
          inl (
            m,
            test_false r.id y.id (λ e. h (
                ap (λ (x : Rule). x.project_id) (u.unique_ids r entity m known (e ∙ same_id))
                ∙ own)),
          )),
    );
  }
    where
      Case : Rule → Type 0
      Case x = (Memᴰ x rows × (x.id ≢ y.id)) ⊎ (x ≡ y)

      cases : (x : Rule) → Memᴰ x (p.replace (λ r. r.id == y.id) y rows) → Case x
      cases x m = elim ((laws.mem_replace (λ r. r.id == y.id) y rows x).0 m) [
        | inl (k, f) ↦ inl (k, test_ne x.id y.id f)
        | inr (e, _) ↦ inr e
      ]

      ids : (r s : Rule) → Case r → Case s → r.id ≡ s.id → r ≡ s
      ids r s (inr a) (inr b) e = a ∙ sym b
      ids r s (inr a) (inl (k, h)) e = absurd (h (sym e ∙ ap (λ (x : Rule). x.id) a))
      ids r s (inl (m, h)) (inr b) e = absurd (h (e ∙ ap (λ (x : Rule). x.id) b))
      ids r s (inl (m, _)) (inl (k, _)) e = u.unique_ids r s m k e

      -- A rule for the attribute of the new one is the entity.
      clash :
          (r : Rule)
          → Memᴰ r rows
          → r.id ≢ y.id
          → r.project_id ≡ y.project_id
          → r.attribute_name ≡ y.attribute_name
          → ⊥
      clash r m h e f = h (
          ap (λ (x : Rule). x.id)
            (u.unique_names r entity m known (e ∙ same_project) (f ∙ same_name))
          ∙ sym same_id)

      names :
          (r s : Rule)
          → Case r
          → Case s
          → r.project_id ≡ s.project_id
          → r.attribute_name ≡ s.attribute_name
          → r ≡ s
      names r s (inr a) (inr b) e f = a ∙ sym b
      names r s (inr a) (inl (k, h)) e f = absurd (
          clash s k h (sym e ∙ ap (λ (x : Rule). x.project_id) a)
            (sym f ∙ ap (λ (x : Rule). x.attribute_name) a))
      names r s (inl (m, h)) (inr b) e f = absurd (
          clash r m h (e ∙ ap (λ (x : Rule). x.project_id) b)
            (f ∙ ap (λ (x : Rule). x.attribute_name) b))
      names r s (inl (m, _)) (inl (k, _)) e f = u.unique_names r s m k e f

      old : (r : Rule) → r.project_id ≢ project → Case r → Memᴰ r rows
      old r h (inl (m, _)) = m
      old r h (inr e) = absurd (h (ap (λ (x : Rule). x.project_id) e ∙ same_project ∙ own))

  pub remove-IsRuleStep :
      (entity : Rule)
      → Memᴰ entity rows
      → entity.project_id ≡ project
      → IsRuleStep project rows (p.remove (λ r. r.id == entity.id) rows)
  remove-IsRuleStep entity known own = record {
    unique = record {
      unique_ids = λ r s m k e. u.unique_ids r s (old r m) (old s k) e;
      unique_names = λ r s m k e f. u.unique_names r s (old r m) (old s k) e f;
    };
    others = λ r h. (
      old r,
      λ m. (laws.mem_remove (λ q. q.id == entity.id) rows r).1 (
        m,
        test_false r.id entity.id
            (λ e. h (ap (λ (x : Rule). x.project_id) (u.unique_ids r entity m known e) ∙ own)),
      ),
    );
  }
    where
      old : (r : Rule) → Memᴰ r (p.remove (λ q. q.id == entity.id) rows) → Memᴰ r rows
      old r m = ((laws.mem_remove (λ q. q.id == entity.id) rows r).0 m).0
