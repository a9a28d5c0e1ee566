-- ===== src/Platform/Keys.antt =====
-- Keys: columns on which no two rows of a table agree.
use arcane_backend.Common.{Bool, false, List, ◌≡◌, sym, ap, ◌∙◌, inl, inr, ◌⊎◌, ◌≢◌, Memᴰ}
use arcane_backend.Platform.{Platform}
use arcane_backend.Platform.Laws.{IsLawful}

abbrev pub IsKey : {E K : Type 0} → (E → K) → List E → Type 0
IsKey {E} key rows = (x y : E) → Memᴰ x rows → Memᴰ y rows → key x ≡ key y → x ≡ y

module _ {E K : Type 0} (p : Platform) (laws : IsLawful p) (key : E → K) (rows : List E)
    (unique : IsKey key rows) where
  -- Where one row is new and all others are old, and none of these has its key.
  join :
      (y x z : E) {Old : E → Type 0}
      → ((q : E) → Old q → Memᴰ q rows × (key q ≢ key y))
      → (x ≡ y) ⊎ Old x
      → (z ≡ y) ⊎ Old z
      → key x ≡ key z
      → x ≡ z
  join y x z old (inl a) (inl b) e = a ∙ sym b
  join y x z old (inl a) (inr k) e = absurd ((old z k).1 (sym e ∙ ap key a))
  join y x z old (inr m) (inl b) e = absurd ((old x m).1 (e ∙ ap key b))
  join y x z old (inr m) (inr k) e = unique x z (old x m).0 (old z k).0 e

  pub insert-IsKey : (y : E) → ((x : E) → Memᴰ x rows → key x ≢ key y) → IsKey key (p.insert y rows)
  insert-IsKey y fresh x z m k =
      join y x z (λ q h. (h, fresh q h)) ((laws.mem_insert y rows x).0 m)
        ((laws.mem_insert y rows z).0 k)

  pub replace-IsKey :
      (test : E → Bool) (y : E)
      → ((x : E) → Memᴰ x rows → test x ≡ false → key x ≢ key y)
      → IsKey key (p.replace test y rows)
  replace-IsKey test y free x z m k =
      join y x z {Old = λ q. Memᴰ q rows × (test q ≡ false)} (λ q h. (h.0, free q h.0 h.1))
        (cases x m) (cases z k)
    where
      cases : (x : E) → Memᴰ x (p.replace test y rows) → (x ≡ y) ⊎ (Memᴰ x rows × (test x ≡ false))
      cases x m = elim ((laws.mem_replace test y rows x).0 m) [ inl h ↦ inr h | inr (e, _) ↦ inl e ]

  pub remove-IsKey : (test : E → Bool) → IsKey key (p.remove test rows)
  remove-IsKey test x z m k =
      unique x z ((laws.mem_remove test rows x).0 m).0 ((laws.mem_remove test rows z).0 k).0
