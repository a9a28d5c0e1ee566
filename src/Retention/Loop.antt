-- ===== src/Retention/Loop.antt =====
-- The loop over batches of rows.
use arcane_backend.Common.{
  length, ℕ, zero, suc, ◌+◌, ◌<◌, ◌≤◌, String, some, Bool, true, List, [], ◌∷◌, map, Result, ok,
  err, includes, includes_iff, mem_of_map, eq_false, ◌≡◌, refl, ◌↔◌, ◌⊎◌, inl, inr, Memᴰ, ◌∙◌,
  arith,
}
use arcane_backend.Retention.Batches.{batch_size, Batches, delete_batches}
use arcane_backend.Retention.Store.{RetentionStore, IsRetentionLawful, HasUniqueIds}

-- From `before` to `after`, every row stays that is not old, no row comes but those that may be
-- added, and unless there was an exception no row is old any more.
pub record Expires {E A : Type 0} (Old Added : E → Type 0) (r : Result A) (before after : List E)
    : Type 0 where
  pub kept : (x : E) → Memᴰ x before → ¬ Old x → Memᴰ x after
  pub sources : (x : E) → Memᴰ x after → Memᴰ x before ⊎ Added x
  pub gone : (a : A) (x : E) → r ≡ ok a → Memᴰ x after → ¬ Old x

module _ (s : RetentionStore) (laws : IsRetentionLawful s) {E : Type 0} (test : E → Bool)
    (id_of : E → String) where
  abbrev pub IsOld : E → Type 0
  IsOld x = test x ≡ true

  abbrev pub Never : E → Type 0
  Never x = ⊥

  -- The ids of a batch are those of old rows only.
  in_batch_IsOld :
      (rows : List E)
      → HasUniqueIds id_of rows
      → (batch : List E) → s.find_take batch_size test rows ≡ batch
      → (x : E) → Memᴰ x rows
      → includes (map id_of batch) (id_of x) ≡ true
      → IsOld x
  in_batch_IsOld rows u batch e x m t =
      let (y, k, same) =
        mem_of_map id_of batch (id_of x) ((includes_iff (map id_of batch) (id_of x)).0 t) in
      let (n, old) = laws.mem_find_take batch_size test rows y (rw e k) in
      rw (← (u y x n m same)) old

  -- What the loop makes of the rows.
  abbrev pub Ended : Batches E → List E → Type 0
  Ended b rows =
      (r : Result ℕ) × (left : List E) × (b ≡ some (r, left))
      × (length left ≤ length rows)
      × HasUniqueIds id_of left
      × Expires IsOld Never r rows left

  next_batch :
      (fuel : ℕ) (rows left : List E) (deleted : ℕ) (b : E) (bs : List E)
      → s.find_take batch_size test rows ≡ b ∷ bs
      → s.delete (λ r. includes (map id_of (b ∷ bs)) (id_of r)) rows ≡ ok left
      → delete_batches s test id_of (suc fuel) rows deleted
        ≡ delete_batches s test id_of fuel left (deleted + length (b ∷ bs))
  unfolding delete_batches
  next_batch fuel rows left deleted b bs e d = rw (e, d) refl

  -- Where ids are unique, the loop over batches ends with more fuel than rows, with a result or an
  -- exception. What is left are rows of before, with all that are not old, and after a result no
  -- row that is old.
  pub delete_batches-Ended :
      (fuel : ℕ) (rows : List E) (deleted : ℕ)
      → length rows < fuel
      → HasUniqueIds id_of rows
      → Ended (delete_batches s test id_of fuel rows deleted) rows
  unfolding delete_batches
  delete_batches-Ended zero rows deleted few u = absurd (omega arith)
  delete_batches-Ended (suc fuel) rows deleted few u =
      by_batch (s.find_take batch_size test rows) refl (delete_batches-Ended fuel)
    where
      Rest : Type 0
      Rest =
          (left : List E) (n : ℕ)
          → length left < fuel
          → HasUniqueIds id_of left
          → Ended (delete_batches s test id_of fuel left n) left

      by_result :
          (b : E) (bs : List E)
          → s.find_take batch_size test rows ≡ b ∷ bs
          → (q : Result (List E)) → s.delete (λ r. includes (map id_of (b ∷ bs)) (id_of r)) rows ≡ q
          → Rest
          → Ended (delete_batches s test id_of (suc fuel) rows deleted) rows
      by_result b bs e (err x) d rest = (
        err x,
        rows,
        rw (e, d) refl,
        omega arith,
        u,
        record { kept = λ y m h. m; sources = λ y m. inl m; gone = λ a y h. cc },
      )
      by_result b bs e (ok left) d rest =
          let first : Memᴰ b rows =
            (laws.mem_find_take batch_size test rows b (rw e (Memᴰ.head refl))).0 in
          let fewer =
            laws.delete_lt (λ r. includes (map id_of (b ∷ bs)) (id_of r)) rows b d first
              ((includes_iff (map id_of (b ∷ bs)) (id_of b)).1 (Memᴰ.head refl)) in
          let back =
            λ (y : E). (laws.mem_delete (λ r. includes (map id_of (b ∷ bs)) (id_of r)) rows y d) in
          let (r, last, ends, le, v, h) =
            rest left (deleted + length (b ∷ bs)) (omega arith)
              (λ x y m k. u x y ((back x).0 m).0 ((back y).0 k).0) in
          (
            r,
            last,
            next_batch fuel rows left deleted b bs e d ∙ ends,
            omega arith,
            v,
            record {
              kept = λ y m young.
                  h.kept y
                    ((back y).1
                      (m, eq_false _ (λ t. young (in_batch_IsOld rows u (b ∷ bs) e y m t))))
                    young;
              sources =
                  λ y m. elim (h.sources y m) [ inl k ↦ inl ((back y).0 k).0 | inr k ↦ inr k ];
              gone = h.gone;
            },
          )

      by_batch :
          (batch : List E)
          → s.find_take batch_size test rows ≡ batch
          → Rest
          → Ended (delete_batches s test id_of (suc fuel) rows deleted) rows
      by_batch [] e rest = (
        ok deleted,
        rows,
        rw e refl,
        omega arith,
        u,
        record {
          kept = λ y m h. m;
          sources = λ y m. inl m;
          gone = λ a y _ m old.
              let f = laws.find_take_nil batch_size test rows y (omega arith) e m in cc;
        },
      )
      by_batch (b ∷ bs) e rest =
          by_result b bs e (s.delete (λ r. includes (map id_of (b ∷ bs)) (id_of r)) rows) refl rest

pub Expires-iff :
    {E A : Type 0} {Old Due Added : E → Type 0} {r : Result A} {before after : List E}
    → ((x : E) → Old x ↔ Due x)
    → Expires Old Added r before after
    → Expires Due Added r before after
Expires-iff same h = record {
  kept = λ x m young. h.kept x m (λ old. young ((same x).0 old));
  sources = h.sources;
  gone = λ a x e m due. h.gone a x e m ((same x).1 due);
}
