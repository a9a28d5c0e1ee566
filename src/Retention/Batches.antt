-- ===== src/Retention/Batches.antt =====
-- Loops over batches of rows, and over organisations and projects.
use arcane_backend.Common.{
  length, ℕ, zero, suc, ◌+◌, String, Option, none, some, Bool, List, [], ◌∷◌, map, Result, ok, err,
  includes,
}
use arcane_backend.Retention.Store.{RetentionStore}

-- `BATCH_SIZE`
abbrev pub batch_size : ℕ
batch_size = 1000

-- What a policy does: `none` where the fuel of a loop ran out. What was written before an exception
-- stays written.
abbrev pub Job : Type 0 → Type 0 → Type 0
Job S A = S → Option (Result A × S)

-- What a loop over batches comes to: the number deleted or an exception, and the rows left.
abbrev pub Batches : Type 0 → Type 0
Batches E = Option (Result ℕ × List E)

module _ {S : Type 0} where
  abbrev pub done : {A : Type 0} → A → Job S A
  done a t = some (ok a, t)

  abbrev pub next : {A B : Type 0} → Option (Result A × S) → (A → Job S B) → Option (Result B × S)
  next none f = none
  next (some (ok a, t)) f = f a t
  next (some (err e, t)) f = some (err e, t)

  infixl 5 ◌>>=◌ ◌>>◌
  abbrev pub ◌>>=◌ : {A B : Type 0} → Job S A → (A → Job S B) → Job S B
  ◌>>=◌ m f t = next (m t) f

  abbrev pub ◌>>◌ : {B : Type 0} → Job S (Unit {0}) → Job S B → Job S B
  ◌>>◌ m k t = next (m t) (λ _. k)

  -- The loop over organisations or projects, with a number that it adds up.
  unfoldable pub each : {O A : Type 0} → (O → A → Job S A) → List O → A → Job S A
  each body [] total = done total
  each body (o ∷ os) total = body o total >>= each body os

module _ (s : RetentionStore) where
  -- what follows a deletion, where `rest` is the loop from there on
  abbrev pub after_delete :
      {E : Type 0} → (List E → ℕ → Batches E) → Result (List E) → List E → ℕ → Batches E
  after_delete rest (ok left) rows deleted = rest left deleted
  after_delete rest (err e) rows deleted = some (err e, rows)

  -- the loop's body, once the batch is read
  abbrev pub delete_batch :
      {E : Type 0} → (E → String) → (List E → ℕ → Batches E) → List E → List E → ℕ → Batches E
  delete_batch id_of rest [] rows deleted = some (ok deleted, rows)
  delete_batch id_of rest (b ∷ bs) rows deleted =
      after_delete rest (s.delete (λ r. includes (map id_of (b ∷ bs)) (id_of r)) rows) rows
        (deleted + length (b ∷ bs))

  -- `while (hasMore) { … }`, from some number of rows deleted
  unfoldable pub delete_batches :
      {E : Type 0} → (E → Bool) → (E → String) → ℕ → List E → ℕ → Batches E
  unfolding includes
  delete_batches test id_of zero rows deleted = none
  delete_batches test id_of (suc fuel) rows deleted =
      delete_batch id_of (delete_batches test id_of fuel) (s.find_take batch_size test rows) rows
        deleted
