-- ===== src/Common/Gather.antt =====
-- Lists of lists, and whether some item of a list passes a test.
use mathlib.Core.Path.{◌≡◌, refl, sym}
use mathlib.Core.Logic.{inl, inr, ◌⊎◌, ◌↔◌}
use mathlib.Core.Bool.{Bool, true, false, ◌||◌}
use mathlib.Core.List.{List, [], ◌∷◌, ◌++◌, map, map-append, append_assoc, Memᴰ}
use mathlib.Core.List.Memᴰ
use arcane_backend.Common.Tests.{Bool-cases}

unfoldable pub gather {ℓ κ} : {A : Type ℓ} {B : Type κ} → (A → List B) → List A → List B
gather f [] = []
gather f (x ∷ xs) = f x ++ gather f xs

-- `list.some(test)`
unfoldable pub some_of {ℓ} : {A : Type ℓ} → (A → Bool) → List A → Bool
some_of test [] = false
some_of test (x ∷ xs) = test x || some_of test xs

-- Changing the items of a list changes what is gathered from it item by item.
pub gather-map :
    {A B : Type 0} (f : A → A) (g : A → List B) (h : B → B)
    → ((x : A) → g (f x) ≡ map h (g x))
    → (xs : List A) → gather g (map f xs) ≡ map h (gather g xs)
unfolding gather
gather-map f g h e [] = refl
gather-map f g h e (x ∷ xs) = rw (e x, gather-map f g h e xs, map-append) refl

pub some_of_iff :
    {A : Type 0} (test : A → Bool) (xs : List A)
    → (some_of test xs ≡ true) ↔ ((x : A) × Memᴰ x xs × (test x ≡ true))
unfolding some_of
some_of_iff test [] = (λ h. cc, λ (x, m, t). elim m [ ])
some_of_iff {A} test (y ∷ xs) =
    (to (some_of_iff test xs).0, λ (x, m, t). from (some_of_iff test xs).1 x m t)
  where
    to :
        (some_of test xs ≡ true → (x : A) × Memᴰ x xs × (test x ≡ true))
        → (test y || some_of test xs) ≡ true
        → (x : A) × Memᴰ x (y ∷ xs) × (test x ≡ true)
    to rest h = elim (Bool-cases (test y)) [
      | inl e ↦ (y, Memᴰ.head refl, e)
      | inr e ↦ let (x, m, t) = rest (rw e at h) in (x, Memᴰ.tail m, t)
    ]

    or_true : (b : Bool) → (b || true) ≡ true
    or_true true = refl
    or_true false = refl

    from :
        (((x : A) × Memᴰ x xs × (test x ≡ true)) → some_of test xs ≡ true)
        → (x : A) → Memᴰ x (y ∷ xs)
        → test x ≡ true
        → (test y || some_of test xs) ≡ true
    from rest x (Memᴰ.head e) t = let s : test y ≡ true = rw (← e) t in rw s refl
    from rest x (Memᴰ.tail m) t = rw (rest (x, m, t)) (or_true (test y))

pub mem_of_map :
    {A : Type 0} {B : Type 0} (f : A → B) (xs : List A) (y : B)
    → Memᴰ y (map f xs)
    → (x : A) × Memᴰ x xs × (f x ≡ y)
mem_of_map f [] y m = elim m [ ]
mem_of_map f (x ∷ xs) y (Memᴰ.head e) = (x, Memᴰ.head refl, sym e)
mem_of_map f (x ∷ xs) y (Memᴰ.tail m) = let (z, k, e) = mem_of_map f xs y m in (z, Memᴰ.tail k, e)

pub mem-gather :
    {A B : Type 0} (f : A → List B) (xs : List A) (y : B)
    → Memᴰ y (gather f xs) ↔ ((x : A) × Memᴰ x xs × Memᴰ y (f x))
unfolding gather
mem-gather f [] y = (λ m. elim m [ ], λ (x, m, k). elim m [ ])
mem-gather {A} {B} f (z ∷ xs) y = (
  λ m. to (mem-gather f xs y).0 (Memᴰ.append_cases (f z) m),
  λ (x, m, k). from (mem-gather f xs y).1 x m k,
)
  where
    Found : List A → Type 0
    Found l = (x : A) × Memᴰ x l × Memᴰ y (f x)

    to : (Memᴰ y (gather f xs) → Found xs) → Memᴰ y (f z) ⊎ Memᴰ y (gather f xs) → Found (z ∷ xs)
    to rest (inl m) = (z, Memᴰ.head refl, m)
    to rest (inr m) = let (x, k, h) = rest m in (x, Memᴰ.tail k, h)

    from :
        (Found xs → Memᴰ y (gather f xs))
        → (x : A) → Memᴰ x (z ∷ xs)
        → Memᴰ y (f x)
        → Memᴰ y (f z ++ gather f xs)
    from rest x (Memᴰ.head e) k = Memᴰ.append_left _ (let h : Memᴰ y (f z) = rw (← e) k in h)
    from rest x (Memᴰ.tail m) k = Memᴰ.append_right (f z) (rest (x, m, k))

pub gather-append :
    {A B : Type 0} (f : A → List B) (xs ys : List A)
    → gather f (xs ++ ys) ≡ gather f xs ++ gather f ys
unfolding gather
gather-append f [] ys = refl
gather-append f (x ∷ xs) ys =
    rw (gather-append f xs ys) (sym (append_assoc (f x) (gather f xs) (gather f ys)))
