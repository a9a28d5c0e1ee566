-- ===== src/Examples/Lawful.antt =====
-- The platform in memory keeps the laws.
use Prim.Native.String.{count, ◌++◌ as ◌then◌}
use mathlib.Core.List.Memᴰ
use text.Mathlib.TextLemmas.{length-append}
use arcane_backend.Common.{
  ℕ, Option, none, some, Option-cases, eq_false, ◌≤◌, ◌+◌, String, Bool, true, false, ◌==◌, List,
  [], ◌∷◌, ◌++◌, ◌≡◌, refl, ap, ◌⊎◌, ◌↔◌, inl, inr, Memᴰ, arith, eq_iff, Bool-cases, filter_by,
  mem-filter_by, find_first-eq-some, find_first-eq-none, not,
}
use arcane_backend.Rbac.Role.{Role, UserRole}
use arcane_backend.Platform.Laws.{Distinct, IsLawful}
use arcane_backend.Examples.InMemory.{
  platform, latest, later_of, is_found_by, without, replaced_by, joined, joined_with, all_ids,
}
use arcane_backend.Examples.SlotLaws.{set_AllCached, del_AllCached, get_del}

not-true : {b : Bool} → not b ≡ true → b ≡ false
not-true {b} h = ground arith

not-false : {b : Bool} → b ≡ false → not b ≡ true
not-false {b} h = ground arith

pub mem-without :
    {E : Type 0} (test : E → Bool) (rows : List E) (x : E)
    → Memᴰ x (without test rows) ↔ (Memᴰ x rows × (test x ≡ false))
unfolding without
mem-without test rows x = (
  λ m. let (k, t) = (mem-filter_by (λ y. not (test y)) rows x).0 m in (k, not-true t),
  λ h. (mem-filter_by (λ y. not (test y)) rows x).1 (h.0, not-false h.1),
)

filter_by-Distinct :
    {E : Type 0} (test : E → Bool) (rows : List E) → Distinct rows → Distinct (filter_by test rows)
unfolding filter_by
filter_by-Distinct test [] d = d
filter_by-Distinct test (y ∷ rows) (new, d) = elim (Bool-cases (test y)) [
  | inl kept ↦
      rw kept (λ m. new ((mem-filter_by test rows y).0 m).0, filter_by-Distinct test rows d)
  | inr gone ↦ rw gone (filter_by-Distinct test rows d)
]

latest-none :
    {E : Type 0} (at : E → ℕ) (rows : List E) → latest at rows ≡ none → (x : E) → ¬ Memᴰ x rows
latest-none at [] h x m = elim m [ ]
latest-none {E} at (y ∷ rows) h x m = absurd (never (latest at rows) h)
  where
    never : (o : Option E) → later_of at y o ≡ none → ⊥
    never none e = cc
    never (some z) e = ground arith

later_of-some :
    {E : Type 0} (at : E → ℕ) (x z : E) (o : Option E)
    → later_of at x o ≡ some z
    → ((z ≡ x) ⊎ (o ≡ some z)) × (at x ≤ at z) × ((y : E) → o ≡ some y → at y ≤ at z)
later_of-some at x z none h = ground arith
later_of-some at x z (some y) h = ground arith

latest-some :
    {E : Type 0} (at : E → ℕ) (rows : List E) (x : E)
    → latest at rows ≡ some x
    → Memᴰ x rows × ((y : E) → Memᴰ y rows → at y ≤ at x)
latest-some at [] x h = absurd (cc)
latest-some {E} at (z ∷ rows) x h =
    let (which, first, rest) = later_of-some at z x (latest at rows) h in
    (
      found (λ e. (latest-some at rows x e).0) which,
      λ y m.
          above first (Option-cases (latest at rows)) rest (λ a e. (latest-some at rows a e).1) y m,
    )
  where
    found :
        (latest at rows ≡ some x → Memᴰ x rows)
        → (x ≡ z) ⊎ (latest at rows ≡ some x)
        → Memᴰ x (z ∷ rows)
    found old (inl e) = Memᴰ.head e
    found old (inr e) = Memᴰ.tail (old e)

    above :
        at z ≤ at x
        → (latest at rows ≡ none) ⊎ ((a : E) × (latest at rows ≡ some a))
        → ((y : E) → latest at rows ≡ some y → at y ≤ at x)
        → ((a : E) → latest at rows ≡ some a → (y : E) → Memᴰ y rows → at y ≤ at a)
        → (y : E) → Memᴰ y (z ∷ rows)
        → at y ≤ at x
    above first o rest old y (Memᴰ.head e) = rw e first
    above first (inl e) rest old y (Memᴰ.tail m) = absurd (latest-none at rows e y m)
    above first (inr (a, e)) rest old y (Memᴰ.tail m) =
        let low = old a e y m in let high = rest a e in omega arith

is_found_by-some :
    {E : Type 0} (test : E → Bool) (rows : List E)
    → is_found_by test rows ≡ true
    → (z : E) × Memᴰ z rows × (test z ≡ true)
is_found_by-some test [] h = absurd (cc)
is_found_by-some test (y ∷ rows) h = elim (Bool-cases (test y)) [
  | inl e ↦ (y, Memᴰ.head refl, e)
  | inr e ↦ let (z, m, t) = is_found_by-some test rows (rw e at h) in (z, Memᴰ.tail m, t)
]

is_found_by-none :
    {E : Type 0} (test : E → Bool) (rows : List E)
    → is_found_by test rows ≡ false
    → (z : E) → Memᴰ z rows
    → test z ≡ false
is_found_by-none test [] h z m = elim m [ ]
is_found_by-none test (y ∷ rows) h z (Memᴰ.head e) = ground arith
is_found_by-none test (y ∷ rows) h z (Memᴰ.tail m) = is_found_by-none test rows (ground arith) z m

module _ {E : Type 0} (test : E → Bool) (y : E) (rows : List E) (x : E) where
  abbrev Goal : Type 0
  Goal = (Memᴰ x rows × (test x ≡ false)) ⊎ ((x ≡ y) × ((z : E) × Memᴰ z rows × (test z ≡ true)))

  mem-replaced_by : Memᴰ x (replaced_by test y rows) ↔ Goal
  unfolding replaced_by
  mem-replaced_by = elim (Bool-cases (is_found_by test rows)) [
    | inl found ↦ rw found (to (is_found_by-some test rows found), from)
    | inr missing ↦ rw missing (λ m. inl ((mem-without test rows x).0 m), only missing)
  ]
    where
      to : ((z : E) × Memᴰ z rows × (test z ≡ true)) → Memᴰ x (y ∷ without test rows) → Goal
      to z (Memᴰ.head e) = inr (e, z)
      to z (Memᴰ.tail m) = inl ((mem-without test rows x).0 m)

      from : Goal → Memᴰ x (y ∷ without test rows)
      from (inl h) = Memᴰ.tail ((mem-without test rows x).1 h)
      from (inr h) = Memᴰ.head h.0

      only : is_found_by test rows ≡ false → Goal → Memᴰ x (without test rows)
      only e (inl h) = (mem-without test rows x).1 h
      only e (inr (_, (z, m, t))) = let f = is_found_by-none test rows e z m in absurd (cc)

mem-joined_with :
    (xs : List UserRole) (role : Role) (x : UserRole) (r : Role)
    → Memᴰ (x, r) (joined_with xs role) ↔ (Memᴰ x xs × (r ≡ role) × (r.id ≡ x.role_id))
mem-joined_with [] role x r = (λ m. elim m [ ], λ h. elim h.0 [ ])
mem-joined_with (y ∷ xs) role x r = elim (Bool-cases (role.id == y.role_id)) [
  | inl e ↦ rw e (to e (mem-joined_with xs role x r).0, from (mem-joined_with xs role x r).1)
  | inr e ↦ rw e (
    λ m. let h = (mem-joined_with xs role x r).0 m in (Memᴰ.tail h.0, h.1, h.2),
    skip e (mem-joined_with xs role x r).1,
  )
]
  where
    to :
        (role.id == y.role_id) ≡ true
        → (Memᴰ (x, r) (joined_with xs role) → (Memᴰ x xs × (r ≡ role) × (r.id ≡ x.role_id)))
        → Memᴰ (x, r) ((y, role) ∷ joined_with xs role)
        → (Memᴰ x (y ∷ xs) × (r ≡ role) × (r.id ≡ x.role_id))
    to e rest (Memᴰ.head h) =
        let a : x ≡ y = ap (λ (q : UserRole × Role). q.0) h in
        let b : r ≡ role = ap (λ (q : UserRole × Role). q.1) h in
        let c = (eq_iff role.id y.role_id).0 e in (Memᴰ.head a, b, rw (a, b) c)
    to e rest (Memᴰ.tail m) = let h = rest m in (Memᴰ.tail h.0, h.1, h.2)

    from :
        ((Memᴰ x xs × (r ≡ role) × (r.id ≡ x.role_id)) → Memᴰ (x, r) (joined_with xs role))
        → (Memᴰ x (y ∷ xs) × (r ≡ role) × (r.id ≡ x.role_id))
        → Memᴰ (x, r) ((y, role) ∷ joined_with xs role)
    from rest (Memᴰ.head a, b, c) = Memᴰ.head (λ i. (a i, b i))
    from rest (Memᴰ.tail m, b, c) = Memᴰ.tail (rest (m, b, c))

    skip :
        (role.id == y.role_id) ≡ false
        → ((Memᴰ x xs × (r ≡ role) × (r.id ≡ x.role_id)) → Memᴰ (x, r) (joined_with xs role))
        → (Memᴰ x (y ∷ xs) × (r ≡ role) × (r.id ≡ x.role_id))
        → Memᴰ (x, r) (joined_with xs role)
    skip f rest (Memᴰ.head a, b, c) =
        let d : role.id ≡ y.role_id = rw (← b, ← a) c in
        let t = (eq_iff role.id y.role_id).1 d in absurd (cc)
    skip f rest (Memᴰ.tail m, b, c) = rest (m, b, c)

mem-joined :
    (xs : List UserRole) (roles : List Role) (x : UserRole) (r : Role)
    → Memᴰ (x, r) (joined xs roles) ↔ (Memᴰ x xs × Memᴰ r roles × (r.id ≡ x.role_id))
mem-joined xs [] x r = (λ m. elim m [ ], λ h. elim h.1 [ ])
mem-joined xs (role ∷ roles) x r = (
  λ m. to (mem-joined xs roles x r).0 (Memᴰ.append_cases (joined_with xs role) m),
  λ h. from (mem-joined xs roles x r).1 h.0 h.1 h.2,
)
  where
    Joined : List Role → Type 0
    Joined rest = Memᴰ x xs × Memᴰ r rest × (r.id ≡ x.role_id)

    to :
        (Memᴰ (x, r) (joined xs roles) → Joined roles)
        → Memᴰ (x, r) (joined_with xs role) ⊎ Memᴰ (x, r) (joined xs roles)
        → Joined (role ∷ roles)
    to rest (inl m) = let h = (mem-joined_with xs role x r).0 m in (h.0, Memᴰ.head h.1, h.2)
    to rest (inr m) = let h = rest m in (h.0, Memᴰ.tail h.1, h.2)

    from :
        (Joined roles → Memᴰ (x, r) (joined xs roles))
        → Memᴰ x xs
        → Memᴰ r (role ∷ roles)
        → r.id ≡ x.role_id
        → Memᴰ (x, r) (joined_with xs role ++ joined xs roles)
    from rest m (Memᴰ.head e) c = Memᴰ.append_left _ ((mem-joined_with xs role x r).1 (m, e, c))
    from rest m (Memᴰ.tail k) c = Memᴰ.append_right _ (rest (m, k, c))

count-all_ids : (ids : List String) (id : String) → Memᴰ id ids → count id ≤ count (all_ids ids)
count-all_ids [] id m = elim m [ ]
count-all_ids (y ∷ ids) id (Memᴰ.head e) =
    let a = length-append y (all_ids ids) in let b = ap count e in omega arith
count-all_ids (y ∷ ids) id (Memᴰ.tail m) =
    let a = length-append y (all_ids ids) in let b = count-all_ids ids id m in omega arith

new_id_fresh : (ids : List String) → ¬ Memᴰ ("x" then all_ids ids) ids
new_id_fresh ids m =
    let a = count-all_ids ids _ m in
    let b : count ("x" then all_ids ids) ≡ count "x" + count (all_ids ids) =
      length-append "x" (all_ids ids) in
    omega arith

latest-filter_by :
    {E : Type 0} (at : E → ℕ) (test : E → Bool) (rows : List E) (x : E)
    → latest at (filter_by test rows) ≡ some x
    → Memᴰ x rows × (test x ≡ true) × ((y : E) → Memᴰ y rows → test y ≡ true → at y ≤ at x)
latest-filter_by at test rows x h =
    let (m, most) = latest-some at (filter_by test rows) x h in
    let (k, t) = (mem-filter_by test rows x).0 m in
    (k, t, λ y n u. most y ((mem-filter_by test rows y).1 (n, u)))

latest-filter_by-none :
    {E : Type 0} (at : E → ℕ) (test : E → Bool) (rows : List E) (x : E)
    → latest at (filter_by test rows) ≡ none
    → Memᴰ x rows
    → test x ≡ false
latest-filter_by-none at test rows x h m =
    eq_false _
      (λ t. latest-none at (filter_by test rows) h x ((mem-filter_by test rows x).1 (m, t)))

pub lawful : IsLawful platform
unfolding without
lawful = record {
  mem_find = mem-filter_by;
  find_one_some = λ test rows x e. find_first-eq-some test rows e;
  find_one_none = λ test rows x e m. find_first-eq-none test rows e x m;
  mem_insert = λ y rows x. (tell, untell);
  find_latest_some = latest-filter_by;
  find_latest_none = λ at test rows x h m. latest-filter_by-none at test rows x h m;
  mem_replace = mem-replaced_by;
  mem_remove = mem-without;
  find_Distinct = filter_by-Distinct;
  insert_Distinct = λ y rows d new. (new, d);
  remove_Distinct = λ test rows d. filter_by-Distinct (λ x. not (test x)) rows d;
  mem_join_role = mem-joined;
  new_id_fresh = new_id_fresh;
  null_where_none = refl;
  set_AllCached = set_AllCached;
  del_AllCached = del_AllCached;
  get_del = get_del;
}
  where
    tell : {E : Type 0} {y x : E} {rows : List E} → Memᴰ x (y ∷ rows) → (x ≡ y) ⊎ Memᴰ x rows
    tell (Memᴰ.head e) = inl e
    tell (Memᴰ.tail m) = inr m

    untell : {E : Type 0} {y x : E} {rows : List E} → (x ≡ y) ⊎ Memᴰ x rows → Memᴰ x (y ∷ rows)
    untell (inl e) = Memᴰ.head e
    untell (inr m) = Memᴰ.tail m
