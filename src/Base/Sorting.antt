-- ===== src/Base/Sorting.antt =====
-- `slice::sort` by an order that is given as a test, and what a list holds.
use mathlib.Core.Path.{◌≡◌}
use mathlib.Core.Logic.{◌⊎◌, inl, inr}
use mathlib.Core.Bool.{Bool, true, false}
use mathlib.Core.List.{List, [], ◌∷◌, ◌++◌}
use cerynth_os.Base.Tests.{if◌then◌else◌, Bool-cases}
use cerynth_os.Base.Lists.{All}

-- One alternative first, the two around it taken together.
beyond : {P Q S T : Type 0} → (P ⊎ S → T) → P ⊎ (Q ⊎ S) → Q ⊎ T
beyond f (inl p) = inr (f (inl p))
beyond f (inr (inl q)) = inl q
beyond f (inr (inr s)) = inr (f (inr s))

module _ {A : Type 0} where
  abbrev pub In : A → List A → Type 0
  In a [] = ⊥
  In a (x ∷ xs) = (a ≡ x) ⊎ In a xs

  pub In-append_left : (a : A) (xs ys : List A) → In a xs → In a (xs ++ ys)
  In-append_left a [] ys h = absurd h
  In-append_left a (x ∷ xs) ys (inl e) = inl e
  In-append_left a (x ∷ xs) ys (inr h) = inr (In-append_left a xs ys h)

  pub In-append_right : (a : A) (xs ys : List A) → In a ys → In a (xs ++ ys)
  In-append_right a [] ys h = h
  In-append_right a (x ∷ xs) ys h = inr (In-append_right a xs ys h)

  pub In-append_cases : (a : A) (xs ys : List A) → In a (xs ++ ys) → In a xs ⊎ In a ys
  In-append_cases a [] ys h = inr h
  In-append_cases a (x ∷ xs) ys (inl e) = inl (inl e)
  In-append_cases a (x ∷ xs) ys (inr h) = elim (In-append_cases a xs ys h) [
    | inl k ↦ inl (inr k)
    | inr k ↦ inr k
  ]

  module _ (le : A → A → Bool) where
    insert : A → List A → List A
    insert x [] = x ∷ []
    insert x (y ∷ ys) = if le x y then x ∷ y ∷ ys else y ∷ insert x ys

    unfoldable pub sort : List A → List A
    unfolding insert
    sort [] = []
    sort (x ∷ xs) = insert x (sort xs)

    insert_cases : (a x : A) (xs : List A) → In a (insert x xs) → (a ≡ x) ⊎ In a xs
    unfolding insert
    insert_cases a x [] h = h
    insert_cases a x (y ∷ ys) h = elim (Bool-cases (le x y)) [
      | inl e ↦ rw e at h
      | inr e ↦ elim (rw e at h) as (λ _. (a ≡ x) ⊎ In a (y ∷ ys)) [
        | inl k ↦ inr (inl k)
        | inr k ↦ elim (insert_cases a x ys k) [ inl m ↦ inl m | inr m ↦ inr (inr m) ]
      ]
    ]

    In-insert : (a x : A) (xs : List A) → (a ≡ x) ⊎ In a xs → In a (insert x xs)
    unfolding insert
    In-insert a x [] h = h
    In-insert a x (y ∷ ys) h = elim (Bool-cases (le x y)) [
      | inl e ↦ rw e h
      | inr e ↦ rw e (beyond (In-insert a x ys) h)
    ]

    pub In-sort : (a : A) (xs : List A) → In a xs → In a (sort xs)
    unfolding sort
    In-sort a [] h = h
    In-sort a (x ∷ xs) (inl e) = In-insert a x (sort xs) (inl e)
    In-sort a (x ∷ xs) (inr h) = In-insert a x (sort xs) (inr (In-sort a xs h))

    pub sort-In : (a : A) (xs : List A) → In a (sort xs) → In a xs
    unfolding sort
    sort-In a [] h = h
    sort-In a (x ∷ xs) h = elim (insert_cases a x (sort xs) h) [
      | inl e ↦ inl e
      | inr k ↦ inr (sort-In a xs k)
    ]

    -- Each item is at most those behind it.
    abbrev pub IsSorted : List A → Type 0
    IsSorted [] = Unit
    IsSorted (x ∷ xs) = All (λ y. le x y ≡ true) xs × IsSorted xs

  pub record IsOrder (le : A → A → Bool) : Type 0 where
    pub total : (a b : A) → le a b ≡ false → le b a ≡ true
    pub transitive : (a b c : A) → le a b ≡ true → le b c ≡ true → le a c ≡ true

  module _ (le : A → A → Bool) (order : IsOrder le) where
    All-le :
        (x y : A) (xs : List A)
        → le x y ≡ true
        → All (λ z. le y z ≡ true) xs
        → All (λ z. le x z ≡ true) xs
    All-le x y [] h k = tt
    All-le x y (z ∷ zs) h (k, ks) = (order.transitive x y z h k, All-le x y zs h ks)

    All-insert :
        (y x : A) (xs : List A)
        → le y x ≡ true
        → All (λ z. le y z ≡ true) xs
        → All (λ z. le y z ≡ true) (insert le x xs)
    unfolding insert
    All-insert y x [] h k = (h, tt)
    All-insert y x (z ∷ zs) h (k, ks) = elim (Bool-cases (le x z)) [
      | inl e ↦ rw e (h, (k, ks))
      | inr e ↦ rw e (k, All-insert y x zs h ks)
    ]

    insert-IsSorted : (x : A) (xs : List A) → IsSorted le xs → IsSorted le (insert le x xs)
    unfolding insert
    insert-IsSorted x [] h = (tt, tt)
    insert-IsSorted x (y ∷ ys) (h, k) = elim (Bool-cases (le x y)) [
      | inl e ↦ rw e ((e, All-le x y ys e h), (h, k))
      | inr e ↦ rw e (All-insert y x ys (order.total x y e) h, insert-IsSorted x ys k)
    ]

    pub sort-IsSorted : (xs : List A) → IsSorted le (sort le xs)
    unfolding sort
    sort-IsSorted [] = tt
    sort-IsSorted (x ∷ xs) = insert-IsSorted x (sort le xs) (sort-IsSorted xs)
