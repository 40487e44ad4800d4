-- ===== src/Sched/Order/Sorting.antt =====
-- The stable sort by key that schedulers/cerynth-scx/src/policy.rs calls.
use mathlib.Core.List.{Perm}
use mathlib.Core.List.Perm
use cerynth_os.Base.{
  ◌≡◌, refl, true, false, ◌&&◌, List, [], ◌∷◌, arith, All, if◌then◌else◌, Bool-cases, inl, inr,
}
use cerynth_os.Sched.Order.{Key, key_le, insert_by_key, sort_by_key}

-- Each item is related to all that come after it.
abbrev pub Ordered {ℓ κ} : {A : Type ℓ} → (A → A → Type κ) → List A → Type κ
Ordered R [] = Unit
Ordered R (x ∷ xs) = All (R x) xs × Ordered R xs

-- The items with one key, in their order.
abbrev pub with_key {ℓ} : {A : Type ℓ} → (A → Key) → Key → List A → List A
with_key key k [] = []
with_key key k (x ∷ xs) =
    let rest = with_key key k xs in if key_le (key x) k && key_le k (key x) then x ∷ rest else rest

key_le_total : (a b : Key) → key_le a b ≡ false → key_le b a ≡ true
key_le_total a b h = ground arith

key_le_trans : (a b c : Key) → key_le a b ≡ true → key_le b c ≡ true → key_le a c ≡ true
key_le_trans a b c h k = ground arith

module _ {ℓ} {A : Type ℓ} (key : A → Key) where
  abbrev pub KeyLe : A → A → Type 0
  KeyLe x y = key_le (key x) (key y) ≡ true

  insert_by_key-perm : (x : A) (xs : List A) → Perm (insert_by_key key x xs) (x ∷ xs)
  unfolding insert_by_key
  insert_by_key-perm x [] = Perm.refl _
  insert_by_key-perm x (y ∷ ys) = elim (Bool-cases (key_le (key x) (key y))) [
    | inl e ↦ rw (e, insert_by_key) (Perm.refl _)
    | inr e ↦
        rw (e, insert_by_key)
          (Perm.trans (Perm.cons y (insert_by_key-perm x ys)) (Perm.swap x y ys))
  ]

  pub sort_by_key-perm : (xs : List A) → Perm (sort_by_key key xs) xs
  unfolding sort_by_key
  sort_by_key-perm [] = Perm.refl _
  sort_by_key-perm (x ∷ xs) =
      Perm.trans (insert_by_key-perm x (sort_by_key key xs)) (Perm.cons x (sort_by_key-perm xs))

  All-KeyLe : (x y : A) (ys : List A) → KeyLe x y → All (KeyLe y) ys → All (KeyLe x) ys
  All-KeyLe x y [] h k = tt
  All-KeyLe x y (z ∷ zs) h k = (key_le_trans (key x) (key y) (key z) h k.0, All-KeyLe x y zs h k.1)

  insert_by_key-All :
      (z x : A) (ys : List A)
      → KeyLe z x
      → All (KeyLe z) ys
      → All (KeyLe z) (insert_by_key key x ys)
  unfolding insert_by_key
  insert_by_key-All z x [] h k = (h, tt)
  insert_by_key-All z x (y ∷ ys) h k = ground (arith, insert_by_key-All z x ys h k.1)

  insert_by_key-Ordered :
      (x : A) (ys : List A) → Ordered KeyLe ys → Ordered KeyLe (insert_by_key key x ys)
  unfolding insert_by_key
  insert_by_key-Ordered x [] h = (tt, tt)
  insert_by_key-Ordered x (y ∷ ys) h = elim (Bool-cases (key_le (key x) (key y))) [
    | inl e ↦ rw (e, insert_by_key) ((e, All-KeyLe x y ys e h.0), h)
    | inr e ↦
        rw (e, insert_by_key)
          (
            insert_by_key-All y x ys (key_le_total (key x) (key y) e) h.0,
            insert_by_key-Ordered x ys h.1,
          )
  ]

  pub sort_by_key-Ordered : (xs : List A) → Ordered KeyLe (sort_by_key key xs)
  unfolding sort_by_key
  sort_by_key-Ordered [] = tt
  sort_by_key-Ordered (x ∷ xs) =
      insert_by_key-Ordered x (sort_by_key key xs) (sort_by_key-Ordered xs)

  insert_by_key-with_key :
      (k : Key) (x : A) (ys : List A)
      → with_key key k (insert_by_key key x ys) ≡ with_key key k (x ∷ ys)
  unfolding insert_by_key
  insert_by_key-with_key k x [] = refl
  insert_by_key-with_key k x (y ∷ ys) = ground (arith, insert_by_key-with_key k x ys)

  -- Tasks of one key keep their order.
  pub sort_by_key-with_key :
      (k : Key) (xs : List A) → with_key key k (sort_by_key key xs) ≡ with_key key k xs
  unfolding sort_by_key
  sort_by_key-with_key k [] = refl
  sort_by_key-with_key k (x ∷ xs) =
      ground (arith, insert_by_key-with_key k x (sort_by_key key xs), sort_by_key-with_key k xs)
