-- ===== src/Python/Sorting.antt =====
-- `sorted`: a stable sort by insertion. `le x y` says that `x` may stand in front of `y`; for
-- `reverse=True` it is the order with its arguments swapped.
use ns3_sim.Prelude.{
  ◌+◌, Eq, ◌==◌, refl, ◌≡◌, ◌⊎◌, inl, inr, ◌↔◌, Bool, true, false, List, [], ◌∷◌, arith,
  if◌then◌else◌, In, All, Bool-cases,
}
use ns3_sim.Python.Sequence.{count, SameItems}

-- What the float and integer orders satisfy on the values that are compared.
pub record IsTotalOrder {ℓ} {A : Type ℓ} (le : A → A → Bool) : Type ℓ where
  pub total : (x y : A) → (le x y ≡ true) ⊎ (le y x ≡ true)
  pub trans : (x y z : A) → le x y ≡ true → le y z ≡ true → le x z ≡ true

module _ {ℓ} {A : Type ℓ} (le : A → A → Bool) where
  unfoldable pub place : A → List A → List A
  place x [] = x ∷ []
  place x (y ∷ ys) = if le x y then x ∷ y ∷ ys else y ∷ place x ys

  unfoldable pub sorted : List A → List A
  unfolding place
  sorted [] = []
  sorted (x ∷ xs) = place x (sorted xs)

  -- Each element may stand in front of all that follow.
  abbrev pub IsSorted : List A → Type ℓ
  IsSorted [] = Unit
  IsSorted (x ∷ xs) = All (λ y. le x y ≡ true) xs × IsSorted xs

  module _ (order : IsTotalOrder le) where
    All-place :
        (w x : A) (xs : List A)
        → le w x ≡ true
        → All (λ y. le w y ≡ true) xs
        → All (λ y. le w y ≡ true) (place x xs)
    unfolding place
    All-place w x [] h t = (h, tt)
    All-place w x (y ∷ ys) h (hy, t) = elim (Bool-cases (le x y)) [
      | inl c ↦ rw c (h, (hy, t))
      | inr c ↦ rw c (hy, All-place w x ys h t)
    ]

    All-trans :
        (x y : A) (ys : List A)
        → le x y ≡ true
        → All (λ z. le y z ≡ true) ys
        → All (λ z. le x z ≡ true) ys
    All-trans x y [] h t = tt
    All-trans x y (z ∷ zs) h (hz, t) = (order.trans x y z h hz, All-trans x y zs h t)

    flip : (x y : A) → le x y ≡ false → le y x ≡ true
    flip x y c = elim (order.total x y) [ inl h ↦ cc (c, h) | inr h ↦ h ]

    place-IsSorted : (x : A) (xs : List A) → IsSorted xs → IsSorted (place x xs)
    unfolding place
    place-IsSorted x [] s = (tt, tt)
    place-IsSorted x (y ∷ ys) (a, s) = elim (Bool-cases (le x y)) [
      | inl c ↦ rw c ((c, All-trans x y ys c a), (a, s))
      | inr c ↦ rw c (All-place y x ys (flip x y c) a, place-IsSorted x ys s)
    ]

    pub sorted-IsSorted : (xs : List A) → IsSorted (sorted xs)
    unfolding sorted
    sorted-IsSorted [] = tt
    sorted-IsSorted (x ∷ xs) = place-IsSorted x (sorted xs) (sorted-IsSorted xs)

module _ {A : Type 0} (le : A → A → Bool) where
  In-place : (a x : A) (xs : List A) → In a (place le x xs) ↔ ((a ≡ x) ⊎ In a xs)
  unfolding place
  In-place a x [] = (λ m. m, λ m. m)
  In-place a x (y ∷ ys) = ground (arith, In-place a x ys)

  -- Sorting neither drops nor invents an element.
  pub In-sorted : (a : A) (xs : List A) → In a (sorted le xs) ↔ In a xs
  unfolding sorted
  In-sorted a [] = (λ m. m, λ m. m)
  In-sorted a (x ∷ xs) = ground (arith, In-place a x (sorted le xs), In-sorted a xs)

module _ {A : Type 0} ⦃e : Eq A⦄ (le : A → A → Bool) where
  count-place :
      (a x : A) (xs : List A) → count a (place le x xs) ≡ (if a == x then 1 else 0) + count a xs
  unfolding place
  count-place a x [] = refl
  count-place a x (y ∷ ys) = ground (arith, count-place a x ys)

  -- Nor does it change how often one is there.
  pub sorted-SameItems : (xs : List A) → SameItems (sorted le xs) xs
  unfolding sorted
  sorted-SameItems [] a = refl
  sorted-SameItems (x ∷ xs) a = omega (arith, count-place a x (sorted le xs), sorted-SameItems xs a)
