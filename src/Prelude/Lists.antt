-- ===== src/Prelude/Lists.antt =====
-- Listing measured and indexed by native numbers, membership and distinctness by recursion.
use Prim.Native.Nat.{ℕ, zero, suc, ◌+◌, ◌<◌}
use mathlib.Core.Path.{◌≡◌, refl, ap, sym, subst}
use mathlib.Core.Logic.{◌⊎◌, inl, inr}
use mathlib.Core.Bool.{Bool, true, false, ◌||◌}
use mathlib.Core.List.{List, [], ◌∷◌, ◌++◌, map}
use mathlib.Core.Option.{Option, none, some}
use native.Mathlib.Omega.{arith}
use ns3_sim.Prelude.Tests.{Eq, ◌==◌, if◌then◌else◌}

module _ {ℓ} {A : Type ℓ} where
  abbrev pub length : List A → ℕ
  length [] = 0
  length (x ∷ xs) = suc (length xs)

  abbrev pub get_elem? : List A → ℕ → Option A
  get_elem? [] i = none
  get_elem? (x ∷ xs) zero = some x
  get_elem? (x ∷ xs) (suc i) = get_elem? xs i

  abbrev pub filter : (A → Bool) → List A → List A
  filter p [] = []
  filter p (x ∷ xs) = let rest = filter p xs in if p x then x ∷ rest else rest

  pub length-append : (xs ys : List A) → length (xs ++ ys) ≡ length xs + length ys
  length-append [] ys = omega arith
  length-append (x ∷ xs) ys = omega (arith, length-append xs ys)

-- The scripts' keys and items are values of `Type 0`, where the empty type of the first clause is.
module _ {A : Type 0} where
  -- Membership by recursion, which the tactics read as a sum of equations.
  abbrev pub In : A → List A → Type 0
  In a [] = ⊥
  In a (x ∷ xs) = (a ≡ x) ⊎ In a xs

  pub In-append_left : (a : A) (xs ys : List A) → In a xs → In a (xs ++ ys)
  In-append_left a [] ys h = absurd h
  In-append_left a (x ∷ xs) ys (inl e) = inl e
  In-append_left a (x ∷ xs) ys (inr h) = inr (In-append_left a xs ys h)

  pub In-append_right : (a : A) (xs ys : List A) → In a ys → In a (xs ++ ys)
  In-append_right a [] ys h = h
  In-append_right a (x ∷ xs) ys h = inr (In-append_right a xs ys h)

  pub In-append : (a : A) (xs ys : List A) → In a (xs ++ ys) → In a xs ⊎ In a ys
  In-append a [] ys h = inr h
  In-append a (x ∷ xs) ys (inl e) = inl (inl e)
  In-append a (x ∷ xs) ys (inr h) = elim (In-append a xs ys h) [
    | inl p ↦ inl (inr p)
    | inr q ↦ inr q
  ]

  -- No item is there twice.
  abbrev pub IsOnce : List A → Type 0
  IsOnce [] = Unit
  IsOnce (x ∷ xs) = (¬ In x xs) × IsOnce xs

  pub IsOnce-append_right : (xs ys : List A) → IsOnce (xs ++ ys) → IsOnce ys
  IsOnce-append_right [] ys h = h
  IsOnce-append_right (x ∷ xs) ys h = IsOnce-append_right xs ys h.1

  pub IsOnce-append :
      (xs ys : List A) → IsOnce xs → IsOnce ys → ((x : A) → In x xs → ¬ In x ys) → IsOnce (xs ++ ys)
  IsOnce-append [] ys hx hy apart = hy
  IsOnce-append (x ∷ xs) ys hx hy apart = (
    λ m. elim (In-append x xs ys m) [ inl p ↦ hx.0 p | inr q ↦ apart x (inl refl) q ],
    IsOnce-append xs ys hx.1 hy (λ z p q. apart z (inr p) q),
  )

  pub position :
      (x : A) (xs : List A) → In x xs → (i : ℕ) × (i < length xs) × (get_elem? xs i ≡ some x)
  position x [] m = absurd m
  position x (y ∷ ys) (inl e) = (0, omega arith, ap some (sym e))
  position x (y ∷ ys) (inr m) = let (i, h, e) = position x ys m in (suc i, omega arith, e)

  pub In-get_elem? : (x : A) (xs : List A) (i : ℕ) → get_elem? xs i ≡ some x → In x xs
  In-get_elem? x [] i e = cc e
  In-get_elem? x (y ∷ ys) zero e = inl (cc e)
  In-get_elem? x (y ∷ ys) (suc i) e = inr (In-get_elem? x ys i e)

  pub get_elem?-middle :
      (xs : List A) (x : A) (ys : List A) → get_elem? (xs ++ x ∷ ys) (length xs) ≡ some x
  get_elem?-middle [] x ys = refl
  get_elem?-middle (y ∷ xs) x ys = get_elem?-middle xs x ys

  pub get_elem?-length : (xs : List A) → get_elem? (xs ++ []) (length xs) ≡ none
  get_elem?-length [] = refl
  get_elem?-length (y ∷ xs) = get_elem?-length xs

module _ {A : Type 0} ⦃e : Eq A⦄ where
  -- Python's `x in xs`.
  unfoldable pub contains : List A → A → Bool
  contains [] a = false
  contains (x ∷ xs) a = a == x || contains xs a

  pub contains→In : (a : A) (xs : List A) → contains xs a ≡ true → In a xs
  unfolding contains
  contains→In a [] h = ground arith
  contains→In a (x ∷ xs) h = ground (arith, e.beq_iff a x, contains→In a xs)

  pub In→contains : (a : A) (xs : List A) → In a xs → contains xs a ≡ true
  unfolding contains
  In→contains a [] h = absurd h
  In→contains a (x ∷ xs) h = ground (arith, e.beq_iff a x, In→contains a xs)

module _ {ℓ κ} {A : Type ℓ} {B : Type κ} where
  pub length-map : (f : A → B) (xs : List A) → length (map f xs) ≡ length xs
  length-map f [] = refl
  length-map f (x ∷ xs) = ap suc (length-map f xs)

module _ {ℓ κ} {A : Type ℓ} (P : A → Type κ) where
  abbrev pub All : List A → Type κ
  All [] = Unit
  All (x ∷ xs) = P x × All xs

  pub All-append : (xs ys : List A) → All xs → All ys → All (xs ++ ys)
  All-append [] ys hx hy = hy
  All-append (x ∷ xs) ys (p, hx) hy = (p, All-append xs ys hx hy)

module _ {κ} {A : Type 0} (P : A → Type κ) where
  pub All-of_In : (xs : List A) → ((x : A) → In x xs → P x) → All P xs
  All-of_In [] h = tt
  All-of_In (x ∷ xs) h = (h x (inl refl), All-of_In xs (λ y m. h y (inr m)))

  pub In_of_All : (xs : List A) (x : A) → All P xs → In x xs → P x
  In_of_All [] x a m = absurd m
  In_of_All (y ∷ ys) x (p, a) (inl e) = subst P (sym e) p
  In_of_All (y ∷ ys) x (p, a) (inr m) = In_of_All ys x a m
