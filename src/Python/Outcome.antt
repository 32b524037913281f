-- ===== src/Python/Outcome.antt =====
-- A statement that may raise returns an `Outcome`; `exit(n)` raises `SystemExit` in Python too.
use ns3_sim.Prelude.{
  length, suc, sym, ap, ◌∙◌, All, map, ℕ, ◌≡◌, refl, Option, none, some, List, [], ◌∷◌, get_elem?,
}

pub data Exception : Type 0 where
  key_error index_error value_error type_error unbound_local file_not_found : Exception
  system_exit : ℕ → Exception
  -- The bound that a model puts on a loop was met. No Python statement raises this.
  out_of_fuel : Exception

pub data Outcome {ℓ} (A : Type ℓ) : Type ℓ where
  ok : A → Outcome A
  raise : Exception → Outcome A

infixl 5 ◌>>=◌ ◌>>◌
abbrev pub ◌>>=◌ {ℓ κ} : {A : Type ℓ} {B : Type κ} → Outcome A → (A → Outcome B) → Outcome B
ok a >>= f = f a
raise e >>= f = raise e

abbrev pub ◌>>◌ {ℓ κ} : {A : Type ℓ} {B : Type κ} → Outcome A → Outcome B → Outcome B
m >> k = m >>= λ _. k

-- A block that ran to its end ran its first statement, and then the rest.
module _ {ℓ κ} {A : Type ℓ} {B : Type κ} where
  pub >>=-eq-ok :
      (first : Outcome A) (rest : A → Outcome B) {out : B}
      → (first >>= rest) ≡ ok out
      → (mid : A) × (first ≡ ok mid) × (rest mid ≡ ok out)
  >>=-eq-ok (raise e) rest ran = cc
  >>=-eq-ok (ok mid) rest ran = (mid, refl, ran)

module _ {ℓ} {A : Type ℓ} where
  -- The value of an option, or this exception.
  abbrev pub or_raise : Exception → Option A → Outcome A
  or_raise e none = raise e
  or_raise e (some a) = ok a

  pub or_raise-eq-ok : (e : Exception) (o : Option A) {a : A} → or_raise e o ≡ ok a → o ≡ some a
  or_raise-eq-ok e none h = cc
  or_raise-eq-ok e (some b) h = cc

  -- `xs[i]` for `i` at least 0.
  abbrev pub index : List A → ℕ → Outcome A
  index xs i = or_raise index_error (get_elem? xs i)

  abbrev pub last? : List A → Option A
  last? [] = none
  last? (x ∷ []) = some x
  last? (x ∷ y ∷ xs) = last? (y ∷ xs)

  -- `xs[-1]`.
  abbrev pub last : List A → Outcome A
  last xs = or_raise index_error (last? xs)

  abbrev pub before_last? : List A → Option A
  before_last? [] = none
  before_last? (x ∷ []) = none
  before_last? (x ∷ y ∷ []) = some x
  before_last? (x ∷ y ∷ z ∷ xs) = before_last? (y ∷ z ∷ xs)

  -- `xs[-2]`.
  abbrev pub before_last : List A → Outcome A
  before_last xs = or_raise index_error (before_last? xs)

module _ {ℓ κ} {A : Type ℓ} {B : Type κ} where
  -- A comprehension whose body may raise.
  unfoldable pub traverse : (A → Outcome B) → List A → Outcome (List B)
  traverse f [] = ok []
  traverse f (x ∷ xs) = do y ← f x; ys ← traverse f xs; ok (y ∷ ys)

  -- A comprehension that ran gave a value for each item.
  pub traverse-map :
      (f : A → Outcome B) (g : A → B) (xs : List A) (ys : List B)
      → ((x : A) (y : B) → f x ≡ ok y → y ≡ g x)
      → traverse f xs ≡ ok ys
      → ys ≡ map g xs
  unfolding traverse
  traverse-map f g [] ys h e = cc e
  traverse-map f g (x ∷ xs) ys h e =
      let (y, e1, h1) = >>=-eq-ok (f x) _ e in
      let (zs, e2, h2) = >>=-eq-ok (traverse f xs) _ h1 in
      cc (h x y e1, traverse-map f g xs zs h e2, h2)

  -- It runs when its body does for each item, and only then.
  pub traverse_returns :
      (f : A → Outcome B) (xs : List A)
      → All (λ x. (y : B) × (f x ≡ ok y)) xs
      → (ys : List B) × (traverse f xs ≡ ok ys)
  unfolding traverse
  traverse_returns f [] h = ([], refl)
  traverse_returns f (x ∷ xs) ((y, e), h) =
      let (ys, e') = traverse_returns f xs h in (y ∷ ys, rw (e, e') refl)

  pub traverse-All :
      (f : A → Outcome B) (xs : List A) (ys : List B)
      → traverse f xs ≡ ok ys
      → All (λ x. (y : B) × (f x ≡ ok y)) xs
  unfolding traverse
  traverse-All f [] ys e = tt
  traverse-All f (x ∷ xs) ys e =
      let (y, e1, h1) = >>=-eq-ok (f x) _ e in
      let (zs, e2, h2) = >>=-eq-ok (traverse f xs) _ h1 in ((y, e1), traverse-All f xs zs e2)

  pub length-traverse :
      (f : A → Outcome B) (xs : List A) (ys : List B)
      → traverse f xs ≡ ok ys
      → length ys ≡ length xs
  unfolding traverse
  length-traverse f [] ys h = let e : [] ≡ ys = cc h in ap (λ (l : List B). length l) (sym e)
  length-traverse f (x ∷ xs) ys h =
      let (y, e, h1) = >>=-eq-ok (f x) _ h in
      let (zs, e1, h2) = >>=-eq-ok (traverse f xs) _ h1 in
      let parts : y ∷ zs ≡ ys = cc h2 in
      ap (λ (l : List B). length l) (sym parts) ∙ ap suc (length-traverse f xs zs e1)
