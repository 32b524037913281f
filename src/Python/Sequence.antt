-- ===== src/Python/Sequence.antt =====
-- The methods of `list` that the scripts call: `remove`, and `del xs[xs.index(x)]`, which does the same,
-- and the append of what is not there yet.
use mathlib.Core.Path.{subst}
use ns3_sim.Prelude.{
  ◌<◌, true, false, ◌+◌, ◌⊎◌, inl, inr, arith, ℕ, suc, ◌≡◌, ◌≢◌, refl, sym, ap, ◌∙◌, Option, none,
  some, List, [], ◌∷◌, ◌++◌, Eq, ◌==◌, if◌then◌else◌, length, In, IsOnce, Bool-cases, contains,
  contains→In, In→contains, In-append, In-append_left, In-append_right, Option-cases,
}

module _ {A : Type 0} ⦃e : Eq A⦄ where
  -- The list without the first item that equals `x`, or `none` for a `ValueError`.
  unfoldable pub remove : A → List A → Option (List A)
  remove x [] = none
  remove x (y ∷ ys) =
      if x == y then some ys else elim (remove x ys) [ none ↦ none | some zs ↦ some (y ∷ zs) ]

  -- `xs.index(x)`, or `none` for a `ValueError`.
  unfoldable pub index_of : A → List A → Option ℕ
  index_of x [] = none
  index_of x (y ∷ ys) =
      if x == y then some 0 else elim (index_of x ys) [ none ↦ none | some i ↦ some (suc i) ]

  -- The first place of an item is not behind what is added at the end.
  pub index_of-append :
      (x : A) (xs ys : List A)
      → In x xs
      → (i : ℕ) × (index_of x xs ≡ some i) × (index_of x (xs ++ ys) ≡ some i) × (i < length xs)
  unfolding index_of
  index_of-append x [] ys m = absurd m
  index_of-append x (y ∷ xs) ys m = elim (Bool-cases (x == y)) [
    | inl same ↦ (0, rw same refl, rw same refl, omega arith)
    | inr other ↦
        let later : In x xs = elim m [
          | inl at ↦
              let clash : true ≡ false = cc (other, (e.beq_iff x y).1 at) in absurd (cc clash)
          | inr m' ↦ m'
        ] in
        let (i, here, there, below) = index_of-append x xs ys later in
        (suc i, rw (other, here) refl, rw (other, there) refl, omega (arith, below))
  ]

  -- An item that is there leaves a rest, with the other items.
  pub record Removed (x : A) (xs rest : List A) : Type 0 where
    pub back : (y : A) → In y xs → (y ≡ x) ⊎ In y rest
    pub there : In x xs
    pub kept : (y : A) → In y rest → In y xs
    pub shorter : length xs ≡ suc (length rest)
    pub once : IsOnce xs → IsOnce rest × (¬ In x rest)

  pub remove-none : (x : A) (xs : List A) → ¬ In x xs → remove x xs ≡ none
  unfolding remove
  remove-none x [] h = refl
  remove-none x (y ∷ ys) h = elim (Bool-cases (x == y)) [
    | inl same ↦ absurd (h (inl ((e.beq_iff x y).0 same)))
    | inr other ↦ rw (other, remove-none x ys (λ m. h (inr m))) refl
  ]

  Removed-head : (x y : A) (ys : List A) → x ≡ y → Removed x (y ∷ ys) ys
  Removed-head x y ys at = record {
    back = λ z m. elim m [ inl h ↦ inl (h ∙ sym at) | inr m' ↦ inr m' ];
    there = inl at;
    kept = λ z m. inr m;
    shorter = refl;
    once = λ o. (o.1, λ m. o.0 (subst (λ w. In w ys) at m));
  }

  Removed-tail :
      (x y : A) (ys rest : List A) → x ≢ y → Removed x ys rest → Removed x (y ∷ ys) (y ∷ rest)
  Removed-tail x y ys rest ne r = record {
    back = λ z m. elim m [
      | inl h ↦ inr (inl h)
      | inr m' ↦ elim (r.back z m') [ inl h ↦ inl h | inr h ↦ inr (inr h) ]
    ];
    there = inr r.there;
    kept = λ z m. elim m [ inl h ↦ inl h | inr m' ↦ inr (r.kept z m') ];
    shorter = ap suc r.shorter;
    once = λ o.
        let (o', out) = r.once o.1 in
        ((λ m. o.0 (r.kept y m), o'), λ m. elim m [ inl h ↦ ne h | inr m' ↦ out m' ]);
  }

  pub remove-In :
      (x : A) (xs : List A)
      → In x xs
      → (rest : List A) × (remove x xs ≡ some rest) × Removed x xs rest
  unfolding remove
  remove-In x [] m = absurd m
  remove-In x (y ∷ ys) m = elim (Bool-cases (x == y)) [
    | inl same ↦ (ys, rw same refl, Removed-head x y ys ((e.beq_iff x y).0 same))
    | inr other ↦
        let ne : x ≢ y = λ h. cc (other, (e.beq_iff x y).1 h) in
        let later : In x ys = elim m [ inl h ↦ absurd (ne h) | inr m' ↦ m' ] in
        let (rest, h, r) = remove-In x ys later in
        (y ∷ rest, rw (other, h) refl, Removed-tail x y ys rest ne r)
  ]

  -- Items in front that differ are passed over.
  pub remove-append :
      (x : A) (front xs rest : List A)
      → ¬ In x front
      → remove x xs ≡ some rest
      → remove x (front ++ xs) ≡ some (front ++ rest)
  unfolding remove
  remove-append x [] xs rest out h = h
  remove-append x (y ∷ front) xs rest out h = elim (Bool-cases (x == y)) [
    | inl same ↦ absurd (out (inl ((e.beq_iff x y).0 same)))
    | inr other ↦ rw (other, remove-append x front xs rest (λ m. out (inr m)) h) refl
  ]

  -- A removal takes one item, whether there is a witness of its place or not.
  pub remove-shorter :
      (x : A) (xs rest : List A) → remove x xs ≡ some rest → length xs ≡ suc (length rest)
  unfolding remove
  remove-shorter x [] rest h = cc h
  remove-shorter x (y ∷ ys) rest h = elim (Bool-cases (x == y)) [
    | inl same ↦ let e : some ys ≡ some rest = rw (same, remove) at h in cc (e)
    | inr other ↦ elim (Option-cases (remove x ys)) [
      | inl missing ↦ let e : none ≡ some rest = rw (other, missing, remove) at h in cc e
      | inr (zs, there) ↦
          let e : some (y ∷ zs) ≡ some rest = rw (other, there, remove) at h in
          let parts : y ∷ zs ≡ rest = cc e in
          subst (λ l. suc (length ys) ≡ suc (length l)) parts
            (ap suc (remove-shorter x ys zs there))
    ]
  ]

  -- How often an item is there.
  abbrev pub count : A → List A → ℕ
  count x [] = 0
  count x (y ∷ ys) = (if x == y then 1 else 0) + count x ys

  -- The same items, each as often, in any order.
  abbrev pub SameItems : List A → List A → Type 0
  SameItems xs ys = (x : A) → count x xs ≡ count x ys

  pub count-zero : (x : A) (xs : List A) → ¬ (count x (x ∷ xs) ≡ 0)
  count-zero x xs h = absurd (ground (arith, e.beq_iff x x, h))

  -- `remove` takes one occurrence away, or finds none.
  pub remove-cases :
      (x : A) (xs : List A)
      → ((remove x xs ≡ none) × (count x xs ≡ 0))
        ⊎ ((rest : List A) × (remove x xs ≡ some rest)
            × ((a : A) → count a xs ≡ (if a == x then 1 else 0) + count a rest))
  unfolding remove
  remove-cases x [] = inl (refl, refl)
  remove-cases x (y ∷ ys) = elim (Bool-cases (x == y)) [
    | inl same ↦
        let at : x ≡ y = (e.beq_iff x y).0 same in
        inr (ys, rw same refl, λ a. ap (λ z. (if a == z then 1 else 0) + count a ys) (sym at))
    | inr other ↦ elim (remove-cases x ys) [
      | inl (missing, absent) ↦ inl (rw (other, missing) refl, rw (other, absent) (omega arith))
      | inr (rest, there, counts) ↦
          inr (y ∷ rest, rw (other, there) refl, λ a. omega (arith, counts a))
    ]
  ]

  -- `if x not in xs: xs.append(x)`.
  unfoldable pub append_new : List A → A → List A
  append_new xs x = if contains xs x then xs else xs ++ x ∷ []

  IsOnce-append_one : (xs : List A) (x : A) → IsOnce xs → ¬ In x xs → IsOnce (xs ++ x ∷ [])
  IsOnce-append_one [] x h new = (λ m. m, tt)
  IsOnce-append_one (y ∷ xs) x h new = (
    λ m. elim (In-append y xs (x ∷ []) m) [
      | inl m' ↦ h.0 m'
      | inr m' ↦ elim m' [ inl at ↦ new (inl (sym at)) | inr none_left ↦ none_left ]
    ],
    IsOnce-append_one xs x h.1 (λ m. new (inr m)),
  )

  -- The items are those of before and the new one, none twice.
  pub record Added (xs xs' : List A) (x : A) : Type 0 where
    pub still_once : IsOnce xs → IsOnce xs'
    pub added : In x xs'
    pub kept : (y : A) → In y xs → In y xs'
    pub back : (y : A) → In y xs' → (y ≡ x) ⊎ In y xs

  pub append_new-Added : (xs : List A) (x : A) → Added xs (append_new xs x) x
  unfolding append_new
  append_new-Added xs x = elim (Bool-cases (contains xs x)) [
    | inl there ↦
        let same : append_new xs x ≡ xs = rw (there, append_new) refl in
        subst (λ l. Added xs l x) (sym same)
          (record {
            still_once = λ h. h;
            added = contains→In x xs there;
            kept = λ y m. m;
            back = λ y m. inr m;
          })
    | inr new ↦
        let longer : append_new xs x ≡ xs ++ x ∷ [] = rw (new, append_new) refl in
        subst (λ l. Added xs l x) (sym longer)
          (record {
            still_once = λ h. IsOnce-append_one xs x h (λ m. cc (new, In→contains x xs m));
            added = In-append_right x xs (x ∷ []) (inl refl);
            kept = λ y m. In-append_left y xs (x ∷ []) m;
            back = λ y m. elim (In-append y xs (x ∷ []) m) [
              | inl m' ↦ inr m'
              | inr (inl at) ↦ inl at
              | inr (inr none_left) ↦ absurd none_left
            ];
          })
  ]
