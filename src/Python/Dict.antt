-- ===== src/Python/Dict.antt =====
-- Python's `dict`: an association list in the order of first insertion, which is the order that
-- `items()` and `keys()` go through. An assignment to a key that is there keeps its place.
use mathlib.Core.Path.{subst, sym}
use ns3_sim.Prelude.{
  ◌++◌, ◌≢◌, ap, ◌∙◌, ◌↔◌, ◌⊎◌, ◌≡◌, refl, inl, inr, Option, none, some, List, [], ◌∷◌, map, arith,
  Eq, ◌==◌, if◌then◌else◌, In, Bool-cases,
}

abbrev pub Dict {ℓ κ} : Type ℓ → Type κ → Type (ℓ ⊔ κ)
Dict K V = List (K × V)

module _ {ℓ κ} {K : Type ℓ} {V : Type κ} where
  abbrev pub keys : Dict K V → List K
  keys = map (λ e. e.0)

  abbrev pub values : Dict K V → List V
  values = map (λ e. e.1)

module _ {ℓ κ} {K : Type ℓ} {V : Type κ} ⦃e : Eq K⦄ where
  -- `d[k]`, with `none` for a `KeyError`.
  unfoldable pub lookup : K → Dict K V → Option V
  lookup k [] = none
  lookup k ((j, v) ∷ d) = if k == j then some v else lookup k d

  -- `d[k] = v`.
  unfoldable pub insert : K → V → Dict K V → Dict K V
  insert k v [] = (k, v) ∷ []
  insert k v ((j, w) ∷ d) = if k == j then (j, v) ∷ d else (j, w) ∷ insert k v d

  pub lookup-insert :
      (k j : K) (v : V) (d : Dict K V)
      → lookup j (insert k v d) ≡ (if j == k then some v else lookup j d)
  unfolding lookup insert
  lookup-insert k j v [] = refl
  lookup-insert k j v ((i, w) ∷ d) =
      ground (arith, e.beq_iff j k, e.beq_iff k i, e.beq_iff j i, lookup-insert k j v d)

module _ {K V : Type 0} ⦃e : Eq K⦄ where
  pub lookup-In : (k : K) (d : Dict K V) {v : V} → lookup k d ≡ some v → In v (values d)
  unfolding lookup
  lookup-In k [] h = cc
  lookup-In k ((j, w) ∷ d) h = elim (Bool-cases (k == j)) [
    | inl t ↦ inl (ground arith)
    | inr f ↦ inr (lookup-In k d (rw f at h))
  ]

  -- The keys are those of before and the new one.
  pub In-keys-insert :
      (j k : K) (v : V) (d : Dict K V) → In j (keys (insert k v d)) ↔ ((j ≡ k) ⊎ In j (keys d))
  unfolding insert
  In-keys-insert j k v [] = (λ m. m, λ m. m)
  In-keys-insert j k v ((i, w) ∷ d) = ground (arith, e.beq_iff k i, In-keys-insert j k v d)

  pub In-keys_of_lookup : (k : K) (d : Dict K V) {v : V} → lookup k d ≡ some v → In k (keys d)
  unfolding lookup
  In-keys_of_lookup k [] h = cc
  In-keys_of_lookup k ((j, w) ∷ d) h = elim (Bool-cases (k == j)) [
    | inl t ↦ inl ((e.beq_iff k j).0 t)
    | inr f ↦ inr (In-keys_of_lookup k d (rw f at h))
  ]

  pub lookup_of_In-keys : (k : K) (d : Dict K V) → In k (keys d) → (v : V) × (lookup k d ≡ some v)
  unfolding lookup
  lookup_of_In-keys k [] m = absurd m
  lookup_of_In-keys k ((j, w) ∷ d) m = elim (Bool-cases (k == j)) [
    | inl t ↦ (w, rw t)
    | inr f ↦
        let (v, h) =
          lookup_of_In-keys k d (elim m [ inl x ↦ cc (f, (e.beq_iff k j).1 x) | inr m' ↦ m' ]) in
        (v, rw f h)
  ]

module _ {K V : Type 0} ⦃e : Eq K⦄ where
  -- A new key goes to the end.
  pub insert_new :
      (k : K) (v : V) (d : Dict K V) → lookup k d ≡ none → insert k v d ≡ d ++ (k, v) ∷ []
  unfolding lookup insert
  insert_new k v [] h = refl
  insert_new k v ((j, w) ∷ d) h = elim (Bool-cases (k == j)) [
    | inl same ↦ let clash : some w ≡ none = rw (same, lookup) at h in cc clash
    | inr other ↦
        rw other (ap (λ (r : Dict K V). (j, w) ∷ r) (insert_new k v d (rw (other, lookup) at h)))
  ]

  pub lookup-insert_other :
      (j k : K) (v : V) (d : Dict K V) → j ≢ k → lookup j (insert k v d) ≡ lookup j d
  lookup-insert_other j k v d ne = elim (Bool-cases (j == k)) [
    | inl same ↦ absurd (ne ((e.beq_iff j k).0 same))
    | inr other ↦ lookup-insert k j v d ∙ rw other refl
  ]

module _ {κ} {K V : Type 0} ⦃e : Eq K⦄ (P : K → V → Type κ) where
  -- Every entry has the property.
  abbrev pub Entries : Dict K V → Type κ
  Entries [] = Unit
  Entries ((k, v) ∷ d) = P k v × Entries d

  pub Entries-insert : (k : K) (v : V) (d : Dict K V) → P k v → Entries d → Entries (insert k v d)
  unfolding insert
  Entries-insert k v [] p h = (p, tt)
  Entries-insert k v ((j, w) ∷ d) p (q, h) = elim (Bool-cases (k == j)) [
    | inl t ↦ rw t (subst (λ i. P i v) ((e.beq_iff k j).0 t) p, h)
    | inr f ↦ rw f (q, Entries-insert k v d p h)
  ]

  pub Entries-lookup : (k : K) (d : Dict K V) {v : V} → Entries d → lookup k d ≡ some v → P k v
  unfolding lookup
  Entries-lookup k [] h l = cc
  Entries-lookup k ((j, w) ∷ d) {v} (q, h) l = elim (Bool-cases (k == j)) [
    | inl t ↦
        let here : some w ≡ some v = rw (t, lookup) at l in
        let same : w ≡ v = cc here in
        subst (λ i. P i v) (sym ((e.beq_iff k j).0 t)) (subst (P j) same q)
    | inr f ↦ Entries-lookup k d h (rw f at l)
  ]
