-- ===== src/Python/Nested.antt =====
-- A dictionary of dictionaries.
use ns3_sim.Prelude.{
  ◌≡◌, ◌↔◌, refl, ap, ◌∙◌, ◌⊎◌, inl, inr, ◌&&◌, Option, none, some, [], ◌∷◌, ◌==◌, Eq,
  if◌then◌else◌, In, Bool-cases, Option-cases,
}
use ns3_sim.Python.Dict.{Dict, lookup, insert, keys, lookup-insert, In-keys-insert}

module _ {J V : Type 0} ⦃f : Eq J⦄ where
  abbrev pub row_lookup : Option (Dict J V) → J → Option V
  row_lookup none j = none
  row_lookup (some row) j = lookup j row

module _ {K J V : Type 0} ⦃e : Eq K⦄ ⦃f : Eq J⦄ where
  -- `d[k][j]`, with `none` for a `KeyError` of either subscript.
  abbrev pub lookup_in : K → J → Dict K (Dict J V) → Option V
  lookup_in k j d = row_lookup (lookup k d) j

  -- `d[k][j] = v`, with the handler `d[k] = {j: v}` of its `KeyError`.
  unfoldable pub insert_in : K → J → V → Dict K (Dict J V) → Dict K (Dict J V)
  insert_in k j v d = elim (lookup k d) [
    | none ↦ insert k ((j, v) ∷ []) d
    | some row ↦ insert k (insert j v row) d
  ]

  lookup_in-insert :
      (k i : K) (j : J) (row : Dict J V) (d : Dict K (Dict J V))
      → lookup_in i j (insert k row d) ≡ (if i == k then lookup j row else lookup_in i j d)
  lookup_in-insert k i j row d =
      ap (λ r. row_lookup r j) (lookup-insert k i row d)
      ∙ elim (Bool-cases (i == k)) [ inl same ↦ rw same refl | inr other ↦ rw other refl ]

  -- The row that the dictionary has, or an empty one.
  lookup_in-insert_row :
      (k i : K) (j l : J) (v : V) (row : Dict J V) (d : Dict K (Dict J V))
      → row_lookup (lookup k d) ≡ (λ x. lookup x row)
      → lookup_in i l (insert k (insert j v row) d)
        ≡ (if i == k && l == j then some v else lookup_in i l d)
  lookup_in-insert_row k i j l v row d there =
      lookup_in-insert k i l (insert j v row) d ∙ elim (Bool-cases (i == k)) [
        | inl same ↦
            let at : i ≡ k = (e.beq_iff i k).0 same in
            let before : lookup_in i l d ≡ lookup l row =
              ap (λ x. row_lookup (lookup x d) l) at ∙ ap (λ g. g l) there in
            rw (same, before) (lookup-insert j l v row)
        | inr other ↦ rw other refl
      ]

  pub lookup_in-insert_in :
      (k i : K) (j l : J) (v : V) (d : Dict K (Dict J V))
      → lookup_in i l (insert_in k j v d) ≡ (if i == k && l == j then some v else lookup_in i l d)
  unfolding insert_in insert
  lookup_in-insert_in k i j l v d = elim (Option-cases (lookup k d)) [
    | inl new ↦
        rw (new, insert_in) (lookup_in-insert_row k i j l v [] d (rw new (unfold lookup in refl)))
    | inr (row, there) ↦
        rw (there, insert_in) (lookup_in-insert_row k i j l v row d (rw there refl))
  ]

  pub In-keys-insert_in :
      (k i : K) (j : J) (v : V) (d : Dict K (Dict J V))
      → In i (keys (insert_in k j v d)) ↔ ((i ≡ k) ⊎ In i (keys d))
  unfolding insert_in
  In-keys-insert_in k i j v d = elim (Option-cases (lookup k d)) [
    | inl new ↦ rw (new, insert_in) (In-keys-insert i k ((j, v) ∷ []) d)
    | inr (row, there) ↦ rw (there, insert_in) (In-keys-insert i k (insert j v row) d)
  ]
