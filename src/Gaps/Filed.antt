-- ===== src/Gaps/Filed.antt =====
-- udp_parser.py, the end of `local_gaps`: which gaps of a log are filed under a failure.
use ns3_sim.Prelude.{
  ℕ, ◌-◌, ◌≤◌, ◌≡◌, refl, sym, ap, ◌∙◌, inl, inr, Bool, true, false, Option, none, some, List, [],
  ◌∷◌, ◌++◌, append-nil, append_assoc, filter, All, Option-cases, Bool-cases, ◌==◌, nat_eq,
  nat_beq_iff, if◌then◌else◌, arith, All-of_In,
}
use ns3_sim.Python.Dict.{Dict, lookup, insert, lookup-insert}
use ns3_sim.Python.Sorting.{IsSorted}
use ns3_sim.Gaps.{Gap}
use ns3_sim.Gaps.Assign.{fails_from, n_fails, seek, append_at, index_after, filed, assign}
use ns3_sim.Gaps.First.{
  is_first, is_found, by_low, Passed, is_first-seek, index_after-le, All-Passed,
}
use ns3_sim.Gaps.Fits.{append_at_new, append_at_old}

abbrev listed : Option (List Gap) → List Gap
listed none = []
listed (some gaps) = gaps

-- The gaps that are filed under a failure.
abbrev pub filed_under : ℕ → Dict ℕ (List Gap) → List Gap
filed_under fail a = listed (lookup fail a)

filed_under-insert :
    (fail k : ℕ) (gaps : List Gap) (d : Dict ℕ (List Gap))
    → filed_under fail (insert k gaps d) ≡ (if fail == k then gaps else filed_under fail d)
filed_under-insert fail k gaps d = elim (Bool-cases (fail == k)) [
  | inl same ↦ ap listed (lookup-insert k fail gaps d) ∙ rw same refl
  | inr other ↦ ap listed (lookup-insert k fail gaps d) ∙ rw other refl
]

filed_under-append_at :
    (fail k : ℕ) (vs : List Gap) (d : Dict ℕ (List Gap))
    → filed_under fail (append_at k vs d) ≡ filed_under fail d ++ (if fail == k then vs else [])
filed_under-append_at fail k vs d = elim (Bool-cases (fail == k)) [
  | inl same ↦
      let e : fail ≡ k = (nat_beq_iff fail k).0 same in
      rw same (elim (Option-cases (lookup k d)) [
        | inl new ↦
            ap (filed_under fail) (append_at_new k vs d new)
            ∙ filed_under-insert fail k vs d
            ∙ rw (same, e, new) refl
        | inr (old, there) ↦
            ap (filed_under fail) (append_at_old k vs old d there)
            ∙ filed_under-insert fail k (old ++ vs) d
            ∙ rw (same, e, there) refl
      ])
  | inr other ↦ rw other (elim (Option-cases (lookup k d)) [
    | inl new ↦
        ap (filed_under fail) (append_at_new k vs d new)
        ∙ filed_under-insert fail k vs d
        ∙ rw other (sym (append-nil (filed_under fail d)))
    | inr (old, there) ↦
        ap (filed_under fail) (append_at_old k vs old d there)
        ∙ filed_under-insert fail k (old ++ vs) d
        ∙ rw other (sym (append-nil (filed_under fail d)))
  ])
]

filed_under-filed :
    (fail : ℕ) (g : Gap) (found : Option (ℕ × ℕ)) (d : Dict ℕ (List Gap))
    → filed_under fail (filed g found d)
      ≡ filed_under fail d ++ (if is_found fail found then g ∷ [] else [])
unfolding filed
filed_under-filed fail g none d = sym (append-nil (filed_under fail d))
filed_under-filed fail g (some (i, k)) d = filed_under-append_at fail k (g ∷ []) d

filter-cons :
    (b : Bool) (fail : ℕ) (g : Gap) (gaps : List Gap)
    → is_first fail g ≡ b
    → (if b then g ∷ [] else []) ++ filter (is_first fail) gaps ≡ filter (is_first fail) (g ∷ gaps)
filter-cons true fail g gaps e = rw e refl
filter-cons false fail g gaps e = rw e refl

filed_under-assign :
    (idx fail : ℕ) (a : Dict ℕ (List Gap)) (gaps : List Gap)
    → idx ≤ n_fails
    → All (Passed idx) gaps
    → IsSorted by_low gaps
    → filed_under fail (assign idx a gaps) ≡ filed_under fail a ++ filter (is_first fail) gaps
unfolding assign
filed_under-assign idx fail a [] le ps s = sym (append-nil (filed_under fail a))
filed_under-assign idx fail a (g ∷ gaps) le (p, ps) (low, s) =
    let found = seek (fails_from idx (n_fails - idx)) idx g in
    let rest =
      filed_under-assign (index_after idx found) fail (filed g found a) gaps
        (index_after-le idx g found refl le) (All-Passed idx g gaps found refl p ps low) s in
    let first = is_first-seek idx fail g le p in
    rest
    ∙ ap (λ t. t ++ filter (is_first fail) gaps) (filed_under-filed fail g found a)
    ∙ (append_assoc (filed_under fail a) _ _
        ∙ ap (λ t. filed_under fail a ++ t) (filter-cons (is_found fail found) fail g gaps first))

-- For gaps in the order in which they begin, the index that moves along the failures loses none: under
-- each failure are filed, in their order, exactly the gaps whose first failure it is.
pub assign-by_low :
    (gaps : List Gap) (fail : ℕ)
    → IsSorted by_low gaps
    → filed_under fail (assign 0 [] gaps) ≡ filter (is_first fail) gaps
unfolding lookup
assign-by_low gaps fail s =
    filed_under-assign 0 fail [] gaps (omega arith)
      (All-of_In (Passed 0) gaps (λ g m j lt. absurd (omega (arith, lt)))) s
