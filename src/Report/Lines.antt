-- ===== src/Report/Lines.antt =====
-- The lines of the report.
use mathlib.Core.Path.{subst}
use ns3_sim.Prelude.{
  ◌⊎◌, Bool-cases, contains, contains→In, In→contains, arith, ◌≡◌, refl, sym, inl, inr, some, List,
  [], ◌∷◌, ◌++◌, In, Option-cases,
}
use ns3_sim.Prelude.Int.{ℤ, leb_ℤ, int_eq}
use ns3_sim.Python.Outcome.{ok, raise, key_error, traverse}
use ns3_sim.Python.Sequence.{SameItems}
use ns3_sim.Python.Dict.{Dict, lookup, keys, lookup_of_In-keys, In-keys_of_lookup}
use ns3_sim.Python.Sorting.{
  sorted, In-sorted, sorted-SameItems, IsSorted, sorted-IsSorted, IsTotalOrder,
}
use ns3_sim.Python.Text.{Text, text_eq, codes}
use ns3_sim.Python.Number.{int, decimal_ℤ}
use ns3_sim.Report.{result_line, print_results}

leb_ℤ-IsTotalOrder : IsTotalOrder leb_ℤ
leb_ℤ-IsTotalOrder = record { total = λ x y. ground arith; trans = λ x y z p q. ground arith }

module _ {Float : Type 0} (format6 : Float → Text) (results : Dict Text Float) where
  -- The line of a failure has its number and its value.
  abbrev Tells : ℤ → Text → Type 0
  Tells j line =
      (value : Float) × (lookup (decimal_ℤ j) results ≡ some value)
      × (line ≡ codes "X-" ++ decimal_ℤ j ++ codes "-RESULT-CONVERGENCE " ++ format6 value)

  abbrev pub TellsAll : List ℤ → List Text → Type 0
  TellsAll [] [] = Unit
  TellsAll [] (line ∷ lines) = ⊥
  TellsAll (j ∷ js) [] = ⊥
  TellsAll (j ∷ js) (line ∷ lines) = Tells j line × TellsAll js lines

  lines_of :
      (js : List ℤ)
      → ((j : ℤ) → In j js → In (decimal_ℤ j) (keys results))
      → (lines : List Text) × (traverse (result_line format6 results) js ≡ ok lines)
        × TellsAll js lines
  unfolding traverse result_line
  lines_of [] h = ([], refl, tt)
  lines_of (j ∷ js) h =
      let (value, there) = lookup_of_In-keys (decimal_ℤ j) results (h j (inl refl)) in
      let (lines, e, tells) = lines_of js (λ i m. h i (inr m)) in
      (_ ∷ lines, rw there (rw e refl), ((value, there, refl), tells))

  -- A number whose text is no key stops the loop, wherever it stands.
  no_line :
      (js : List ℤ) (j : ℤ)
      → In j js
      → ¬ In (decimal_ℤ j) (keys results)
      → traverse (result_line format6 results) js ≡ raise key_error
  unfolding traverse result_line
  no_line [] j m out = absurd m
  no_line (i ∷ js) j m out = elim (Option-cases (lookup (decimal_ℤ i) results)) [
    | inl missing ↦ rw missing refl
    | inr (value, there) ↦
        let later : In j js = elim m [
          | inl at ↦ absurd (
              out (
                subst (λ k. In (decimal_ℤ k) (keys results)) (sym at)
                  (In-keys_of_lookup (decimal_ℤ i) results there)))
          | inr m' ↦ m'
        ] in
        rw there (rw (no_line js j later out) refl)
  ]

  -- Each number has its text among the keys, or there is one that has not.
  canonical_or_not :
      (ids : List ℤ)
      → ((j : ℤ) → In j ids → In (decimal_ℤ j) (keys results))
        ⊎ ((j : ℤ) × In j ids × (¬ In (decimal_ℤ j) (keys results)))
  canonical_or_not [] = inl λ j m. absurd m
  canonical_or_not (i ∷ ids) = elim (Bool-cases (contains (keys results) (decimal_ℤ i))) [
    | inl here ↦ elim (canonical_or_not ids) [
      | inl all ↦ inl λ j m. elim m [
        | inl at ↦
            subst (λ k. In (decimal_ℤ k) (keys results)) (sym at)
              (contains→In (decimal_ℤ i) (keys results) here)
        | inr m' ↦ all j m'
      ]
      | inr (j, m, out) ↦ inr (j, inr m, out)
    ]
    | inr missing ↦ inr (i, inl refl, λ m. cc (missing, In→contains (decimal_ℤ i) (keys results) m))
  ]

  -- The report of all numbers, each as often as it is read from the keys, in ascending order, with the
  -- value of the key that is its text.
  pub record Reported (ids : List ℤ) : Type 0 where
    pub js : List ℤ
    pub lines : List Text
    pub printed : print_results format6 results ≡ ok lines
    pub tells : TellsAll js lines
    pub ordered : IsSorted leb_ℤ js
    pub same : SameItems js ids

  -- The text of this number is no key, and the loop stops there.
  pub record Stopped (ids : List ℤ) : Type 0 where
    pub j : ℤ
    pub there : In j ids
    pub missing : ¬ In (decimal_ℤ j) (keys results)
    pub raised : print_results format6 results ≡ raise key_error

  -- When the keys are texts of numbers, the report has one line for each number that is read from a key,
  -- as often as it is read, in ascending order, with the value of the key that is this number's own text;
  -- or some number has its own text not among the keys, as with 07 alone, and the report ends with a
  -- `KeyError`.
  pub print_results_cases :
      (ids : List ℤ) → traverse int (keys results) ≡ ok ids → Reported ids ⊎ Stopped ids
  unfolding print_results
  print_results_cases ids read = elim (canonical_or_not ids) [
    | inl canonical ↦
        let (lines, e, tells) =
          lines_of (sorted leb_ℤ ids) (λ j m. canonical j ((In-sorted leb_ℤ j ids).0 m)) in
        inl (record {
          js = sorted leb_ℤ ids;
          lines = lines;
          printed = rw (read, print_results) e;
          tells = tells;
          ordered = sorted-IsSorted leb_ℤ leb_ℤ-IsTotalOrder ids;
          same = sorted-SameItems leb_ℤ ids;
        })
    | inr (j, m, out) ↦ inr (record {
      j = j;
      there = m;
      missing = out;
      raised =
          rw (read, print_results) (no_line (sorted leb_ℤ ids) j ((In-sorted leb_ℤ j ids).1 m) out);
    })
  ]
