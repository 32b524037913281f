-- ===== src/Report/Stored.antt =====
-- fib_parser.py: which results the main program keeps for the report.
use mathlib.Core.Path.{subst}
use ns3_sim.Prelude.{
  ◌++◌, ◌≡◌, ◌≢◌, refl, sym, ap, ◌∙◌, ◌⊎◌, inl, inr, true, Option, none, some, List, [], ◌∷◌, In,
  IsOnce, All, All-of_In, In_of_All, Bool-cases, if◌then◌else◌, map, ◌==◌,
}
use ns3_sim.Prelude.Int.{pos}
use ns3_sim.Python.Outcome.{ok, Outcome, last, last?, >>=-eq-ok, ◌>>=◌}
use ns3_sim.Python.Dict.{
  Dict, lookup, insert, keys, lookup-insert, lookup-insert_other, In-keys-insert,
}
use ns3_sim.Python.Float.{Floats}
use ns3_sim.Python.Text.{Text, text_eq, Lacks, split, split-last}
use ns3_sim.Converge.{convergence_of}
use ns3_sim.Report.{
  Node, nodes_of, collect_nodes, evaluate_convergence, since_failure, add_result, results_from,
}

last?-append : (xs : List Text) (x : Text) → last? (xs ++ x ∷ []) ≡ some x
last?-append [] x = refl
last?-append (y ∷ []) x = refl
last?-append (y ∷ z ∷ xs) x = last?-append (z ∷ xs) x

beq_same : (s t : Text) → s ≡ t → (s == t) ≡ true
beq_same s t e = (text_eq.beq_iff s t).1 e

last-split_path :
    (pwd name : Text) → Lacks b'/' name → last (split b'/' (pwd ++ b'/' ∷ name)) ≡ ok name
last-split_path pwd name h =
    let (ps, cut) = split-last b'/' pwd name h in rw (cut, last?-append ps name) refl

module _ (floats : Floats) where
  open floats use {Float, le, of_int}

  -- The end of `evaluate_convergence`.
  abbrev end_with : Outcome Text → Option Float → Outcome (Option (Text × Float))
  end_with part found = elim found [
    | none ↦ ok none
    | some ioc ↦ (do rid ← part; ok (some (rid, ioc)))
  ]

  with_name :
      (name p : Text) (instant : Float) (found : Option Float) (part : Outcome Text)
      → part ≡ ok name
      → end_with part found ≡ ok (some (p, instant))
      → p ≡ name
  with_name name p instant none part h e = cc e
  with_name name p instant (some ioc) part h e =
      let e' : ◌≡◌ {A = Outcome (Option (Text × Float))} (ok (some (name, ioc)))
          (ok (some (p, instant))) =
        rw h at e in
      cc e'

  -- The evaluation of a directory names it.
  evaluate_convergence-name :
      (pwd name p : Text) (instant : Float) (entries : List Node)
      → Lacks b'/' name
      → evaluate_convergence floats (pwd ++ b'/' ∷ name) entries ≡ ok (some (p, instant))
      → p ≡ name
  unfolding evaluate_convergence
  evaluate_convergence-name pwd name p instant entries h e =
      let (read, e1, h1) = >>=-eq-ok (collect_nodes floats [] [] (nodes_of entries)) _ e in
      let (found, e2, h2) = >>=-eq-ok (convergence_of floats _ _ _) _ h1 in
      with_name name p instant found _ (last-split_path pwd name h) h2

  -- The evaluation ended with an instant that is stored, counted from the failure; or with one below 0, or
  -- with none, and nothing is stored.
  abbrev pub IsStored : Text → Dict Text Float → Text × List Node → Type 0
  IsStored pwd results (name, entries) =
      ((instant : Float) × (evaluate_convergence floats (pwd ++ b'/' ∷ name) entries
          ≡ ok (some (name, instant)))
        × (lookup name results
            ≡ (if le (of_int (pos 0)) instant then some (since_failure floats instant) else none)))
      ⊎ ((evaluate_convergence floats (pwd ++ b'/' ∷ name) entries ≡ ok none)
          × (lookup name results ≡ none))

  -- What a directory of the name `name` adds.
  abbrev adds : (name : Text) (r : Option (Text × Float)) → Option Float
  adds name none = none
  adds name (some (p, instant)) =
      if le (of_int (pos 0)) instant then some (since_failure floats instant) else none

  abbrev IsFor : Text → Option (Text × Float) → Type 0
  IsFor name none = Unit
  IsFor name (some (p, instant)) = p ≡ name

  lookup-add_result_other :
      (j name : Text) (r : Option (Text × Float)) (acc : Dict Text Float)
      → IsFor name r
      → j ≢ name
      → lookup j (add_result floats r acc) ≡ lookup j acc
  unfolding add_result
  lookup-add_result_other j name none acc h ne = refl
  lookup-add_result_other j name (some (p, instant)) acc h ne =
      elim (Bool-cases (le (of_int (pos 0)) instant)) [
        | inl valid ↦
            rw valid (lookup-insert_other j p (since_failure floats instant) acc (λ e. ne (e ∙ h)))
        | inr below ↦ rw below refl
      ]

  lookup-add_result :
      (name : Text) (r : Option (Text × Float)) (acc : Dict Text Float)
      → IsFor name r
      → lookup name acc ≡ none
      → lookup name (add_result floats r acc) ≡ adds name r
  unfolding add_result
  lookup-add_result name none acc h new = new
  lookup-add_result name (some (p, instant)) acc h new =
      elim (Bool-cases (le (of_int (pos 0)) instant)) [
        | inl valid ↦ rw valid (
            lookup-insert p name (since_failure floats instant) acc
            ∙ rw (beq_same name p (sym h)) refl)
        | inr below ↦ rw below new
      ]

  abbrev pub names : List (Text × List Node) → List Text
  names = map (λ f. f.0)

  IsFor-of_evaluate :
      (pwd name : Text) (entries : List Node) (r : Option (Text × Float))
      → Lacks b'/' name
      → evaluate_convergence floats (pwd ++ b'/' ∷ name) entries ≡ ok r
      → IsFor name r
  IsFor-of_evaluate pwd name entries none h e = tt
  IsFor-of_evaluate pwd name entries (some (p, instant)) h e =
      evaluate_convergence-name pwd name p instant entries h e

  IsStored-of_adds :
      (pwd name : Text) (entries : List Node) (r : Option (Text × Float))
      (results : Dict Text Float)
      → IsFor name r
      → evaluate_convergence floats (pwd ++ b'/' ∷ name) entries ≡ ok r
      → lookup name results ≡ adds name r
      → IsStored pwd results (name, entries)
  IsStored-of_adds pwd name entries none results h e l = inr (e, l)
  IsStored-of_adds pwd name entries (some (p, instant)) results h e l =
      inl (instant, e ∙ ap (λ (q : Text). ok (some (q, instant))) h, l)

  -- The name of no later directory.
  results_from-kept :
      (j pwd : Text) (acc results : Dict Text Float) (failures : List (Text × List Node))
      → ¬ In j (names failures)
      → All (Lacks b'/') (names failures)
      → results_from floats pwd acc failures ≡ ok results
      → lookup j results ≡ lookup j acc
  unfolding results_from
  results_from-kept j pwd acc results [] out plain e =
      let same : acc ≡ results = cc e in rw same refl
  results_from-kept j pwd acc results ((name, entries) ∷ failures) out (p, plain) e =
      let (r, e1, e2) = >>=-eq-ok (evaluate_convergence floats (pwd ++ b'/' ∷ name) entries) _ e in
      results_from-kept j pwd (add_result floats r acc) results failures (λ m. out (inr m)) plain e2
      ∙ lookup-add_result_other j name r acc (IsFor-of_evaluate pwd name entries r p e1)
          (λ same. out (inl same))

  All-fresh :
      (name : Text) (r : Option (Text × Float)) (acc : Dict Text Float)
      (failures : List (Text × List Node))
      → IsFor name r
      → ¬ In name (names failures)
      → All (λ j. lookup j acc ≡ none) (names failures)
      → All (λ j. lookup j (add_result floats r acc) ≡ none) (names failures)
  All-fresh name r acc [] h out new = tt
  All-fresh name r acc ((j, entries) ∷ failures) h out (n, new) = (
    lookup-add_result_other j name r acc h (λ same. out (inl (sym same))) ∙ n,
    All-fresh name r acc failures h (λ m. out (inr m)) new,
  )

  All-IsStored :
      (pwd : Text) (acc results : Dict Text Float) (failures : List (Text × List Node))
      → IsOnce (names failures)
      → All (Lacks b'/') (names failures)
      → All (λ j. lookup j acc ≡ none) (names failures)
      → results_from floats pwd acc failures ≡ ok results
      → All (IsStored pwd results) failures
  unfolding results_from
  All-IsStored pwd acc results [] once plain new e = tt
  All-IsStored pwd acc results ((name, entries) ∷ failures) (out, once) (p, plain) (n, new) e =
      let (r, e1, e2) = >>=-eq-ok (evaluate_convergence floats (pwd ++ b'/' ∷ name) entries) _ e in
      let h = IsFor-of_evaluate pwd name entries r p e1 in
      (
        IsStored-of_adds pwd name entries r results h e1 (
            results_from-kept name pwd (add_result floats r acc) results failures out plain e2
            ∙ lookup-add_result name r acc h n),
        All-IsStored pwd (add_result floats r acc) results failures once plain
            (All-fresh name r acc failures h out new) e2,
      )

  keys-add_result :
      (P : Text → Type 0) (name : Text) (r : Option (Text × Float)) (acc : Dict Text Float)
      → IsFor name r
      → P name
      → All P (keys acc)
      → All P (keys (add_result floats r acc))
  unfolding add_result
  keys-add_result P name none acc h p all = all
  keys-add_result P name (some (k, instant)) acc h p all =
      elim (Bool-cases (le (of_int (pos 0)) instant)) [
        | inl valid ↦ rw valid (
            All-of_In P (keys (insert k (since_failure floats instant) acc)) (λ j m.
              elim ((In-keys-insert j k (since_failure floats instant) acc).0 m) [
                | inl e ↦ subst P (sym (e ∙ h)) p
                | inr m' ↦ In_of_All P (keys acc) j all m'
              ]))
        | inr below ↦ rw below all
      ]

  keys-All :
      (P : Text → Type 0) (pwd : Text) (acc results : Dict Text Float)
      (failures : List (Text × List Node))
      → All P (keys acc)
      → All P (names failures)
      → All (Lacks b'/') (names failures)
      → results_from floats pwd acc failures ≡ ok results
      → All P (keys results)
  unfolding results_from
  keys-All P pwd acc results [] h fs plain e =
      let same : acc ≡ results = cc e in subst (λ (d : Dict Text Float). All P (keys d)) same h
  keys-All P pwd acc results ((name, entries) ∷ failures) h (f, fs) (p, plain) e =
      let (r, e1, e2) = >>=-eq-ok (evaluate_convergence floats (pwd ++ b'/' ∷ name) entries) _ e in
      keys-All P pwd (add_result floats r acc) results failures
        (keys-add_result P name r acc (IsFor-of_evaluate pwd name entries r p e1) f h) fs plain e2

  -- For a listing of directories with different names, the results that are reported are those of the
  -- directories whose evaluation ended with an instant that is not below 0, each under the directory's
  -- name and counted from the failure.
  pub results_from-IsStored :
      (pwd : Text) (failures : List (Text × List Node)) (results : Dict Text Float)
      → IsOnce (names failures)
      → All (Lacks b'/') (names failures)
      → results_from floats pwd [] failures ≡ ok results
      → All (IsStored pwd results) failures × All (λ j. In j (names failures)) (keys results)
  unfolding lookup
  results_from-IsStored pwd failures results once plain e = (
    All-IsStored pwd [] results failures once plain
        (All-of_In (λ j. lookup j [] ≡ none) (names failures) (λ j m. refl)) e,
    keys-All (λ j. In j (names failures)) pwd [] results failures tt
        (All-of_In (λ j. In j (names failures)) (names failures) (λ j m. m)) plain e,
  )
