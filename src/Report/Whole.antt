-- ===== src/Report/Whole.antt =====
-- The main program of fib_parser.py from the directories to the report.
use mathlib.Core.Path.{subst}
use ns3_sim.Prelude.{
  ℕ, ◌≡◌, refl, sym, ap, ◌∙◌, inl, inr, some, List, [], ◌∷◌, ◌++◌, In, IsOnce, All, All-of_In,
  In_of_All, length,
}
use ns3_sim.Prelude.Int.{ℤ, pos}
use ns3_sim.Python.Outcome.{ok, traverse, traverse_returns, >>=-eq-ok}
use ns3_sim.Python.Dict.{Dict, keys}
use ns3_sim.Python.Float.{Floats}
use ns3_sim.Python.Text.{Text, Lacks}
use ns3_sim.Python.Number.{
  int, decimal, decimal_ℤ, int-decimal, decimal-IsDigits, Lacks-of_IsDigits,
}
use ns3_sim.Fib.{Snapshot, Reverse}
use ns3_sim.Report.{Node, nodes_of, collect_nodes, add_result, results_from, fib_parser}
use ns3_sim.Report.Lines.{Reported, print_results_cases}
use ns3_sim.Report.Evaluated.{IsWhole, evaluate_convergence_returns}
use ns3_sim.Report.Stored.{IsStored, names, results_from-IsStored}

-- The name of a directory is the number of its failure.
abbrev pub IsNumber : Text → Type 0
IsNumber name = (n : ℕ) × (name ≡ decimal n)

Lacks-of_IsNumber : (name : Text) → IsNumber name → Lacks b'/' name
Lacks-of_IsNumber name (n, e) =
    subst (Lacks b'/') (sym e) (Lacks-of_IsDigits b'/' (decimal n) refl (decimal-IsDigits n))

int-IsNumber : (name : Text) → IsNumber name → (j : ℤ) × (int name ≡ ok j)
int-IsNumber name (n, e) = (pos n, ap int e ∙ int-decimal n)

decimal_ℤ-int : (name : Text) (j : ℤ) → IsNumber name → int name ≡ ok j → decimal_ℤ j ≡ name
unfolding decimal_ℤ
decimal_ℤ-int name j (n, e) read =
    let same : pos n ≡ j = cc (read, ap int e, int-decimal n) in ap decimal_ℤ (sym same) ∙ sym e

In-decimal_ℤ :
    (ks : List Text) (ids : List ℤ)
    → All IsNumber ks
    → traverse int ks ≡ ok ids
    → (j : ℤ) → In j ids
    → In (decimal_ℤ j) ks
unfolding traverse
In-decimal_ℤ [] ids h e j m = let same : [] ≡ ids = cc e in subst (In j) (sym same) m
In-decimal_ℤ (k ∷ ks) ids (h, hs) e j m =
    let (i, e1, h1) = >>=-eq-ok (int k) _ e in
    let (is, e2, h2) = >>=-eq-ok (traverse int ks) _ h1 in
    let same : i ∷ is ≡ ids = cc h2 in
    elim (subst (In j) (sym same) m) [
      | inl at ↦ inl (ap decimal_ℤ at ∙ decimal_ℤ-int k i h e1)
      | inr m' ↦ inr (In-decimal_ℤ ks is hs e2 j m')
    ]

module _ (floats : Floats) where
  open floats use {Float}

  -- The logs of a simulation can be read, and hold dumps of all routers at each time.
  pub record IsComplete (entries : List Node) : Type 0 where
    pub fibs : Dict Float Snapshot
    pub reverse : Reverse
    pub read : collect_nodes floats [] [] (nodes_of entries) ≡ ok (fibs, reverse)
    pub whole : IsWhole floats (length (nodes_of entries)) fibs

  results_from_returns :
      (pwd : Text) (acc : Dict Text Float) (failures : List (Text × List Node))
      → All (λ f. IsComplete f.1) failures
      → (results : Dict Text Float) × (results_from floats pwd acc failures ≡ ok results)
  unfolding results_from
  results_from_returns pwd acc [] h = (acc, refl)
  results_from_returns pwd acc ((name, entries) ∷ failures) (c, h) =
      let (rid, instant, e', e) =
        evaluate_convergence_returns floats (pwd ++ b'/' ∷ name) entries c.fibs c.reverse c.read
          c.whole in
      let (results, e'') =
        results_from_returns pwd (add_result floats (some (rid, instant)) acc) failures h in
      (results, rw e e'')

  module _ (format6 : Float → Text) where
    -- The report: which results it is about, and a line for each of them, in ascending order.
    pub record IsReport (pwd : Text) (failures : List (Text × List Node)) (lines : List Text)
        : Type 0 where
      pub results : Dict Text Float
      pub stored : All (IsStored floats pwd results) failures
      pub named : All (λ j. In j (names floats failures)) (keys results)
      pub ids : List ℤ
      pub read : traverse int (keys results) ≡ ok ids
      pub reported : Reported format6 results ids
      pub same : reported.lines ≡ lines

    -- When the directories have the numbers of different failures as names, and each holds the logs of a
    -- simulation that can be read, with dumps of all routers at each time and router numbers in their
    -- addresses, the main program ends without an error, and prints a line for each failure that has an
    -- instant not below 0, in ascending order.
    pub fib_parser_returns :
        (pwd : Text) (failures : List (Text × List Node))
        → IsOnce (names floats failures)
        → All IsNumber (names floats failures)
        → All (λ f. IsComplete f.1) failures
        → (lines : List Text) × (fib_parser floats format6 pwd failures ≡ ok lines)
          × IsReport pwd failures lines
    unfolding fib_parser
    fib_parser_returns pwd failures once numbers complete =
        let (results, e) = results_from_returns pwd [] failures complete in
        let plain =
          All-of_In (Lacks b'/') (names floats failures)
            (λ name m. Lacks-of_IsNumber name (In_of_All IsNumber _ name numbers m)) in
        let (stored, named) = results_from-IsStored floats pwd failures results once plain e in
        let key_numbers = All-of_In IsNumber (keys results) (λ k m.
          In_of_All IsNumber (names floats failures) k numbers
            (In_of_All (λ j. In j (names floats failures)) (keys results) k named m)) in
        let (ids, read) = traverse_returns int (keys results) (
          All-of_In (λ k. (j : ℤ) × (int k ≡ ok j)) (keys results)
            (λ k m. int-IsNumber k (In_of_All IsNumber (keys results) k key_numbers m))) in
        elim (print_results_cases format6 results ids read) [
          | inl r ↦ (
            r.lines,
            rw e r.printed,
            record {
              results = results;
              stored = stored;
              named = named;
              ids = ids;
              read = read;
              reported = r;
              same = refl;
            },
          )
          | inr s ↦
              absurd (s.missing (In-decimal_ℤ (keys results) ids key_numbers read s.j s.there))
        ]
