-- ===== src/Report.antt =====
-- fib_parser.py: `evaluate_convergence` as a whole, and the main program with its report.
pub mod Lines
pub mod Evaluated
pub mod Stored
pub mod Whole
use ns3_sim.Prelude.{Bool, Option, none, some, List, [], ◌∷◌, ◌++◌, ◌==◌, if◌then◌else◌, length}
use ns3_sim.Prelude.Int.{ℤ, pos, leb_ℤ}
use ns3_sim.Python.Outcome.{
  Outcome, ok, raise, key_error, file_not_found, or_raise, last, traverse, ◌>>=◌,
}
use ns3_sim.Python.Dict.{Dict, lookup, insert, keys}
use ns3_sim.Python.Sorting.{sorted}
use ns3_sim.Python.Text.{Text, text_eq, codes, split, occurs_in}
use ns3_sim.Python.Number.{int, decimal_ℤ}
use ns3_sim.Python.Float.{Floats}
use ns3_sim.Fib.{Snapshot, Reverse}
use ns3_sim.Collect.{Process, collect_fibs}
use ns3_sim.Converge.{convergence_of}

-- An entry of a simulation's directory with the listing of its var/log, `none` where that is missing.
abbrev pub Node : Type 0
Node = Text × Option (List Process)

-- `nodes`.
unfoldable pub nodes_of : List Node → List Node
nodes_of [] = []
nodes_of (node ∷ entries) =
    let rest = nodes_of entries in if occurs_in (codes "files-") node.0 then node ∷ rest else rest

module _ (floats : Floats) where
  open floats use {Float, le, of_int, mul, sub, div}

  -- The loop over `nodes`.
  unfoldable pub collect_nodes :
      Dict Float Snapshot → Reverse → List Node → Outcome (Dict Float Snapshot × Reverse)
  collect_nodes fibs reverse [] = ok (fibs, reverse)
  collect_nodes fibs reverse ((node, log) ∷ nodes) = do
    processes ← or_raise file_not_found log
    (fibs', reverse') ← collect_fibs floats processes fibs reverse
    collect_nodes fibs' reverse' nodes

  -- `none` is `(0, -1)`.
  unfoldable pub evaluate_convergence : Text → List Node → Outcome (Option (Text × Float))
  evaluate_convergence pwd entries = do
    (fibs, reverse) ← collect_nodes [] [] (nodes_of entries)
    instant ← convergence_of floats fibs reverse (length (nodes_of entries))
    elim instant [
      | none ↦ ok none
      | some ioc ↦ (do rid ← last (split b'/' pwd); ok (some (rid, ioc)))
    ]

  -- `(value * 1000 - 60000000) / 1000`.
  unfoldable pub since_failure : Float → Float
  since_failure value =
      div (sub (mul value (of_int (pos 1000))) (of_int (pos 60000000))) (of_int (pos 1000))

  -- A value below 0 is passed over.
  unfoldable pub add_result : Option (Text × Float) → Dict Text Float → Dict Text Float
  add_result none results = results
  add_result (some (failure_id, value)) results =
      if le (of_int (pos 0)) value then insert failure_id (since_failure value) results else results

  -- The loop over the directories of failures.
  unfoldable pub results_from :
      Text → Dict Text Float → List (Text × List Node) → Outcome (Dict Text Float)
  results_from pwd results [] = ok results
  results_from pwd results ((failure, entries) ∷ failures) = do
    r ← evaluate_convergence (pwd ++ b'/' ∷ failure) entries
    results_from pwd (add_result r results) failures

-- `format6` is `%f`.
module _ {Float : Type 0} (format6 : Float → Text) where
  unfoldable pub result_line : Dict Text Float → ℤ → Outcome Text
  result_line results j = do
    value ← or_raise key_error (lookup (decimal_ℤ j) results)
    ok (codes "X-" ++ decimal_ℤ j ++ codes "-RESULT-CONVERGENCE " ++ format6 value)

  -- The loop at the end.
  unfoldable pub print_results : Dict Text Float → Outcome (List Text)
  print_results results = do
    ids ← traverse int (keys results)
    traverse (result_line results) (sorted leb_ℤ ids)

-- The main program: the lines of the report.
unfoldable pub fib_parser :
    (floats : Floats) (format6 : floats.Float → Text)
    → Text
    → List (Text × List Node)
    → Outcome (List Text)
fib_parser floats format6 pwd failures = do
  results ← results_from floats pwd [] failures
  print_results format6 results
