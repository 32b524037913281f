-- ===== src/Tests/Report.antt =====
-- Report.antt at concrete inputs.
use ns3_sim.Prelude.{◌⊎◌, ◌≡◌, ◌⊎◌, refl, List, [], ◌∷◌}
use ns3_sim.Prelude.Int.{ℤ, pos}
use ns3_sim.Python.Outcome.{ok, raise, key_error, traverse}
use ns3_sim.Python.Dict.{Dict, lookup, keys}
use ns3_sim.Python.Sorting.{sorted}
use ns3_sim.Python.Text.{Text, codes}
use ns3_sim.Python.Number.{int, decimal_ℤ}
use ns3_sim.Report.{result_line, print_results}
use ns3_sim.Report.Lines.{Reported, Stopped, print_results_cases}

abbrev results : Dict Text ℤ
results = (codes "70", pos 12) ∷ (codes "8", pos 5) ∷ []

abbrev ids : List ℤ
ids = pos 70 ∷ pos 8 ∷ []

int-keys : traverse int (keys results) ≡ ok ids
unfolding traverse int
int-keys = refl

print_results-results :
    print_results decimal_ℤ results
    ≡ ok (codes "X-8-RESULT-CONVERGENCE 5" ∷ codes "X-70-RESULT-CONVERGENCE 12" ∷ [])
unfolding print_results traverse int sorted result_line lookup decimal_ℤ
print_results-results = refl

-- A directory that is named 07.
print_results-padded : print_results decimal_ℤ ((codes "07", pos 12) ∷ []) ≡ raise key_error
unfolding print_results traverse int sorted result_line lookup decimal_ℤ
print_results-padded = refl

print_results_cases_example : Reported decimal_ℤ results ids ⊎ Stopped decimal_ℤ results ids
print_results_cases_example = print_results_cases decimal_ℤ results ids int-keys

-- The directories 7 and 07: the value of the second is in no line, and that of the first in two.
print_results-both :
    print_results decimal_ℤ ((codes "7", pos 5) ∷ (codes "07", pos 12) ∷ [])
    ≡ ok (codes "X-7-RESULT-CONVERGENCE 5" ∷ codes "X-7-RESULT-CONVERGENCE 5" ∷ [])
unfolding print_results traverse int sorted result_line lookup decimal_ℤ
print_results-both = refl
