-- ===== src/Gaps/Results.antt =====
-- udp_parser.py, the main program: the convergence time of each simulation.
use ns3_sim.Prelude.{
  ℕ, Bool, true, false, Option, none, some, List, [], ◌∷◌, ◌++◌, ◌==◌, nat_eq, if◌then◌else◌, ltb,
}
use ns3_sim.Prelude.Int.{ℤ, pos}
use ns3_sim.Python.Outcome.{Outcome, ok, key_error, or_raise, traverse, ◌>>=◌}
use ns3_sim.Python.Dict.{Dict, lookup, insert, keys}
use ns3_sim.Python.Sorting.{sorted}
use ns3_sim.Python.Text.{Text, text_eq, codes}
use ns3_sim.Gaps.Assign.{converge_time}

-- The logs of a simulation, with the names of the directories that they are in.
abbrev pub Logs : Type 0
Logs = List (Text × Option Text)

-- `ret[60]`, or 0 for a `KeyError`.
unfoldable pub first_failure : Dict ℕ ℤ → ℤ
first_failure ret = elim (lookup 60 ret) [ none ↦ pos 0 | some ms ↦ ms ]

-- The loop over the entries of the argument; `none` is an entry that is no directory.
unfoldable pub times_from : Dict Text ℤ → List (Text × Option Logs) → Outcome (Dict Text ℤ)
times_from times [] = ok times
times_from times ((base, none) ∷ bases) = times_from times bases
times_from times ((base, some logs) ∷ bases) = do
  ret ← converge_time logs
  times_from (insert base (first_failure ret) times) bases

-- `<=` of two texts.
unfoldable pub text_le : Text → Text → Bool
text_le [] t = true
text_le (c ∷ s) [] = false
text_le (c ∷ s) (d ∷ t) = let rest = text_le s t in if c == d then rest else ltb c d

-- `format6` is `%f` of an integer.
module _ (format6 : ℤ → Text) where
  unfoldable pub time_line : Dict Text ℤ → Text → Outcome Text
  time_line times i = do
    ms ← or_raise key_error (lookup i times)
    ok (codes "X-" ++ i ++ codes "-RESULT-CONVERGENCE " ++ format6 ms)

  -- The lines of the report.
  unfoldable pub print_times : Dict Text ℤ → Outcome (List Text)
  print_times times = traverse (time_line times) (sorted text_le (keys times))

  unfoldable pub udp_parser : List (Text × Option Logs) → Outcome (List Text)
  udp_parser bases = do times ← times_from [] bases; print_times times
