-- ===== src/Tests/Failures.antt =====
-- Failures.antt at concrete inputs.
use ns3_sim.Prelude.{
  ◌≡◌, refl, inl, inr, false, ◌==◌, List, [], ◌∷◌, map, length, In, All, IsOnce, contains,
  In→contains, some,
}
use ns3_sim.Prelude.Int.{pos}
use ns3_sim.Python.Outcome.{ok, raise, value_error, traverse, last?}
use ns3_sim.Python.Sequence.{remove}
use ns3_sim.Python.Sorting.{sorted}
use ns3_sim.Python.Text.{text_eq, Text, codes, split, join, drop_last}
use ns3_sim.Python.Number.{int, decimal}
use ns3_sim.Gaps.Assign.{fails_from}
use ns3_sim.TopologyFile.{is_comment}
use ns3_sim.Failures.{
  Row, row_eq, rows_from, reverse_of, prune, one_direction, keyed, by_metric, timed, print_rows,
  failures, fail_gen,
}
use ns3_sim.Failures.Halves.{flipped, IsLink, Halves}
use ns3_sim.Failures.OneDirection.{one_direction-Halves, one_direction-unpaired}
use ns3_sim.Failures.Schedule.{HasMetric, Schedule, failures-Schedule}
use ns3_sim.Failures.Times.{times-failures}

abbrev a_b : Row
a_b = codes "a" ∷ codes "b" ∷ codes "7" ∷ codes "5" ∷ []

abbrev b_a : Row
b_a = codes "b" ∷ codes "a" ∷ codes "7" ∷ codes "5" ∷ []

abbrev b_c : Row
b_c = codes "b" ∷ codes "c" ∷ codes "3" ∷ codes "5" ∷ []

abbrev c_b : Row
c_b = codes "c" ∷ codes "b" ∷ codes "3" ∷ codes "5" ∷ []

abbrev file : Text
file = codes "#src dst metric delay\na b 7 5\nb c 3 5\nc b 3 5\nb a 7 5\n"

abbrev rows : List Row
rows = a_b ∷ b_c ∷ c_b ∷ b_a ∷ []

rows_from-file : rows_from (drop_last (split 10 file)) ≡ ok rows
unfolding rows_from is_comment split
rows_from-file = refl

link :
    (src dst metric delay : Text) → (src == dst) ≡ false → IsLink (src ∷ dst ∷ metric ∷ delay ∷ [])
link src dst metric delay h = record {
  src = src;
  dst = dst;
  metric = metric;
  delay = delay;
  parts = refl;
  ends_differ = λ e. cc (h, (text_eq.beq_iff src dst).1 e);
}

rows-IsLink : All IsLink rows
rows-IsLink = (link _ _ _ _ refl, (link _ _ _ _ refl, (link _ _ _ _ refl, (link _ _ _ _ refl, tt))))

absent : (x : Row) (xs : List Row) → contains xs x ≡ false → ¬ In x xs
absent x xs h m = cc (h, In→contains x xs m)

rows-IsOnce : IsOnce rows
unfolding contains
rows-IsOnce = (
  absent a_b (b_c ∷ c_b ∷ b_a ∷ []) refl,
  (absent b_c (c_b ∷ b_a ∷ []) refl, (absent c_b (b_a ∷ []) refl, (λ m. m, tt))),
)

rows_paired : All (λ x. In (flipped x) rows) rows
rows_paired = (inr (inr (inr (inl refl))), (inr (inr (inl refl)), (inr (inl refl), (inl refl, tt))))

rows-HasMetric : All HasMetric rows
unfolding keyed int
rows-HasMetric = ((pos 7, refl), ((pos 3, refl), ((pos 3, refl), ((pos 7, refl), tt))))

one_direction-Halves_example : (out : List Row) × (one_direction rows ≡ ok out) × Halves rows out
one_direction-Halves_example = one_direction-Halves rows rows-IsLink rows-IsOnce rows_paired

one_direction-unpaired_example : one_direction (a_b ∷ c_b ∷ b_a ∷ []) ≡ raise value_error
unfolding contains
one_direction-unpaired_example =
    one_direction-unpaired (a_b ∷ c_b ∷ b_a ∷ [])
      (link _ _ _ _ refl, (link _ _ _ _ refl, (link _ _ _ _ refl, tt)))
      (absent a_b (c_b ∷ b_a ∷ []) refl, (absent c_b (b_a ∷ []) refl, (λ m. m, tt))) c_b
      (inr (inl refl)) (absent b_c (a_b ∷ c_b ∷ b_a ∷ []) refl)

failures-Schedule_example : (b : List Row) × (failures file ≡ ok (timed 0 b)) × Schedule rows b
failures-Schedule_example =
    failures-Schedule file rows rows_from-file rows-IsLink rows-IsOnce rows_paired rows-HasMetric

abbrev timed_rows : List Row
timed_rows =
    (codes "b" ∷ codes "c" ∷ codes "3" ∷ codes "5" ∷ codes "60" ∷ [])
    ∷ (codes "a" ∷ codes "b" ∷ codes "7" ∷ codes "5" ∷ codes "70" ∷ [])
    ∷ []

failures-file : failures file ≡ ok timed_rows
unfolding failures rows_from is_comment split one_direction prune reverse_of remove by_metric keyed
    int sorted traverse timed decimal
failures-file = refl

fail_gen-file : fail_gen file ≡ ok (codes "b c 3 5 60\na b 7 5 70\n")
unfolding fail_gen failures print_rows join rows_from is_comment split one_direction prune
    reverse_of remove by_metric keyed int sorted traverse timed decimal
fail_gen-file = refl

times-failures_example :
    map last? timed_rows ≡ map (λ t. some (decimal t)) (fails_from 0 (length timed_rows))
times-failures_example = times-failures file timed_rows failures-file
