-- ===== src/Tests/Assign.antt =====
-- Gaps that are filed under failures.
use ns3_sim.Prelude.{ℕ, ◌≡◌, refl, List, [], ◌∷◌, filter}
use ns3_sim.Prelude.Int.{pos}
use ns3_sim.Python.Dict.{lookup, insert}
use ns3_sim.Gaps.{Gap, iconvert}
use ns3_sim.Gaps.Assign.{fails_from, fit, seek, append_at, index_after, filed, assign}
use ns3_sim.Gaps.First.{is_first}
use ns3_sim.Gaps.Filed.{filed_under, assign-by_low}

-- A gap between two times in seconds.
abbrev lost : ℕ → ℕ → Gap
lost from to = record {
  rid = pos 0;
  low = iconvert from;
  high = iconvert to;
  span = pos 0;
  reset_at = pos 0;
}

-- The third gap has no failure within it.
abbrev in_order : List Gap
in_order = lost 58 62 ∷ lost 59 75 ∷ lost 65 67 ∷ lost 68 95 ∷ []

assign-by_low_example : filed_under 60 (assign 0 [] in_order) ≡ filter (is_first 60) in_order
unfolding iconvert
assign-by_low_example =
    assign-by_low in_order 60
      ((refl, (refl, (refl, tt))), ((refl, (refl, tt)), ((refl, tt), (tt, tt))))

assign-in_order :
    assign 0 [] in_order ≡ (60, lost 58 62 ∷ lost 59 75 ∷ []) ∷ (70, lost 68 95 ∷ []) ∷ []
unfolding assign seek fails_from fit index_after filed append_at lookup insert iconvert
assign-in_order = refl

-- Behind the gap of a later failure one of an earlier failure is lost.
assign-out_of_order : assign 0 [] (lost 68 72 ∷ lost 58 62 ∷ []) ≡ (70, lost 68 72 ∷ []) ∷ []
unfolding assign seek fails_from fit index_after filed append_at lookup insert iconvert
assign-out_of_order = refl
