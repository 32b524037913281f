-- ===== src/Tests/Plots.antt =====
-- Plots.antt at concrete inputs.
use ns3_sim.Prelude.{ℕ, ◌≡◌, refl, List, [], ◌∷◌, ◌++◌, map, length}
use ns3_sim.Prelude.Int.{pos, negsuc}
use ns3_sim.Python.Outcome.{Outcome, ok, traverse}
use ns3_sim.Python.Dict.{lookup}
use ns3_sim.Python.Sorting.{sorted}
use ns3_sim.Python.Text.{codes}
use ns3_sim.Python.Number.{decimal, decimal_ℤ}
use ns3_sim.Plots.{
  Figure, by_time, series, series_or_zero, spt_figure, no_spt_figure, geant, house_all,
  house_no_delay, tree_edges, graphs_from, gen_graphs,
}

-- The points of all curves.
drawn : Outcome (List Figure) → List (List ℕ)
drawn (ok (f ∷ g ∷ [])) = map (λ c. c.points) (f.curves ++ g.curves)
drawn _ = []

geant-curves : map length (drawn geant) ≡ 36 ∷ 36 ∷ 36 ∷ 36 ∷ 36 ∷ 36 ∷ []
unfolding drawn geant spt_figure no_spt_figure by_time series series_or_zero traverse sorted lookup
geant-curves = refl

house-curves :
    series house_all (by_time house_no_delay) ≡ ok (115 ∷ 230 ∷ 230 ∷ 220 ∷ 230 ∷ 230 ∷ [])
unfolding by_time series traverse sorted lookup
house-curves = refl

gen_graphs-trees :
    gen_graphs ((negsuc 9998 ∷ pos 0 ∷ pos 1 ∷ []) ∷ [])
    ≡ record { name = codes "tree-0"; edges = (codes "0", codes "1") ∷ (codes "1", codes "2") ∷ [] }
      ∷ []
unfolding gen_graphs graphs_from tree_edges decimal decimal_ℤ
gen_graphs-trees = refl
