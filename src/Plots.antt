-- ===== src/Plots.antt =====
-- misc/geant.py, misc/house.py and misc/viz.py: what the plots of recorded measurements show, as the
-- values that are handed to matplotlib and graphviz.
pub mod Geant
use ns3_sim.Prelude.{
  ℕ, suc, ◌+◌, Option, none, some, List, [], ◌∷◌, ◌++◌, map, ◌==◌, leb, if◌then◌else◌,
}
use ns3_sim.Prelude.Int.{ℤ, negsuc, int_eq}
use ns3_sim.Python.Outcome.{Outcome, ok, key_error, or_raise, traverse, ◌>>=◌}
use ns3_sim.Python.Dict.{Dict, lookup}
use ns3_sim.Python.Sorting.{sorted}
use ns3_sim.Python.Text.{Text, text_eq, codes}
use ns3_sim.Python.Number.{decimal, decimal_ℤ}
use ns3_sim.Plots.Geant.{
  geant_all, geant_no_custom, geant_no_delay, geant_no_link, geant_all_no_spt,
}

abbrev pub Times : Type 0
Times = Dict Text ℕ

-- `idx`.
unfoldable pub by_time : Times → List Text
by_time times = map (λ x. x.0) (sorted (λ (x y : Text × ℕ). leb x.1 y.1) times)

-- `[times[key] for key in idx]`.
unfoldable pub series : Times → List Text → Outcome (List ℕ)
series times idx = traverse (λ key. or_raise key_error (lookup key times)) idx

-- `[times[key] if key in times else 0 for key in idx]`.
unfoldable pub series_or_zero : Times → List Text → List ℕ
series_or_zero times [] = []
series_or_zero times (key ∷ idx) =
    (elim (lookup key times) [ none ↦ 0 | some ms ↦ ms ]) ∷ series_or_zero times idx

pub record Curve : Type 0 where
  pub points : List ℕ
  pub style : Text
  pub label : Text

-- What is saved, between two calls of `clf`.
pub record Figure : Type 0 where
  pub curves : List Curve
  pub ylabel : Text
  pub xlabel : Text
  pub title : Text
  pub ylim : ℕ × ℕ
  pub path : Text

abbrev curve : List ℕ → Text → Text → Curve
curve points style label = record { points = points; style = style; label = label }

unfoldable pub spt_figure : Outcome Figure
spt_figure = do
  let idx = by_time geant_all
  all ← series geant_all idx
  no_custom ← series geant_no_custom idx
  no_link ← series geant_no_link idx
  no_delay ← series geant_no_delay idx
  ok (record {
    curves =
        curve all (codes "b.-") (codes "All delays")
        ∷ curve no_custom (codes "r.-") (codes "No bird delays")
        ∷ curve no_link (codes "g.") (codes "No link delays")
        ∷ curve no_delay (codes "x-") (codes "No bird, link delays")
        ∷ [];
    ylabel = codes "Convergence Time [ms]";
    xlabel = codes "Link Failures";
    title = codes "Sorted convergence time for GEANT links (SPT delay in bird)";
    ylim = (0, 550);
    path = codes "plot.png";
  })

unfoldable pub no_spt_figure : Outcome Figure
no_spt_figure = do
  let idx = by_time geant_all
  let all = series_or_zero geant_all_no_spt idx
  no_delay ← series geant_no_delay idx
  ok (record {
    curves =
        curve all (codes "b.-") (codes "All delays")
        ∷ curve no_delay (codes "x-") (codes "No bird, link delays")
        ∷ [];
    ylabel = codes "Convergence Time [ms]";
    xlabel = codes "Link Failures";
    title = codes "Sorted convergence time for GEANT links";
    ylim = (0, 550);
    path = codes "plot1.png";
  })

unfoldable pub geant : Outcome (List Figure)
geant = do first ← spt_figure; second ← no_spt_figure; ok (first ∷ second ∷ [])

abbrev pub house_all : Times
house_all =
    (codes "4", 115)
    ∷ (codes "0", 230)
    ∷ (codes "5", 230)
    ∷ (codes "3", 220)
    ∷ (codes "1", 230)
    ∷ (codes "2", 230)
    ∷ []

abbrev pub house_no_delay : Times
house_no_delay =
    (codes "4", 110)
    ∷ (codes "0", 110)
    ∷ (codes "5", 110)
    ∷ (codes "3", 110)
    ∷ (codes "1", 110)
    ∷ (codes "2", 110)
    ∷ []

unfoldable pub house : Outcome Figure
house = do
  let idx = by_time house_no_delay
  all ← series house_all idx
  no_delay ← series house_no_delay idx
  ok (record {
    curves =
        curve all (codes "b.-") (codes "All delays")
        ∷ curve no_delay (codes "x-") (codes "No bird, link delays")
        ∷ [];
    ylabel = codes "Convergence Time [ms]";
    xlabel = codes "Link Failures";
    title = codes "Sorted convergence time for HOUSE links";
    ylim = (0, 550);
    path = codes "house.png";
  })

-- A `Digraph` with the name that it is rendered under.
pub record Digraph : Type 0 where
  pub name : Text
  pub edges : List (Text × Text)

-- The loop over `enumerate(tree)`, from number `child` on.
unfoldable pub tree_edges : ℕ → List ℤ → List (Text × Text)
tree_edges child [] = []
tree_edges child (parent ∷ tree) =
    let rest = tree_edges (child + 1) tree in
    if parent == negsuc 9998 then rest else (decimal_ℤ parent, decimal child) ∷ rest

unfoldable pub graphs_from : ℕ → List (List ℤ) → List Digraph
graphs_from root [] = []
graphs_from root (tree ∷ forest) =
    record { name = codes "tree-" ++ decimal root; edges = tree_edges 0 tree }
    ∷ graphs_from (root + 1) forest

unfoldable pub gen_graphs : List (List ℤ) → List Digraph
gen_graphs forest = graphs_from 0 forest
