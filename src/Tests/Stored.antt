-- ===== src/Tests/Stored.antt =====
-- The results that the main program of fib_parser.py keeps.
use ns3_sim.Prelude.{arith, contains, ◌≡◌, refl, List, [], ◌∷◌, In, All}
use ns3_sim.Prelude.Int.{ℤ, negsuc, ◌-ℤ◌, ◌*ℤ◌}
use ns3_sim.Python.Outcome.{ok, traverse}
use ns3_sim.Python.Dict.{Dict, lookup, insert, keys}
use ns3_sim.Python.Sorting.{sorted}
use ns3_sim.Python.Text.{Text, codes, split, non_empty, occurs_in}
use ns3_sim.Python.Number.{int, decimal, decimal_ℤ}
use ns3_sim.Address.{address, gen_addresses, ip_into_rid, parse_route}
use ns3_sim.Collect.{
  read_kernel, read_row, read_parts, read_rows, rows_of, only_digits, isdigit, inner, add_neighs,
  store, collect_dump, collect_status, collect_process, collect_all, collect_fibs, append_route,
  read_nexthop,
}
use ns3_sim.Explore.{explore, loop, forwarding, follow_all, follow}
use ns3_sim.Converge.{
  tally, tally_all, tally_from, is_valid, judge, oldest_first, convergence_of,
  instant_of_convergence, newest_first, first_incorrect,
}
use ns3_sim.Report.{
  Node, nodes_of, collect_nodes, evaluate_convergence, since_failure, add_result, results_from,
  fib_parser,
}
use ns3_sim.Report.Stored.{IsStored, results_from-IsStored, names}
use ns3_sim.Tests.Sample.{whole_floats}
use ns3_sim.Report.Whole.{IsNumber, IsComplete, IsReport, fib_parser_returns}
use ns3_sim.Tests.Evaluated.{entries, fibs, reverse, collect_nodes-entries, entries-IsWhole}

abbrev failures : List (Text × List Node)
failures = (codes "70", entries) ∷ []

abbrev results : Dict Text ℤ
results = (codes "70", negsuc 59999) ∷ []

results_from-failures : results_from whole_floats (codes "output") [] failures ≡ ok results
unfolding results_from add_result since_failure evaluate_convergence nodes_of collect_nodes
    collect_fibs collect_all collect_process collect_status collect_dump read_rows read_row
    read_parts read_kernel append_route read_nexthop rows_of split non_empty insert lookup store
    add_neighs isdigit only_digits inner occurs_in int convergence_of oldest_first judge tally
    tally_all tally_from gen_addresses address decimal is_valid explore loop forwarding follow_all
    follow parse_route ip_into_rid instant_of_convergence newest_first first_incorrect sorted
    traverse ◌-ℤ◌ contains ◌*ℤ◌
results_from-failures = refl

results_from-IsStored_example :
    All (IsStored whole_floats (codes "output") results) failures
    × All (λ j. In j (names whole_floats failures)) (keys results)
results_from-IsStored_example =
    results_from-IsStored whole_floats (codes "output") failures results ((λ m. m), tt)
      (((λ e. absurd (omega (arith, e))), ((λ e. absurd (omega (arith, e))), tt)), tt)
      results_from-failures

names-IsNumber : All IsNumber (names whole_floats failures)
unfolding decimal
names-IsNumber = ((70, refl), tt)

entries-IsComplete : IsComplete whole_floats entries
entries-IsComplete = record {
  fibs = fibs;
  reverse = reverse;
  read = collect_nodes-entries;
  whole = entries-IsWhole;
}

fib_parser_returns_example :
    (lines : List Text) × (fib_parser whole_floats decimal_ℤ (codes "output") failures ≡ ok lines)
    × IsReport whole_floats decimal_ℤ (codes "output") failures lines
fib_parser_returns_example =
    fib_parser_returns whole_floats decimal_ℤ (codes "output") failures ((λ m. m), tt)
      names-IsNumber (entries-IsComplete, tt)
