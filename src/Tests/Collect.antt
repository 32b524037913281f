-- ===== src/Tests/Collect.antt =====
-- Collect.antt at concrete inputs.
use mathlib.Core.Path.{subst, sym}
use ns3_sim.Prelude.{
  All, arith, false, ◌≡◌, ◌≢◌, refl, ap, some, none, List, [], ◌∷◌, true, false, map, option_eq,
}
use ns3_sim.Prelude.Int.{ℤ, pos}
use ns3_sim.Python.Outcome.{Outcome, ok, raise}
use ns3_sim.Python.Dict.{Dict, lookup, insert}
use ns3_sim.Fib.{Snapshot, Reverse}
use ns3_sim.Collect.Known.{IsKnown, collect_fibs-IsKnown}
use ns3_sim.Python.Text.{Text, codes, split, non_empty, occurs_in, text_eq}
use ns3_sim.Python.Number.{int}
use ns3_sim.Collect.{
  Dump, Process, Collected, read_kernel, read_row, read_parts, read_rows, rows_of, only_digits,
  isdigit, inner, add_neighs, store, collect_dump, collect_status, collect_process, collect_all,
  collect_fibs,
}
use ns3_sim.Collect.Multipath.{nexthop_row, route_row, read_rows-multipath}
use ns3_sim.Collect.Stale.{NamesNone, start_of, collect_dump_stale}
use ns3_sim.Collect.Printed.{
  Entry, own, neighbour, single, multi, printed_all, neighs_of, routes_of, IsReadable, dump_text,
}
use ns3_sim.Collect.RoundTrip.{collect_dump-printed}
use ns3_sim.Tests.Sample.{whole_floats, ip1, ip2, link1, link2}

abbrev empty_dump : Dump
empty_dump = record { neighs = []; routes = []; current = none; node_id = some ip1 }

eth0-other : codes "eth0" ≢ codes "kernel"
eth0-other e = cc e

read_rows-multipath_example :
    read_rows empty_dump
      (route_row ip2 ∷ map (nexthop_row (codes "eth0")) ((link1, true) ∷ (link2, false) ∷ []))
    ≡ ok (record {
      neighs = [];
      routes = (some ip2, (link1, true) ∷ (link2, false) ∷ []) ∷ [];
      current = some ip2;
      node_id = some ip1;
    })
unfolding insert
read_rows-multipath_example =
    read_rows-multipath (codes "eth0") eth0-other empty_dump ip2 (link1, true) ((link2, false) ∷ [])
      (unfold lookup in refl)

-- A dump of the first router, and one without the row of `lo`.
abbrev named : Text
named = codes "10.1.0.1 dev lo scope link\n10.0.0.2 dev eth0 proto kernel 10.0.0.1\n"

abbrev unnamed : Text
unnamed = codes "10.1.0.2 via 10.0.0.2 dev eth0\n"

abbrev process : Text → Process
process stdout = record {
  name = codes "17";
  cmdline = some (codes "ip r");
  status = some (codes "Start  at NS3 time:  65000s (  +65000us)\n");
  stdout = some stdout;
}

abbrev before : Collected whole_floats
before = record { fibs = []; reverse = []; node_id = some ip1 }

abbrev after : Collected whole_floats
after = record {
  fibs =
      (pos 7, (ip1, record { neighs = []; routes = (some ip2, (link2, true) ∷ []) ∷ [] }) ∷ [])
      ∷ [];
  reverse = [];
  node_id = some ip1;
}

collect_dump-unnamed : collect_dump whole_floats before (pos 7) unnamed ≡ ok after
unfolding collect_dump read_rows read_row read_parts rows_of split non_empty insert lookup store
    add_neighs
collect_dump-unnamed = refl

abbrev unnamed_rows : List (List Text)
unnamed_rows = (ip2 ∷ codes "via" ∷ link2 ∷ codes "dev" ∷ codes "eth0" ∷ []) ∷ []

rows_of-unnamed : rows_of unnamed ≡ unnamed_rows
unfolding rows_of split non_empty
rows_of-unnamed = refl

third_of : Outcome Text → Text
third_of (ok s) = s
third_of (raise e) = []

unnamed_rows-NamesNone : NamesNone unnamed_rows
unfolding third_of
unnamed_rows-NamesNone = (λ e. cc (ap third_of e), tt)

unnamed-NamesNone : NamesNone (rows_of unnamed)
unnamed-NamesNone = subst NamesNone (sym rows_of-unnamed) unnamed_rows-NamesNone

collect_dump_stale_example :
    (d : Dump) × (read_rows (start_of (some ip1)) (rows_of unnamed) ≡ ok d)
    × (after.fibs
        ≡ store whole_floats (pos 7) ip1 (record { neighs = d.neighs; routes = d.routes }) [])
    × (some ip1 ≡ some ip1)
collect_dump_stale_example =
    collect_dump_stale whole_floats before after (pos 7) unnamed ip1 unnamed-NamesNone refl
      collect_dump-unnamed

-- The second dump takes the place of the first one, and the map of the links' ends stays.
abbrev two_fibs : Dict ℤ Snapshot
two_fibs =
    (pos 0, (ip1, record { neighs = []; routes = (some ip2, (link2, true) ∷ []) ∷ [] }) ∷ []) ∷ []

abbrev two_reverse : Reverse
two_reverse = (link1, ip1) ∷ []

abbrev two : List Process
two = process named ∷ process unnamed ∷ []

collect_fibs-two : collect_fibs whole_floats two [] [] ≡ ok (two_fibs, two_reverse)
unfolding collect_fibs collect_all collect_process collect_status collect_dump read_rows read_row
    read_parts read_kernel rows_of split non_empty insert lookup store add_neighs isdigit
    only_digits inner occurs_in int
collect_fibs-two = refl

collect_fibs-IsKnown_example : IsKnown whole_floats two_fibs two_reverse
collect_fibs-IsKnown_example =
    collect_fibs-IsKnown whole_floats two [] two_fibs [] two_reverse tt collect_fibs-two

-- A table with a neighbour, and routes of one nexthop and of two.
abbrev table : List Entry
table =
    own ip1
    ∷ neighbour (codes "10.0.0.2") (codes "eth0") link1
    ∷ single ip2 link2 (codes "eth0")
    ∷ multi (codes "10.1.0.3") (codes "eth1") (link2, true) ((link1, false) ∷ [])
    ∷ []

table-IsReadable : All IsReadable table
table-IsReadable = (
  omega arith,
  (
    omega arith,
    (
      (omega arith, omega arith, omega arith, λ e. cc e, λ e. cc e),
      ((omega arith, omega arith, omega arith, λ e. cc e), tt),
    ),
  ),
)

collect_dump-printed_example :
    collect_dump whole_floats
      (record { fibs = []; reverse = []; node_id = none })
      (pos 7)
      (dump_text (printed_all table))
    ≡ ok (record {
      fibs =
          store whole_floats
            (pos 7)
            ip1
            (record { neighs = neighs_of table; routes = routes_of table })
            [];
      reverse = add_neighs (neighs_of table) ip1 [];
      node_id = some ip1;
    })
collect_dump-printed_example =
    collect_dump-printed whole_floats (record { fibs = []; reverse = []; node_id = none }) (pos 7)
      table ip1 table-IsReadable (ground arith) (ground arith) refl
