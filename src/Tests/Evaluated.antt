-- ===== src/Tests/Evaluated.antt =====
-- The evaluation of Report.antt for two routers with a link between them.
use mathlib.Core.Path.{subst, sym}
use ns3_sim.Prelude.{◌≡◌, refl, inl, inr, none, some, option_eq, List, [], ◌∷◌, In, length, true}
use ns3_sim.Prelude.Int.{ℤ, pos, int_eq, ◌-ℤ◌}
use ns3_sim.Python.Outcome.{ok, last}
use ns3_sim.Python.Dict.{Dict, lookup, insert, lookup-In, In-keys_of_lookup}
use ns3_sim.Python.Text.{Text, text_eq, codes, split, non_empty, occurs_in}
use ns3_sim.Python.Number.{int, decimal}
use ns3_sim.Fib.{Fib, Snapshot, Reverse}
use ns3_sim.Address.{address, gen_addresses, ip_into_rid}
use ns3_sim.Collect.{
  Process, read_kernel, read_row, read_parts, read_rows, rows_of, only_digits, isdigit, inner,
  add_neighs, store, collect_dump, collect_status, collect_process, collect_all, collect_fibs,
}
use ns3_sim.Collect.Known.{HasTable}
use ns3_sim.Explore.Returns.{IsNamed}
use ns3_sim.Report.{Node, nodes_of, collect_nodes, evaluate_convergence}
use ns3_sim.Report.Evaluated.{IsWhole, evaluate_convergence_returns}
use ns3_sim.Tests.Sample.{whole_floats, ip1, ip2, link1, link2}

abbrev process : Text → Process
process stdout = record {
  name = codes "17";
  cmdline = some (codes "ip r");
  status = some (codes "Start  at NS3 time:  65000s (  +65000us)\n");
  stdout = some stdout;
}

abbrev dump1 : Text
dump1 =
    codes
      "10.1.0.1 dev lo scope link\n10.0.0.2 dev eth0 proto kernel 10.0.0.1\n10.1.0.2 via 10.0.0.2 dev eth0\n"

abbrev dump2 : Text
dump2 =
    codes
      "10.1.0.2 dev lo scope link\n10.0.0.1 dev eth0 proto kernel 10.0.0.2\n10.1.0.1 via 10.0.0.1 dev eth0\n"

abbrev pub entries : List Node
entries =
    (codes "files-0", some (process dump1 ∷ []))
    ∷ (codes "topology.csv", none)
    ∷ (codes "files-1", some (process dump2 ∷ []))
    ∷ []

abbrev nodes : List Node
nodes =
    (codes "files-0", some (process dump1 ∷ [])) ∷ (codes "files-1", some (process dump2 ∷ [])) ∷ []

abbrev fib1 : Fib
fib1 = record { neighs = (link2, link1) ∷ []; routes = (some ip2, (link2, true) ∷ []) ∷ [] }

abbrev fib2 : Fib
fib2 = record { neighs = (link1, link2) ∷ []; routes = (some ip1, (link1, true) ∷ []) ∷ [] }

abbrev dumped : Snapshot
dumped = (ip1, fib1) ∷ (ip2, fib2) ∷ []

abbrev pub fibs : Dict ℤ Snapshot
fibs = (pos 0, dumped) ∷ []

abbrev pub reverse : Reverse
reverse = (link1, ip1) ∷ (link2, ip2) ∷ []

nodes_of-entries : nodes_of entries ≡ nodes
unfolding nodes_of occurs_in
nodes_of-entries = refl

pub collect_nodes-entries : collect_nodes whole_floats [] [] (nodes_of entries) ≡ ok (fibs, reverse)
unfolding nodes_of collect_nodes collect_fibs collect_all collect_process collect_status
    collect_dump read_rows read_row read_parts read_kernel rows_of split non_empty insert lookup
    store add_neighs isdigit only_digits inner occurs_in int
collect_nodes-entries = refl

only_dumped : (time : ℤ) (data_at : Snapshot) → lookup time fibs ≡ some data_at → data_at ≡ dumped
only_dumped time data_at at = elim (lookup-In time fibs at) [
  | inl e ↦ e
  | inr none_left ↦ absurd none_left
]

IsNamed-both : (router : Text) → In router (ip1 ∷ ip2 ∷ []) → IsNamed router
unfolding ip_into_rid split int ◌-ℤ◌
IsNamed-both router (inl e) = subst IsNamed (sym e) (record { number = pos 0; read = refl })
IsNamed-both router (inr (inl e)) = subst IsNamed (sym e) (record { number = pos 1; read = refl })
IsNamed-both router (inr (inr m)) = absurd m

table_of :
    (router : Text) → In router (ip1 ∷ ip2 ∷ []) → (fib : Fib) × (lookup router dumped ≡ some fib)
unfolding lookup
table_of router (inl e) =
    subst (λ r. (fib : Fib) × (lookup r dumped ≡ some fib)) (sym e) (fib1, refl)
table_of router (inr (inl e)) =
    subst (λ r. (fib : Fib) × (lookup r dumped ≡ some fib)) (sym e) (fib2, refl)
table_of router (inr (inr m)) = absurd m

router_of : (router : Text) → HasTable whole_floats fibs router → In router (ip1 ∷ ip2 ∷ [])
router_of router h =
    let same = only_dumped h.time h.snapshot h.taken in
    In-keys_of_lookup router dumped
      (subst (λ (s : Snapshot). lookup router s ≡ some h.fib) same h.tabled)

table_at :
    (time : ℤ) (data_at : Snapshot) (router : Text)
    → lookup time fibs ≡ some data_at
    → In router (ip1 ∷ ip2 ∷ [])
    → (fib : Fib) × (lookup router data_at ≡ some fib)
table_at time data_at router at m =
    subst (λ (s : Snapshot). (fib : Fib) × (lookup router s ≡ some fib))
      (sym (only_dumped time data_at at)) (table_of router m)

addresses : gen_addresses 2 ≡ ip1 ∷ ip2 ∷ []
unfolding gen_addresses address decimal
addresses = refl

fibs-IsWhole : IsWhole whole_floats 2 fibs
fibs-IsWhole = record {
  some_time = pos 0;
  dumped = inl refl;
  named = λ router h. IsNamed-both router (router_of router h);
  routers = λ time data_at at ip m.
      table_at time data_at ip at (subst (λ (l : List Text). In ip l) addresses m);
  same_routers = λ time data_at at router h. table_at time data_at router at (router_of router h);
}

pub entries-IsWhole : IsWhole whole_floats (length (nodes_of entries)) fibs
entries-IsWhole =
    subst (λ (l : List Node). IsWhole whole_floats (length l) fibs) (sym nodes_of-entries)
      fibs-IsWhole

evaluate_convergence_returns_example :
    (rid : Text) × (instant : ℤ) × (last (split b'/' (codes "output/70")) ≡ ok rid)
    × (evaluate_convergence whole_floats (codes "output/70") entries ≡ ok (some (rid, instant)))
evaluate_convergence_returns_example =
    evaluate_convergence_returns whole_floats (codes "output/70") entries fibs reverse
      collect_nodes-entries entries-IsWhole
