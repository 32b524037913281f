-- ===== src/Tests/Comparison.antt =====
-- Comparison.antt at concrete inputs.

use ns3_sim.Prelude.{◌≡◌, ◌↔◌, refl, some, none, List, [], ◌∷◌, ◌==◌, if◌then◌else◌}
use ns3_sim.Python.Outcome.{ok, raise, system_exit, traverse}
use ns3_sim.Python.Dict.{Dict, lookup, insert}
use ns3_sim.Python.Nested.{insert_in}
use ns3_sim.Python.Sequence.{remove, SameItems}
use ns3_sim.Python.Text.{Text, text_eq, codes, split, join, non_empty}
use ns3_sim.Python.Number.{int, decimal_ℤ}
use ns3_sim.Comparison.{
  Configs, without_tabs, iface_part, is_interface, open_interface, set_cost, config_parts,
  read_config_line, read_config, load_metric, get_metric, unpack_node, nodemap_from, nodemap,
  unpack_wire, link_line, generated, strike, compare_topo, check_topology,
}
use ns3_sim.TopologyFile.{is_skipped, new_line}
use ns3_sim.Comparison.Uncached.{line_of, generated-uncached}
use ns3_sim.Comparison.Verdict.{expected, compare_topo_iff}
use ns3_sim.Tests.Sample.{whole_floats}

abbrev config0 : Text
config0 =
    codes
      "protocol ospf {\n\tinterface \"sim0\" {\n\t\tcost 7;\n\t};\n\n\tinterface \"sim1\" {\n\t\tcost 9;\n\t};\n}\n"

abbrev config1 : Text
config1 = codes "interface \"sim0\" {\n\tcost 7;\n};\n"

abbrev files : Configs
files node =
    if node == codes "0" then some config0 else if node == codes "1" then some config1 else none

abbrev nodes : Dict Text Text
nodes = (codes "0", codes "a") ∷ (codes "1", codes "b") ∷ []

abbrev wires : List Text
wires = codes "0,0,1,0,5" ∷ codes "1,0,0,0,5" ∷ codes "0,1,1,0,6" ∷ []

abbrev topo : List Text
topo = codes "a b 7 5" ∷ codes "b a 7 5" ∷ codes "a b 9 6" ∷ []

generated-wires : generated files nodes [] wires ≡ ok topo
unfolding generated link_line unpack_wire get_metric load_metric read_config read_config_line
    config_parts without_tabs iface_part is_interface open_interface set_cost insert_in insert
    lookup split non_empty join
generated-wires = refl

generated-uncached_example : generated files nodes [] wires ≡ traverse (line_of files nodes) wires
generated-uncached_example = generated-uncached files nodes wires

abbrev ntf : List Text
ntf = codes "#links" ∷ codes "a b 9 6" ∷ codes "a b 7 5" ∷ codes "b a 7 5" ∷ [] ∷ []

abbrev news : List Text
news = codes "a b 9 6" ∷ codes "a b 7 5" ∷ codes "b a 7 5" ∷ []

-- With delays that are whole numbers.
expected-ntf : expected whole_floats decimal_ℤ ntf ≡ ok news
unfolding traverse new_line is_skipped split join int decimal_ℤ
expected-ntf = refl

compare_topo-ntf : compare_topo whole_floats decimal_ℤ topo ntf ≡ ok tt
unfolding compare_topo strike remove new_line is_skipped split join int decimal_ℤ
compare_topo-ntf = refl

compare_topo-more :
    compare_topo whole_floats decimal_ℤ (codes "a b 7 5" ∷ topo) ntf ≡ raise (system_exit 1)
unfolding compare_topo strike remove new_line is_skipped split join int decimal_ℤ
compare_topo-more = refl

compare_topo_iff_example :
    ((compare_topo whole_floats decimal_ℤ topo ntf ≡ ok tt) ↔ SameItems topo news)
    × ((compare_topo whole_floats decimal_ℤ topo ntf ≡ raise (system_exit 1))
        ↔ (¬ SameItems topo news))
compare_topo_iff_example = compare_topo_iff whole_floats decimal_ℤ topo ntf news expected-ntf

check_topology-files :
    check_topology whole_floats decimal_ℤ files
      (codes "0,0,1,0,5\n1,0,0,0,5\n0,1,1,0,6\n")
      (codes "0 a\n1 b\n")
      (codes "#links\na b 9 6\na b 7 5\nb a 7 5\n")
    ≡ ok tt
unfolding check_topology nodemap nodemap_from unpack_node generated link_line unpack_wire get_metric
    load_metric read_config read_config_line config_parts without_tabs iface_part is_interface
    open_interface set_cost insert_in insert lookup split non_empty join compare_topo strike remove
    new_line is_skipped int decimal_ℤ
check_topology-files = refl
