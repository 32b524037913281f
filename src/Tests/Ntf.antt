-- ===== src/Tests/Ntf.antt =====
-- Ntf.antt at concrete inputs.
use mathlib.Core.Path.{subst, sym}
use ns3_sim.Prelude.{◌*◌, ◌≡◌, ◌≤◌, refl, ap, some, List, [], ◌∷◌, contains}
use ns3_sim.Prelude.Int.{ℤ, pos, negsuc, int_eq, ◌*ℤ◌}
use ns3_sim.Python.Outcome.{Outcome, ok, raise}
use ns3_sim.Python.Sequence.{append_new}
use ns3_sim.Python.Dict.{lookup, insert}
use ns3_sim.Python.Text.{Text, codes, split}
use ns3_sim.Python.Number.{int}
use ns3_sim.Ntf.{
  Topology, Link, Key, key_eq, pad, int_field, float_field, read_entry, read_link, set_last, extend,
  extend_reversed, add_link, read_lines, read_topology, count_links, count_pairs,
}
use ns3_sim.TopologyFile.{is_skipped}
use ns3_sim.Ntf.Metrics.{directions}
use ns3_sim.Ntf.Directions.{n_kept, HasMetrics, directions-read_topology}
use ns3_sim.Ntf.Nodes.{IsIndexed, read_topology-IsIndexed}
use ns3_sim.Tests.Sample.{whole_floats}

-- Two links between a and b, one of them with one direction alone, and one link between b and c.
abbrev file : Text
file = codes "#nodes 3\na b 3 2 0 0\nb a 4 2 0 0\nb a 5 1 0 9\nc b 7 2 0 0\nb c 7 2 0 0\n"

abbrev network : Topology
network = record {
  nodes = some (codes "a") ∷ some (codes "b") ∷ some (codes "c") ∷ [];
  links =
      (
        (some (codes "a"), some (codes "b")),
        record {
          f_metric = pos 3;
          delay = pos 2000000;
          r_metric = pos 4;
          begin = pos 0;
          end = pos 0;
        }
            ∷ record {
              f_metric = negsuc 0;
              delay = pos 1000000;
              r_metric = pos 5;
              begin = pos 0;
              end = pos 9;
            }
            ∷ [],
      )
      ∷ (
        (some (codes "c"), some (codes "b")),
        record {
          f_metric = pos 7;
          delay = pos 2000000;
          r_metric = pos 7;
          begin = pos 0;
          end = pos 0;
        }
            ∷ [],
      )
      ∷ [];
}

read_topology-file : read_topology whole_floats ok file ≡ ok network
unfolding read_topology read_lines read_link read_entry pad int_field float_field split int ◌*ℤ◌
    is_skipped add_link append_new extend extend_reversed set_last lookup insert contains
read_topology-file = refl

counts : (count_links network.links ≡ 3) × (count_pairs network.links ≡ 1)
unfolding count_links count_pairs
counts = (refl, refl)

abbrev lines : List Text
lines =
    codes "#nodes 3"
    ∷ codes "a b 3 2 0 0"
    ∷ codes "b a 4 2 0 0"
    ∷ codes "b a 5 1 0 9"
    ∷ codes "c b 7 2 0 0"
    ∷ codes "b c 7 2 0 0"
    ∷ []
    ∷ []

split-file : split 10 file ≡ lines
unfolding split
split-file = refl

-- The metric of an entry that a line is read as.
read_metric : Outcome (Key × Link) → ℤ
read_metric (ok e) = e.1.f_metric
read_metric (raise e) = pos 0

lines-HasMetrics : HasMetrics whole_floats ok lines
unfolding split read_link read_entry pad int_field float_field int ◌*ℤ◌ is_skipped read_metric
lines-HasMetrics = (
  λ skip. cc skip,
  (
    λ _ key entry h z. cc (ap read_metric h, z),
    (
      λ _ key entry h z. cc (ap read_metric h, z),
      (
        λ _ key entry h z. cc (ap read_metric h, z),
        (
          λ _ key entry h z. cc (ap read_metric h, z),
          (λ _ key entry h z. cc (ap read_metric h, z), (λ skip. cc skip, tt)),
        ),
      ),
    ),
  ),
)

file-HasMetrics : HasMetrics whole_floats ok (split 10 file)
file-HasMetrics = subst (HasMetrics whole_floats ok) (sym split-file) lines-HasMetrics

directions-read_topology_example :
    (directions network.links ≡ n_kept (split 10 file))
    × (n_kept (split 10 file) ≤ 2 * count_links network.links)
directions-read_topology_example =
    directions-read_topology whole_floats ok file network file-HasMetrics read_topology-file

read_topology-IsIndexed_example : IsIndexed network
read_topology-IsIndexed_example =
    read_topology-IsIndexed whole_floats ok file network read_topology-file
