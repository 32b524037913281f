-- ===== src/Tests/NtfOutput.antt =====
-- The output of Ntf.antt at concrete inputs.
use ns3_sim.Prelude.{
  ◌⊎◌, ◌≢◌, inl, ℕ, ◌+◌, ◌*◌, ◌≡◌, refl, true, false, Option, some, none, List, [], ◌∷◌, contains,
  All, In, length, option_eq, arith, map,
}
use ns3_sim.Prelude.Int.{ℤ, pos, negsuc, int_eq, ◌*ℤ◌}
use ns3_sim.Python.Outcome.{ok, raise, system_exit, traverse, index}
use ns3_sim.Python.Sequence.{append_new, remove, index_of}
use ns3_sim.Python.Dict.{lookup, insert}
use ns3_sim.Python.Text.{Text, text_eq, codes, split, join, occurs_in}
use ns3_sim.Python.Number.{int, decimal, decimal_ℤ}
use ns3_sim.TopologyFile.{is_skipped, kept_lines, new_line}
use ns3_sim.Ntf.{
  Field, Topology, Link, key_eq, pad, int_field, float_field, read_entry, read_link, set_last,
  extend, extend_reversed, add_link, read_lines, read_topology, count_links,
}
use ns3_sim.Ntf.Output.{
  field_text, map_file, is_failures, id_src, write_map, replicate, zeros, set_at, set_cell,
  set_link, Output, strike_line, check_output, wrapper_line, direction_line, write_link,
  write_links, write_pairs, ntf_parser,
}
use ns3_sim.Ntf.Balance.{ntf_parser-balance}
use ns3_sim.Ntf.Mapping.{IsName, with_map, id_src-write_map}
use ns3_sim.Ntf.Written.{IsSquare, write_pairs-topology}
use ns3_sim.Ntf.Parts.{n_parts, decimal_ℤ-Lacks}
use ns3_sim.Ntf.Timed.{ntf_parser_rejects}
use ns3_sim.Ntf.Accepted.{Within, pair_lines, ntf_parser_cases}
use ns3_sim.Tests.Sample.{whole_floats}

abbrev text : Text
text = codes "#nodes 2\na b 3 2\nb a 4 2\na b 5 1\n"

abbrev nodes : List Field
nodes = some (codes "a") ∷ some (codes "b") ∷ []

abbrev link : ℤ → ℤ → ℤ → Link
link f d r = record { f_metric = f; delay = d; r_metric = r; begin = negsuc 0; end = negsuc 0 }

abbrev topology : Topology
topology = record {
  nodes = nodes;
  links =
      (
        (some (codes "a"), some (codes "b")),
        link (pos 3) (pos 2000000) (pos 4) ∷ link (pos 5) (pos 1000000) (negsuc 0) ∷ [],
      )
      ∷ [];
}

read_topology-text : read_topology whole_floats ok text ≡ ok topology
unfolding read_topology read_lines read_link read_entry pad int_field float_field split int ◌*ℤ◌
    is_skipped add_link append_new extend extend_reversed set_last lookup insert contains
read_topology-text = refl

abbrev name : Text
name = codes "ring.ntf"

abbrev no_files : Text → Option Text
no_files path = none

abbrev written : Output
written = record {
  printed = codes "0 1 3 4 2000000 -1 -1" ∷ codes "0 1 5 -1 1000000 -1 -1" ∷ [];
  mygraph = (pos 0 ∷ pos 5 ∷ []) ∷ (negsuc 0 ∷ pos 0 ∷ []) ∷ [];
  lines = [];
  fail = 1;
}

abbrev map_written : Option (Text × Text)
map_written = some (codes "ring.map", codes "0 a\n1 b\n")

name_plain : is_failures name ≡ false
unfolding is_failures occurs_in
name_plain = refl

ntf_parser-text :
    ntf_parser whole_floats decimal_ℤ ok no_files (λ graph. 1) name text ≡ ok (map_written, written)
unfolding ntf_parser read_topology read_lines read_link read_entry pad int_field float_field split
    int ◌*ℤ◌ is_skipped add_link append_new extend extend_reversed set_last lookup insert contains
    is_failures occurs_in id_src write_map map_file traverse new_line join decimal_ℤ decimal zeros
    replicate write_pairs write_links write_link set_link set_cell set_at strike_line remove
    index_of wrapper_line direction_line field_text check_output
ntf_parser-text = refl

ntf_parser-balance_example :
    (length written.printed ≡ count_links topology.links)
    × (written.fail + length (kept_lines (split 10 text)) ≡ 2 * count_links topology.links)
    × (◌≡◌ {A = ℕ} 1 1)
ntf_parser-balance_example =
    ntf_parser-balance whole_floats decimal_ℤ ok no_files (λ graph. 1) name text topology
      map_written written name_plain read_topology-text ntf_parser-text

write_pairs-topology_example :
    (o : Output) × (write_pairs whole_floats decimal_ℤ false nodes
        (record { printed = []; mygraph = zeros 2; lines = codes "a b 3 2" ∷ []; fail = 0 })
        topology.links
      ≡ ok o)
    × IsSquare 2 o.mygraph
write_pairs-topology_example =
    write_pairs-topology whole_floats decimal_ℤ ok text topology (codes "a b 3 2" ∷ [])
      read_topology-text

abbrev names : List Text
names = codes "a" ∷ codes "b" ∷ []

map_file-names : map_file 0 (map some names) ≡ codes "0 a\n1 b\n"
unfolding map_file field_text decimal
map_file-names = refl

names-IsName : All IsName names
names-IsName = (
  ((λ e. omega (arith, e), tt), (λ e. omega (arith, e), tt)),
  (((λ e. omega (arith, e), tt), (λ e. omega (arith, e), tt)), tt),
)

failures_name : is_failures (codes "ring-failures.ntf") ≡ true
unfolding is_failures occurs_in
failures_name = refl

cut_name : index (split b'-' (codes "ring-failures.ntf")) 0 ≡ ok (codes "ring")
unfolding split
cut_name = refl

cut_plain : index (split b'.' name) 0 ≡ ok (codes "ring")
unfolding split
cut_plain = refl

id_src-write_map_example :
    (m : Option (Text × Text)) × (write_map name (map some names) ≡ ok m)
    × (ids : List Field) × (id_src
          (with_map m no_files)
          (codes "ring-failures.ntf")
          (some (codes "b") ∷ [])
        ≡ ok ids)
    × ((node : Field)
        → In node (map some names)
        → index_of node ids ≡ index_of node (map some names))
id_src-write_map_example =
    id_src-write_map no_files name (codes "ring-failures.ntf") (codes "ring") names
      (some (codes "b") ∷ []) names-IsName name_plain cut_plain failures_name cut_name

-- A file whose lines have a begin and an end.
abbrev timed_text : Text
timed_text = codes "a b 3 2 0 9\nb a 4 2 0 9\n"

ntf_parser-timed :
    ntf_parser whole_floats decimal_ℤ ok no_files (λ graph. 1) name timed_text
    ≡ raise (system_exit 1)
unfolding ntf_parser read_topology read_lines read_link read_entry pad int_field float_field split
    int ◌*ℤ◌ is_skipped add_link append_new extend extend_reversed set_last lookup insert contains
    is_failures occurs_in id_src write_map map_file traverse new_line join decimal_ℤ decimal zeros
    replicate write_pairs write_links write_link set_link set_cell set_at strike_line remove
    index_of wrapper_line direction_line field_text check_output
ntf_parser-timed = refl

timed_line : In (codes "a b 3 2 0 9") (kept_lines (split 10 timed_text))
unfolding split is_skipped
timed_line = inl refl

six_parts : n_parts (codes "a b 3 2 0 9") ≡ 6
unfolding split
six_parts = refl

ntf_parser_rejects_example :
    ntf_parser whole_floats decimal_ℤ ok no_files (λ graph. 1) name timed_text
    ≢ ok (map_written, written)
ntf_parser_rejects_example =
    ntf_parser_rejects whole_floats decimal_ℤ decimal_ℤ-Lacks ok no_files (λ graph. 1) name
      timed_text (codes "a b 3 2 0 9") name_plain timed_line (λ e. omega (arith, six_parts, e))
      (map_written, written)

abbrev lines : List Text
lines = codes "a b 3 2" ∷ codes "b a 4 2" ∷ codes "a b 5 1" ∷ []

renewed : traverse (new_line whole_floats decimal_ℤ) (kept_lines (split 10 text)) ≡ ok lines
unfolding traverse new_line split is_skipped int join decimal_ℤ decimal
renewed = refl

ntf_parser_cases_example :
    (m : Option (Text × Text)) × (o : Output) × (write_pairs whole_floats decimal_ℤ false nodes
        (record { printed = []; mygraph = zeros 2; lines = lines; fail = 0 })
        topology.links
      ≡ ok o)
    × (((ntf_parser whole_floats decimal_ℤ ok no_files (λ graph. 1) name text ≡ ok (m, o))
          × Within lines (pair_lines whole_floats decimal_ℤ topology.links)
          × (◌≡◌ {A = ℕ} 1 1))
        ⊎ ((ntf_parser whole_floats decimal_ℤ ok no_files (λ graph. 1) name text
              ≡ raise (system_exit 1))
            × (¬ (
                Within lines (pair_lines whole_floats decimal_ℤ topology.links)
                × (◌≡◌ {A = ℕ} 1 1)))))
ntf_parser_cases_example =
    ntf_parser_cases whole_floats decimal_ℤ ok no_files (λ graph. 1) name text topology lines
      name_plain read_topology-text renewed
