-- ===== src/Tests/Spf.antt =====
-- Spf.antt at concrete inputs.
use ns3_sim.Prelude.{
  ◌≡◌, ◌↔◌, refl, Option, some, none, List, [], ◌∷◌, length, get_elem?, In, arith, contains,
}
use ns3_sim.Prelude.Int.{pos}
use ns3_sim.Python.Outcome.{ok, raise, key_error, traverse}
use ns3_sim.Python.Dict.{lookup, insert}
use ns3_sim.Python.Nested.{insert_in}
use ns3_sim.Python.Sequence.{append_new}
use ns3_sim.Python.Text.{Text, codes, split, join, drop_last}
use ns3_sim.Python.Number.{int, decimal}
use ns3_sim.Address.{address, gen_addresses}
use ns3_sim.TopologyFile.{is_comment}
use ns3_sim.Spf.{
  Entry, Matrix, unpack_line, read_entry_line, set_metric, add_entry, add_lines, read_inputs,
  graph_row, graph, disconnect, leaf_row, leaf_rows, leaves, print_leaves, spfs,
}
use ns3_sim.Spf.Metrics.{sources, names}
use ns3_sim.Spf.Graph.{Nodes, matrix_of, disconnect-matrix_of, disconnect_returns_iff}
use ns3_sim.Spf.Leaves.{PingsOthers, leaves-PingsOthers}

-- The second line for a pair takes the place of the first one.
abbrev file : Text
file = codes "#comment\na b 3 1\nb a 4 1\na b 5 1\nb c 1 1\nc b 1 1\n"

abbrev entries : List (Option Entry)
entries =
    none
    ∷ some (record { src = codes "a"; dst = codes "b"; metric = pos 3 })
    ∷ some (record { src = codes "b"; dst = codes "a"; metric = pos 4 })
    ∷ some (record { src = codes "a"; dst = codes "b"; metric = pos 5 })
    ∷ some (record { src = codes "b"; dst = codes "c"; metric = pos 1 })
    ∷ some (record { src = codes "c"; dst = codes "b"; metric = pos 1 })
    ∷ []

abbrev matrix : Matrix
matrix =
    (none ∷ some (pos 5) ∷ none ∷ [])
    ∷ (some (pos 4) ∷ none ∷ some (pos 1) ∷ [])
    ∷ (none ∷ some (pos 1) ∷ none ∷ [])
    ∷ []

disconnect-file : disconnect file ≡ ok matrix
unfolding disconnect read_inputs add_lines read_entry_line unpack_line is_comment split int
    add_entry set_metric insert_in append_new contains lookup insert graph graph_row traverse
disconnect-file = refl

read_entry_line-file : traverse read_entry_line (drop_last (split 10 file)) ≡ ok entries
unfolding traverse read_entry_line unpack_line is_comment split int
read_entry_line-file = refl

disconnect-matrix_of_example :
    (es : List (Option Entry)) × (nodes : List Text) × (traverse read_entry_line
        (drop_last (split 10 file))
      ≡ ok es)
    × Nodes es nodes
    × (matrix ≡ matrix_of es nodes)
disconnect-matrix_of_example = disconnect-matrix_of file matrix disconnect-file

disconnect_returns_iff_example :
    ((g : Matrix) × (disconnect file ≡ ok g))
    ↔ ((x : Text) → In x (names entries) → In x (sources entries))
disconnect_returns_iff_example = disconnect_returns_iff file entries read_entry_line-file

-- The name `c` has no line of its own.
disconnect_one_way : disconnect (codes "a c 3 1\n") ≡ raise key_error
unfolding disconnect read_inputs add_lines read_entry_line unpack_line is_comment split int
    add_entry set_metric insert_in append_new contains lookup insert graph graph_row traverse
disconnect_one_way = refl

spfs-file :
    spfs (λ g. ok tt) file ≡ ok (codes "10.1.0.2,10.1.0.3\n10.1.0.1,10.1.0.3\n10.1.0.1,10.1.0.2\n")
unfolding spfs read_inputs add_lines read_entry_line unpack_line is_comment split int add_entry
    set_metric insert_in append_new contains lookup insert graph graph_row traverse leaves leaf_rows
    leaf_row print_leaves join gen_addresses address decimal
spfs-file = refl

leaves-PingsOthers_example :
    (rows : List (List Text)) × (leaves 300 ≡ ok rows)
    × (length rows ≡ 300)
    × ((row : List Text) × (get_elem? rows 260 ≡ some row) × PingsOthers 300 260 row)
leaves-PingsOthers_example = leaves-PingsOthers 300 260 (omega arith)
