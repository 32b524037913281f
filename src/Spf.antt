-- ===== src/Spf.antt =====
-- myscripts/bird/spfs.py and misc/disconnect.py: the matrix of metrics of a topology, and the addresses
-- that each router pings.
pub mod Metrics
pub mod Graph
pub mod Leaves
use ns3_sim.Prelude.{
  ℕ, zero, suc, ◌+◌, Bool, true, false, Option, none, some, List, [], ◌∷◌, ◌++◌, ◌==◌, nat_eq, Eq,
  if◌then◌else◌, map, length,
}
use ns3_sim.Prelude.Int.{ℤ}
use ns3_sim.Python.Outcome.{
  Outcome, ok, raise, index, value_error, key_error, or_raise, traverse, ◌>>=◌, ◌>>◌,
}
use ns3_sim.Python.Dict.{Dict, lookup, insert}
use ns3_sim.Python.Nested.{insert_in}
use ns3_sim.Python.Sequence.{append_new}
use ns3_sim.Python.Text.{Text, text_eq, codes, split, join, drop_last}
use ns3_sim.Python.Number.{int}
use ns3_sim.Address.{gen_addresses}
use ns3_sim.TopologyFile.{is_comment}

-- A line, but for its delay, which is not used.
pub record Entry : Type 0 where
  pub src : Text
  pub dst : Text
  pub metric : ℤ

-- A line is unpacked into four parts.
unfoldable pub unpack_line : List Text → Outcome Entry
unpack_line (src ∷ dst ∷ metric ∷ delay ∷ []) = do
  m ← int metric
  ok (record { src = src; dst = dst; metric = m })
unpack_line _ = raise value_error

-- `none` is a comment.
unfoldable pub read_entry_line : Text → Outcome (Option Entry)
read_entry_line line = do
  comment ← is_comment line
  let entry = (do e ← unpack_line (split 32 line); ok (some e))
  if comment then ok none else entry

pub record Inputs : Type 0 where
  pub nodes : List Text
  pub links : Dict Text (Dict Text ℤ)

-- `links[src][dst] = metric`, or a new dictionary for a missing source.
unfoldable pub set_metric : Text → Text → ℤ → Dict Text (Dict Text ℤ) → Dict Text (Dict Text ℤ)
set_metric src dst metric links = insert_in src dst metric links

unfoldable pub add_entry : Inputs → Option Entry → Inputs
add_entry t none = t
add_entry t (some e) = record {
  nodes = append_new (append_new t.nodes e.src) e.dst;
  links = set_metric e.src e.dst e.metric t.links;
}

-- The loop over the lines.
unfoldable pub add_lines : Inputs → List Text → Outcome Inputs
add_lines t [] = ok t
add_lines t (line ∷ lines) = do e ← read_entry_line line; add_lines (add_entry t e) lines

unfoldable pub read_inputs : Text → Outcome Inputs
read_inputs text = add_lines (record { nodes = []; links = [] }) (drop_last (split 10 text))

-- The cells of the matrix; `none` is `np.inf`.
abbrev pub Matrix : Type 0
Matrix = List (List (Option ℤ))

-- `links[node]` is a `KeyError` for a node that no line starts with.
unfoldable pub graph_row : Inputs → Text → Outcome (List (Option ℤ))
graph_row t node = do
  row ← or_raise key_error (lookup node t.links)
  ok (map (λ other. lookup other row) t.nodes)

unfoldable pub graph : Inputs → Outcome Matrix
graph t = traverse (graph_row t) t.nodes

-- `[addr[i] for i in range(n) if i != j]`: the rounds from `i` on, `k` of them.
unfoldable pub leaf_row : List Text → ℕ → ℕ → ℕ → Outcome (List Text)
leaf_row addr j i zero = ok []
leaf_row addr j i (suc k) =
    let later = leaf_row addr j (i + 1) k in
    let taken = (do a ← index addr i; rest ← later; ok (a ∷ rest)) in
    if i == j then later else taken

unfoldable pub leaf_rows : List Text → ℕ → ℕ → ℕ → Outcome (List (List Text))
leaf_rows addr n j zero = ok []
leaf_rows addr n j (suc k) = do
  row ← leaf_row addr j 0 n
  rows ← leaf_rows addr n (j + 1) k
  ok (row ∷ rows)

unfoldable pub leaves : ℕ → Outcome (List (List Text))
leaves n = leaf_rows (gen_addresses n) n 0 n

-- The file `udp.ping`.
unfoldable pub print_leaves : List (List Text) → Text
print_leaves [] = []
print_leaves (line ∷ lines) = join (codes ",") line ++ 10 ∷ print_leaves lines

-- disconnect.py, which prints the matrix.
unfoldable pub disconnect : Text → Outcome Matrix
disconnect text = do t ← read_inputs text; graph t

-- The text of `udp.ping`. The shortest paths of scipy are printed and not used.
module _ (dijkstra : Matrix → Outcome (Unit {0})) where
  unfoldable pub spfs : Text → Outcome Text
  spfs text = do
    t ← read_inputs text
    g ← graph t
    dijkstra g
    rows ← leaves (length t.nodes)
    ok (print_leaves rows)
