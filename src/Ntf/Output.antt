-- ===== src/Ntf/Output.antt =====
-- myscripts/bird/ntf_parser.py, from the numbers of the nodes on: what is printed for the simulator, the
-- matrix of the metrics, and the check that the links give the lines of the file back.
use ns3_sim.Prelude.{
  ℕ, zero, suc, ◌+◌, Bool, Option, none, some, List, [], ◌∷◌, ◌++◌, ◌==◌, nat_eq, option_eq,
  if◌then◌else◌, length, ltb, map,
}
use ns3_sim.Prelude.Int.{ℤ, pos}
use ns3_sim.Python.Outcome.{
  Outcome, ok, raise, index_error, value_error, system_exit, index, last, or_raise, traverse, ◌>>=◌,
}
use ns3_sim.Python.Sequence.{remove, index_of}
use ns3_sim.Python.Dict.{Dict}
use ns3_sim.Python.Text.{Text, text_eq, codes, split, join, occurs_in}
use ns3_sim.Python.Number.{decimal, decimal_ℤ}
use ns3_sim.Python.Float.{Floats}
use ns3_sim.TopologyFile.{kept_lines, new_line}
use ns3_sim.Ntf.{Field, Key, Link, read_topology}

-- `%s` of a node.
unfoldable pub field_text : Field → Text
field_text none = codes "-1"
field_text (some s) = s

-- The text of the map file, from number `idx`.
unfoldable pub map_file : ℕ → List Field → Text
map_file idx [] = []
map_file idx (node ∷ nodes) = decimal idx ++ 32 ∷ field_text node ++ 10 ∷ map_file (idx + 1) nodes

-- `mapping`, from the text of a map file.
unfoldable pub mapping : Text → Outcome (List Text)
mapping raw_mapping = traverse (λ line. last (split 32 line)) (split 10 raw_mapping)

unfoldable pub is_failures : Text → Bool
is_failures filename = occurs_in (codes "failures") filename

-- `id_src`. `files` gives the text of a file of the working directory, `none` for one that is missing.
unfoldable pub id_src : (Text → Option Text) → Text → List Field → Outcome (List Field)
id_src files filename nodes =
    let loaded = (do
      name ← index (split b'-' filename) 0
      raw_mapping ← or_raise (system_exit 1) (files (name ++ codes ".map"))
      names ← mapping raw_mapping
      ok (if ltb 0 (length names) then map some names else nodes)) in
    if is_failures filename then loaded else ok nodes

-- The path and the text of the map file that is written, `none` for a file of failures.
unfoldable pub write_map : Text → List Field → Outcome (Option (Text × Text))
write_map filename nodes =
    let written = (do
      name ← index (split b'.' filename) 0
      ok (some (name ++ codes ".map", map_file 0 nodes))) in
    if is_failures filename then ok none else written

-- `mygraph`, with the integers that are stored in it.
abbrev pub Graph : Type 0
Graph = List (List ℤ)

unfoldable pub replicate {ℓ} : {A : Type ℓ} → ℕ → A → List A
replicate zero a = []
replicate (suc n) a = a ∷ replicate n a

unfoldable pub zeros : ℕ → Graph
unfolding replicate
zeros n = replicate n (replicate n (pos 0))

-- `xs[i] = a`, or `none` for an `IndexError`.
unfoldable pub set_at {ℓ} : {A : Type ℓ} → ℕ → A → List A → Option (List A)
set_at i a [] = none
set_at zero a (x ∷ xs) = some (a ∷ xs)
set_at (suc i) a (x ∷ xs) = elim (set_at i a xs) [ none ↦ none | some ys ↦ some (x ∷ ys) ]

unfoldable pub set_cell : ℕ → ℕ → ℤ → Graph → Outcome Graph
unfolding set_at
set_cell i j metric graph = do
  row ← index graph i
  row' ← or_raise index_error (set_at j metric row)
  or_raise index_error (set_at i row' graph)

unfoldable pub set_link : ℕ → ℕ → Link → Graph → Outcome Graph
set_link i j link graph = do
  graph' ← set_cell i j link.f_metric graph
  set_cell j i link.r_metric graph'

-- The lines that were printed, and the variables of the loop; `lines` is `data` of the code.
pub record Output : Type 0 where
  pub printed : List Text
  pub mygraph : Graph
  pub lines : List Text
  pub fail : ℕ

unfoldable pub strike_line : Output → Text → Output
strike_line o i = elim (remove i o.lines) [
  | none ↦ record o { fail = o.fail + 1 }
  | some rest ↦ record o { lines = rest }
]

-- What is left over is an exit, and so is a graph of other than one component.
unfoldable pub check_output : Bool → (Graph → ℕ) → Output → Outcome Output
check_output failures components o =
    let checked =
      if ltb 0 (length o.lines)
      then raise (system_exit 1)
      else if components o.mygraph == 1
      then ok o
      else raise (system_exit 1) in
    if failures then ok o else checked

-- The line for the simulator.
unfoldable pub wrapper_line : ℕ → ℕ → Link → Text
wrapper_line i j link = join (codes " ") (
    decimal i
    ∷ decimal j
    ∷ decimal_ℤ link.f_metric
    ∷ decimal_ℤ link.r_metric
    ∷ decimal_ℤ link.delay
    ∷ decimal_ℤ link.begin
    ∷ decimal_ℤ link.end
    ∷ [])

-- `format6` is `%.6f` and `%f`.
module _ (floats : Floats) (format6 : floats.Float → Text) where
  open floats use {of_int, div}

  -- A line of the topology file, from a link.
  unfoldable pub direction_line : Field → Field → ℤ → ℤ → Text
  direction_line src dst metric delay = join (codes " ") (
      field_text src
      ∷ field_text dst
      ∷ decimal_ℤ metric
      ∷ format6 (div (of_int delay) (of_int (pos 1000000)))
      ∷ [])

  -- One round of the loop over `l`; the flag says that the file is one of failures.
  unfoldable pub write_link : Bool → ℕ → ℕ → Key → Output → Link → Outcome Output
  write_link failures i j (src, dst) o link = do
    mygraph ← if failures then ok o.mygraph else set_link i j link o.mygraph
    let o' : Output = record o {
      printed = o.printed ++ wrapper_line i j link ∷ [];
      mygraph = mygraph;
    }
    ok (
        strike_line (strike_line o' (direction_line src dst link.f_metric link.delay))
          (direction_line dst src link.r_metric link.delay))

  unfoldable pub write_links : Bool → ℕ → ℕ → Key → Output → List Link → Outcome Output
  write_links failures i j key o [] = ok o
  write_links failures i j key o (link ∷ l) = do
    o' ← write_link failures i j key o link
    write_links failures i j key o' l

  -- The loop over `links`.
  unfoldable pub write_pairs : Bool → List Field → Output → Dict Key (List Link) → Outcome Output
  write_pairs failures ids o [] = ok o
  write_pairs failures ids o ((key, l) ∷ links) = do
    i ← or_raise value_error (index_of key.0 ids)
    j ← or_raise value_error (index_of key.1 ids)
    o' ← write_links failures i j key o l
    write_pairs failures ids o' links

  -- The script as a whole. `components` is the count of `connected_components`.
  unfoldable pub ntf_parser :
      (floats.Float → Outcome ℤ)
      → (Text → Option Text)
      → (Graph → ℕ)
      → Text
      → Text
      → Outcome (Option (Text × Text) × Output)
  ntf_parser round files components filename text = do
    t ← read_topology floats round text
    ids ← id_src files filename t.nodes
    map_written ← write_map filename t.nodes
    lines ← traverse (new_line floats format6) (kept_lines (split 10 text))
    let start : Output = record {
      printed = [];
      mygraph = zeros (length t.nodes);
      lines = lines;
      fail = 0;
    }
    o ← write_pairs (is_failures filename) ids start t.links
    o' ← check_output (is_failures filename) components o
    ok (map_written, o')
