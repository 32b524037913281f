-- ===== src/Comparison.antt =====
-- myscripts/bird/test.py: whether the links that were generated for the simulator are those of the
-- topology file.
pub mod Agree
pub mod Cache
pub mod Uncached
pub mod Verdict
use ns3_sim.Prelude.{
  ℕ, zero, suc, Bool, true, false, ◌&&◌, Option, none, some, List, [], ◌∷◌, ◌++◌, ◌==◌, nat_eq,
  if◌then◌else◌, length,
}
use ns3_sim.Python.Outcome.{
  Outcome, ok, raise, index, last, value_error, key_error, system_exit, file_not_found, or_raise,
  ◌>>=◌,
}
use ns3_sim.Python.Dict.{Dict, lookup, insert}
use ns3_sim.Python.Nested.{lookup_in, insert_in}
use ns3_sim.Python.Sequence.{remove}
use ns3_sim.Python.Text.{Text, text_eq, codes, split, join, drop_last, non_empty, starts_with}
use ns3_sim.Python.Float.{Floats}
use ns3_sim.TopologyFile.{is_skipped, new_line}

-- `metrics[node_id][iface_id]`: a cost is kept as its text.
abbrev pub Costs : Type 0
Costs = Dict Text (Dict Text Text)

-- The variables of the loop over the lines of a configuration; `last` is `none` for -1.
pub record Parse : Type 0 where
  pub costs : Costs
  pub last : Option Text

-- `sub('\t', '', line)`.
unfoldable pub without_tabs : Text → Text
without_tabs [] = []
without_tabs (c ∷ s) = let rest = without_tabs s in if c == 9 then rest else c ∷ rest

-- `s[4:-1]`.
unfoldable pub iface_part : Text → Text
iface_part (a ∷ b ∷ c ∷ d ∷ s) = drop_last s
iface_part _ = []

-- `line[0] == 'interface' and line[1][:4] == '"sim'`, where `line[1]` is read only if need be.
unfoldable pub is_interface : Text → List Text → Outcome Bool
is_interface first parts =
    let second = (do s ← index parts 1; ok (starts_with s (codes "\"sim"))) in
    if first == codes "interface" then second else ok false

unfoldable pub open_interface : Parse → Text → Outcome Parse
open_interface p iface = elim p.last [
  | none ↦ ok (record p { last = some iface })
  | some before ↦ raise (system_exit 1)
]

unfoldable pub set_cost : Text → Parse → Text → Outcome Parse
set_cost node p cost = elim p.last [
  | none ↦ raise (system_exit 1)
  | some iface ↦ ok (record { costs = insert_in node iface cost p.costs; last = none })
]

unfoldable pub config_parts : Text → Parse → List Text → Outcome Parse
config_parts node p parts = do
  first ← index parts 0
  interface ← is_interface first parts
  if interface
      then (do second ← index parts 1; open_interface p (iface_part second))
      else if first == codes "cost" && length parts == 2
      then (do second ← index parts 1; set_cost node p (drop_last second))
      else ok p

unfoldable pub read_config_line : Text → Parse → Text → Outcome Parse
read_config_line node p [] = ok p
read_config_line node p (c ∷ line) =
    config_parts node p (non_empty (split 32 (without_tabs (c ∷ line))))

unfoldable pub read_config : Text → Parse → List Text → Outcome Parse
read_config node p [] = ok p
read_config node p (line ∷ lines) = do p' ← read_config_line node p line; read_config node p' lines

-- The configuration of each node, `none` where the file is missing.
abbrev pub Configs : Type 0
Configs = Text → Option Text

-- The part of `get_metric` behind the cache.
unfoldable pub load_metric : Configs → Costs → Text → Text → Outcome (Costs × Text)
load_metric files costs node iface = do
  config ← or_raise file_not_found (files node)
  p ← read_config node (record { costs = costs; last = none }) (split 10 config)
  metric ← or_raise key_error (lookup_in node iface p.costs)
  ok (p.costs, metric)

unfoldable pub get_metric : Configs → Costs → Text → Text → Outcome (Costs × Text)
get_metric files costs node iface = elim (lookup_in node iface costs) [
  | none ↦ load_metric files costs node iface
  | some metric ↦ ok (costs, metric)
]

-- A line of the node map is unpacked into two parts.
unfoldable pub unpack_node : List Text → Outcome (Text × Text)
unpack_node (node ∷ name ∷ []) = ok (node, name)
unpack_node _ = raise value_error

unfoldable pub nodemap_from : Dict Text Text → List Text → Outcome (Dict Text Text)
nodemap_from ret [] = ok ret
nodemap_from ret (line ∷ lines) = do
  (node, name) ← unpack_node (split 32 line)
  nodemap_from (insert node name ret) lines

unfoldable pub nodemap : Text → Outcome (Dict Text Text)
nodemap text = nodemap_from [] (drop_last (split 10 text))

-- A generated link: two nodes with their interfaces, and the delay.
pub record Wire : Type 0 where
  pub n1 : Text
  pub i1 : Text
  pub n2 : Text
  pub i2 : Text
  pub delay : Text

unfoldable pub unpack_wire : List Text → Outcome Wire
unpack_wire (n1 ∷ i1 ∷ n2 ∷ i2 ∷ delay ∷ []) =
    ok (record { n1 = n1; i1 = i1; n2 = n2; i2 = i2; delay = delay })
unpack_wire _ = raise value_error

-- `msg`.
unfoldable pub link_line : Configs → Dict Text Text → Costs → Text → Outcome (Costs × Text)
link_line files nodes costs line = do
  w ← unpack_wire (split b',' line)
  first ← or_raise key_error (lookup w.n1 nodes)
  second ← or_raise key_error (lookup w.n2 nodes)
  (costs', metric) ← get_metric files costs w.n1 w.i1
  ok (costs', join (codes " ") (first ∷ second ∷ metric ∷ w.delay ∷ []))

-- `generated_topo`.
unfoldable pub generated : Configs → Dict Text Text → Costs → List Text → Outcome (List Text)
generated files nodes costs [] = ok []
generated files nodes costs (line ∷ lines) = do
  (costs', msg) ← link_line files nodes costs line
  rest ← generated files nodes costs' lines
  ok (msg ∷ rest)

-- `format6` is `format(x, '.6f')`.
module _ (floats : Floats) (format6 : floats.Float → Text) where
  -- The loop over the lines of the topology file.
  unfoldable pub strike : List Text → List Text → Outcome (List Text)
  strike topo [] = ok topo
  strike topo (line ∷ lines) =
      let skipped = strike topo lines in
      let struck = (do
        new ← new_line floats format6 line
        topo' ← or_raise (system_exit 1) (remove new topo)
        strike topo' lines) in
      if is_skipped line then skipped else struck

  -- The comparison, on the lines of the topology file.
  unfoldable pub compare_topo : List Text → List Text → Outcome (Unit {0})
  compare_topo topo lines = do
    rest ← strike topo lines
    elim rest [ [] ↦ ok tt | line ∷ more ↦ raise (system_exit 1) ]

  unfoldable pub check_topology : Configs → Text → Text → Text → Outcome (Unit {0})
  check_topology files raw nodes_text ntf = do
    nodes ← nodemap nodes_text
    topo ← generated files nodes [] (drop_last (split 10 raw))
    compare_topo topo (split 10 ntf)
