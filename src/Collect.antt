-- ===== src/Collect.antt =====
-- fib_parser.py, `collect_fibs`: the forwarding tables read from the dumps of `ip route`.
pub mod Multipath
pub mod Stale
pub mod Known
pub mod Printed
pub mod RoundTrip
use ns3_sim.Prelude.{
  option_eq, ◌≡◌, Bool, true, false, ◌&&◌, Option, none, some, List, [], ◌∷◌, ◌++◌, ◌==◌, Eq,
  if◌then◌else◌, not, map,
}
use ns3_sim.Prelude.Int.{ℤ, pos, leb_ℤ, int_eq}
use ns3_sim.Python.Outcome.{
  Outcome, ok, raise, index, last, before_last, or_raise, value_error, unbound_local,
  file_not_found, ◌>>=◌, traverse,
}
use ns3_sim.Python.Dict.{Dict, lookup, insert}
use ns3_sim.Python.Text.{Text, codes, text_eq, split, non_empty, occurs_in, drop_last}
use ns3_sim.Python.Number.{int, is_digit}
use ns3_sim.Python.Float.{Floats}
use ns3_sim.Fib.{Nexthops, Routes, Fib, Snapshot, Reverse}

-- What the loop over the rows changes. `node_id` is a variable of the function, and may be unbound.
pub record Dump : Type 0 where
  pub neighs : Dict Text Text
  pub routes : Routes
  pub current : Option Text
  pub node_id : Option Text

-- `routes[current].append(fib_entry)`, or a new list for a missing key.
unfoldable pub append_route : Option Text → Text × Bool → Routes → Routes
append_route current hop routes = elim (lookup current routes) [
  | none ↦ insert current (hop ∷ []) routes
  | some hops ↦ insert current (hops ++ hop ∷ []) routes
]

-- The cases for a row that starts with `first`, `second` and `third` and has a fifth part.
unfoldable pub read_kernel : Dump → List Text → Outcome Dump
read_kernel d row = do
  first ← index row 0
  device ← last row
  ok (record d { neighs = insert first device d.neighs; current = none })

unfoldable pub read_nexthop : Dump → List Text → Outcome Dump
read_nexthop d row = do
  via ← index row 2
  end ← last row
  before_end ← before_last row
  let up = not (end == codes "linkdown" && before_end == codes "dead")
  ok (record d { routes = append_route d.current (via, up) d.routes })

-- The tests of a row, in their order; the last row is unexpected, and only printed.
unfoldable pub read_parts : Dump → List Text → Text → Text → Text → Text → Outcome Dump
read_parts d row first second third fifth =
    if fifth == codes "kernel"
    then read_kernel d row
    else if second == codes "dev" && third == codes "lo"
    then ok (record d { node_id = some first; current = none })
    else if second == codes "via" && not (first == codes "\tnexthop")
    then ok
        (record d { routes = insert (some first) ((third, true) ∷ []) d.routes; current = none })
    else if second == codes "via" && first == codes "\tnexthop"
    then read_nexthop d row
    else if second == codes "proto" && third == codes "bird"
    then ok (record d { current = some first })
    else ok d

unfoldable pub read_row : Dump → List Text → Outcome Dump
read_row d row = do
  fifth ← index row 4
  first ← index row 0
  second ← index row 1
  third ← index row 2
  read_parts d row first second third fifth

unfoldable pub read_rows : Dump → List (List Text) → Outcome Dump
read_rows d [] = ok d
read_rows d (row ∷ rows) = do d' ← read_row d row; read_rows d' rows

-- The parts of a text that are not empty, row by row.
unfoldable pub rows_of : Text → List (List Text)
rows_of text = map (λ line. non_empty (split 32 line)) (non_empty (split 10 text))

unfoldable pub only_digits : Text → Bool
only_digits [] = true
only_digits (c ∷ s) = is_digit c && only_digits s

-- `entry.isdigit()`.
unfoldable pub isdigit : Text → Bool
isdigit [] = false
isdigit (c ∷ s) = only_digits (c ∷ s)

-- `s[1:-3]`.
unfoldable pub inner : Text → Text
inner [] = []
inner (c ∷ s) = drop_last (drop_last (drop_last s))

-- An entry of the directory with its three files, `none` where one is missing.
pub record Process : Type 0 where
  pub name : Text
  pub cmdline : Option Text
  pub status : Option Text
  pub stdout : Option Text

unfoldable pub add_neighs : Dict Text Text → Text → Reverse → Reverse
add_neighs [] node reverse = reverse
add_neighs ((a, b) ∷ neighs) node reverse = add_neighs neighs node (insert b node reverse)

module _ (floats : Floats) where
  open floats use {Float, float_eq, parse, of_int, div}

  pub record Collected : Type 0 where
    pub fibs : Dict Float Snapshot
    pub reverse : Reverse
    pub node_id : Option Text

  -- `fibs[timestamp][node_id] = fib`, or a new snapshot for a missing time.
  unfoldable pub store : Float → Text → Fib → Dict Float Snapshot → Dict Float Snapshot
  store timestamp node fib fibs = elim (lookup ⦃e = float_eq⦄ timestamp fibs) [
    | none ↦ insert ⦃e = float_eq⦄ timestamp ((node, fib) ∷ []) fibs
    | some snapshot ↦ insert ⦃e = float_eq⦄ timestamp (insert node fib snapshot) fibs
  ]

  -- The rest of a round behind the time of the dump.
  unfoldable pub collect_dump : Collected → Float → Text → Outcome Collected
  collect_dump c timestamp stdout = do
    let start : Dump = record { neighs = []; routes = []; current = none; node_id = c.node_id }
    d ← read_rows start (rows_of stdout)
    node ← or_raise unbound_local d.node_id
    ok (record {
      fibs = store timestamp node (record { neighs = d.neighs; routes = d.routes }) c.fibs;
      reverse = add_neighs d.neighs node c.reverse;
      node_id = d.node_id;
    })

  -- From the reading of `status` on.
  unfoldable pub collect_status : Collected → Process → Outcome Collected
  collect_status c p = do
    content ← or_raise file_not_found p.status
    first_line ← index (split 10 content) 0
    let a = non_empty (split 32 first_line)
    start ← index a 4
    seconds ← int (drop_last start)
    if not (leb_ℤ (pos 60) seconds) then ok c else (do
      time ← index a 6
      t ← or_raise value_error (parse (inner time))
      stdout ← or_raise file_not_found p.stdout
      collect_dump c (div t (of_int (pos 1000000))) stdout)

  unfoldable pub collect_process : Collected → Process → Outcome Collected
  collect_process c p =
      if isdigit p.name
      then (do
        command ← or_raise file_not_found p.cmdline
        if occurs_in (codes "ip r") command then collect_status c p else ok c)
      else ok c

  -- The loop over the directory, from the tables that the caller passes.
  unfoldable pub collect_all : Collected → List Process → Outcome Collected
  collect_all c [] = ok c
  collect_all c (p ∷ processes) = do c' ← collect_process c p; collect_all c' processes

  unfoldable pub collect_fibs :
      List Process → Dict Float Snapshot → Reverse → Outcome (Dict Float Snapshot × Reverse)
  collect_fibs processes fibs reverse = do
    c ← collect_all (record { fibs = fibs; reverse = reverse; node_id = none }) processes
    ok (c.fibs, c.reverse)
