-- ===== src/Fib.antt =====
-- fib_parser.py, the comment at its head: the forwarding tables that are read from the dumps of
-- `ip route`, and the map from the address of a link's end to the router that owns it.
use ns3_sim.Prelude.{Bool, Option, List}
use ns3_sim.Python.Dict.{Dict}
use ns3_sim.Python.Text.{Text}

-- The nexthops of one route: the address behind `via`, and whether the link is up.
abbrev pub Nexthops : Type 0
Nexthops = List (Text × Bool)

-- A `nexthop` line that no route's line precedes is stored under the key `None`.
abbrev pub Routes : Type 0
Routes = Dict (Option Text) Nexthops

pub record Fib : Type 0 where
  pub neighs : Dict Text Text
  pub routes : Routes

-- `fibs[timestamp]`: the table of each router.
abbrev pub Snapshot : Type 0
Snapshot = Dict Text Fib

abbrev pub Reverse : Type 0
Reverse = Dict Text Text
