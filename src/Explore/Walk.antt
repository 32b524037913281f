-- ===== src/Explore/Walk.antt =====
-- The routes of a snapshot, with no search: a hop goes to a router that some nexthop of the table
-- leads to, and a walk passes no router twice and stops at the destination.
use ns3_sim.Prelude.{true, ◌≡◌, ◌≢◌, ◌⊎◌, none, some, List, [], ◌∷◌, ◌++◌, In}
use ns3_sim.Prelude.Int.{ℤ}
use ns3_sim.Python.Outcome.{ok}
use ns3_sim.Python.Dict.{lookup}
use ns3_sim.Python.Text.{Text, text_eq}
use ns3_sim.Fib.{Nexthops, Fib, Snapshot, Reverse}
use ns3_sim.Address.{ip_into_rid, parse_route}
use ns3_sim.Explore.{Item, route, not_found, looped, forwarding}

module _ (fibs : Snapshot) (reverse : Reverse) (dst : Text) where
  -- A nexthop that is up leads from `u` to `v`.
  pub record Hop (u v : Text) : Type 0 where
    pub nexthops : Nexthops
    pub table : forwarding fibs u dst ≡ some nexthops
    pub via : Text
    pub listed : In (via, true) nexthops
    pub owner : lookup via reverse ≡ some v

  -- A packet that has passed `before` stands at `u`.
  pub data Walk (src : Text) : List Text → Text → Type 0 where
    start : Walk src [] src
    hop :
        {before here : List Text} {u v : Text}
        → Walk src before u
        → u ≢ dst
        → here ≡ before ++ u ∷ []
        → Hop u v
        → ¬ In v here
        → Walk src here v

  -- There `u` is the destination, and the item is its route.
  pub record Arrives (before : List Text) (u : Text) (item : Item) : Type 0 where
    pub at_dst : u ≡ dst
    pub numbers : List ℤ
    pub read : parse_route (before ++ u ∷ []) ≡ ok numbers
    pub is_route : item ≡ route numbers

  -- There the table of `u` has no route to the destination.
  pub record Misses (u : Text) (item : Item) : Type 0 where
    pub not_dst : u ≢ dst
    pub no_route : forwarding fibs u dst ≡ none
    pub dst_number : ℤ
    pub u_number : ℤ
    pub fib : Fib
    pub read_dst : ip_into_rid dst ≡ ok dst_number
    pub read_u : ip_into_rid u ≡ ok u_number
    pub table : lookup u fibs ≡ some fib
    pub is_missing : item ≡ not_found dst_number u_number fib.routes

  -- There a hop leads back to a router that the packet has passed.
  pub record Cycles (before : List Text) (u : Text) (item : Item) : Type 0 where
    pub not_dst : u ≢ dst
    pub back : Text
    pub hop_back : Hop u back
    pub passed : In back (before ++ u ∷ [])
    pub number : ℤ
    pub numbers : List ℤ
    pub read_back : ip_into_rid back ≡ ok number
    pub read_here : parse_route (before ++ u ∷ []) ≡ ok numbers
    pub is_loop : item ≡ looped number numbers

  abbrev pub Ends : List Text → Text → Item → Type 0
  Ends before u item = Arrives before u item ⊎ Misses u item ⊎ Cycles before u item
