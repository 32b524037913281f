-- ===== src/Explore.antt =====
-- fib_parser.py, `explore`: the depth-first search for every route that the forwarding tables of one
-- snapshot give from a router to another.
mod Walk
mod Adds
mod Follow
mod Reports
pub mod Found
pub mod Returns
use ns3_sim.Prelude.{
  ℕ, zero, suc, ◌+◌, Bool, true, false, Option, none, some, List, [], ◌∷◌, ◌++◌, ◌==◌,
  if◌then◌else◌, length, contains, option_eq,
}
use ns3_sim.Prelude.Int.{ℤ}
use ns3_sim.Python.Outcome.{Outcome, ok, raise, key_error, out_of_fuel, or_raise, ◌>>=◌, ◌>>◌}
use ns3_sim.Python.Dict.{lookup}
use ns3_sim.Python.Text.{Text, text_eq}
use ns3_sim.Fib.{Nexthops, Routes, Fib, Snapshot, Reverse}
use ns3_sim.Address.{ip_into_rid, parse_route}

-- What the search appends to `collect`: a list for a route, a text for a missing route, a tuple for a
-- loop. The text is kept as the values that are formatted into it.
pub data Item : Type 0 where
  route : List ℤ → Item
  not_found : ℤ → ℤ → Routes → Item
  looped : ℤ → List ℤ → Item

-- `fibs[src]['routes'][dst]`, with `none` for a `KeyError` of either subscript.
unfoldable pub forwarding : Snapshot → Text → Text → Option Nexthops
forwarding fibs src dst = elim (lookup src fibs) [
  | none ↦ none
  | some fib ↦ lookup (some dst) fib.routes
]

-- The handler of that `KeyError`; it reads `fibs[src]` again.
unfoldable pub report_missing : Snapshot → Text → Text → List Item → Outcome (List Item)
report_missing fibs src dst collect = do
  d ← ip_into_rid dst
  s ← ip_into_rid src
  fib ← or_raise key_error (lookup src fibs)
  ok (collect ++ not_found d s fib.routes ∷ [])

module _ (reverse : Reverse) (here : List Text)
    (enter : Text → List Item → Outcome (List Item)) where
  -- One round of the loop over the nexthops; `enter` is the recursive call.
  unfoldable pub follow : Text → Bool → List Item → Outcome (List Item)
  follow candidate false collect = ok collect
  follow candidate true collect = elim (lookup candidate reverse) [
    | none ↦ ok collect
    | some nexthop ↦
        if contains here nexthop
        then (do n ← ip_into_rid nexthop; r ← parse_route here; ok (collect ++ looped n r ∷ []))
        else enter nexthop collect
  ]

  unfoldable pub follow_all : Nexthops → List Item → Outcome (List Item)
  follow_all [] collect = ok collect
  follow_all ((candidate, status) ∷ rest) collect = do
    collect' ← follow candidate status collect
    follow_all rest collect'

module _ (fibs : Snapshot) (reverse : Reverse) (dst : Text) where
  -- The inner function `loop`, with the depth of the recursion that is left.
  unfoldable pub loop : ℕ → Text → List Text → List Item → Outcome (List Item)
  loop zero src route_so_far collect = raise out_of_fuel
  loop (suc fuel) src route_so_far collect =
      let here = route_so_far ++ src ∷ [] in
      let enter = λ (nexthop : Text) (c : List Item). loop fuel nexthop here c in
      if src == dst
      then (do r ← parse_route here; ok (collect ++ route r ∷ []))
      else (elim (forwarding fibs src dst) [
        | none ↦ report_missing fibs src dst collect
        | some nexthops ↦ follow_all reverse here enter nexthops collect
      ])

-- The first router is on the route once, and any other is a value of `reverse`. The last line of the
-- function prints both numbers.
unfoldable pub explore : Text → Text → Snapshot → Reverse → Outcome (List Item)
explore src dst fibs reverse = do
  collect ← loop fibs reverse dst (length reverse + 1) src [] []
  ip_into_rid src
  ip_into_rid dst
  ok collect
