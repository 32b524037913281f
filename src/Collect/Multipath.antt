-- ===== src/Collect/Multipath.antt =====
-- The rows of a route with several nexthops.

use ns3_sim.Prelude.{
  ◌≡◌, ◌≢◌, ◌↔◌, refl, ap, ◌∙◌, inl, inr, Bool, true, false, Option, none, some, List, [], ◌∷◌,
  ◌++◌, append_assoc, append-nil, ◌==◌, map, arith, option_eq, Bool-cases,
}
use ns3_sim.Python.Outcome.{ok}
use ns3_sim.Python.Dict.{lookup, insert, lookup-insert}
use ns3_sim.Python.Text.{Text, codes, text_eq}
use ns3_sim.Fib.{Nexthops, Routes}
use ns3_sim.Collect.{Dump, append_route, read_nexthop, read_parts, read_row, read_rows}

-- The row of a nexthop: an interface that is down ends in two more words.
abbrev pub nexthop_row : Text → Text × Bool → List Text
nexthop_row device (via, true) =
    codes "\tnexthop" ∷ codes "via" ∷ via ∷ codes "dev" ∷ device ∷ codes "weight" ∷ codes "1" ∷ []
nexthop_row device (via, false) =
    codes "\tnexthop"
    ∷ codes "via"
    ∷ via
    ∷ codes "dev"
    ∷ device
    ∷ codes "weight"
    ∷ codes "1"
    ∷ codes "dead"
    ∷ codes "linkdown"
    ∷ []

-- The row in front of the nexthops.
abbrev pub route_row : Text → List Text
route_row dst = dst ∷ codes "proto" ∷ codes "bird" ∷ codes "metric" ∷ codes "32" ∷ []

key_iff : (k j : Option Text) → ((k == j) ≡ true) ↔ (k ≡ j)
key_iff = (option_eq ⦃e = text_eq⦄).beq_iff

insert_twice :
    (k : Option Text) (v w : Nexthops) (d : Routes) → insert k v (insert k w d) ≡ insert k v d
unfolding insert
insert_twice k v w [] = ground (arith, key_iff k k)
insert_twice k v w ((j, u) ∷ d) = ground (arith, key_iff k j, insert_twice k v w d)

append_route-insert :
    (k : Option Text) (hop : Text × Bool) (hops : Nexthops) (routes : Routes)
    → append_route k hop (insert k hops routes) ≡ insert k (hops ++ hop ∷ []) routes
unfolding append_route
append_route-insert k hop hops routes =
    let there : lookup k (insert k hops routes) ≡ some hops =
      lookup-insert k k hops routes ∙ rw ((key_iff k k).1 refl) refl in
    rw (append_route, there) (insert_twice k (hops ++ hop ∷ []) hops routes)

module _ (device : Text) (other : device ≢ codes "kernel") where
  not_kernel : (device == codes "kernel") ≡ false
  not_kernel = elim (Bool-cases (device == codes "kernel")) [
    | inl same ↦ absurd (other ((text_eq.beq_iff device (codes "kernel")).0 same))
    | inr n ↦ n
  ]

  -- A nexthop's row adds the nexthop to the current route.
  read_row-nexthop_row :
      (d : Dump) (hop : Text × Bool)
      → read_row d (nexthop_row device hop)
        ≡ ok (record d { routes = append_route d.current hop d.routes })
  unfolding read_row read_parts read_nexthop
  read_row-nexthop_row d (via, true) = rw not_kernel refl
  read_row-nexthop_row d (via, false) = rw not_kernel refl

  read_rows-more :
      (d : Dump) (dst : Text) (routes : Routes) (hops more : Nexthops)
      → d.current ≡ some dst
      → d.routes ≡ insert (some dst) hops routes
      → read_rows d (map (nexthop_row device) more)
        ≡ ok (record d { routes = insert (some dst) (hops ++ more) routes })
  unfolding read_rows append_route
  read_rows-more d dst routes hops [] hc hr =
      rw append-nil (ap (λ r. ok (record d { routes = r })) hr)
  read_rows-more d dst routes hops (hop ∷ more) hc hr =
      let step : append_route d.current hop d.routes ≡ insert (some dst) (hops ++ hop ∷ []) routes =
        rw (hc, hr) (append_route-insert (some dst) hop hops routes) in
      let rest =
        read_rows-more (record d { routes = append_route d.current hop d.routes }) dst routes
          (hops ++ hop ∷ []) more hc step in
      rw (read_row-nexthop_row d hop) (rest ∙ rw (append_assoc hops (hop ∷ []) more) refl)

  -- The row of a destination that has no route yet, followed by the rows of its nexthops, one or more,
  -- adds one route: the nexthops in their order, each with whether its link is up.
  pub read_rows-multipath :
      (d : Dump) (dst : Text) (hop : Text × Bool) (more : Nexthops)
      → lookup (some dst) d.routes ≡ none
      → read_rows d (route_row dst ∷ map (nexthop_row device) (hop ∷ more))
        ≡ ok (record d { routes = insert (some dst) (hop ∷ more) d.routes; current = some dst })
  unfolding read_rows read_row read_parts append_route
  read_rows-multipath d dst hop more new =
      let d' : Dump = record d { current = some dst } in
      let step : append_route (some dst) hop d.routes ≡ insert (some dst) (hop ∷ []) d.routes =
        rw (append_route, new) refl in
      let rest =
        read_rows-more (record d' { routes = append_route (some dst) hop d.routes }) dst d.routes
          (hop ∷ []) more refl step in
      rw (read_row-nexthop_row d' hop) rest
