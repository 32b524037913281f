-- ===== src/Explore/Returns.antt =====
-- The search ends: a route never visits a router twice, so the depth that `explore` gives it is never
-- used up.
use ns3_sim.Prelude.{
  ℕ, zero, suc, ◌+◌, ◌≤◌, ◌<◌, Bool, true, false, ◌≡◌, refl, inl, inr, List, [], ◌∷◌, ◌++◌, In,
  length, contains, Bool-cases, Option-cases, arith, ◌==◌, if◌then◌else◌, some, All, All-append, ap,
}
use ns3_sim.Prelude.Int.{ℤ}
use ns3_sim.Python.Outcome.{Outcome, ok}
use ns3_sim.Python.Dict.{lookup, lookup-In, values}
use ns3_sim.Python.Text.{Text, text_eq}
use ns3_sim.Fib.{Fib, Nexthops, Snapshot, Reverse}
use ns3_sim.Address.{ip_into_rid, parse_route}
use ns3_sim.Explore.{
  Item, route, not_found, looped, loop, explore, report_missing, forwarding, follow, follow_all,
}

-- How many of `nodes` are not on the route.
unvisited : List Text → List Text → ℕ
unvisited here [] = 0
unvisited here (v ∷ nodes) =
    if contains here v then unvisited here nodes else suc (unvisited here nodes)

unvisited-le-length : (here nodes : List Text) → unvisited here nodes ≤ length nodes
unfolding unvisited
unvisited-le-length here [] = omega arith
unvisited-le-length here (v ∷ nodes) = ground (arith, unvisited-le-length here nodes)

contains-append :
    (here : List Text) (u v : Text)
    → contains (here ++ u ∷ []) v ≡ (if contains here v then true else v == u)
unfolding contains
contains-append [] u v = ground arith
contains-append (x ∷ here) u v = ground (arith, contains-append here u v)

unvisited-append-le :
    (here nodes : List Text) (u : Text) → unvisited (here ++ u ∷ []) nodes ≤ unvisited here nodes
unfolding unvisited
unvisited-append-le here [] u = omega arith
unvisited-append-le here (v ∷ nodes) u =
    ground (arith, contains-append here u v, unvisited-append-le here nodes u)

-- A new router on the route makes the number smaller.
unvisited-append-lt :
    (here nodes : List Text) (u : Text)
    → In u nodes
    → contains here u ≡ false
    → unvisited (here ++ u ∷ []) nodes < unvisited here nodes
unfolding unvisited
unvisited-append-lt here [] u m new = absurd m
unvisited-append-lt here (v ∷ nodes) u m new = ground (
  arith,
  contains-append here u v,
  unvisited-append-le here nodes u,
  unvisited-append-lt here nodes u,
  text_eq.beq_iff v u,
)

-- The address has a router number.
pub record IsNamed (ip : Text) : Type 0 where
  pub number : ℤ
  pub read : ip_into_rid ip ≡ ok number

parse_route_returns :
    (here : List Text) → All IsNamed here → (numbers : List ℤ) × (parse_route here ≡ ok numbers)
unfolding parse_route
parse_route_returns [] h = ([], refl)
parse_route_returns (ip ∷ here) (n, h) =
    let (numbers, e) = parse_route_returns here h in (n.number ∷ numbers, rw (n.read, e))

-- Each router that a nexthop may lead to has an address with a number, and a table in the snapshot.
pub record IsNetwork (fibs : Snapshot) (reverse : Reverse) : Type 0 where
  pub named : (v : Text) → In v (values reverse) → IsNamed v
  pub tabled : (v : Text) → In v (values reverse) → (fib : Fib) × (lookup v fibs ≡ some fib)

module _ (reverse : Reverse) (here : List Text) (enter : Text → List Item → Outcome (List Item))
    (named : (v : Text) → In v (values reverse) → IsNamed v) (all_named : All IsNamed here)
    (enters : (v : Text) (c : List Item)
      → In v (values reverse)
      → contains here v ≡ false
      → (out : List Item) × (enter v c ≡ ok out)) where
  follow_returns :
      (via : Text) (status : Bool) (c : List Item)
      → (out : List Item) × (follow reverse here enter via status c ≡ ok out)
  unfolding follow
  follow_returns via false c = (c, refl)
  follow_returns via true c = elim (Option-cases (lookup via reverse)) [
    | inl unknown ↦ (c, rw (unknown, follow))
    | inr (v, known) ↦ elim (Bool-cases (contains here v)) [
      | inl old ↦
          let n = named v (lookup-In via reverse known) in
          let (numbers, e) = parse_route_returns here all_named in
          (c ++ looped n.number numbers ∷ [], rw (known, old, n.read, e, follow))
      | inr new ↦
          let (out, e) = enters v c (lookup-In via reverse known) new in
          (out, rw (known, new, follow) e)
    ]
  ]

  follow_all_returns :
      (nexthops : Nexthops) (c : List Item)
      → (out : List Item) × (follow_all reverse here enter nexthops c ≡ ok out)
  unfolding follow_all
  follow_all_returns [] c = (c, refl)
  follow_all_returns ((via, status) ∷ rest) c =
      let (mid, e) = follow_returns via status c in
      let (out, e') = follow_all_returns rest mid in (out, rw e e')

module _ (fibs : Snapshot) (reverse : Reverse) (dst : Text) (net : IsNetwork fibs reverse)
    (dst_named : IsNamed dst) where
  loop_returns :
      (fuel : ℕ) (u : Text) (before : List Text) (c : List Item)
      → unvisited (before ++ u ∷ []) (values reverse) < fuel
      → All IsNamed before
      → IsNamed u
      → (fib : Fib) × (lookup u fibs ≡ some fib)
      → (out : List Item) × (loop fibs reverse dst fuel u before c ≡ ok out)
  unfolding loop
  loop_returns zero u before c room h n t = absurd (omega arith)
  loop_returns (suc fuel) u before c room h n (fib, there) =
      let here = before ++ u ∷ [] in
      let all_named = All-append IsNamed before (u ∷ []) h (n, tt) in
      elim (Bool-cases (u == dst)) [
        | inl arrived ↦
            let (numbers, e) = parse_route_returns here all_named in
            (c ++ route numbers ∷ [], rw (arrived, loop) (rw e))
        | inr on ↦ elim (Option-cases (forwarding fibs u dst)) [
          | inl missing ↦ (
            c ++ not_found dst_named.number n.number fib.routes ∷ [],
            rw (on, missing, loop) (unfold report_missing in rw (dst_named.read, n.read, there)),
          )
          | inr (nexthops, table) ↦
              let (out, e) =
                follow_all_returns reverse here (λ v c'. loop fibs reverse dst fuel v here c')
                  net.named all_named
                  (λ v c' m new.
                    loop_returns fuel v here c'
                      (omega (arith, unvisited-append-lt here (values reverse) v m new)) all_named
                      (net.named v m) (net.tabled v m))
                  nexthops c in
              (out, rw (on, table, loop) e)
        ]
      ]

length-values : (reverse : Reverse) → length (values reverse) ≡ length reverse
length-values [] = refl
length-values (e ∷ reverse) = ap suc (length-values reverse)

-- From a router of a network with a table, to a router with a number, the search returns.
pub explore_returns :
    (fibs : Snapshot) (reverse : Reverse) (src dst : Text) (fib : Fib)
    → IsNetwork fibs reverse
    → IsNamed src
    → IsNamed dst
    → lookup src fibs ≡ some fib
    → (items : List Item) × (explore src dst fibs reverse ≡ ok items)
unfolding explore
explore_returns fibs reverse src dst fib net s d there =
    let room = unvisited-le-length (src ∷ []) (values reverse) in
    let (items, e) =
      loop_returns fibs reverse dst net d (length reverse + 1) src [] []
        (omega (arith, room, length-values reverse)) tt s (fib, there) in
    (items, rw (e, s.read, d.read))
