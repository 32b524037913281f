-- ===== src/Report/Evaluated.antt =====
-- What is collected from the nodes of a simulation can be evaluated.
use mathlib.Core.Path.{subst}
use ns3_sim.Prelude.{
  position, ℕ, ◌%◌, ◌≡◌, refl, sym, some, List, [], ◌∷◌, length, In, arith, inl, inr,
}
use ns3_sim.Prelude.Int.{pos}
use ns3_sim.Python.Outcome.{ok, file_not_found, or_raise, last, >>=-eq-ok}
use ns3_sim.Python.Dict.{Dict, lookup, keys, values}
use ns3_sim.Python.Float.{Floats}
use ns3_sim.Python.Text.{Text, text_eq, split, split_parts}
use ns3_sim.Fib.{Fib, Snapshot, Reverse}
use ns3_sim.Address.{gen_addresses, ip_into_rid}
use ns3_sim.Address.Layout.{length-gen_addresses, ip_into_rid_of_node}
use ns3_sim.Collect.{collect_fibs}
use ns3_sim.Collect.Known.{HasTable, IsKnown, collect_fibs-IsKnown}
use ns3_sim.Explore.Returns.{IsNamed, IsNetwork, explore_returns}
use ns3_sim.Converge.Returns.{AllExplored, convergence_of_returns}
use ns3_sim.Report.{Node, nodes_of, collect_nodes, evaluate_convergence}

-- There is a last part.
last-split : (sep : ℕ) (s : Text) → (p : Text) × (last (split sep s) ≡ ok p)
last-split sep s =
    let (p, ps, e) = split_parts sep s in let (y, e') = last_returns p ps in (y, rw e e')
  where
    last_returns : (x : Text) (xs : List Text) → (y : Text) × (last (x ∷ xs) ≡ ok y)
    last_returns x [] = (x, refl)
    last_returns x (y ∷ xs) = last_returns y xs

-- The generated addresses have router numbers.
IsNamed-gen_addresses : (n : ℕ) (ip : Text) → In ip (gen_addresses n) → IsNamed ip
IsNamed-gen_addresses n ip m =
    let (i, below, at) = position ip (gen_addresses n) m in
    let (ip', at', read) = ip_into_rid_of_node n i (omega (arith, below, length-gen_addresses n)) in
    let same : ip' ≡ ip = cc (at, at') in
    record {
      number = pos (i % 250);
      read = subst (λ x. ip_into_rid x ≡ ok (pos (i % 250))) same read;
    }

module _ (floats : Floats) where
  open floats use {Float, float_eq}

  collect_nodes-IsKnown :
      (fibs fibs' : Dict Float Snapshot) (reverse reverse' : Reverse) (nodes : List Node)
      → IsKnown floats fibs reverse
      → collect_nodes floats fibs reverse nodes ≡ ok (fibs', reverse')
      → IsKnown floats fibs' reverse'
  unfolding collect_nodes
  collect_nodes-IsKnown fibs fibs' reverse reverse' [] h e =
      let parts : ◌≡◌ {A = Dict Float Snapshot × Reverse} (fibs, reverse) (fibs', reverse') =
        cc e in
      subst (λ (p : Dict Float Snapshot × Reverse). IsKnown floats p.0 p.1) parts h
  collect_nodes-IsKnown fibs fibs' reverse reverse' ((node, log) ∷ nodes) h e =
      let (processes, e1, h1) = >>=-eq-ok (or_raise file_not_found log) _ e in
      let (mid, e2, h2) = >>=-eq-ok (collect_fibs floats processes fibs reverse) _ h1 in
      collect_nodes-IsKnown mid.0 fibs' mid.1 reverse' nodes
        (collect_fibs-IsKnown floats processes fibs mid.0 reverse mid.1 h e2) h2

  -- The dumps are of all `n` routers at each time, which have addresses with numbers.
  pub record IsWhole (n : ℕ) (fibs : Dict Float Snapshot) : Type 0 where
    pub some_time : Float
    pub dumped : In some_time (keys fibs)
    pub named : (router : Text) → HasTable floats fibs router → IsNamed router
    pub routers :
        (time : Float) (data_at : Snapshot)
        → lookup ⦃e = float_eq⦄ time fibs ≡ some data_at
        → (ip : Text) → In ip (gen_addresses n)
        → (fib : Fib) × (lookup ip data_at ≡ some fib)
    pub same_routers :
        (time : Float) (data_at : Snapshot)
        → lookup ⦃e = float_eq⦄ time fibs ≡ some data_at
        → (router : Text) → HasTable floats fibs router
        → (fib : Fib) × (lookup router data_at ≡ some fib)

  value-HasTable :
      (fibs : Dict Float Snapshot) (reverse : Reverse) (router : Text)
      → IsKnown floats fibs reverse
      → In router (values reverse)
      → HasTable floats fibs router
  value-HasTable fibs [] router h m = absurd m
  value-HasTable fibs ((end, r) ∷ reverse) router h (inl at) =
      subst (HasTable floats fibs) (sym at) h.0
  value-HasTable fibs ((end, r) ∷ reverse) router h (inr m) =
      value-HasTable fibs reverse router h.1 m

  AllExplored-of_IsWhole :
      (n : ℕ) (fibs : Dict Float Snapshot) (reverse : Reverse)
      → IsKnown floats fibs reverse
      → IsWhole n fibs
      → AllExplored floats fibs reverse n
  AllExplored-of_IsWhole n fibs reverse known w time data_at at src dst ms md =
      let (fib, there) = w.routers time data_at at src ms in
      let net : IsNetwork data_at reverse = record {
        named = λ v m. w.named v (value-HasTable fibs reverse v known m);
        tabled = λ v m. w.same_routers time data_at at v (value-HasTable fibs reverse v known m);
      } in
      explore_returns data_at reverse src dst fib net (IsNamed-gen_addresses n src ms)
        (IsNamed-gen_addresses n dst md) there

  -- When the logs of the nodes can be read, there are dumps of all routers at each time, and the routers
  -- have addresses with numbers, the evaluation of a failure ends with the last part of its path and an
  -- instant: no search fails, no table is missing, and the error that is reported with `(0, -1)` does
  -- not happen.
  pub evaluate_convergence_returns :
      (pwd : Text) (entries : List Node) (fibs : Dict Float Snapshot) (reverse : Reverse)
      → collect_nodes floats [] [] (nodes_of entries) ≡ ok (fibs, reverse)
      → IsWhole (length (nodes_of entries)) fibs
      → (rid : Text) × (instant : Float) × (last (split b'/' pwd) ≡ ok rid)
        × (evaluate_convergence floats pwd entries ≡ ok (some (rid, instant)))
  unfolding evaluate_convergence
  evaluate_convergence_returns pwd entries fibs reverse read w =
      let known = collect_nodes-IsKnown [] fibs [] reverse (nodes_of entries) tt read in
      let (instant, e) =
        convergence_of_returns floats fibs reverse (length (nodes_of entries)) w.some_time w.dumped
          (AllExplored-of_IsWhole (length (nodes_of entries)) fibs reverse known w) in
      let (rid, e') = last-split b'/' pwd in
      (rid, instant, e', rw (read, evaluate_convergence) (rw e (rw e' refl)))
