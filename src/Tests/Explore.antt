-- ===== src/Tests/Explore.antt =====
-- Explore.antt at concrete inputs.
use ns3_sim.Prelude.{◌≡◌, refl, ◌↔◌, inl, inr, some, List, [], ◌∷◌, In, contains, sym}
use mathlib.Core.Path.{subst}
use ns3_sim.Prelude.Int.{pos, ◌-ℤ◌}
use ns3_sim.Python.Outcome.{ok}
use ns3_sim.Python.Dict.{lookup, values}
use ns3_sim.Python.Text.{Text, text_eq}
use ns3_sim.Python.Number.{int}
use ns3_sim.Python.Text.{split}
use ns3_sim.Fib.{Fib}
use ns3_sim.Address.{ip_into_rid, parse_route}
use ns3_sim.Explore.{Item, route, explore, loop, follow_all, follow, forwarding}
use ns3_sim.Explore.Found.{IsFound, explore_items}
use ns3_sim.Explore.Returns.{IsNamed, explore_returns}
use ns3_sim.Tests.Sample.{ip1, ip2, fib1, fib2, pair, pair_reverse}

explore-pair : explore ip1 ip2 pair pair_reverse ≡ ok (route (pos 0 ∷ pos 1 ∷ []) ∷ [])
unfolding explore loop forwarding follow_all follow parse_route ip_into_rid split int lookup
    contains ◌-ℤ◌
explore-pair = refl

explore_items_example :
    In (route (pos 0 ∷ pos 1 ∷ [])) (route (pos 0 ∷ pos 1 ∷ []) ∷ [])
    ↔ IsFound pair pair_reverse ip1 ip2 (route (pos 0 ∷ pos 1 ∷ []))
explore_items_example =
    explore_items pair pair_reverse ip1 ip2 explore-pair (route (pos 0 ∷ pos 1 ∷ []))

ip1-IsNamed : IsNamed ip1
unfolding ip_into_rid split int ◌-ℤ◌
ip1-IsNamed = record { number = pos 0; read = refl }

ip2-IsNamed : IsNamed ip2
unfolding ip_into_rid split int ◌-ℤ◌
ip2-IsNamed = record { number = pos 1; read = refl }

pair-IsNamed : (v : Text) → In v (values pair_reverse) → IsNamed v
pair-IsNamed v (inl e) = subst IsNamed (sym e) ip1-IsNamed
pair-IsNamed v (inr (inl e)) = subst IsNamed (sym e) ip2-IsNamed
pair-IsNamed v (inr (inr m)) = absurd m

abbrev HasTable : Text → Type 0
HasTable v = (fib : Fib) × (lookup v pair ≡ some fib)

pair_tabled : (v : Text) → In v (values pair_reverse) → HasTable v
unfolding lookup
pair_tabled v (inl e) = subst HasTable (sym e) (fib1, refl)
pair_tabled v (inr (inl e)) = subst HasTable (sym e) (fib2, refl)
pair_tabled v (inr (inr m)) = absurd m

explore_returns_example : (items : List Item) × (explore ip2 ip1 pair pair_reverse ≡ ok items)
unfolding lookup
explore_returns_example =
    explore_returns pair pair_reverse ip2 ip1 fib2
      (record { named = pair-IsNamed; tabled = pair_tabled }) ip2-IsNamed ip1-IsNamed refl
