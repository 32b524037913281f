-- ===== src/Tests/Sample.antt =====
-- Two routers with a route to each other, and floats that are whole numbers.
use ns3_sim.Prelude.{◌≡◌, Option, some, none, true, [], ◌∷◌, arith, ◌/◌}
use ns3_sim.Prelude.Int.{ℤ, pos_part, neg_part, int_eq, leb_ℤ, ◌-ℤ◌, ◌*ℤ◌, sub_ℕ}
use ns3_sim.Python.Outcome.{Outcome, ok, raise}
use ns3_sim.Python.Sorting.{IsTotalOrder}
use ns3_sim.Python.Float.{Floats}
use ns3_sim.Python.Number.{int}
use ns3_sim.Python.Text.{Text, codes}
use ns3_sim.Fib.{Fib, Snapshot, Reverse}

abbrev pub ip1 : Text
ip1 = codes "10.1.0.1"

abbrev pub ip2 : Text
ip2 = codes "10.1.0.2"

-- The ends of the link between the two.
abbrev pub link1 : Text
link1 = codes "10.0.0.1"

abbrev pub link2 : Text
link2 = codes "10.0.0.2"

abbrev pub fib1 : Fib
fib1 = record { neighs = []; routes = (some ip2, (link2, true) ∷ []) ∷ [] }

abbrev pub fib2 : Fib
fib2 = record { neighs = []; routes = (some ip1, (link1, true) ∷ []) ∷ [] }

abbrev pub pair : Snapshot
pair = (ip1, fib1) ∷ (ip2, fib2) ∷ []

abbrev pub pair_reverse : Reverse
pair_reverse = (link1, ip1) ∷ (link2, ip2) ∷ []

pub leb_ℤ-IsTotalOrder : IsTotalOrder leb_ℤ
leb_ℤ-IsTotalOrder = record { total = λ x y. ground arith; trans = λ x y z p q. ground arith }

pub leb_ℤ-antisymm : (x y : ℤ) → leb_ℤ x y ≡ true → leb_ℤ y x ≡ true → x ≡ y
leb_ℤ-antisymm x y p q = ground arith

abbrev pub whole : Outcome ℤ → Option ℤ
whole (ok n) = some n
whole (raise e) = none

abbrev pub whole_floats : Floats
whole_floats = record {
  Float = ℤ;
  float_eq = int_eq;
  le = leb_ℤ;
  parse = λ s. whole (int s);
  of_int = λ n. n;
  mul = ◌*ℤ◌;
  sub = ◌-ℤ◌;
  div = λ a b. sub_ℕ (pos_part a / pos_part b) (neg_part a / pos_part b);
  le-total_order = leb_ℤ-IsTotalOrder;
  le-antisymm = leb_ℤ-antisymm;
}
