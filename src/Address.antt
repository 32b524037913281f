-- ===== src/Address.antt =====
-- fib_parser.py and myscripts/bird/spfs.py: the loopback addresses that the scripts expect of the routers,
-- and the router number that the reports print for an address.
pub mod Layout
pub mod Quads
pub mod Simulator
use ns3_sim.Prelude.{ℕ, zero, suc, ◌+◌, List, [], ◌∷◌, ◌++◌, ltb, if◌then◌else◌}
use ns3_sim.Prelude.Int.{ℤ, pos, ◌-ℤ◌}
use ns3_sim.Python.Outcome.{Outcome, ok, ◌>>=◌, last, traverse}
use ns3_sim.Python.Text.{Text, codes, split}
use ns3_sim.Python.Number.{decimal, int}

-- `'10.1.%i.%i' % (high, low)`.
unfoldable pub address : ℕ → ℕ → Text
address high low = codes "10.1." ++ (decimal high ++ (b'.' ∷ decimal low))

-- The loop of `gen_addresses` over its counters, with the number of rounds that are left.
addresses_from : ℕ → ℕ → ℕ → List Text
addresses_from zero high low = []
addresses_from (suc rounds) high low =
    let wrap = ltb 250 low in
    let high' = if wrap then high + 1 else high in
    let low' = if wrap then 1 else low in
    address high' low' ∷ addresses_from rounds high' (low' + 1)

unfoldable pub gen_addresses : ℕ → List Text
unfolding addresses_from
gen_addresses n = addresses_from n 0 1

-- `int(ip.split('.')[-1]) - 1`.
unfoldable pub ip_into_rid : Text → Outcome ℤ
ip_into_rid ip = do part ← last (split b'.' ip); number ← int part; ok (number -ℤ pos 1)

unfoldable pub parse_route : List Text → Outcome (List ℤ)
unfolding traverse ip_into_rid
parse_route = traverse ip_into_rid
