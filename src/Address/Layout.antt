-- ===== src/Address/Layout.antt =====
-- Where the addresses of `gen_addresses` lie, that they differ, and which router number is read back from them.

use ns3_sim.Prelude.{
  ℕ, zero, suc, ◌+◌, ◌-◌, ◌/◌, ◌%◌, ◌≤◌, ◌<◌, ◌≡◌, ◌≢◌, refl, [], ◌∷◌, ◌++◌, ◌∙◌, sym, ap, some,
  arith, length, get_elem?, sym, ap, ◌∙◌,
}
use ns3_sim.Prelude.Int.{pos, ◌-ℤ◌, int_laws}
use ns3_sim.Python.Outcome.{ok}
use ns3_sim.Python.Text.{Text, Lacks, codes, split, split-cons, split_one}
use ns3_sim.Python.Number.{decimal, int-decimal, decimal-IsDigits, Lacks-of_IsDigits}
use ns3_sim.Address.{address, addresses_from, gen_addresses, ip_into_rid}

length-addresses_from : (n high low : ℕ) → length (addresses_from n high low) ≡ n
unfolding addresses_from
length-addresses_from zero high low = refl
length-addresses_from (suc n) high low = grind (arith, length-addresses_from n)

-- A block has 250 addresses, and `low` is the place in the block plus one.
get_elem?-addresses_from :
    (n i high low : ℕ)
    → 1 ≤ low
    → low ≤ 251
    → i < n
    → get_elem? (addresses_from n high low) i
      ≡ some (address (high + (low - 1 + i) / 250) ((low - 1 + i) % 250 + 1))
unfolding addresses_from
get_elem?-addresses_from zero i high low a b h = absurd (omega arith)
get_elem?-addresses_from (suc n) zero high low a b h = ground arith
get_elem?-addresses_from (suc n) (suc i) high low a b h =
    ground (
      arith,
      get_elem?-addresses_from n i high (low + 1),
      get_elem?-addresses_from n i (high + 1) 2,
    )

-- In the list that `gen_addresses` makes for `n` nodes, the address at each position `i` below `n` is
-- `10.1.(i / 250).(i % 250 + 1)`.
pub gen_addresses_layout :
    (n i : ℕ) → i < n → get_elem? (gen_addresses n) i ≡ some (address (i / 250) (i % 250 + 1))
unfolding gen_addresses
gen_addresses_layout n i h = ground (arith, get_elem?-addresses_from n i 0 1)

pub length-gen_addresses : (n : ℕ) → length (gen_addresses n) ≡ n
unfolding gen_addresses
length-gen_addresses n = length-addresses_from n 0 1

decimal-Lacks : (n : ℕ) → Lacks b'.' (decimal n)
decimal-Lacks n = Lacks-of_IsDigits b'.' (decimal n) refl (decimal-IsDigits n)

pub split-address :
    (high low : ℕ)
    → split b'.' (address high low) ≡ codes "10" ∷ codes "1" ∷ decimal high ∷ decimal low ∷ []
unfolding address
split-address high low =
    let parts = decimal high ++ (b'.' ∷ decimal low) in
    cc (
      split-cons b'.' (codes "10") (codes "1" ++ b'.' ∷ parts) (omega arith),
      split-cons b'.' (codes "1") parts (omega arith),
      split-cons b'.' (decimal high) (decimal low) (decimal-Lacks high),
      split_one b'.' (decimal low) (decimal-Lacks low),
    )

-- The router number that is read back from an address is its last part less one.
pub ip_into_rid-address : (high low : ℕ) → ip_into_rid (address high (low + 1)) ≡ ok (pos low)
unfolding ip_into_rid
ip_into_rid-address high low =
    let e : pos (low + 1) -ℤ pos 1 ≡ pos low = omega int_laws in
    rw (split-address, int-decimal) (rw e)

pub some_lem : (x y : Text) → some x ≡ some y → x ≡ y
some_lem x y e = cc

pub address-injective :
    (high low high' low' : ℕ)
    → address high low ≡ address high' low'
    → (high ≡ high') × (low ≡ low')
address-injective high low high' low' e =
    let p : split b'.' (address high low) ≡ split b'.' (address high' low') = ap (split b'.') e in
    let q : codes "10" ∷ codes "1" ∷ decimal high ∷ decimal low ∷ []
        ≡ codes "10" ∷ codes "1" ∷ decimal high' ∷ decimal low' ∷ [] =
      sym (split-address high low) ∙ p ∙ split-address high' low' in
    (cc (int-decimal high, int-decimal high'), cc (int-decimal low, int-decimal low'))

-- Two routers of a network never share an address: equal addresses stand at equal positions.
pub gen_addresses_distinct :
    (n i j : ℕ)
    → i < n
    → j < n
    → get_elem? (gen_addresses n) i ≡ get_elem? (gen_addresses n) j
    → i ≡ j
gen_addresses_distinct n i j hi hj e =
    let (high, low) =
      address-injective (i / 250) (i % 250 + 1) (j / 250) (j % 250 + 1)
        (cc (e, gen_addresses_layout n i hi, gen_addresses_layout n j hj)) in
    omega arith

-- The router number of the router at position `i` is `i % 250`.
pub ip_into_rid_of_node :
    (n i : ℕ)
    → i < n
    → (ip : Text) × (get_elem? (gen_addresses n) i ≡ some ip)
      × (ip_into_rid ip ≡ ok (pos (i % 250)))
ip_into_rid_of_node n i h =
    (address (i / 250) (i % 250 + 1), gen_addresses_layout n i h, ip_into_rid-address _ _)

-- In a network of more than 250 routers two different routers have the same router number.
pub ip_into_rid_collides :
    (n i : ℕ)
    → i + 250 < n
    → (ip ip' : Text) × (get_elem? (gen_addresses n) i ≡ some ip)
      × (get_elem? (gen_addresses n) (i + 250) ≡ some ip')
      × (ip ≢ ip')
      × (ip_into_rid ip ≡ ip_into_rid ip')
ip_into_rid_collides n i h =
    let (ip, at, number) = ip_into_rid_of_node n i (omega arith) in
    let (ip', at', number') = ip_into_rid_of_node n (i + 250) h in
    let same : (i + 250) % 250 ≡ i % 250 = omega arith in
    (
      ip,
      ip',
      at,
      at',
      λ e. absurd (apart (gen_addresses_distinct n i (i + 250) (omega arith) h (cc))),
      cc (number, number', same),
    )
  where
    apart : i ≡ i + 250 → ⊥
    apart e = omega arith
