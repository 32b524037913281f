-- ===== src/Address/Simulator.antt =====
-- myscripts/bird/helper/NtfTopoGen.cc, `ConfigureBird`: the loopback addresses that the simulator gives
-- its nodes, beside those of `gen_addresses`.
use ns3_sim.Prelude.{
  ℕ, zero, suc, ◌+◌, ◌-◌, ◌/◌, ◌%◌, ◌≤◌, ◌<◌, ◌≡◌, ◌↔◌, sym, ap, ◌∙◌, some, List, [], ◌∷◌, arith,
  get_elem?, leb, if◌then◌else◌,
}
use ns3_sim.Python.Text.{Text}
use ns3_sim.Address.{address, gen_addresses}
use ns3_sim.Address.Layout.{gen_addresses_layout, address-injective, some_lem}

-- The values of a `uint64_t`: `2 ^ 64`.
abbrev pub word : ℕ
word = 18446744073709551616

-- The loop over the nodes with its counters.
unfoldable pub lo_addresses_from : ℕ → ℕ → ℕ → List Text
lo_addresses_from zero high low = []
lo_addresses_from (suc nodes) high low =
    let wrap = leb 250 low in
    let high' = if wrap then (high + 1) % word else high in
    let low' = if wrap then 1 else low in
    address high' low' ∷ lo_addresses_from nodes high' ((low' + 1) % word)

unfoldable pub lo_addresses : ℕ → List Text
lo_addresses nodes = lo_addresses_from nodes 0 1

-- A block has 249 addresses.
get_elem?-lo_addresses_from :
    (n i high low : ℕ)
    → 1 ≤ low
    → low ≤ 250
    → i < n
    → high + i + 1 < word
    → get_elem? (lo_addresses_from n high low) i
      ≡ some (address (high + (low - 1 + i) / 249) ((low - 1 + i) % 249 + 1))
unfolding lo_addresses_from
get_elem?-lo_addresses_from zero i high low a b h w = absurd (omega arith)
get_elem?-lo_addresses_from (suc n) zero high low a b h w = ground arith
get_elem?-lo_addresses_from (suc n) (suc i) high low a b h w = ground (
  arith,
  get_elem?-lo_addresses_from n i high (low + 1),
  get_elem?-lo_addresses_from n i (high + 1) 2,
)

lo_addresses_layout :
    (n i : ℕ)
    → i < n
    → i + 1 < word
    → get_elem? (lo_addresses n) i ≡ some (address (i / 249) (i % 249 + 1))
unfolding lo_addresses
lo_addresses_layout n i h w = ground (arith, get_elem?-lo_addresses_from n i 0 1)

-- For up to `2 ^ 32` nodes, which the simulator numbers by `uint32_t`, the scripts expect the address that
-- the simulator gives a node for the first 249 nodes, and for no later one.
pub gen_addresses-lo_addresses :
    (n i : ℕ)
    → i < n
    → n ≤ 4294967296
    → (get_elem? (gen_addresses n) i ≡ get_elem? (lo_addresses n) i) ↔ (i < 249)
gen_addresses-lo_addresses n i h w =
    let ours = gen_addresses_layout n i h in
    let theirs = lo_addresses_layout n i h (omega arith) in
    (
      λ e.
          let same : address (i / 250) (i % 250 + 1) ≡ address (i / 249) (i % 249 + 1) =
            some_lem _ _ (sym ours ∙ e ∙ theirs) in
          let (high, low) =
            address-injective (i / 250) (i % 250 + 1) (i / 249) (i % 249 + 1) same in
          omega arith,
      λ early.
          let high : i / 250 ≡ i / 249 = omega arith in
          let low : i % 250 + 1 ≡ i % 249 + 1 = omega arith in
          ours
          ∙ ap (λ k. some (address k (i % 250 + 1))) high
          ∙ ap (λ k. some (address (i / 249) k)) low
          ∙ sym theirs,
    )
