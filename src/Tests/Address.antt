-- ===== src/Tests/Address.antt =====
-- Address.antt at concrete inputs.
use ns3_sim.Prelude.{◌<◌, ◌≤◌, ◌↔◌, All, ℕ, ◌+◌, ◌/◌, ◌%◌, ◌≡◌, ◌≢◌, refl, some, arith, get_elem?}
use ns3_sim.Prelude.Int.{pos}
use ns3_sim.Python.Outcome.{ok}
use ns3_sim.Python.Number.{decimal}
use ns3_sim.Python.Text.{Text, codes}
use ns3_sim.Address.{address, gen_addresses, ip_into_rid}
use ns3_sim.Address.Simulator.{lo_addresses, lo_addresses_from, gen_addresses-lo_addresses}
use ns3_sim.Address.Quads.{IsQuad, gen_addresses-IsQuad}
use ns3_sim.Address.Layout.{
  gen_addresses_layout, gen_addresses_distinct, ip_into_rid_of_node, ip_into_rid_collides,
}

gen_addresses_wraps : get_elem? (gen_addresses 252) 250 ≡ some (codes "10.1.1.1")
unfolding gen_addresses address decimal
gen_addresses_wraps = refl

gen_addresses_layout_example :
    get_elem? (gen_addresses 252) 251 ≡ some (address (251 / 250) (251 % 250 + 1))
gen_addresses_layout_example = gen_addresses_layout 252 251 (omega arith)

gen_addresses_distinct_example : ◌≡◌ {A = ℕ} 2 2
gen_addresses_distinct_example = gen_addresses_distinct 3 2 2 (omega arith) (omega arith) refl

ip_into_rid_of_node_example :
    (ip : Text) × (get_elem? (gen_addresses 40) 12 ≡ some ip)
    × (ip_into_rid ip ≡ ok (pos (12 % 250)))
ip_into_rid_of_node_example = ip_into_rid_of_node 40 12 (omega arith)

ip_into_rid_collides_example :
    (ip ip' : Text) × (get_elem? (gen_addresses 300) 7 ≡ some ip)
    × (get_elem? (gen_addresses 300) (7 + 250) ≡ some ip')
    × (ip ≢ ip')
    × (ip_into_rid ip ≡ ip_into_rid ip')
ip_into_rid_collides_example = ip_into_rid_collides 300 7 (omega arith)

gen_addresses-IsQuad_example : All IsQuad (gen_addresses 300) ↔ (300 ≤ 64000)
gen_addresses-IsQuad_example = gen_addresses-IsQuad 300

lo_addresses_wraps : get_elem? (lo_addresses 252) 249 ≡ some (codes "10.1.1.1")
unfolding lo_addresses lo_addresses_from address decimal
lo_addresses_wraps = refl

gen_addresses-lo_addresses_example :
    (get_elem? (gen_addresses 300) 249 ≡ get_elem? (lo_addresses 300) 249) ↔ (249 < 249)
gen_addresses-lo_addresses_example = gen_addresses-lo_addresses 300 249 (omega arith) (omega arith)
