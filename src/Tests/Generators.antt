-- ===== src/Tests/Generators.antt =====
-- Generators.antt at concrete inputs.
use ns3_sim.Prelude.{ℕ, ◌+◌, ◌%◌, ◌<◌, ◌≡◌, ◌≢◌, refl, ◌⊎◌, ◌↔◌, In, List, ◌∷◌, [], map, arith}
use ns3_sim.Generators.{line, ring, ring_from, ring_dst, mesh, mesh_from, mesh_row, print_lines}
use ns3_sim.Python.Outcome.{ok}
use ns3_sim.Failures.{Row, failures, timed}
use ns3_sim.Failures.Schedule.{Schedule}
use ns3_sim.Failures.Generated.{row_of, failures-generated}
use ns3_sim.Generators.Mesh.{In-mesh}
use ns3_sim.Generators.Ring.{In-ring}

ring-three : ring 3 ≡ line 0 1 ∷ line 1 0 ∷ line 1 2 ∷ line 2 1 ∷ line 2 0 ∷ line 0 2 ∷ []
unfolding ring ring_from ring_dst
ring-three = refl

mesh-two : mesh 2 ≡ line 0 1 ∷ line 1 0 ∷ []
unfolding mesh mesh_from mesh_row
mesh-two = refl

In-mesh_example : In (line 2 1) (mesh 4) ↔ (2 < 4) × (1 < 4) × (◌≢◌ {A = ℕ} 2 1)
In-mesh_example = In-mesh 4 2 1

In-ring_example :
    In (line 3 0) (ring 4) ↔ ((3 < 4) × (0 ≡ (3 + 1) % 4)) ⊎ ((0 < 4) × (3 ≡ (0 + 1) % 4))
In-ring_example = In-ring 4 3 0

failures-generated_example :
    ((b : List Row) × (failures (print_lines (ring 4)) ≡ ok (timed 0 b))
      × Schedule (map row_of (ring 4)) b)
    × ((b : List Row) × (failures (print_lines (mesh 4)) ≡ ok (timed 0 b))
        × Schedule (map row_of (mesh 4)) b)
failures-generated_example = failures-generated 4 (omega arith)
