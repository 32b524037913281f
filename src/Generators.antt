-- ===== src/Generators.antt =====
-- ring.py and fm.py: the topology files of a ring and of a full mesh. A line is kept as its four
-- numbers, and printed.
pub mod Ring
pub mod Mesh
pub mod Once
use ns3_sim.Prelude.{ℕ, zero, suc, ◌+◌, Bool, List, [], ◌∷◌, ◌++◌, ◌==◌, nat_eq, leb, if◌then◌else◌}
use ns3_sim.Python.Text.{Text, codes, join}
use ns3_sim.Python.Number.{decimal}

pub record Line : Type 0 where
  pub src : ℕ
  pub dst : ℕ
  pub metric : ℕ
  pub delay : ℕ

abbrev pub line : ℕ → ℕ → Line
line src dst = record { src = src; dst = dst; metric = 1; delay = 5 }

-- A line as it is printed.
unfoldable pub print_line : Line → Text
print_line l =
    join (codes " ") (decimal l.src ∷ decimal l.dst ∷ decimal l.metric ∷ decimal l.delay ∷ [])

-- The text of the file.
unfoldable pub print_lines : List Line → Text
print_lines [] = []
print_lines (l ∷ lines) = print_line l ++ 10 ∷ print_lines lines

-- `0 if s >= n else s`.
unfoldable pub ring_dst : ℕ → ℕ → ℕ
ring_dst n s = if leb n s then 0 else s

-- The rounds from `i` on, `k` of them.
unfoldable pub ring_from : ℕ → ℕ → ℕ → List Line
ring_from n i zero = []
ring_from n i (suc k) =
    let dst = ring_dst n (i + 1) in line i dst ∷ line dst i ∷ ring_from n (i + 1) k

unfoldable pub ring : ℕ → List Line
ring n = ring_from n 0 n

-- The inner loop of the mesh.
unfoldable pub mesh_row : ℕ → ℕ → ℕ → List Line
mesh_row i j zero = []
mesh_row i j (suc k) = let rest = mesh_row i (j + 1) k in if i == j then rest else line i j ∷ rest

unfoldable pub mesh_from : ℕ → ℕ → ℕ → List Line
mesh_from n i zero = []
mesh_from n i (suc k) = mesh_row i 0 n ++ mesh_from n (i + 1) k

unfoldable pub mesh : ℕ → List Line
mesh n = mesh_from n 0 n
