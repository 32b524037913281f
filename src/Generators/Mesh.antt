-- ===== src/Generators/Mesh.antt =====
-- The lines of a full mesh.

use ns3_sim.Prelude.{
  ℕ, zero, suc, ◌+◌, ◌≤◌, ◌<◌, ◌≡◌, ◌≢◌, ap, inl, inr, ◌↔◌, false, ◌==◌, nat_eq, nat_beq_iff, arith,
  In, In-append, In-append_left, In-append_right, Bool-cases,
}
use ns3_sim.Generators.{Line, line, mesh_row, mesh_from, mesh}

pub same_src : {a b c d : ℕ} → line a b ≡ line c d → a ≡ c
same_src e = ap (λ (l : Line). l.src) e

pub same_dst : {a b c d : ℕ} → line a b ≡ line c d → b ≡ d
same_dst e = ap (λ (l : Line). l.dst) e

pub off_ne : (x y : ℕ) → (x == y) ≡ false → x ≢ y
off_ne x y h e = cc (h, (nat_beq_iff x y).1 e)

pub In-mesh_row :
    (i j k a b : ℕ) → In (line a b) (mesh_row i j k) ↔ (a ≡ i) × (a ≢ b) × (j ≤ b) × (b < j + k)
unfolding mesh_row
In-mesh_row i j zero a b = (λ m. absurd m, λ p. absurd (omega (arith, p.2, p.3)))
In-mesh_row i j (suc k) a b =
    let rest = In-mesh_row i (j + 1) k a b in
    elim (Bool-cases (i == j)) [
      | inl same ↦
          let e : i ≡ j = (nat_beq_iff i j).0 same in
          rw same (
            λ m. let (p, q, r, s) = rest.0 m in (p, q, omega (arith, r), omega (arith, s)),
            λ (p, q, r, s). rest.1 (p, q, omega (arith, p, q, r, e), omega (arith, s)),
          )
      | inr other ↦
          let ne : i ≢ j = off_ne i j other in
          rw other (
            λ m. elim m [
              | inl e ↦ (
                same_src e,
                λ z. ne (omega (arith, z, same_src e, same_dst e)),
                omega (arith, same_dst e),
                omega (arith, same_dst e),
              )
              | inr m' ↦ let (p, q, r, s) = rest.0 m' in (p, q, omega (arith, r), omega (arith, s))
            ],
            λ (p, q, r, s). elim (Bool-cases (b == j)) [
              | inl at ↦ inl (cc (p, (nat_beq_iff b j).0 at))
              | inr off ↦ inr (rest.1 (p, q, omega (arith, r, off_ne b j off), omega (arith, s)))
            ],
          )
    ]

pub In-mesh_from :
    (n i k a b : ℕ) → In (line a b) (mesh_from n i k) ↔ (i ≤ a) × (a < i + k) × (b < n) × (a ≢ b)
unfolding mesh_from
In-mesh_from n i zero a b = (λ m. absurd m, λ p. absurd (omega (arith, p.0, p.1)))
In-mesh_from n i (suc k) a b =
    let row = In-mesh_row i 0 n a b in
    let rest = In-mesh_from n (i + 1) k a b in
    (
      λ m. elim (In-append (line a b) (mesh_row i 0 n) (mesh_from n (i + 1) k) m) [
        | inl m' ↦
            let (p, q, r, s) = row.0 m' in (omega (arith, p), omega (arith, p), omega (arith, s), q)
        | inr m' ↦ let (p, q, r, s) = rest.0 m' in (omega (arith, p), omega (arith, q), r, s)
      ],
      λ (p, q, r, s). elim (Bool-cases (a == i)) [
        | inl at ↦
            In-append_left (line a b) (mesh_row i 0 n) (mesh_from n (i + 1) k)
              (row.1 ((nat_beq_iff a i).0 at, s, omega arith, omega (arith, r)))
        | inr off ↦
            In-append_right (line a b) (mesh_row i 0 n) (mesh_from n (i + 1) k)
              (rest.1 (omega (arith, p, off_ne a i off), omega (arith, q), r, s))
      ],
    )

-- The file of a full mesh has a line from a node to another exactly when both numbers are below `n`
-- and differ.
pub In-mesh : (n a b : ℕ) → In (line a b) (mesh n) ↔ (a < n) × (b < n) × (a ≢ b)
unfolding mesh
In-mesh n a b =
    let all = In-mesh_from n 0 n a b in
    (
      λ m. let (p, q, r, s) = all.0 m in (omega (arith, q), r, s),
      λ (p, q, r). all.1 (omega arith, omega (arith, p), q, r),
    )
