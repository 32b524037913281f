-- ===== src/Generators/Ring.antt =====
-- The lines of a ring.
use ns3_sim.Prelude.{
  ℕ, zero, suc, ◌+◌, ◌%◌, ◌≤◌, ◌<◌, ◌≡◌, sym, ap, ◌∙◌, ◌⊎◌, inl, inr, ◌↔◌, leb, arith, In,
  Bool-cases, ◌==◌, nat_eq, nat_beq_iff,
}
use native.Mathlib.Nat.{mod_self, mod-eq_of_lt}
use ns3_sim.Generators.Mesh.{off_ne, same_src, same_dst}
use ns3_sim.Generators.{line, ring_dst, ring_from, ring}

-- The rounds are from `i` to `i + k`; each gives the two directions of one edge.
abbrev pub IsEdge : ℕ → ℕ → ℕ → ℕ → ℕ → Type 0
IsEdge n i k a b =
    ((i ≤ a) × (a < i + k) × (b ≡ ring_dst n (a + 1)))
    ⊎ ((i ≤ b) × (b < i + k) × (a ≡ ring_dst n (b + 1)))

pub In-ring_from : (n i k a b : ℕ) → In (line a b) (ring_from n i k) ↔ IsEdge n i k a b
unfolding ring_from
In-ring_from n i zero a b = (
  λ m. absurd m,
  λ m. elim m [
    | inl p ↦ absurd (omega (arith, p.0, p.1))
    | inr p ↦ absurd (omega (arith, p.0, p.1))
  ],
)
In-ring_from n i (suc k) a b =
    let rest = In-ring_from n (i + 1) k a b in
    (
      λ m. elim m [
        | inl e ↦
            inl (omega (arith, same_src e), omega (arith, same_src e), cc (same_src e, same_dst e))
        | inr (inl e) ↦
            inr (omega (arith, same_dst e), omega (arith, same_dst e), cc (same_src e, same_dst e))
        | inr (inr m') ↦ elim (rest.0 m') [
          | inl (p, q, r) ↦ inl (omega (arith, p), omega (arith, q), r)
          | inr (p, q, r) ↦ inr (omega (arith, p), omega (arith, q), r)
        ]
      ],
      λ w. elim w [
        | inl (p, q, r) ↦ elim (Bool-cases (a == i)) [
          | inl at ↦ inl (cc ((nat_beq_iff a i).0 at, r))
          | inr off ↦
              inr (inr (rest.1 (inl (omega (arith, p, off_ne a i off), omega (arith, q), r))))
        ]
        | inr (p, q, r) ↦ elim (Bool-cases (b == i)) [
          | inl at ↦ inr (inl (cc ((nat_beq_iff b i).0 at, r)))
          | inr off ↦
              inr (inr (rest.1 (inr (omega (arith, p, off_ne b i off), omega (arith, q), r))))
        ]
      ],
    )

ring_dst-mod : (n s : ℕ) → s ≤ n → 0 < n → ring_dst n s ≡ s % n
unfolding ring_dst
ring_dst-mod n s h positive = elim (Bool-cases (leb n s)) [
  | inl wrap ↦
      let e : s ≡ n = ground (arith, h, wrap) in rw wrap (sym (ap (λ x. x % n) e ∙ mod_self n))
  | inr inside ↦ let lt : s < n = ground (arith, inside) in rw inside (sym (mod-eq_of_lt lt))
]

-- The file of a ring of `n` nodes has the line from a node to another exactly when one of the two,
-- below `n`, is followed by the other, counted modulo `n`.
pub In-ring :
    (n a b : ℕ)
    → In (line a b) (ring n) ↔ ((a < n) × (b ≡ (a + 1) % n)) ⊎ ((b < n) × (a ≡ (b + 1) % n))
unfolding ring
In-ring n a b =
    let all = In-ring_from n 0 n a b in
    (
      λ m. elim (all.0 m) [
        | inl (p, q, r) ↦
            inl (omega (arith, q), r ∙ ring_dst-mod n (a + 1) (omega (arith, q)) (omega (arith, q)))
        | inr (p, q, r) ↦
            inr (omega (arith, q), r ∙ ring_dst-mod n (b + 1) (omega (arith, q)) (omega (arith, q)))
      ],
      λ w. elim w [
        | inl (q, r) ↦ all.1 (
            inl (
              omega arith,
              omega (arith, q),
              r ∙ sym (ring_dst-mod n (a + 1) (omega (arith, q)) (omega (arith, q))),
            ))
        | inr (q, r) ↦ all.1 (
            inr (
              omega arith,
              omega (arith, q),
              r ∙ sym (ring_dst-mod n (b + 1) (omega (arith, q)) (omega (arith, q))),
            ))
      ],
    )
