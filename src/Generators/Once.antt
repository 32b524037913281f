-- ===== src/Generators/Once.antt =====
-- The lines of a ring and of a mesh are all different, and join different nodes in both directions.
use mathlib.Core.Path.{subst}
use ns3_sim.Prelude.{
  ℕ, zero, suc, ◌+◌, ◌≤◌, ◌<◌, ◌≡◌, ◌≢◌, refl, sym, ap, ◌∙◌, ◌↔◌, inl, inr, ◌==◌, nat_eq, List, ◌∷◌,
  arith, In, In-append, IsOnce, IsOnce-append, Bool-cases,
}
use ns3_sim.Generators.{Line, line, ring_dst, ring_from, ring, mesh_row, mesh_from, mesh}
use ns3_sim.Generators.Mesh.{same_src, In-mesh_row, In-mesh_from, In-mesh}
use ns3_sim.Generators.Ring.{IsEdge, In-ring_from}

-- The line in the other direction.
abbrev pub swap : Line → Line
swap l = record l { src = l.dst; dst = l.src }

abbrev IsPlain : Line → Type 0
IsPlain l = l ≡ line l.src l.dst

-- A file whose lines join different nodes, none twice, each with its other direction.
pub record IsTwoWay (lines : List Line) : Type 0 where
  pub once : IsOnce lines
  pub ends : (l : Line) → In l lines → l.src ≢ l.dst
  pub back : (l : Line) → In l lines → In (swap l) lines

IsPlain-of : (l : Line) (a b : ℕ) → l ≡ line a b → IsPlain l
IsPlain-of l a b e = subst IsPlain (sym e) refl

ring_from-IsPlain : (n i k : ℕ) (l : Line) → In l (ring_from n i k) → IsPlain l
unfolding ring_from
ring_from-IsPlain n i zero l m = absurd m
ring_from-IsPlain n i (suc k) l (inl e) = IsPlain-of l _ _ e
ring_from-IsPlain n i (suc k) l (inr (inl e)) = IsPlain-of l _ _ e
ring_from-IsPlain n i (suc k) l (inr (inr m)) = ring_from-IsPlain n (i + 1) k l m

ring_dst-ne :
    (n i : ℕ) → 3 ≤ n → i < n → (ring_dst n (i + 1) ≢ i) × (i ≢ ring_dst n (ring_dst n (i + 1) + 1))
unfolding ring_dst
ring_dst-ne n i h lt = (λ e. absurd (ground arith), λ e. absurd (ground arith))

ring_from-IsOnce : (n i k : ℕ) → 3 ≤ n → i + k ≤ n → IsOnce (ring_from n i k)
unfolding ring_from
ring_from-IsOnce n i zero h le = tt
ring_from-IsOnce n i (suc k) h le =
    let dst = ring_dst n (i + 1) in
    let (off, far) = ring_dst-ne n i h (omega (arith, le)) in
    let later = ring_from-IsOnce n (i + 1) k h (omega (arith, le)) in
    (
      λ m. elim m [
        | inl e ↦ off (sym (same_src e))
        | inr m' ↦ elim ((In-ring_from n (i + 1) k i dst).0 m') [
          | inl (p, q, r) ↦ absurd (omega (arith, p))
          | inr (p, q, r) ↦ far r
        ]
      ],
      (
        λ m. elim ((In-ring_from n (i + 1) k dst i).0 m) [
          | inl (p, q, r) ↦ far r
          | inr (p, q, r) ↦ absurd (omega (arith, p))
        ],
        later,
      ),
    )

-- The two directions of an edge stand together.
two_way :
    (lines : List Line) (Joins : ℕ → ℕ → Type 0)
    → IsOnce lines
    → ((l : Line) → In l lines → IsPlain l)
    → ((a b : ℕ) → In (line a b) lines ↔ Joins a b)
    → ((a b : ℕ) → Joins a b → (a ≢ b) × Joins b a)
    → IsTwoWay lines
two_way lines Joins once plain joins both = record {
  once = once;
  ends = λ l m. (both l.src l.dst (joined l m)).0;
  back = λ l m.
      subst (λ x. In x lines) (sym (ap swap (plain l m)))
        ((joins l.dst l.src).1 (both l.src l.dst (joined l m)).1);
}
  where
    joined : (l : Line) → In l lines → Joins l.src l.dst
    joined l m = (joins l.src l.dst).0 (subst (λ x. In x lines) (plain l m) m)

-- The ring of three or more nodes.
pub ring-IsTwoWay : (n : ℕ) → 3 ≤ n → IsTwoWay (ring n)
unfolding ring
ring-IsTwoWay n h =
    two_way (ring n) (IsEdge n 0 n) (ring_from-IsOnce n 0 n h (omega arith))
      (λ l m. ring_from-IsPlain n 0 n l m) (λ a b. In-ring_from n 0 n a b)
      λ a b e. elim e [
        | inl (p, q, r) ↦
            (λ z. (ring_dst-ne n a h (omega (arith, q))).0 (sym r ∙ sym z), inr (p, q, r))
        | inr (p, q, r) ↦ (λ z. (ring_dst-ne n b h (omega (arith, q))).0 (sym r ∙ z), inl (p, q, r))
      ]

mesh_row-IsPlain : (i j k : ℕ) (l : Line) → In l (mesh_row i j k) → IsPlain l
unfolding mesh_row
mesh_row-IsPlain i j zero l m = absurd m
mesh_row-IsPlain i j (suc k) l m = elim (Bool-cases (i == j)) [
  | inl same ↦ mesh_row-IsPlain i (j + 1) k l (rw (same, mesh_row) at m)
  | inr other ↦
      let m' : In l (line i j ∷ mesh_row i (j + 1) k) = rw (other, mesh_row) at m in
      elim m' [ inl e ↦ IsPlain-of l i j e | inr later ↦ mesh_row-IsPlain i (j + 1) k l later ]
]

mesh_from-IsPlain : (n i k : ℕ) (l : Line) → In l (mesh_from n i k) → IsPlain l
unfolding mesh_from
mesh_from-IsPlain n i zero l m = absurd m
mesh_from-IsPlain n i (suc k) l m = elim (In-append l (mesh_row i 0 n) (mesh_from n (i + 1) k) m) [
  | inl m' ↦ mesh_row-IsPlain i 0 n l m'
  | inr m' ↦ mesh_from-IsPlain n (i + 1) k l m'
]

mesh_row-IsOnce : (i j k : ℕ) → IsOnce (mesh_row i j k)
unfolding mesh_row
mesh_row-IsOnce i j zero = tt
mesh_row-IsOnce i j (suc k) = elim (Bool-cases (i == j)) [
  | inl same ↦ rw (same, mesh_row) (mesh_row-IsOnce i (j + 1) k)
  | inr other ↦
      rw (other, mesh_row)
        (
          λ m. let (p, q, r, s) = (In-mesh_row i (j + 1) k i j).0 m in absurd (omega (arith, r)),
          mesh_row-IsOnce i (j + 1) k,
        )
]

mesh_from-IsOnce : (n i k : ℕ) → IsOnce (mesh_from n i k)
unfolding mesh_from
mesh_from-IsOnce n i zero = tt
mesh_from-IsOnce n i (suc k) =
    IsOnce-append (mesh_row i 0 n) (mesh_from n (i + 1) k) (mesh_row-IsOnce i 0 n)
      (mesh_from-IsOnce n (i + 1) k)
      λ l m m'.
        let plain = mesh_row-IsPlain i 0 n l m in
        let row = (In-mesh_row i 0 n l.src l.dst).0 (subst (λ x. In x (mesh_row i 0 n)) plain m) in
        let later =
          (In-mesh_from n (i + 1) k l.src l.dst).0
            (subst (λ x. In x (mesh_from n (i + 1) k)) plain m') in
        absurd (omega (arith, row.0, later.0))

pub mesh-IsTwoWay : (n : ℕ) → IsTwoWay (mesh n)
unfolding mesh
mesh-IsTwoWay n =
    two_way (mesh n) (λ a b. (a < n) × (b < n) × (a ≢ b)) (mesh_from-IsOnce n 0 n)
      (λ l m. mesh_from-IsPlain n 0 n l m) (λ a b. In-mesh n a b)
      (λ a b (p, q, r). (r, (q, p, λ e. r (sym e))))
