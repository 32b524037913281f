-- ===== src/Spf/Leaves.antt =====
-- The addresses that each router pings.

use ns3_sim.Prelude.{
  ℕ, zero, suc, ◌+◌, ◌/◌, ◌%◌, ◌≤◌, ◌<◌, ◌≡◌, ◌≢◌, ◌↔◌, refl, sym, ap, ◌∙◌, inl, inr, some, List,
  [], ◌∷◌, ◌==◌, nat_eq, nat_beq_iff, if◌then◌else◌, arith, length, get_elem?, In, Bool-cases,
}
use ns3_sim.Python.Outcome.{ok}
use ns3_sim.Python.Text.{Text}
use ns3_sim.Address.{gen_addresses, address}
use ns3_sim.Address.Layout.{gen_addresses_layout, gen_addresses_distinct}
use ns3_sim.Spf.{leaf_row, leaf_rows, leaves}

-- The address of router `i`.
abbrev pub router : ℕ → Text
router i = address (i / 250) (i % 250 + 1)

-- The addresses of the routers from `i` on, `k` of them, but for router `j`.
abbrev pub others : ℕ → ℕ → ℕ → List Text
others j i zero = []
others j i (suc k) = if i == j then others j (i + 1) k else router i ∷ others j (i + 1) k

leaf_row-others : (n j i k : ℕ) → i + k ≤ n → leaf_row (gen_addresses n) j i k ≡ ok (others j i k)
unfolding leaf_row
leaf_row-others n j i zero h = refl
leaf_row-others n j i (suc k) h =
    let later = leaf_row-others n j (i + 1) k (omega (arith, h)) in
    let here = gen_addresses_layout n i (omega (arith, h)) in
    elim (Bool-cases (i == j)) [
      | inl own ↦ rw (own, later) refl
      | inr other ↦ rw (other, here, later) refl
    ]

leaf_rows-others :
    (n j k i : ℕ)
    → i < k
    → (rows : List (List Text)) × (leaf_rows (gen_addresses n) n j k ≡ ok rows)
      × (length rows ≡ k)
      × (get_elem? rows i ≡ some (others (j + i) 0 n))
unfolding leaf_rows
leaf_rows-others n j zero i h = absurd (omega (arith, h))
leaf_rows-others n j (suc zero) zero h = (
  others j 0 n ∷ [],
  rw (leaf_row-others n j 0 n (omega arith)) refl,
  refl,
  ap (λ x. some (others x 0 n)) (omega arith),
)
leaf_rows-others n j (suc zero) (suc i) h = absurd (omega (arith, h))
leaf_rows-others n j (suc (suc k)) zero h =
    let (rows, e, l, at) = leaf_rows-others n (j + 1) (suc k) 0 (omega arith) in
    (
      others j 0 n ∷ rows,
      rw (leaf_row-others n j 0 n (omega arith)) (rw e refl),
      ap suc l,
      ap (λ x. some (others x 0 n)) (omega arith),
    )
leaf_rows-others n j (suc (suc k)) (suc i) h =
    let (rows, e, l, at) = leaf_rows-others n (j + 1) (suc k) i (omega (arith, h)) in
    (
      others j 0 n ∷ rows,
      rw (leaf_row-others n j 0 n (omega arith)) (rw e refl),
      ap suc l,
      at ∙ ap (λ x. some (others x 0 n)) (omega arith),
    )

-- A router from `i` on, `k` of them, but for router `j`.
record IsOther (j i k : ℕ) (a : Text) : Type 0 where
  at : ℕ
  least : i ≤ at
  most : at < i + k
  differs : at ≢ j
  is_router : a ≡ router at

IsOther-weaken : (j i k : ℕ) (a : Text) → IsOther j (i + 1) k a → IsOther j i (suc k) a
IsOther-weaken j i k a o = record {
  at = o.at;
  least = omega (arith, o.least);
  most = omega (arith, o.most);
  differs = o.differs;
  is_router = o.is_router;
}

IsOther-narrow :
    (j i k : ℕ) (a : Text) (o : IsOther j i (suc k) a) → o.at ≢ i → IsOther j (i + 1) k a
IsOther-narrow j i k a o off = record {
  at = o.at;
  least = omega (arith, o.least, off);
  most = omega (arith, o.most);
  differs = o.differs;
  is_router = o.is_router;
}

In-others : (j i k : ℕ) (a : Text) → In a (others j i k) ↔ IsOther j i k a
In-others j i zero a = (λ m. absurd m, λ o. absurd (omega (arith, o.least, o.most)))
In-others j i (suc k) a =
    let rest = In-others j (i + 1) k a in
    elim (Bool-cases (i == j)) [
      | inl own ↦
          let e : i ≡ j = (nat_beq_iff i j).0 own in
          rw own (
            λ m. IsOther-weaken j i k a (rest.0 m),
            λ o. rest.1 (IsOther-narrow j i k a o (λ z. o.differs (z ∙ e))),
          )
      | inr other ↦
          let ne : i ≢ j = λ e. cc (other, (nat_beq_iff i j).1 e) in
          rw other (
            λ m. elim m [
              | inl at ↦ record {
                at = i;
                least = omega arith;
                most = omega arith;
                differs = ne;
                is_router = at;
              }
              | inr m' ↦ IsOther-weaken j i k a (rest.0 m')
            ],
            λ o. elim (Bool-cases (o.at == i)) [
              | inl here ↦ inl (o.is_router ∙ ap router ((nat_beq_iff o.at i).0 here))
              | inr off ↦
                  inr (rest.1 (IsOther-narrow j i k a o (λ z. cc (off, (nat_beq_iff o.at i).1 z))))
            ],
          )
    ]

-- The row of router `j` lists the addresses of the other routers, and not its own.
pub record PingsOthers (n j : ℕ) (row : List Text) : Type 0 where
  pub others_only :
      (a : Text)
      → In a row ↔ ((i : ℕ) × (i < n) × (i ≢ j) × (get_elem? (gen_addresses n) i ≡ some a))
  pub not_itself : (a : Text) → get_elem? (gen_addresses n) j ≡ some a → ¬ In a row

PingsOthers-others : (n j : ℕ) → j < n → PingsOthers n j (others j 0 n)
PingsOthers-others n j h = record {
  others_only = λ a. (
    λ m.
        let o = (In-others j 0 n a).0 m in
        (
          o.at,
          omega (arith, o.most),
          o.differs,
          gen_addresses_layout n o.at (omega (arith, o.most)) ∙ ap some (sym o.is_router),
        ),
    λ (i, lt, ne, at). (In-others j 0 n a).1 (record {
      at = i;
      least = omega arith;
      most = omega (arith, lt);
      differs = ne;
      is_router = some_eq (sym at ∙ gen_addresses_layout n i lt);
    }),
  );
  not_itself = λ a own m.
      let o = (In-others j 0 n a).0 m in
      o.differs (
        gen_addresses_distinct n o.at j (omega (arith, o.most)) h (
          gen_addresses_layout n o.at (omega (arith, o.most))
          ∙ ap some (sym o.is_router)
          ∙ sym own));
}
  where
    some_eq : {x y : Text} → some x ≡ some y → x ≡ y
    some_eq q = cc

-- For every number of routers the file of the pings has one row for each router, with the addresses of
-- all other routers and not its own; no subscript of the addresses is out of range.
pub leaves-PingsOthers :
    (n j : ℕ)
    → j < n
    → (rows : List (List Text)) × (leaves n ≡ ok rows)
      × (length rows ≡ n)
      × ((row : List Text) × (get_elem? rows j ≡ some row) × PingsOthers n j row)
unfolding leaves
leaves-PingsOthers n j h =
    let (rows, e, l, at) = leaf_rows-others n 0 n j h in
    (
      rows,
      e,
      l,
      (others j 0 n, at ∙ ap (λ x. some (others x 0 n)) (omega arith), PingsOthers-others n j h),
    )
