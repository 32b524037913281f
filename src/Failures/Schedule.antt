-- ===== src/Failures/Schedule.antt =====
-- What the list of failures holds, and in which order.
use mathlib.Core.Path.{subst}
use ns3_sim.Prelude.{
  ◌≡◌, refl, sym, ap, ◌⊎◌, inl, inr, Bool, List, [], ◌∷◌, map, arith, In, All, In_of_All, All-of_In,
  IsOnce,
}
use ns3_sim.Prelude.Int.{ℤ, leb_ℤ}
use ns3_sim.Python.Outcome.{ok, traverse}
use ns3_sim.Python.Sorting.{sorted, IsTotalOrder, IsSorted, sorted-IsSorted, In-sorted}
use ns3_sim.Python.Text.{Text, split, drop_last}
use ns3_sim.Failures.{Row, rows_from, keyed, by_metric, timed, failures}
use ns3_sim.Failures.Halves.{flipped, IsLink, IsHalved, Halves}
use ns3_sim.Failures.OneDirection.{one_direction-Halves}

abbrev by_key : ℤ × Row → ℤ × Row → Bool
by_key x y = leb_ℤ x.0 y.0

by_key-IsTotalOrder : IsTotalOrder by_key
by_key-IsTotalOrder = record { total = λ x y. ground arith; trans = λ x y z p q. ground arith }

-- A metric can be read from the row.
abbrev pub HasMetric : Row → Type 0
HasMetric row = (k : ℤ) × (keyed row ≡ ok (k, row))

abbrev IsKeyed : ℤ × Row → Type 0
IsKeyed p = keyed p.1 ≡ ok p

traverse-IsKeyed :
    (ps : List (ℤ × Row)) → All IsKeyed ps → traverse keyed (map (λ p. p.1) ps) ≡ ok ps
unfolding traverse
traverse-IsKeyed [] h = refl
traverse-IsKeyed (p ∷ ps) h = rw (h.0, traverse-IsKeyed ps h.1) refl

-- The keys of rows that have metrics.
record Keys (rows : List Row) : Type 0 where
  pairs : List (ℤ × Row)
  read : traverse keyed rows ≡ ok pairs
  keys_of : All IsKeyed pairs
  rows_of : map (λ p. p.1) pairs ≡ rows

Keys-of_HasMetric : (rows : List Row) → All HasMetric rows → Keys rows
unfolding traverse
Keys-of_HasMetric [] h = record { pairs = []; read = refl; keys_of = tt; rows_of = refl }
Keys-of_HasMetric (row ∷ rows) h =
    let k = Keys-of_HasMetric rows h.1 in
    record {
      pairs = (h.0.0, row) ∷ k.pairs;
      read = rw (h.0.1, k.read) refl;
      keys_of = (h.0.1, k.keys_of);
      rows_of = ap (λ r. row ∷ r) k.rows_of;
    }

In-map :
    (row : Row) (ps : List (ℤ × Row))
    → In row (map (λ p. p.1) ps)
    → (p : ℤ × Row) × In p ps × (row ≡ p.1)
In-map row [] m = absurd m
In-map row (p ∷ ps) (inl e) = (p, inl refl, e)
In-map row (p ∷ ps) (inr m) = let (q, n, e) = In-map row ps m in (q, inr n, e)

In-map_of_In : (p : ℤ × Row) (ps : List (ℤ × Row)) → In p ps → In p.1 (map (λ q. q.1) ps)
In-map_of_In p [] m = absurd m
In-map_of_In p (q ∷ ps) (inl e) = inl (ap (λ r. r.1) e)
In-map_of_In p (q ∷ ps) (inr m) = inr (In-map_of_In p ps m)

-- The rows of the failures, before their times are added.
pub record Schedule (rows b : List Row) : Type 0 where
  pub from : (x : Row) → In x b → In x rows
  pub one : (x : Row) → In x rows → In x b ⊎ In (flipped x) b
  pub halved : IsHalved b
  pub pairs : List (ℤ × Row)
  pub read : traverse keyed b ≡ ok pairs
  pub ordered : IsSorted (λ (x y : ℤ × Row). leb_ℤ x.0 y.0) pairs

by_metric-Schedule :
    (rows out : List Row)
    → All HasMetric out
    → Halves rows out
    → (b : List Row) × (by_metric out ≡ ok b) × Schedule rows b
unfolding by_metric
by_metric-Schedule rows out metrics h =
    let k = Keys-of_HasMetric out metrics in
    let ps = sorted by_key k.pairs in
    let b = map (λ (p : ℤ × Row). p.1) ps in
    let down = λ (x : Row) (m : In x b).
      let (p, n, e) = In-map x ps m in
      let in_pairs = (In-sorted by_key p k.pairs).0 n in
      subst (λ l. In x l) k.rows_of
        (subst (λ y. In y (map (λ q. q.1) k.pairs)) (sym e) (In-map_of_In p k.pairs in_pairs)) in
    let up = λ (x : Row) (m : In x out).
      let (p, n, e) = In-map x k.pairs (subst (In x) (sym k.rows_of) m) in
      subst (λ y. In y b) (sym e) (In-map_of_In p ps ((In-sorted by_key p k.pairs).1 n)) in
    (
      b,
      rw k.read refl,
      record {
        from = λ x m. h.from x (down x m);
        one = λ x m. elim (h.one x m) [ inl n ↦ inl (up x n) | inr n ↦ inr (up (flipped x) n) ];
        halved = λ x m n. h.halved x (down x m) (down (flipped x) n);
        pairs = ps;
        read = traverse-IsKeyed ps (
            All-of_In IsKeyed ps
              (λ p m. In_of_All IsKeyed k.pairs p k.keys_of ((In-sorted by_key p k.pairs).0 m)));
        ordered = sorted-IsSorted by_key by_key-IsTotalOrder k.pairs;
      },
    )

-- A topology file whose lines are links with whole metrics, none twice and each in both directions,
-- gives the failures of exactly one direction of each link, in the order of their metrics.
pub failures-Schedule :
    (text : Text) (rows : List Row)
    → rows_from (drop_last (split 10 text)) ≡ ok rows
    → All IsLink rows
    → IsOnce rows
    → All (λ x. In (flipped x) rows) rows
    → All HasMetric rows
    → (b : List Row) × (failures text ≡ ok (timed 0 b)) × Schedule rows b
unfolding failures
failures-Schedule text rows read links once paired metrics =
    let (out, done, h) = one_direction-Halves rows links once paired in
    let kept = All-of_In HasMetric out (λ x m. In_of_All HasMetric rows x metrics (h.from x m)) in
    let (b, sorted_rows, s) = by_metric-Schedule rows out kept h in
    (b, rw (read, done, sorted_rows) refl, s)
