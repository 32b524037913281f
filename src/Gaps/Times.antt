-- ===== src/Gaps/Times.antt =====
-- The convergence times.
use mathlib.Core.Path.{subst}
use ns3_sim.Prelude.{
  ℕ, ◌≡◌, ◌≢◌, refl, sym, ap, inl, inr, Bool, true, Option, some, List, [], ◌∷◌, In, In_of_All,
  arith, nat_eq,
}
use ns3_sim.Prelude.Int.{ℤ, pos, ◌-ℤ◌, ◌≤ℤ◌, leb_ℤ, leb_ℤ→le}
use ns3_sim.Python.Outcome.{ok, index, >>=-eq-ok}
use ns3_sim.Python.Dict.{Dict, lookup, insert, Entries, Entries-insert, Entries-lookup}
use ns3_sim.Python.Sorting.{sorted, IsTotalOrder, IsSorted, sorted-IsSorted, In-sorted}
use ns3_sim.Python.Text.{Text}
use ns3_sim.Gaps.{Gap, iconvert}
use ns3_sim.Gaps.Assign.{
  fit, collect_gaps, lowest, highest, milliseconds, convergence, converge_time,
}
use ns3_sim.Gaps.Fits.{Covers, collect_gaps-Entries}

-- The head of a sorted list, and that it is least.
module _ (le : Gap → Gap → Bool) (order : IsTotalOrder le) where
  record Least (gaps : List Gap) (g : Gap) : Type 0 where
    member : In g gaps
    least : (h : Gap) → In h gaps → le g h ≡ true

  le_self : (g : Gap) → le g g ≡ true
  le_self g = elim (order.total g g) [ inl h ↦ h | inr h ↦ h ]

  sorted_head : (gaps : List Gap) (g : Gap) → index (sorted le gaps) 0 ≡ ok g → Least gaps g
  sorted_head gaps g h = go (sorted le gaps) refl h
    where
      go : (xs : List Gap) → sorted le gaps ≡ xs → index xs 0 ≡ ok g → Least gaps g
      go [] e h' = cc
      go (x ∷ xs) e h' =
          let same : x ≡ g = cc h' in
          let is_sorted : IsSorted le (x ∷ xs) =
            subst (IsSorted le) e (sorted-IsSorted le order gaps) in
          subst (Least gaps) same (record {
            member = (In-sorted le x gaps).0 (subst (In x) (sym e) (inl refl));
            least = λ k m.
                In_of_All (λ y. le x y ≡ true) (x ∷ xs) k (le_self x, is_sorted.0)
                  (subst (In k) e ((In-sorted le k gaps).1 m));
          })

by_low : IsTotalOrder (λ (x y : Gap). leb_ℤ x.low y.low)
by_low = record { total = λ x y. ground arith; trans = λ x y z p q. ground arith }

by_high : IsTotalOrder (λ (x y : Gap). leb_ℤ y.high x.high)
by_high = record { total = λ x y. ground arith; trans = λ x y z p q. ground arith }

-- `ms` milliseconds lie between the first lower bound and the last upper bound of the gaps of the
-- failure, which has its instant between the two.
pub record Spans (fail : ℕ) (gaps : List Gap) (ms : ℤ) : Type 0 where
  pub first : Gap
  pub first_member : In first gaps
  pub is_first : (g : Gap) → In g gaps → first.low ≤ℤ g.low
  pub last : Gap
  pub last_member : In last gaps
  pub is_last : (g : Gap) → In g gaps → g.high ≤ℤ last.high
  pub begins : first.low ≤ℤ iconvert fail
  pub ends : iconvert fail ≤ℤ last.high
  pub is_span : ms ≡ milliseconds first.low last.high
  pub nonneg : pos 0 ≤ℤ ms

fit_bounds :
    (fail : ℕ) (g : Gap) → fit fail g ≡ true → (g.low ≤ℤ iconvert fail) × (iconvert fail ≤ℤ g.high)
unfolding fit
fit_bounds fail g h = ground arith

milliseconds_nonneg : (low high : ℤ) → low ≤ℤ high → pos 0 ≤ℤ milliseconds low high
unfolding milliseconds ◌-ℤ◌
milliseconds_nonneg low high h = ground arith

Spans-of_Covers :
    (fail : ℕ) (gaps : List Gap) (low high : ℤ)
    → Covers fail gaps
    → lowest gaps ≡ ok low
    → highest gaps ≡ ok high
    → Spans fail gaps (milliseconds low high)
unfolding lowest highest
Spans-of_Covers fail gaps low high covers hl hh =
    let (first, at_first, el) = >>=-eq-ok (index (sorted (λ x y. leb_ℤ x.low y.low) gaps) 0) _ hl in
    let (last, at_last, eh) = >>=-eq-ok (index (sorted (λ x y. leb_ℤ y.high x.high) gaps) 0) _ hh in
    let a = sorted_head (λ x y. leb_ℤ x.low y.low) by_low gaps first at_first in
    let b = sorted_head (λ x y. leb_ℤ y.high x.high) by_high gaps last at_last in
    let fits = λ (g : Gap) (m : In g gaps).
      fit_bounds fail g (In_of_All (λ h. fit fail h ≡ true) gaps g covers.all_fit m) in
    let low_is : first.low ≡ low = cc el in
    let high_is : last.high ≡ high = cc eh in
    let begins = (fits first a.member).0 in
    let ends = (fits last b.member).1 in
    let from_low : low ≤ℤ iconvert fail = subst (λ x. x ≤ℤ iconvert fail) low_is begins in
    let to_high : iconvert fail ≤ℤ high = subst (λ x. iconvert fail ≤ℤ x) high_is ends in
    record {
      first = first;
      first_member = a.member;
      is_first = λ g m. leb_ℤ→le first.low g.low (a.least g m);
      last = last;
      last_member = b.member;
      is_last = λ g m. leb_ℤ→le g.high last.high (b.least g m);
      begins = begins;
      ends = ends;
      is_span = rw (low_is, high_is);
      nonneg = milliseconds_nonneg low high (omega (arith, from_low, to_high));
    }

-- A convergence time comes from an entry of `all_gaps`.
pub record Timed (all : Dict ℕ (List Gap)) (fail : ℕ) (ms : ℤ) : Type 0 where
  pub gaps : List Gap
  pub entry : In (fail, gaps) all
  pub spans : Spans fail gaps ms

convergence-Entries :
    (all : Dict ℕ (List Gap)) (result r : Dict ℕ ℤ) (rest : Dict ℕ (List Gap))
    → ((e : ℕ × List Gap) → In e rest → In e all)
    → Entries Covers rest
    → Entries (Timed all) result
    → convergence result rest ≡ ok r
    → Entries (Timed all) r
unfolding convergence
convergence-Entries all result r [] sub covers h e =
    let same : result ≡ r = cc e in subst (Entries (Timed all)) same h
convergence-Entries all result r ((key, value) ∷ rest) sub (c, covers) h e =
    let (low, el, e1) = >>=-eq-ok (lowest value) _ e in
    let (high, eh, e2) = >>=-eq-ok (highest value) _ e1 in
    convergence-Entries all (insert key (milliseconds low high) result) r rest
      (λ x m. sub x (inr m)) covers
      (Entries-insert (Timed all) key (milliseconds low high) result
        (record {
          gaps = value;
          entry = sub (key, value) (inl refl);
          spans = Spans-of_Covers key value low high c el eh;
        })
        h)
      e2

-- The convergence time that is reported for a failure comes from its entry in `all_gaps`: it is the
-- number of whole milliseconds from the first lower bound to the last upper bound of its gaps, the
-- failure's instant lies between these two, and the time is not negative.
pub converge_time_spans :
    (logs : List (Text × Option Text)) (r : Dict ℕ ℤ) (fail : ℕ) (ms : ℤ)
    → converge_time logs ≡ ok r
    → lookup fail r ≡ some ms
    → (all : Dict ℕ (List Gap)) × (collect_gaps [] logs ≡ ok all) × Timed all fail ms
unfolding converge_time
converge_time_spans logs r fail ms h there =
    let (all, e, h') = >>=-eq-ok (collect_gaps [] logs) _ h in
    (
      all,
      e,
      Entries-lookup (Timed all) fail r
          (convergence-Entries all [] r all (λ x m. m) (collect_gaps-Entries [] all logs tt e) tt
            h')
          there,
    )

head_returns :
    (le : Gap → Gap → Bool) (gaps : List Gap)
    → gaps ≢ []
    → (g : Gap) × (index (sorted le gaps) 0 ≡ ok g)
head_returns le [] h = absurd (h refl)
head_returns le (x ∷ gaps) h = go (sorted le (x ∷ gaps)) refl
  where
    go :
        (xs : List Gap)
        → sorted le (x ∷ gaps) ≡ xs
        → (g : Gap) × (index (sorted le (x ∷ gaps)) 0 ≡ ok g)
    go [] e = absurd (subst (In x) e ((In-sorted le x (x ∷ gaps)).1 (inl refl)))
    go (y ∷ ys) e = (y, ap (λ l. index l 0) e)

convergence_returns :
    (result : Dict ℕ ℤ) (all : Dict ℕ (List Gap))
    → Entries Covers all
    → (r : Dict ℕ ℤ) × (convergence result all ≡ ok r)
unfolding convergence lowest highest
convergence_returns result [] h = (result, refl)
convergence_returns result ((key, value) ∷ rest) (c, h) =
    let (first, e) = head_returns (λ x y. leb_ℤ x.low y.low) value c.some_gap in
    let (last, e') = head_returns (λ x y. leb_ℤ y.high x.high) value c.some_gap in
    let (r, done) =
      convergence_returns (insert key (milliseconds first.low last.high) result) rest h in
    (r, rw e (rw e' done))

-- When every log can be read, the convergence times are returned: no list of gaps is empty, so no
-- subscript is out of range.
pub converge_time_returns :
    (logs : List (Text × Option Text)) (all : Dict ℕ (List Gap))
    → collect_gaps [] logs ≡ ok all
    → (r : Dict ℕ ℤ) × (converge_time logs ≡ ok r)
unfolding converge_time
converge_time_returns logs all e =
    let (r, h) = convergence_returns [] all (collect_gaps-Entries [] all logs tt e) in (r, rw e h)
