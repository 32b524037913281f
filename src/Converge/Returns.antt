-- ===== src/Converge/Returns.antt =====
-- The evaluation of collected tables comes to a result.
use mathlib.Core.Path.{subst}
use ns3_sim.Prelude.{
  ℕ, zero, suc, ◌+◌, ◌-◌, ◌*◌, ◌<◌, ◌≡◌, refl, sym, ap, ◌⊎◌, inl, inr, Bool, true, false, some,
  List, [], ◌∷◌, ◌==◌, nat_eq, if◌then◌else◌, length, In, All, arith, Bool-cases,
}
use ns3_sim.Python.Outcome.{ok, key_error, or_raise, index, last, traverse, ◌>>=◌}
use ns3_sim.Python.Dict.{Dict, lookup, insert, keys, lookup_of_In-keys, In-keys-insert}
use ns3_sim.Python.Sorting.{sorted, In-sorted}
use ns3_sim.Python.Float.{Floats}
use ns3_sim.Python.Text.{Text, text_eq}
use ns3_sim.Fib.{Snapshot, Reverse}
use ns3_sim.Address.{gen_addresses}
use ns3_sim.Explore.{Item, explore}
use ns3_sim.Converge.{
  instant_or_minus_one, first_incorrect, newest_first, instant_of_convergence, is_valid, Tally,
  tally_from, tally_all, tally, judge, oldest_first, convergence_of,
}
use ns3_sim.Converge.Count.{tally_counts_pairs}
use ns3_sim.Converge.Listing.{newest_first-Listing}

module _ (data_at : Snapshot) (reverse : Reverse) where
  abbrev pub Explored : Text → Text → Type 0
  Explored src dst = (routes : List Item) × (explore src dst data_at reverse ≡ ok routes)

  tally_from_returns :
      (src : Text) (rest : List Text) (t : Tally)
      → ((dst : Text) → In dst rest → Explored src dst)
      → (t' : Tally) × (tally_from data_at reverse src rest t ≡ ok t')
  unfolding tally_from
  tally_from_returns src [] t h = (t, refl)
  tally_from_returns src (dst ∷ rest) t h = elim (Bool-cases (src == dst)) [
    | inl same ↦
        let (t', e) = tally_from_returns src rest t (λ d m. h d (inr m)) in
        (t', rw (same, tally_from) e)
    | inr other ↦
        let (routes, e) = h dst (inl refl) in
        let (t', e') = tally_from_returns src rest (counted routes) (λ d m. h d (inr m)) in
        (t', rw (other, tally_from) (rw e e'))
  ]
    where
      counted : List Item → Tally
      counted routes =
          if is_valid routes
          then record t { correct = t.correct + 1 }
          else record t { incorrect = t.incorrect + 1 }

  tally_all_returns :
      (srcs addr : List Text) (t : Tally)
      → ((src dst : Text) → In src srcs → In dst addr → Explored src dst)
      → (t' : Tally) × (tally_all data_at reverse srcs addr t ≡ ok t')
  unfolding tally_all
  tally_all_returns [] addr t h = (t, refl)
  tally_all_returns (src ∷ srcs) addr t h =
      let (mid, e) = tally_from_returns src addr t (λ d m. h src d (inl refl) m) in
      let (t', e') = tally_all_returns srcs addr mid (λ s d ms md. h s d (inr ms) md) in
      (t', rw e e')

  tally_returns :
      (n : ℕ)
      → ((src dst : Text) → In src (gen_addresses n) → In dst (gen_addresses n) → Explored src dst)
      → (t : Tally) × (tally data_at reverse n ≡ ok t)
  unfolding tally
  tally_returns n h = tally_all_returns (gen_addresses n) (gen_addresses n) _ h

module _ {A : Type 0} where
  last_returns : (x : A) (xs : List A) → (y : A) × (last (x ∷ xs) ≡ ok y)
  last_returns x [] = (x, refl)
  last_returns x (y ∷ xs) = last_returns y xs

  index_returns : (xs : List A) (i : ℕ) → i < length xs → (y : A) × (index xs i ≡ ok y)
  index_returns [] i h = absurd (omega arith)
  index_returns (x ∷ xs) zero h = (x, refl)
  index_returns (x ∷ xs) (suc i) h = index_returns xs i (omega arith)

module _ (floats : Floats) where
  open floats use {Float, float_eq, le}

  first_incorrect_returns :
      (x : Float × Bool) (xs : List (Float × Bool)) (idx : ℕ) (rest : List (Float × Bool))
      → idx + length rest ≡ length (x ∷ xs)
      → (t : Float) × (first_incorrect floats (x ∷ xs) idx rest ≡ ok t)
  unfolding first_incorrect
  first_incorrect_returns x xs idx [] h =
      let (y, e) = last_returns x xs in (instant_or_minus_one floats y, rw e refl)
  first_incorrect_returns x xs idx ((time, true) ∷ rest) h =
      first_incorrect_returns x xs (idx + 1) rest (omega (arith, h))
  first_incorrect_returns x xs zero ((time, false) ∷ rest) h =
      let (y, e) = last_returns x xs in (instant_or_minus_one floats y, rw e refl)
  first_incorrect_returns x xs (suc i) ((time, false) ∷ rest) h =
      let (y, e) = index_returns (x ∷ xs) i (omega (arith, h)) in
      (instant_or_minus_one floats y, rw e refl)

  instant_of_convergence_returns :
      (raw_data : Dict Float Bool) (t : Float)
      → In t (keys raw_data)
      → (instant : Float) × (instant_of_convergence floats raw_data ≡ ok instant)
  unfolding instant_of_convergence newest_first
  instant_of_convergence_returns raw_data t m =
      let l = newest_first-Listing floats raw_data in
      let (v, there) = lookup_of_In-keys ⦃e = float_eq⦄ t raw_data m in
      let found = l.complete t v ((In-sorted (λ x y. le y x) t (keys raw_data)).1 m) there in
      let (instant, e) = from l.recent (t, v) found in (instant, rw (l.built) e)
    where
      from :
          (recent : List (Float × Bool)) (p : Float × Bool)
          → In p recent
          → (instant : Float) × (first_incorrect floats recent 0 recent ≡ ok instant)
      from [] p m = absurd m
      from (x ∷ xs) p m = first_incorrect_returns x xs 0 (x ∷ xs) (omega arith)

  module _ (fibs : Dict Float Snapshot) (reverse : Reverse) (n : ℕ) where
    abbrev IsTaken : Float × Snapshot → Type 0
    IsTaken p = lookup ⦃e = float_eq⦄ p.0 fibs ≡ some p.1

    -- Each search between two of the `n` routers comes to an end, in each snapshot.
    abbrev pub AllExplored : Type 0
    AllExplored =
        (time : Float) (data_at : Snapshot)
        → lookup ⦃e = float_eq⦄ time fibs ≡ some data_at
        → (src dst : Text) → In src (gen_addresses n)
        → In dst (gen_addresses n)
        → Explored data_at reverse src dst

    oldest_returns :
        (ts : List Float)
        → ((t : Float) → In t ts → In t (keys fibs))
        → (l : List (Float × Snapshot)) × (traverse
              (λ t. do data_at ← or_raise key_error (lookup ⦃e = float_eq⦄ t fibs); ok (t, data_at))
              ts
            ≡ ok l)
          × All IsTaken l
          × (keys l ≡ ts)
    unfolding traverse
    oldest_returns [] h = ([], refl, tt, refl)
    oldest_returns (t ∷ ts) h =
        let (s, there) = lookup_of_In-keys ⦃e = float_eq⦄ t fibs (h t (inl refl)) in
        let (l, e, taken, same) = oldest_returns ts (λ r m. h r (inr m)) in
        ((t, s) ∷ l, rw there (rw e refl), (there, taken), ap (λ (r : List Float). t ∷ r) same)

    judge_returns :
        (snapshots : List (Float × Snapshot)) (result : Dict Float Bool)
        → All IsTaken snapshots
        → AllExplored
        → (r : Dict Float Bool) × (judge floats snapshots reverse n result ≡ ok (some r))
          × ((t : Float) → In t (keys result) ⊎ In t (keys snapshots) → In t (keys r))
    unfolding judge
    judge_returns [] result h explored =
        (result, refl, λ t m. elim m [ inl there ↦ there | inr none_left ↦ absurd none_left ])
    judge_returns ((time, data_at) ∷ rest) result (taken, h) explored =
        let (t, e) = tally_returns data_at reverse n (explored time data_at taken) in
        let exact : nat_eq.beq (t.correct + t.incorrect) (n * (n - 1)) ≡ true =
          (nat_eq.beq_iff _ _).1 (tally_counts_pairs data_at reverse n t e) in
        let (r, e', found) =
          judge_returns rest (insert ⦃e = float_eq⦄ time (t.correct == n * (n - 1)) result) h
            explored in
        (
          r,
          rw e (rw exact e'),
          λ s m. elim m [
            | inl there ↦
                found s (inl ((In-keys-insert ⦃e = float_eq⦄ s time _ result).1 (inr there)))
            | inr (inl at) ↦
                found s (inl ((In-keys-insert ⦃e = float_eq⦄ s time _ result).1 (inl at)))
            | inr (inr m') ↦ found s (inr m')
          ],
        )

    -- When there is a snapshot, and each search comes to an end, there is an instant, never the `(0, -1)`
    -- of an error.
    pub convergence_of_returns :
        (t : Float)
        → In t (keys fibs)
        → AllExplored
        → (instant : Float) × (convergence_of floats fibs reverse n ≡ ok (some instant))
    unfolding convergence_of oldest_first
    convergence_of_returns t m explored =
        let (l, e, taken, same) =
          oldest_returns (sorted le (keys fibs)) (λ s ms. (In-sorted le s (keys fibs)).0 ms) in
        let (r, e', found) = judge_returns l [] taken explored in
        let first : In t (keys l) =
          subst (λ (ts : List Float). In t ts) (sym same) ((In-sorted le t (keys fibs)).1 m) in
        let (instant, e'') = instant_of_convergence_returns r t (found t (inr first)) in
        (instant, rw (e, convergence_of) (rw e' (rw e'' refl)))
