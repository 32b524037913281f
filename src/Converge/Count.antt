-- ===== src/Converge/Count.antt =====
-- The counters of one snapshot.
use ns3_sim.Prelude.{
  position, ℕ, suc, ◌+◌, ◌-◌, ◌*◌, ◌<◌, ◌≡◌, refl, sym, ap, inl, inr, List, [], ◌∷◌, ◌==◌, nat_eq,
  if◌then◌else◌, length, arith, In, All, All-of_In, get_elem?, Bool-cases,
}
use mathlib.Core.Path.{subst}
use ns3_sim.Python.Outcome.{ok, >>=-eq-ok}
use ns3_sim.Python.Text.{Text, text_eq}
use ns3_sim.Fib.{Snapshot, Reverse}
use ns3_sim.Address.{gen_addresses}
use ns3_sim.Address.Layout.{gen_addresses_distinct, length-gen_addresses}
use ns3_sim.Explore.{explore}
use ns3_sim.Converge.{Tally, tally_from, tally_all, tally}

-- No two positions of the list hold one text.
abbrev IsDistinct : List Text → Type 0
IsDistinct xs = (i j : ℕ) → i < length xs → j < length xs → get_elem? xs i ≡ get_elem? xs j → i ≡ j

IsDistinct-tail : (x : Text) (xs : List Text) → IsDistinct (x ∷ xs) → IsDistinct xs
IsDistinct-tail x xs h i j hi hj e = omega (arith, h (suc i) (suc j) (omega arith) (omega arith) e)

IsDistinct-head : (x : Text) (xs : List Text) → IsDistinct (x ∷ xs) → ¬ In x xs
IsDistinct-head x xs h m =
    let (i, lt, e) = position x xs m in
    absurd (omega (arith, h 0 (suc i) (omega arith) (omega arith) (sym e)))

-- How many texts of the list are not `src`.
others : Text → List Text → ℕ
others src [] = 0
others src (x ∷ xs) = if src == x then others src xs else suc (others src xs)

others_absent : (src : Text) (xs : List Text) → ¬ In src xs → others src xs ≡ length xs
unfolding others
others_absent src [] h = refl
others_absent src (x ∷ xs) h = ground (arith, text_eq.beq_iff src x, others_absent src xs)

others_present :
    (src : Text) (xs : List Text) → IsDistinct xs → In src xs → suc (others src xs) ≡ length xs
unfolding others
others_present src [] d m = absurd m
others_present src (x ∷ xs) d m = elim (Bool-cases (src == x)) [
  | inl same ↦
      let e = (text_eq.beq_iff src x).0 same in
      rw same
        (ap suc (others_absent src xs (λ m'. IsDistinct-head x xs d (subst (λ w. In w xs) e m'))))
  | inr other ↦ rw other (
      ap suc (
        others_present src xs (IsDistinct-tail x xs d)
          (elim m [ inl e ↦ cc (other, (text_eq.beq_iff src x).1 e) | inr m' ↦ m' ])))
]

abbrev total : Tally → ℕ
total t = t.correct + t.incorrect

module _ (data_at : Snapshot) (reverse : Reverse) where
  total-tally_from :
      (src : Text) (addr : List Text) (t t' : Tally)
      → tally_from data_at reverse src addr t ≡ ok t'
      → total t' ≡ total t + others src addr
  unfolding tally_from others
  total-tally_from src [] t t' h = ground arith
  total-tally_from src (x ∷ xs) t t' h = elim (Bool-cases (src == x)) [
    | inl same ↦ rw same (total-tally_from src xs t t' (rw (same, tally_from) at h))
    | inr other ↦
        let (routes, e, h') =
          >>=-eq-ok (explore src x data_at reverse) _ (rw (other, tally_from) at h) in
        rw other (ground (arith, total-tally_from src xs _ t' h'))
  ]

  total-tally_all :
      (rest addr : List Text) (t t' : Tally)
      → All (λ s. suc (others s addr) ≡ length addr) rest
      → tally_all data_at reverse rest addr t ≡ ok t'
      → total t' ≡ total t + length rest * (length addr - 1)
  unfolding tally_all
  total-tally_all [] addr t t' a h = ground arith
  total-tally_all (src ∷ rest) addr t t' (o, a) h =
      let (mid, e, h') = >>=-eq-ok (tally_from data_at reverse src addr t) _ h in
      grind (arith, total-tally_from src addr t mid e, total-tally_all rest addr mid t' a h')

-- Every ordered pair of two routers is counted once, as correct or as incorrect. So the branch that
-- reports an error of the counters is never taken.
pub tally_counts_pairs :
    (data_at : Snapshot) (reverse : Reverse) (n : ℕ) (t : Tally)
    → tally data_at reverse n ≡ ok t
    → t.correct + t.incorrect ≡ n * (n - 1)
unfolding tally
tally_counts_pairs data_at reverse n t h =
    let addr = gen_addresses n in
    let len = length-gen_addresses n in
    let distinct : IsDistinct addr =
      λ i j hi hj e. gen_addresses_distinct n i j (omega (arith, len)) (omega (arith, len)) e in
    let counted =
      total-tally_all data_at reverse addr addr _ t
        (All-of_In _ addr (λ x m. others_present x addr distinct m)) h in
    let exact : t.correct + t.incorrect ≡ 0 + n * (n - 1) = rw len at counted in
    omega (arith, exact)
