-- ===== src/Converge/Served.antt =====
-- When a snapshot counts as converged.
use ns3_sim.Prelude.{
  ℕ, ◌-◌, ◌*◌, ◌≤◌, ◌≡◌, ◌≢◌, inl, inr, ◌↔◌, false, List, [], ◌∷◌, ◌==◌, nat_eq, arith, In, All,
  In_of_All, All-of_In, Bool-cases,
}
use mathlib.Core.Path.{◌∙◌}
use ns3_sim.Python.Outcome.{ok, >>=-eq-ok}
use ns3_sim.Python.Text.{Text, text_eq}
use ns3_sim.Fib.{Snapshot, Reverse}
use ns3_sim.Address.{gen_addresses}
use ns3_sim.Explore.{Item, explore}
use ns3_sim.Converge.{Tally, is_valid, tally_from, tally_all, tally}
use ns3_sim.Converge.Valid.{IsRoute, is_valid_iff}
use ns3_sim.Converge.Count.{tally_counts_pairs}

module _ (data_at : Snapshot) (reverse : Reverse) where
  -- The search from `src` to `dst` returns routes alone, and at least one.
  pub record IsServed (src dst : Text) : Type 0 where
    pub items : List Item
    pub search : explore src dst data_at reverse ≡ ok items
    pub some_item : items ≢ []
    pub all_routes : All IsRoute items

  abbrev pub ServesAll : Text → List Text → Type 0
  ServesAll src = All (λ dst. src ≢ dst → IsServed src dst)

  not-IsServed :
      (src dst : Text) {items : List Item}
      → explore src dst data_at reverse ≡ ok items
      → is_valid items ≡ false
      → ¬ IsServed src dst
  not-IsServed src dst {items} found bad s =
      let same : s.items ≡ items = cc (s.search, found) in
      cc ((is_valid_iff s.items).1 (s.some_item, s.all_routes), same, bad)

  incorrect-tally_from :
      (src : Text) (addr : List Text) (t t' : Tally)
      → tally_from data_at reverse src addr t ≡ ok t'
      → (t.incorrect ≤ t'.incorrect) × ((t'.incorrect ≡ t.incorrect) ↔ ServesAll src addr)
  unfolding tally_from
  incorrect-tally_from src [] t t' h = (ground arith, (λ _. tt, λ _. ground arith))
  incorrect-tally_from src (dst ∷ rest) t t' h = elim (Bool-cases (src == dst)) [
    | inl same ↦
        let (le, iff) = incorrect-tally_from src rest t t' (rw (same, tally_from) at h) in
        let e = (text_eq.beq_iff src dst).0 same in
        (le, (λ i. (λ n. absurd (n e), iff.0 i), λ a. iff.1 a.1))
    | inr other ↦
        let (items, found, h') =
          >>=-eq-ok (explore src dst data_at reverse) _ (rw (other, tally_from) at h) in
        elim (Bool-cases (is_valid items)) [
          | inl good ↦
              let (le, iff) = incorrect-tally_from src rest _ t' (rw good at h') in
              (
                le,
                (
                  λ i. (
                    λ n. record {
                      items = items;
                      search = found;
                      some_item = ((is_valid_iff items).0 good).0;
                      all_routes = ((is_valid_iff items).0 good).1;
                    },
                    iff.0 i,
                  ),
                  λ a. iff.1 a.1,
                ),
              )
          | inr bad ↦
              let (le, iff) = incorrect-tally_from src rest _ t' (rw bad at h') in
              (
                omega (arith, le),
                (
                  λ i. absurd (omega (arith, le)),
                  λ a. absurd (
                      not-IsServed src dst found bad
                        (a.0 (λ e. cc (other, (text_eq.beq_iff src dst).1 e)))),
                ),
              )
        ]
  ]

  incorrect-tally_all :
      (rest addr : List Text) (t t' : Tally)
      → tally_all data_at reverse rest addr t ≡ ok t'
      → (t.incorrect ≤ t'.incorrect)
        × ((t'.incorrect ≡ t.incorrect) ↔ All (λ src. ServesAll src addr) rest)
  unfolding tally_all
  incorrect-tally_all [] addr t t' h = (ground arith, (λ _. tt, λ _. ground arith))
  incorrect-tally_all (src ∷ rest) addr t t' h =
      let (mid, e, h') = >>=-eq-ok (tally_from data_at reverse src addr t) _ h in
      let (le, iff) = incorrect-tally_from src addr t mid e in
      let (le', iff') = incorrect-tally_all rest addr mid t' h' in
      (
        omega (arith, le, le'),
        (
          λ i. (iff.0 (omega (arith, le, le', i)), iff'.0 (omega (arith, le, le', i))),
          λ a. iff'.1 a.1 ∙ iff.1 a.0,
        ),
      )

-- A snapshot counts as converged, that is, all pairs are counted as correct, exactly when the search
-- from each router to each other one returns routes alone, and at least one.
pub tally_correct_iff :
    (data_at : Snapshot) (reverse : Reverse) (n : ℕ) (t : Tally)
    → tally data_at reverse n ≡ ok t
    → (t.correct ≡ n * (n - 1)) ↔ (
        (src dst : Text)
        → In src (gen_addresses n)
        → In dst (gen_addresses n)
        → src ≢ dst
        → IsServed data_at reverse src dst)
unfolding tally
tally_correct_iff data_at reverse n t h =
    let addr = gen_addresses n in
    let all = tally_counts_pairs data_at reverse n t (unfold tally in h) in
    let (le, iff) = incorrect-tally_all data_at reverse addr addr _ t h in
    (
      λ c src dst ms md off.
          In_of_All _ addr dst (In_of_All _ addr src (iff.0 (omega (arith, all, c))) ms) md off,
      λ each.
          let zero_incorrect = iff.1 (
            All-of_In _ addr (λ src ms. All-of_In _ addr (λ dst md off. each src dst ms md off))) in
          omega (arith, all, zero_incorrect),
    )
