-- ===== src/Comparison/Verdict.antt =====
-- When the comparison succeeds.

use ns3_sim.Prelude.{
  ◌+◌, ◌≡◌, ◌↔◌, refl, sym, ap, ◌∙◌, ◌⊎◌, inl, inr, List, [], ◌∷◌, ◌==◌, if◌then◌else◌, arith,
  Bool-cases, Option-cases,
}
use ns3_sim.Python.Outcome.{Outcome, ok, raise, system_exit, or_raise, traverse, >>=-eq-ok, ◌>>=◌}
use ns3_sim.Python.Sequence.{remove, SameItems, remove-cases, count-zero}
use ns3_sim.Python.Text.{Text, text_eq}
use ns3_sim.Python.Float.{Floats}
use ns3_sim.TopologyFile.{is_skipped, new_line, kept_lines}
use ns3_sim.Comparison.{strike, compare_topo}

module _ (floats : Floats) (format6 : floats.Float → Text) where
  -- The lines of the file in the form of the generated ones.
  abbrev pub expected : List Text → Outcome (List Text)
  expected lines = traverse (new_line floats format6) (kept_lines lines)

  -- The loop without the lines that it passes over.
  strike_all : List Text → List Text → Outcome (List Text)
  strike_all topo [] = ok topo
  strike_all topo (line ∷ lines) = do
    topo' ← or_raise (system_exit 1) (remove line topo)
    strike_all topo' lines

  strike-strike_all :
      (topo lines news : List Text)
      → expected lines ≡ ok news
      → strike floats format6 topo lines ≡ strike_all topo news
  unfolding strike strike_all traverse
  strike-strike_all topo [] news h = let none_left : news ≡ [] = cc h in rw none_left refl
  strike-strike_all topo (line ∷ lines) news h = elim (Bool-cases (is_skipped line)) [
    | inl skip ↦ rw (skip, strike) (strike-strike_all topo lines news (rw skip at h))
    | inr keep ↦
        let (new, e, h1) = >>=-eq-ok (new_line floats format6 line) _ (rw keep at h) in
        let (news', e', h2) = >>=-eq-ok (expected lines) _ h1 in
        let parts : news ≡ new ∷ news' = cc h2 in
        elim (Option-cases (remove new topo)) [
          | inl missing ↦ rw (keep, strike) (rw (e, parts, missing) refl)
          | inr (topo', there) ↦
              rw (keep, strike) (rw (e, parts, there) (strike-strike_all topo' lines news' e'))
        ]
  ]

  -- What is left over is an exit.
  verdict : List Text → Outcome (Unit {0})
  verdict [] = ok tt
  verdict (line ∷ more) = raise (system_exit 1)

  compare_all : List Text → List Text → Outcome (Unit {0})
  compare_all topo news = do rest ← strike_all topo news; verdict rest

  compare_topo-compare_all :
      (topo lines news : List Text)
      → expected lines ≡ ok news
      → compare_topo floats format6 topo lines ≡ compare_all topo news
  unfolding compare_topo compare_all verdict
  compare_topo-compare_all topo lines news h =
      rw (strike-strike_all topo lines news h) (same (strike_all topo news))
    where
      same :
          (m : Outcome (List Text))
          → (m >>= λ rest. elim rest [ [] ↦ ok tt | line ∷ more ↦ raise (system_exit 1) ])
            ≡ (m >>= verdict)
      same (ok []) = refl
      same (ok (x ∷ xs)) = refl
      same (raise e) = refl

  -- The two lists hold the same lines, and it succeeds; or they do not, and it exits.
  abbrev Judged : List Text → List Text → Type 0
  Judged topo news =
      ((compare_all topo news ≡ ok tt) × SameItems topo news)
      ⊎ ((compare_all topo news ≡ raise (system_exit 1)) × (¬ SameItems topo news))

  compare_all-Judged : (topo news : List Text) → Judged topo news
  unfolding compare_all strike_all verdict
  compare_all-Judged [] [] = inl (refl, λ a. refl)
  compare_all-Judged (x ∷ topo) [] = inr (refl, λ same. count-zero x topo (same x))
  compare_all-Judged topo (new ∷ news) = elim (remove-cases new topo) [
    | inl (missing, absent) ↦
        inr (rw missing refl, λ same. count-zero new news (sym (same new) ∙ absent))
    | inr (topo', there, counts) ↦
        let back : SameItems topo' news → SameItems topo (new ∷ news) =
          λ same a. counts a ∙ ap (λ n. (if a == new then 1 else 0) + n) (same a) in
        let on : SameItems topo (new ∷ news) → SameItems topo' news =
          λ same a. omega (arith, counts a, same a) in
        elim (compare_all-Judged topo' news) [
          | inl (done, same) ↦ inl (rw there done, back same)
          | inr (done, differ) ↦ inr (rw there done, λ same. differ (on same))
        ]
  ]

  -- When each line of the topology file can be read, the comparison succeeds exactly when the generated
  -- lines are those of the file, each as often as there, in any order; otherwise it exits with 1.
  pub compare_topo_iff :
      (topo lines news : List Text)
      → expected lines ≡ ok news
      → ((compare_topo floats format6 topo lines ≡ ok tt) ↔ SameItems topo news)
        × ((compare_topo floats format6 topo lines ≡ raise (system_exit 1))
            ↔ (¬ SameItems topo news))
  compare_topo_iff topo lines news h =
      rw (compare_topo-compare_all topo lines news h) (elim (compare_all-Judged topo news) [
        | inl (done, same) ↦
            ((λ _. same, λ _. done), (λ e. absurd (clash e done), λ differ. absurd (differ same)))
        | inr (done, differ) ↦
            ((λ e. absurd (clash done e), λ same. absurd (differ same)), (λ _. differ, λ _. done))
      ])
    where
      clash : {m : Outcome (Unit {0})} → m ≡ raise (system_exit 1) → m ≡ ok tt → ⊥
      clash p q = cc (p, q)
