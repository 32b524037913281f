-- ===== src/Gaps/Forgotten.antt =====
-- A gap right behind the first ping of a source.
use mathlib.Core.Path.{subst}
use ns3_sim.Prelude.{
  ℕ, suc, ◌+◌, ◌*◌, ◌<◌, ◌≡◌, ◌≢◌, refl, ap, sym, some, none, List, [], ◌∷◌, ◌++◌, arith, length,
}
use ns3_sim.Prelude.Int.{ℤ, pos, pos_part, ◌-ℤ◌, -ℤ_parts, neg_part}
use ns3_sim.Python.Outcome.{ok}
use ns3_sim.Python.Text.{Text}
use ns3_sim.Address.{ip_into_rid}
use ns3_sim.Gaps.{dx, validate_rounds, Control, fresh, remember}
use ns3_sim.Gaps.Steps.{
  run, stream, observe_late, observe_candidate, observe_validate, observe_forget,
}
use ns3_sim.Gaps.Clean.{run_step}

pos-ne-zero : (k : ℕ) → 0 < k → pos k ≢ pos 0
pos-ne-zero k h z = absurd (omega (arith, ap pos_part z))

late_pos : (t0 t : ℕ) → t ≢ t0 + dx → pos t -ℤ pos t0 ≢ pos dx
late_pos t0 t late e =
    absurd (late (omega (arith, -ℤ_parts (pos t) (pos t0), ap pos_part e, ap neg_part e)))

module _ (src : Text) (n : ℤ) (number : ip_into_rid src ≡ ok n) where
  confirm_forgotten :
      (c : Control) (p : ℕ) (mid : List ℤ) (last h : ℤ)
      → 0 < p
      → c.previous ≡ pos p
      → c.candidate ≢ pos 0
      → c.validate ≡ length mid
      → c.high_received ≡ some h
      → c.low_received ≡ none
      → run src c (stream (p + dx) (mid ++ last ∷ []))
        ≡ ok (fresh (pos (p + suc (length mid) * dx)), [])
  unfolding remember
  confirm_forgotten c p [] last h positive at hc hv hh hl =
      let there : p + dx ≡ p + 1 * dx = omega arith in
      subst (λ q. run src c (stream (p + dx) (last ∷ [])) ≡ ok (fresh (pos q), [])) there
        (run_step src c _ _ (pos (p + dx)) last [] [] []
          (observe_forget src c last p positive at hv n h hc number hh hl) (unfold run in refl))
  confirm_forgotten c p (r ∷ mid) last h positive at hc hv hh hl =
      let c' = remember (record c { validate = length mid }) (pos (p + dx)) r in
      let there : p + dx + suc (length mid) * dx ≡ p + suc (suc (length mid)) * dx = omega arith in
      subst (λ q. run src c (stream (p + dx) (r ∷ (mid ++ last ∷ []))) ≡ ok (fresh (pos q), []))
        there
        (run_step src c c' _ (pos (p + dx)) r _ [] []
          (observe_validate src c r p positive at (length mid) hc hv)
          (confirm_forgotten c' (p + dx) mid last h (omega arith) refl hc refl hh hl))

  -- A source sends a first ping at `t0`, the next ones are lost, and from `t` on 103 of them come on
  -- time again. The gap is not reported: its lower bound has no reception, the `KeyError` of this is taken
  -- for an unknown source, and the state starts anew at the last ping.
  pub gap_behind_first_ping :
      (t0 t : ℕ) (first second : ℤ) (mid : List ℤ) (last : ℤ)
      → 0 < t0
      → 0 < t
      → t ≢ t0 + dx
      → length mid ≡ validate_rounds
      → run src (fresh (pos t0)) (stream t (first ∷ second ∷ (mid ++ last ∷ [])))
        ≡ ok (fresh (pos (t + (length mid + 2) * dx)), [])
  unfolding remember fresh
  gap_behind_first_ping t0 t first second mid last positive0 positive late full =
      let c = fresh (pos t0) in
      let c1 = remember c (pos t) first in
      let c2 =
        remember (record c1 { candidate = pos t; high_received = some first }) (pos (t + dx))
          second in
      let there : t + dx + suc (length mid) * dx ≡ t + (length mid + 2) * dx = omega arith in
      subst
        (λ q. run src c (stream t (first ∷ second ∷ (mid ++ last ∷ []))) ≡ ok (fresh (pos q), []))
        there
        (run_step src c c1 _ (pos t) first _ [] []
          (observe_late src c (pos t) first (pos-ne-zero t0 positive0) refl (late_pos t0 t late))
          (run_step src c1 c2 _ (pos (t + dx)) second _ [] []
            (observe_candidate src c1 second t positive refl first refl refl)
            (confirm_forgotten c2 (t + dx) mid last first (omega arith) refl
              (pos-ne-zero t positive) (sym full) refl refl)))
