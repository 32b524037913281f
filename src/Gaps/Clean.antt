-- ===== src/Gaps/Clean.antt =====
-- A gap in the pings of one source: pings are lost, and then arrive on time again.
use mathlib.Core.Path.{subst}
use ns3_sim.Prelude.{
  ℕ, suc, ◌+◌, ◌*◌, ◌<◌, ◌≡◌, ◌≢◌, refl, ap, ◌∙◌, Option, some, List, [], ◌∷◌, ◌++◌, arith, length,
}
use ns3_sim.Prelude.Int.{ℤ, pos, pos_part, ◌-ℤ◌}
use ns3_sim.Python.Outcome.{ok}
use ns3_sim.Python.Text.{Text}
use ns3_sim.Address.{ip_into_rid}
use ns3_sim.Gaps.{dx, Control, Gap, fresh, remember, observe}
use ns3_sim.Gaps.Steps.{
  run, stream, observe_regular, observe_late, observe_break, observe_candidate, observe_validate,
  observe_report,
}

-- One step, and then the rest.
pub run_step :
    (src : Text) (c c' c'' : Control) (t r : ℤ) (pings : List (ℤ × ℤ)) (found later : List Gap)
    → observe src (some c) t r ≡ ok (c', found)
    → run src c' pings ≡ ok (c'', later)
    → run src c ((t, r) ∷ pings) ≡ ok (c'', found ++ later)
unfolding run
run_step src c c' c'' t r pings found later h k = rw h (rw k)

-- Pings on time, with nothing lost, leave no gap: the lower bound moves to the last of them, and the
-- candidate and the count of confirmations stay.
pub run_regular :
    (src : Text) (c : Control) (t : ℕ) (rs : List ℤ)
    → c.low ≡ pos t
    → c.previous ≡ pos 0
    → (c' : Control) × (run src c (stream (t + dx) rs) ≡ ok (c', []))
      × (c'.low ≡ pos (t + length rs * dx))
      × (c'.previous ≡ pos 0)
      × (c'.candidate ≡ c.candidate)
      × (c'.validate ≡ c.validate)
unfolding run
run_regular src c t [] hl hp = (c, refl, hl ∙ ap pos (omega arith), hp, refl, refl)
run_regular src c t (r ∷ rs) hl hp =
    let (c', e, low, previous, candidate, validate) =
      run_regular src (record c { low = pos (t + dx); low_received = some r }) (t + dx) rs refl
        hp in
    (
      c',
      run_step src c (record c { low = pos (t + dx); low_received = some r }) c' (pos (t + dx)) r
          (stream (t + dx + dx) rs) [] [] (observe_regular src c r t hl hp) e,
      low ∙ ap pos (omega arith),
      previous,
      candidate,
      validate,
    )

-- The state behind the end of a gap, but for a value that is not read before it is written.
abbrev pub settled : ℕ → ℤ → Option ℤ → Control
settled t r before = record (fresh (pos t)) {
  low_received = some r;
  previous_received = before;
  high_received = some (pos 0);
}

module _ (src : Text) (n : ℤ) (number : ip_into_rid src ≡ ok n) where
  -- The gap between a ping at `low`, received at `l`, and the pings from `t` on, the first received at
  -- `h`.
  abbrev pub gap : ℤ → ℤ → ℤ → ℕ → Gap
  gap low l h end = record { rid = n; low = low; high = h; span = h -ℤ l; reset_at = pos end }

  -- The validation phase: each ping on time counts down, and the one behind the last of them ends it.
  confirm :
      (c : Control) (p : ℕ) (mid : List ℤ) (last h l : ℤ)
      → 0 < p
      → c.previous ≡ pos p
      → c.candidate ≢ pos 0
      → c.validate ≡ length mid
      → c.high_received ≡ some h
      → c.low_received ≡ some l
      → (before : Option ℤ) × (run src c (stream (p + dx) (mid ++ last ∷ []))
          ≡ ok (
            settled (p + suc (length mid) * dx) last before,
            gap c.low l h (p + suc (length mid) * dx) ∷ [],
          ))
  unfolding fresh remember
  confirm c p [] last h l positive at hc hv hh hl =
      let there : p + dx ≡ p + 1 * dx = omega arith in
      (
        c.previous_received,
        subst
            (λ q.
              run src c (stream (p + dx) (last ∷ []))
              ≡ ok (settled q last c.previous_received, gap c.low l h q ∷ []))
            there
            (run_step src c _ _ (pos (p + dx)) last [] _ []
              (observe_report src c last p positive at hv n h hc number hh l hl)
              (unfold run in refl)),
      )
  confirm c p (r ∷ mid) last h l positive at hc hv hh hl =
      let c' = remember (record c { validate = length mid }) (pos (p + dx)) r in
      let (before, e) = confirm c' (p + dx) mid last h l (omega arith) refl hc refl hh hl in
      let there : p + dx + suc (length mid) * dx ≡ p + suc (suc (length mid)) * dx = omega arith in
      (
        before,
        subst
            (λ q.
              run src c (stream (p + dx) (r ∷ (mid ++ last ∷ [])))
              ≡ ok (settled q last before, gap c.low l h q ∷ []))
            there
            (run_step src c c' _ (pos (p + dx)) r _ [] _
              (observe_validate src c r p positive at (length mid) hc hv) e),
      )

  -- Behind a ping at `p` that may be the end of a gap.
  gap_behind :
      (c : Control) (p : ℕ) (second : ℤ) (mid : List ℤ) (last h l : ℤ)
      → 0 < p
      → c.previous ≡ pos p
      → c.previous_received ≡ some h
      → c.candidate ≡ pos 0
      → c.validate ≡ length mid
      → c.low_received ≡ some l
      → (before : Option ℤ) × (run src c (stream (p + dx) (second ∷ (mid ++ last ∷ [])))
          ≡ ok (
            settled (p + (length mid + 2) * dx) last before,
            gap c.low l h (p + (length mid + 2) * dx) ∷ [],
          ))
  unfolding fresh remember
  gap_behind c p second mid last h l positive at hr hc hv hl =
      let c' =
        remember (record c { candidate = pos p; high_received = some h }) (pos (p + dx)) second in
      let (before, e) =
        confirm c' (p + dx) mid last h l (omega arith) refl
          (λ z. absurd (omega (arith, ap pos_part z))) hv refl hl in
      let there : p + dx + suc (length mid) * dx ≡ p + (length mid + 2) * dx = omega arith in
      (
        before,
        subst
            (λ q.
              run src c (stream (p + dx) (second ∷ (mid ++ last ∷ [])))
              ≡ ok (settled q last before, gap c.low l h q ∷ []))
            there
            (run_step src c c' _ (pos (p + dx)) second _ [] _
              (observe_candidate src c second p positive at h hc hr) e),
      )

  -- A source whose pings came on time loses some; then they come on time again from `t` on. When the
  -- count of confirmations that was left, 100 from a fresh start, has come in, exactly one gap is
  -- reported: from the last ping before the loss to the reception of the first one behind it. The
  -- state is then settled at the last ping.
  pub gap_found :
      (c : Control) (t : ℕ) (first second : ℤ) (mid : List ℤ) (last l : ℤ)
      → 0 < t
      → c.low ≢ pos 0
      → pos t -ℤ c.low ≢ pos dx
      → c.previous ≡ pos 0
      → c.candidate ≡ pos 0
      → c.validate ≡ length mid
      → c.low_received ≡ some l
      → (before : Option ℤ) × (run src c (stream t (first ∷ second ∷ (mid ++ last ∷ [])))
          ≡ ok (
            settled (t + (length mid + 2) * dx) last before,
            gap c.low l first (t + (length mid + 2) * dx) ∷ [],
          ))
  unfolding remember
  gap_found c t first second mid last l positive low_there late hp hc hv hl =
      let (before, e) =
        gap_behind (remember c (pos t) first) t second mid last first l positive refl refl hc hv
          hl in
      (
        before,
        run_step src c (remember c (pos t) first) _ (pos t) first _ [] _
            (observe_late src c (pos t) first low_there hp late) e,
      )

  -- A ping that breaks the succession behind a candidate starts the search anew, and leaves the count
  -- of confirmations as it is: the pings that confirmed the earlier candidate are not asked for again.
  pub gap_behind_break :
      (c : Control) (t : ℕ) (first second : ℤ) (mid : List ℤ) (last l : ℤ)
      → 0 < t
      → c.previous ≢ pos 0
      → pos t -ℤ c.previous ≢ pos dx
      → c.validate ≡ length mid
      → c.low_received ≡ some l
      → (before : Option ℤ) × (run src c (stream t (first ∷ second ∷ (mid ++ last ∷ [])))
          ≡ ok (
            settled (t + (length mid + 2) * dx) last before,
            gap c.low l first (t + (length mid + 2) * dx) ∷ [],
          ))
  unfolding remember
  gap_behind_break c t first second mid last l positive there late hv hl =
      let c' =
        remember (record c { candidate = pos 0; high_received = some (pos 0) }) (pos t) first in
      let (before, e) = gap_behind c' t second mid last first l positive refl refl refl hv hl in
      (
        before,
        run_step src c c' _ (pos t) first _ [] _ (observe_break src c (pos t) first there late) e,
      )
