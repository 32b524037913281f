-- ===== src/Gaps/Steps.antt =====
-- What the state machine makes of one ping, case by case.
use ns3_sim.Prelude.{ℕ, suc, ◌+◌, ◌<◌, ◌≡◌, ◌≢◌, none, some, List, [], ◌∷◌, ◌++◌, nat_eq, arith}
use ns3_sim.Prelude.Int.{ℤ, pos, ◌-ℤ◌, int_eq, int_laws}
use ns3_sim.Prelude.Int.{int_beq_iff}
use ns3_sim.Python.Outcome.{Outcome, ok, ◌>>=◌}
use ns3_sim.Python.Text.{Text}
use ns3_sim.Address.{ip_into_rid}
use ns3_sim.Gaps.{dx, Control, Gap, fresh, remember, report, advance, or_fresh, observe}

-- The pings of one source in turn: the state behind the last one and the gaps that are found.
unfoldable pub run : Text → Control → List (ℤ × ℤ) → Outcome (Control × List Gap)
run src c [] = ok (c, [])
run src c ((timestamp, received) ∷ pings) = do
  (c', found) ← observe src (some c) timestamp received
  (c'', later) ← run src c' pings
  ok (c'', found ++ later)

-- Pings with these receptions, sent every `dx` from `t` on.
abbrev pub stream : ℕ → List ℤ → List (ℤ × ℤ)
stream t [] = []
stream t (r ∷ rs) = (pos t, r) ∷ stream (t + dx) rs

-- One ping on time, with nothing lost before it, moves the lower bound.
pub observe_regular :
    (src : Text) (c : Control) (r : ℤ) (t : ℕ)
    → c.low ≡ pos t
    → c.previous ≡ pos 0
    → observe src (some c) (pos (t + dx)) r
      ≡ ok (record c { low = pos (t + dx); low_received = some r }, [])
unfolding observe advance or_fresh ◌-ℤ◌
observe_regular src c r t hl hp = ground arith

-- A ping that is not on time starts the search for a candidate.
pub observe_late :
    (src : Text) (c : Control) (t r : ℤ)
    → c.low ≢ pos 0
    → c.previous ≡ pos 0
    → t -ℤ c.low ≢ pos dx
    → observe src (some c) t r ≡ ok (remember c t r, [])
unfolding observe advance or_fresh
observe_late src c t r hl hp off =
    ground (arith, int_beq_iff (t -ℤ c.low) (pos dx), int_beq_iff c.low (pos 0))

-- So does one that breaks the succession behind a candidate.
pub observe_break :
    (src : Text) (c : Control) (t r : ℤ)
    → c.previous ≢ pos 0
    → t -ℤ c.previous ≢ pos dx
    → observe src (some c) t r
      ≡ ok (remember (record c { candidate = pos 0; high_received = some (pos 0) }) t r, [])
unfolding observe advance or_fresh
observe_break src c t r hp off =
    ground (arith, int_beq_iff (t -ℤ c.previous) (pos dx), int_beq_iff c.previous (pos 0))

on_time : (p : ℕ) → pos (p + dx) -ℤ pos p ≡ pos dx
on_time p = omega int_laws

module _ (src : Text) (c : Control) (r : ℤ) (p : ℕ) (positive : 0 < p)
    (at : c.previous ≡ pos p) where
  pub observe_candidate :
      (h : ℤ)
      → c.candidate ≡ pos 0
      → c.previous_received ≡ some h
      → observe src (some c) (pos (p + dx)) r
        ≡ ok
            (remember (record c { candidate = pos p; high_received = some h }) (pos (p + dx)) r, [])
  unfolding observe advance or_fresh ◌-ℤ◌
  observe_candidate h hc hr = ground arith

  pub observe_validate :
      (v : ℕ)
      → c.candidate ≢ pos 0
      → c.validate ≡ suc v
      → observe src (some c) (pos (p + dx)) r
        ≡ ok (remember (record c { validate = v }) (pos (p + dx)) r, [])
  unfolding observe advance or_fresh ◌-ℤ◌
  observe_validate v hc hv = ground (arith, int_beq_iff c.candidate (pos 0))

  module _ (ready : c.validate ≡ 0) (n h : ℤ) (hc : c.candidate ≢ pos 0)
      (number : ip_into_rid src ≡ ok n) (hh : c.high_received ≡ some h) where
    pub observe_report :
        (l : ℤ)
        → c.low_received ≡ some l
        → observe src (some c) (pos (p + dx)) r
          ≡ ok (
            record (fresh (pos (p + dx))) {
              low_received = some r;
              previous_received = c.previous_received;
              high_received = some (pos 0);
            },
            record { rid = n; low = c.low; high = h; span = h -ℤ l; reset_at = pos (p + dx) } ∷ [],
          )
    unfolding observe advance or_fresh report fresh
    observe_report l hl = ground (arith, int_beq_iff c.candidate (pos 0), on_time p)

    -- With no reception for the lower bound the gap is lost and the state starts anew.
    pub observe_forget :
        c.low_received ≡ none
        → observe src (some c) (pos (p + dx)) r ≡ ok (fresh (pos (p + dx)), [])
    unfolding observe advance or_fresh report
    observe_forget hl = ground (arith, int_beq_iff c.candidate (pos 0), on_time p)
