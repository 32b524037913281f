-- ===== src/Gaps/Logged.antt =====
-- udp_parser.py, `local_gaps`: a loss in a log of many sources.
use mathlib.Core.Path.{subst}
use ns3_sim.Prelude.{
  ℕ, ◌+◌, ◌*◌, ◌<◌, ◌≡◌, ◌≢◌, refl, sym, ap, ◌∙◌, inl, inr, Option, some, List, [], ◌∷◌, ◌++◌, map,
  In, In-append_right, length, ◌==◌, Bool-cases,
}
use ns3_sim.Prelude.Int.{ℤ, pos, ◌-ℤ◌}
use ns3_sim.Python.Outcome.{Outcome, ok, traverse}
use ns3_sim.Python.Dict.{lookup}
use ns3_sim.Python.Text.{Text, text_eq}
use ns3_sim.Address.{ip_into_rid}
use ns3_sim.Gaps.{dx, Ping, Control, Gap, Monitor, read_line, feed_lines}
use ns3_sim.Gaps.Steps.{run, stream}
use ns3_sim.Gaps.Clean.{settled, gap, gap_found}
use ns3_sim.Gaps.Watched.{Tagged, gaps_of, own, watch-run, feed_lines-Watched}

In-gaps_of :
    (g : Gap) (src : Text) (tagged : List Tagged)
    → In g (gaps_of src tagged)
    → In g (map (λ (t : Tagged). t.1) tagged)
In-gaps_of g src [] m = m
In-gaps_of g src ((from, x) ∷ tagged) m = elim (Bool-cases (src == from)) [
  | inl same ↦ elim (rw same at m) [ inl at ↦ inl at | inr m' ↦ inr (In-gaps_of g src tagged m') ]
  | inr other ↦ inr (In-gaps_of g src tagged (rw other at m))
]

-- A source whose pings came on time loses some in a log, and then they come on time again from `t` on,
-- until the count of confirmations that was left has come in. Then, whatever other sources do in this log,
-- the gap is reported, from the last ping before the loss to the first one behind it, and the state of the
-- source is settled at its last ping.
pub gap_in_log :
    (src : Text) (n : ℤ) (number : ip_into_rid src ≡ ok n) (m m' : Monitor) (lines : List Text)
    (pings : List Ping) (c : Control) (t : ℕ) (first second : ℤ) (mid : List ℤ) (last l : ℤ)
    → feed_lines m lines ≡ ok m'
    → traverse read_line lines ≡ ok pings
    → lookup src m.control ≡ some c
    → own src pings ≡ stream t (first ∷ second ∷ (mid ++ last ∷ []))
    → 0 < t
    → c.low ≢ pos 0
    → pos t -ℤ c.low ≢ pos dx
    → c.previous ≡ pos 0
    → c.candidate ≡ pos 0
    → c.validate ≡ length mid
    → c.low_received ≡ some l
    → In (gap src n number c.low l first (t + (length mid + 2) * dx)) m'.gaps
      × ((before : Option ℤ) × (lookup src m'.control
            ≡ some (settled (t + (length mid + 2) * dx) last before)))
gap_in_log src n number m m' lines pings c t first second mid last l read parsed state mine positive
      there late hp hc hv hl =
    let found = gap src n number c.low l first (t + (length mid + 2) * dx) in
    let (before, ran) =
      gap_found src n number c t first second mid last l positive there late hp hc hv hl in
    let end = settled (t + (length mid + 2) * dx) last before in
    let w = feed_lines-Watched m m' lines pings read parsed in
    let alone = watch-run src c end pings (found ∷ []) (ap (run src c) mine ∙ ran) in
    let both : ◌≡◌ {A = Outcome (Option Control × List Gap)}
        (ok (lookup src m'.control, gaps_of src w.tagged)) (ok (some end, found ∷ [])) =
      sym (w.alone src) ∙ rw (sym state) at alone in
    let listed : gaps_of src w.tagged ≡ found ∷ [] = cc both in
    (
      subst (In found) (sym w.gaps) (
          In-append_right found m.gaps _
            (In-gaps_of found src w.tagged (subst (In found) (sym listed) (inl refl)))),
      (before, cc both),
    )
