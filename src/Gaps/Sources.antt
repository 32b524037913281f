-- ===== src/Gaps/Sources.antt =====
-- The sources do not disturb each other.
use ns3_sim.Prelude.{
  ◌≡◌, refl, sym, ap, ◌∙◌, inl, inr, Option, some, List, [], ◌∷◌, ◌++◌, ◌==◌, if◌then◌else◌,
  Bool-cases,
}
use mathlib.Core.Path.{subst}
use ns3_sim.Python.Outcome.{Outcome, ok, traverse, ◌>>=◌, >>=-eq-ok}
use ns3_sim.Python.Dict.{lookup, lookup-insert}
use ns3_sim.Python.Text.{Text, text_eq}
use ns3_sim.Gaps.{Ping, Control, Gap, Monitor, read_line, observe, feed, feed_lines}

-- The state of one source, by its own pings alone.
pub track : Text → Option Control → List Ping → Outcome (Option Control)
track src c [] = ok c
track src c (p ∷ pings) =
    let skipped = track src c pings in
    let taken = (do
      (c', found) ← observe src c p.timestamp p.received
      track src (some c') pings) in
    if src == p.src then taken else skipped

-- What a round does to the table of states.
pub feed-lookup :
    (m m' : Monitor) (p : Ping)
    → feed m p ≡ ok m'
    → (r : Control × List Gap) × (observe p.src (lookup p.src m.control) p.timestamp p.received
        ≡ ok r)
      × (m'.gaps ≡ m.gaps ++ r.1)
      × ((src : Text)
          → lookup src m'.control ≡ (if src == p.src then some r.0 else lookup src m.control))
unfolding feed
feed-lookup m m' p h =
    let (r, e, h') =
      >>=-eq-ok (observe p.src (lookup p.src m.control) p.timestamp p.received) _ h in
    (
      r,
      e,
      ap (λ (n : Monitor). n.gaps) (sym (ok_eq h')),
      λ src.
          ap (λ (n : Monitor). lookup src n.control) (sym (ok_eq h'))
          ∙ lookup-insert p.src src r.0 m.control,
    )
  where
    ok_eq : {a b : Monitor} → ok a ≡ ok b → a ≡ b
    ok_eq q = cc

track-feed :
    (src : Text) (m m' : Monitor) (p : Ping) (pings : List Ping) (out : Option Control)
    → feed m p ≡ ok m'
    → track src (lookup src m'.control) pings ≡ ok out
    → track src (lookup src m.control) (p ∷ pings) ≡ ok out
unfolding track
track-feed src m m' p pings out h later =
    let (r, e, gaps, after) = feed-lookup m m' p h in
    elim (Bool-cases (src == p.src)) [
      | inl own ↦
          let same : src ≡ p.src = (text_eq.beq_iff src p.src).0 own in
          let seen : observe src (lookup src m.control) p.timestamp p.received ≡ ok r =
            subst (λ s. observe s (lookup s m.control) p.timestamp p.received ≡ ok r) (sym same)
              e in
          let now : lookup src m'.control ≡ some r.0 = rw own at (after src) in
          rw (own, track) (rw seen (rw now at later))
      | inr other ↦
          let now : lookup src m'.control ≡ lookup src m.control = rw other at (after src) in
          rw (other, track) (rw now at later)
    ]

-- Behind a log, the state of a source is what its own pings alone make of the state before, whatever
-- the pings of other sources in between.
pub track-feed_lines :
    (src : Text) (m m' : Monitor) (lines : List Text) (pings : List Ping)
    → feed_lines m lines ≡ ok m'
    → traverse read_line lines ≡ ok pings
    → track src (lookup src m.control) pings ≡ ok (lookup src m'.control)
unfolding feed_lines traverse
track-feed_lines src m m' [] pings h g =
    let no_pings : pings ≡ [] = cc g in
    let same : m' ≡ m = cc h in rw (no_pings, same) (unfold track in refl)
track-feed_lines src m m' (line ∷ lines) pings h g =
    let (p, e, h1) = >>=-eq-ok (read_line line) _ h in
    let (m1, e1, h2) = >>=-eq-ok (feed m p) _ h1 in
    let (p', e', g1) = >>=-eq-ok (read_line line) _ g in
    let (ps, e2, g2) = >>=-eq-ok (traverse read_line lines) _ g1 in
    let split_pings : pings ≡ p ∷ ps = cc (g2, e, e') in
    rw split_pings (
      track-feed src m m1 p ps (lookup src m'.control) e1
        (track-feed_lines src m1 m' lines ps h2 e2))
