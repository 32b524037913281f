-- ===== src/Gaps/Watched.antt =====
-- udp_parser.py, `local_gaps`: the gaps that a log yields are those of its sources.
use mathlib.Core.Path.{subst}
use ns3_sim.Prelude.{
  ◌≡◌, refl, sym, ap, ◌∙◌, inl, inr, true, false, Option, some, List, [], ◌∷◌, ◌++◌, map,
  append-nil, append_assoc, filter, ◌==◌, if◌then◌else◌, Bool-cases,
}
use ns3_sim.Prelude.Int.{ℤ}
use ns3_sim.Python.Outcome.{Outcome, ok, traverse, ◌>>=◌, >>=-eq-ok}
use ns3_sim.Python.Dict.{lookup}
use ns3_sim.Python.Text.{Text, text_eq}
use ns3_sim.Gaps.{Ping, Control, Gap, Monitor, read_line, observe, feed, feed_lines}
use ns3_sim.Gaps.Sources.{feed-lookup}
use ns3_sim.Gaps.Steps.{run}

-- The state of one source and the gaps that are found, by its own pings alone.
unfoldable pub watch : Text → Option Control → List Ping → Outcome (Option Control × List Gap)
watch src c [] = ok (c, [])
watch src c (p ∷ pings) =
    let skipped = watch src c pings in
    let taken = (do
      (c', found) ← observe src c p.timestamp p.received
      (c'', later) ← watch src (some c') pings
      ok (c'', found ++ later)) in
    if src == p.src then taken else skipped

abbrev pub Tagged : Type 0
Tagged = Text × Gap

-- The gaps of one source.
abbrev pub gaps_of : Text → List Tagged → List Gap
gaps_of src tagged = map (λ t. t.1) (filter (λ (t : Tagged). src == t.0) tagged)

tag : Text → List Gap → List Tagged
tag src [] = []
tag src (g ∷ gaps) = (src, g) ∷ tag src gaps

map-tag :
    (src : Text) (gaps : List Gap) (more : List Tagged)
    → map (λ (t : Tagged). t.1) (tag src gaps ++ more) ≡ gaps ++ map (λ (t : Tagged). t.1) more
unfolding tag
map-tag src [] more = refl
map-tag src (g ∷ gaps) more = ap (λ (l : List Gap). g ∷ l) (map-tag src gaps more)

gaps_of-own :
    (src of : Text) (gaps : List Gap) (more : List Tagged)
    → (src == of) ≡ true
    → gaps_of src (tag of gaps ++ more) ≡ gaps ++ gaps_of src more
unfolding tag
gaps_of-own src of [] more own = refl
gaps_of-own src of (g ∷ gaps) more own =
    rw own (ap (λ (l : List Gap). g ∷ l) (gaps_of-own src of gaps more own))

gaps_of-other :
    (src of : Text) (gaps : List Gap) (more : List Tagged)
    → (src == of) ≡ false
    → gaps_of src (tag of gaps ++ more) ≡ gaps_of src more
unfolding tag
gaps_of-other src of [] more other = refl
gaps_of-other src of (g ∷ gaps) more other = rw other (gaps_of-other src of gaps more other)

-- From the table and the gaps of `m` to those of `m'`.
pub record Watched (m m' : Monitor) (pings : List Ping) : Type 0 where
  pub tagged : List Tagged
  pub gaps : m'.gaps ≡ m.gaps ++ map (λ (t : Tagged). t.1) tagged
  pub alone :
      (src : Text)
      → watch src (lookup src m.control) pings ≡ ok (lookup src m'.control, gaps_of src tagged)

watch-feed :
    (src : Text) (m m1 : Monitor) (p : Ping) (r : Control × List Gap) (pings : List Ping)
    (c : Option Control) (tagged : List Tagged)
    → observe p.src (lookup p.src m.control) p.timestamp p.received ≡ ok r
    → lookup src m1.control ≡ (if src == p.src then some r.0 else lookup src m.control)
    → watch src (lookup src m1.control) pings ≡ ok (c, gaps_of src tagged)
    → watch src (lookup src m.control) (p ∷ pings) ≡ ok (c, gaps_of src (tag p.src r.1 ++ tagged))
unfolding watch
watch-feed src m m1 p r pings c tagged e after later = elim (Bool-cases (src == p.src)) [
  | inl own ↦
      let same : src ≡ p.src = (text_eq.beq_iff src p.src).0 own in
      let seen : observe src (lookup src m.control) p.timestamp p.received ≡ ok r =
        subst (λ s. observe s (lookup s m.control) p.timestamp p.received ≡ ok r) (sym same) e in
      let now : lookup src m1.control ≡ some r.0 = rw own at after in
      rw (own, watch)
        (rw seen (
          rw (rw now at later)
            (ap (λ (l : List Gap). ok (c, l)) (sym (gaps_of-own src p.src r.1 tagged own)))))
  | inr other ↦
      let now : lookup src m1.control ≡ lookup src m.control = rw other at after in
      rw (other, watch)
        ((rw now at later)
          ∙ ap (λ (l : List Gap). ok (c, l)) (sym (gaps_of-other src p.src r.1 tagged other)))
]

Watched-cons :
    (m m1 m' : Monitor) (p : Ping) (pings : List Ping)
    → feed m p ≡ ok m1
    → Watched m1 m' pings
    → Watched m m' (p ∷ pings)
Watched-cons m m1 m' p pings h w =
    let (r, e, found, after) = feed-lookup m m1 p h in
    record {
      tagged = tag p.src r.1 ++ w.tagged;
      gaps =
          w.gaps
          ∙ ap (λ (l : List Gap). l ++ map (λ (t : Tagged). t.1) w.tagged) found
          ∙ append_assoc m.gaps r.1 (map (λ (t : Tagged). t.1) w.tagged)
          ∙ ap (λ (l : List Gap). m.gaps ++ l) (sym (map-tag p.src r.1 w.tagged));
      alone = λ src.
          watch-feed src m m1 p r pings (lookup src m'.control) w.tagged e (after src)
            (w.alone src);
    }

-- The gaps that a log adds are found by its sources, each by its own pings alone, as if there were no
-- other source, and in their order; and so is the state that each is left in.
pub feed_lines-Watched :
    (m m' : Monitor) (lines : List Text) (pings : List Ping)
    → feed_lines m lines ≡ ok m'
    → traverse read_line lines ≡ ok pings
    → Watched m m' pings
unfolding feed_lines traverse
feed_lines-Watched m m' [] pings h g =
    let no_pings : [] ≡ pings = cc g in
    let same : m ≡ m' = cc h in
    subst (λ (n : Monitor). Watched m n pings) same
      (subst (Watched m m) no_pings (record {
        tagged = [];
        gaps = sym (append-nil m.gaps);
        alone = λ src. unfold watch in refl;
      }))
feed_lines-Watched m m' (line ∷ lines) pings h g =
    let (p, e, h1) = >>=-eq-ok (read_line line) _ h in
    let (m1, e1, h2) = >>=-eq-ok (feed m p) _ h1 in
    let (p', e', g1) = >>=-eq-ok (read_line line) _ g in
    let (ps, e2, g2) = >>=-eq-ok (traverse read_line lines) _ g1 in
    let split_pings : p ∷ ps ≡ pings = cc (g2, e, e') in
    subst (Watched m m') split_pings
      (Watched-cons m m1 m' p ps e1 (feed_lines-Watched m1 m' lines ps h2 e2))

-- The pings of one source.
abbrev pub own : Text → List Ping → List (ℤ × ℤ)
own src [] = []
own src (p ∷ pings) =
    let rest = own src pings in if src == p.src then (p.timestamp, p.received) ∷ rest else rest

pub watch-run :
    (src : Text) (c c' : Control) (pings : List Ping) (gaps : List Gap)
    → run src c (own src pings) ≡ ok (c', gaps)
    → watch src (some c) pings ≡ ok (some c', gaps)
unfolding watch run
watch-run src c c' [] gaps h =
    let same : ◌≡◌ {A = Control × List Gap} (c, []) (c', gaps) = cc h in
    ap (λ (q : Control × List Gap). ok (some q.0, q.1)) same
watch-run src c c' (p ∷ pings) gaps h = elim (Bool-cases (src == p.src)) [
  | inl mine ↦
      let (r, e, h1) =
        >>=-eq-ok (observe src (some c) p.timestamp p.received) _ (rw (mine, run) at h) in
      let (q, e1, h2) = >>=-eq-ok (run src r.0 (own src pings)) _ h1 in
      let later = watch-run src r.0 q.0 pings q.1 e1 in
      let same : ◌≡◌ {A = Control × List Gap} (q.0, r.1 ++ q.1) (c', gaps) = cc h2 in
      rw (mine, watch) (rw e (rw later (ap (λ (k : Control × List Gap). ok (some k.0, k.1)) same)))
  | inr other ↦ rw (other, watch) (watch-run src c c' pings gaps (rw other at h))
]
