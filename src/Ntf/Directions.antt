-- ===== src/Ntf/Directions.antt =====
-- Each line of a topology file sets one direction of one link.

use ns3_sim.Prelude.{
  ℕ, suc, ◌+◌, ◌*◌, ◌≤◌, ◌≡◌, ◌≢◌, sym, ap, inl, inr, false, List, [], ◌∷◌, if◌then◌else◌, length,
  arith, All, Bool-cases,
}
use ns3_sim.Prelude.Int.{ℤ, pos, int_eq}
use ns3_sim.Python.Outcome.{Outcome, ok, >>=-eq-ok}
use ns3_sim.Python.Dict.{Dict}
use ns3_sim.Python.Text.{Text, split}
use ns3_sim.Python.Float.{Floats}
use ns3_sim.Ntf.{
  Field, Key, key_eq, Link, unset, read_entry, read_link, Topology, add_link, read_lines,
  read_topology, count_links, pad, float_field, int_field,
}
use ns3_sim.TopologyFile.{is_skipped}
use ns3_sim.Ntf.Metrics.{list_directions, directions, directions-add_link}

-- The lines that are neither empty nor comments.
abbrev pub n_kept : List Text → ℕ
n_kept [] = 0
n_kept (line ∷ lines) = if is_skipped line then n_kept lines else suc (n_kept lines)

-- Two directions for each link.
directions-le : (links : Dict Key (List Link)) → directions links ≤ 2 * count_links links
unfolding count_links
directions-le [] = omega arith
directions-le ((pair, l) ∷ links) = omega (arith, directions-le links, pair_le l)
  where
    pair_le : (ls : List Link) → list_directions ls ≤ 2 * length ls
    pair_le [] = omega arith
    pair_le (x ∷ ls) = ground (arith, pair_le ls)

module _ (floats : Floats) (round : floats.Float → Outcome ℤ) where
  -- The metric of each line that is neither empty nor a comment is not -1.
  abbrev pub HasMetrics : List Text → Type 0
  HasMetrics = All (λ line.
      is_skipped line ≡ false
      → (key : Key) (entry : Link) → read_link floats round line ≡ ok (key, entry)
      → entry.f_metric ≢ unset)

  pub entry-unset :
      (parts : List Field) (key : Key) (entry : Link)
      → read_entry floats round parts ≡ ok (key, entry)
      → entry.r_metric ≡ unset
  unfolding read_entry
  entry-unset [] key entry h = cc h
  entry-unset (src ∷ []) key entry h = cc h
  entry-unset (src ∷ dst ∷ []) key entry h = cc h
  entry-unset (src ∷ dst ∷ metric ∷ []) key entry h = cc h
  entry-unset (src ∷ dst ∷ metric ∷ delay ∷ []) key entry h = cc h
  entry-unset (src ∷ dst ∷ metric ∷ delay ∷ begin ∷ []) key entry h = cc h
  entry-unset (src ∷ dst ∷ metric ∷ delay ∷ begin ∷ end ∷ more ∷ parts) key entry h = cc h
  entry-unset (src ∷ dst ∷ metric ∷ delay ∷ begin ∷ end ∷ []) key entry h =
      let (f, e1, h1) = >>=-eq-ok (int_field metric) _ h in
      let (s, e2, h2) = >>=-eq-ok (float_field floats round delay) _ h1 in
      let (d, e3, h3) = >>=-eq-ok (round (floats.mul s (floats.of_int (pos 1000000)))) _ h2 in
      let (b, e4, h4) = >>=-eq-ok (int_field begin) _ h3 in
      let (e, e5, h5) = >>=-eq-ok (int_field end) _ h4 in
      sym (ap (λ (p : Key × Link). p.1.r_metric) (ok_eq h5))
    where
      ok_eq : {x y : Key × Link} → ok x ≡ ok y → x ≡ y
      ok_eq q = cc

  directions-read_lines :
      (t t' : Topology) (lines : List Text)
      → HasMetrics lines
      → read_lines floats round t lines ≡ ok t'
      → directions t'.links ≡ directions t.links + n_kept lines
  unfolding read_lines
  directions-read_lines t t' [] m h = let same : t ≡ t' = cc h in rw (sym same) (omega arith)
  directions-read_lines t t' (line ∷ lines) m h = elim (Bool-cases (is_skipped line)) [
    | inl skip ↦
        let rest = directions-read_lines t t' lines m.1 (rw (skip, read_lines) at h) in rw skip rest
    | inr keep ↦
        let (r, e, h') = >>=-eq-ok (read_link floats round line) _ (rw (keep, read_lines) at h) in
        let (mid, e', h'') = >>=-eq-ok (add_link t r.0 r.1) _ h' in
        let rest = directions-read_lines mid t' lines m.1 h'' in
        let one =
          directions-add_link t mid r.0 r.1 (m.0 keep r.0 r.1 e)
            (entry-unset (pad 6 (split 32 line)) r.0 r.1 (unfold read_link in e)) e' in
        rw keep (omega (arith, rest, one))
  ]

  -- When a topology whose metrics are not -1 is read, each line that is not empty or a comment has set
  -- one direction of one link: the metrics that are set are as many as these lines, and the lines are at
  -- most two for each of the links that the report counts.
  pub directions-read_topology :
      (text : Text) (t : Topology)
      → HasMetrics (split 10 text)
      → read_topology floats round text ≡ ok t
      → (directions t.links ≡ n_kept (split 10 text))
        × (n_kept (split 10 text) ≤ 2 * count_links t.links)
  unfolding read_topology
  directions-read_topology text t m h =
      let n = directions-read_lines (record { nodes = []; links = [] }) t (split 10 text) m h in
      let le = directions-le t.links in (omega (arith, n), omega (arith, n, le))
