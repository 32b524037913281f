-- ===== src/Ntf/Timed.antt =====
-- The check at the end never accepts a line that has not four parts.
use mathlib.Core.Path.{subst}
use ns3_sim.Prelude.{
  ℕ, ◌<◌, ◌≡◌, ◌≢◌, refl, sym, ◌∙◌, ap, inl, inr, false, Option, List, [], ◌∷◌, ◌==◌, option_eq,
  length, In, arith, Bool-cases,
}
use ns3_sim.Prelude.Int.{ℤ, pos}
use ns3_sim.Python.Outcome.{
  Outcome, ok, value_error, or_raise, last, last?, or_raise-eq-ok, index_error, >>=-eq-ok,
}
use ns3_sim.Python.Sequence.{remove-cases, count, index_of}
use ns3_sim.Python.Dict.{Dict, Entries}
use ns3_sim.Python.Text.{Text, text_eq, Lacks, split, split-Lacks, split-join}
use ns3_sim.Python.Number.{decimal_ℤ}
use ns3_sim.Python.Float.{Floats}
use ns3_sim.TopologyFile.{kept_lines, new_line}
use ns3_sim.Ntf.{Field, Key, key_eq, Link}
use ns3_sim.Ntf.Nodes.{HasEnds, read_topology-IsIndexed}
use ns3_sim.Ntf.Plain.{IsPlain, read_topology-HasPlain}
use ns3_sim.Ntf.Balance.{ntf_parser-Run}
use ns3_sim.Ntf.Output.{
  field_text, is_failures, Graph, Output, strike_line, set_link, direction_line, write_link,
  write_links, write_pairs, ntf_parser,
}
use ns3_sim.Ntf.Parts.{n_parts, decimal_ℤ-Lacks, field_text-Lacks, n_parts_replaced, In-traverse}

strike_line-count :
    (x i : Text) (o : Output) → x ≢ i → count x (strike_line o i).lines ≡ count x o.lines
unfolding strike_line
strike_line-count x i o ne =
    let apart : (x == i) ≡ false = elim (Bool-cases (x == i)) [
      | inl at ↦ absurd (ne ((text_eq.beq_iff x i).0 at))
      | inr off ↦ off
    ] in
    elim (remove-cases i o.lines) [
      | inl (missing, zero_times) ↦ rw (missing, strike_line) refl
      | inr (rest, there, counts) ↦
          rw (there, strike_line) (sym (counts x ∙ rw apart (omega arith)))
    ]

module _ (floats : Floats) (format6 : floats.Float → Text)
    (no_spaces : (v : floats.Float) → Lacks 32 (format6 v)) where
  open floats use {of_int, div}

  n_parts-direction_line :
      (src dst : Field) (metric delay : ℤ)
      → IsPlain src
      → IsPlain dst
      → n_parts (direction_line floats format6 src dst metric delay) ≡ 4
  unfolding direction_line
  n_parts-direction_line src dst metric delay hs hd =
      ap (λ (l : List Text). length l)
        (split-join 32 (field_text src)
          (field_text dst
            ∷ decimal_ℤ metric
            ∷ format6 (div (of_int delay) (of_int (pos 1000000)))
            ∷ [])
          (
            field_text-Lacks src hs,
            (field_text-Lacks dst hd, (decimal_ℤ-Lacks metric, (no_spaces _, tt))),
          ))

  n_parts-new_line :
      (line new : Text) → new_line floats format6 line ≡ ok new → n_parts new ≡ n_parts line
  unfolding new_line
  n_parts-new_line line new h =
      let (delay, e1, h1) = >>=-eq-ok (last (split 32 line)) _ h in
      let (seconds, e2, h2) = >>=-eq-ok (or_raise value_error (floats.parse delay)) _ h1 in
      let same = out_eq h2 in
      subst (λ x. n_parts x ≡ n_parts line) same
        (n_parts_replaced (split 32 line) (format6 seconds) (split-Lacks 32 line)
          (no_spaces seconds) delay (or_raise-eq-ok index_error (last? (split 32 line)) e1))
    where
      out_eq : {a b : Text} → ok a ≡ ok b → a ≡ b
      out_eq q = cc

  -- A line of another shape than a direction's stays.
  module _ (x : Text) (other : n_parts x ≢ 4) where
    write_link-count :
        (i j : ℕ) (key : Key) (o o' : Output) (link : Link)
        → IsPlain key.0 × IsPlain key.1
        → write_link floats format6 false i j key o link ≡ ok o'
        → count x o'.lines ≡ count x o.lines
    unfolding write_link
    write_link-count i j (src, dst) o o' link p h =
        let (g, e, h') = >>=-eq-ok (set_link i j link o.mygraph) _ h in
        let same = out_eq h' in
        subst (λ (r : Output). count x r.lines ≡ count x o.lines) same
          (strike_line-count x _ _ (apart dst src link.r_metric link.delay p.1 p.0)
            ∙ strike_line-count x _ _ (apart src dst link.f_metric link.delay p.0 p.1))
      where
        out_eq : {a b : Output} → ok a ≡ ok b → a ≡ b
        out_eq q = cc

        apart :
            (a b : Field) (metric delay : ℤ)
            → IsPlain a
            → IsPlain b
            → x ≢ direction_line floats format6 a b metric delay
        apart a b metric delay pa pb e =
            other (ap n_parts e ∙ n_parts-direction_line a b metric delay pa pb)

    write_links-count :
        (i j : ℕ) (key : Key) (o o' : Output) (l : List Link)
        → IsPlain key.0 × IsPlain key.1
        → write_links floats format6 false i j key o l ≡ ok o'
        → count x o'.lines ≡ count x o.lines
    unfolding write_links
    write_links-count i j key o o' [] p h =
        let same : o ≡ o' = cc h in ap (λ (r : Output). count x r.lines) (sym same)
    write_links-count i j key o o' (link ∷ l) p h =
        let (mid, e, h') = >>=-eq-ok (write_link floats format6 false i j key o link) _ h in
        write_links-count i j key mid o' l p h' ∙ write_link-count i j key o mid link p e

    write_pairs-count :
        (nodes ids : List Field) (o o' : Output) (links : Dict Key (List Link))
        → ((f : Field) → In f nodes → IsPlain f)
        → Entries (HasEnds nodes) links
        → write_pairs floats format6 false ids o links ≡ ok o'
        → count x o'.lines ≡ count x o.lines
    unfolding write_pairs
    write_pairs-count nodes ids o o' [] plain ends h =
        let same : o ≡ o' = cc h in ap (λ (r : Output). count x r.lines) (sym same)
    write_pairs-count nodes ids o o' ((key, l) ∷ links) plain ends h =
        let (i, e, h1) = >>=-eq-ok (or_raise value_error (index_of key.0 ids)) _ h in
        let (j, e1, h2) = >>=-eq-ok (or_raise value_error (index_of key.1 ids)) _ h1 in
        let (mid, e2, h3) = >>=-eq-ok (write_links floats format6 false i j key o l) _ h2 in
        write_pairs-count nodes ids mid o' links plain ends.1 h3
        ∙ write_links-count i j key o mid l (plain key.0 ends.0.0, plain key.1 ends.0.1) e2

  -- A topology file that is not one of failures, with a line that has another number of parts than four,
  -- as a line with begin and end has, is never accepted: the script does not come to its normal end. The
  -- texts that the format of floats gives have no space.
  pub ntf_parser_rejects :
      (round : floats.Float → Outcome ℤ) (files : Text → Option Text) (components : Graph → ℕ)
      (filename text line : Text)
      → is_failures filename ≡ false
      → In line (kept_lines (split 10 text))
      → n_parts line ≢ 4
      → (result : Option (Text × Text) × Output)
      → ntf_parser floats format6 round files components filename text ≢ ok result
  ntf_parser_rejects round files components filename text line plain member other (m, o) h =
      let r = ntf_parser-Run floats format6 round files components filename text m o plain h in
      let (new, e, there) =
        In-traverse (new_line floats format6) (kept_lines (split 10 text)) r.news line r.renewed
          member in
      let kept =
        write_pairs-count new (λ q. other (sym (n_parts-new_line line new e) ∙ q)) r.t.nodes r.ids _
          o r.t.links (read_topology-HasPlain floats round text r.t r.read)
          (read_topology-IsIndexed floats round text r.t r.read).ends r.looped in
      none_left o.lines new r.empty (omega (arith, kept, there))
    where
      none_left : (l : List Text) (y : Text) → length l ≡ 0 → 0 < count y l → ⊥
      none_left [] y e p = absurd (omega (arith, p))
      none_left (z ∷ l) y e p = absurd (omega (arith, e))
