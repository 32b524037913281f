-- ===== src/Ntf/Accepted.antt =====
-- myscripts/bird/ntf_parser.py: when the check at the end accepts a topology file.
use mathlib.Core.Path.{subst}
use ns3_sim.Prelude.{
  ℕ, ◌+◌, ◌-◌, ◌≤◌, ◌≡◌, refl, ◌⊎◌, inl, inr, false, true, Option, some, List, [], ◌∷◌, ◌++◌,
  length, ltb, arith, Bool-cases, ◌==◌, nat_eq, nat_beq_iff, option_eq,
}
use ns3_sim.Prelude.Int.{ℤ}
use ns3_sim.Python.Outcome.{
  Outcome, ok, raise, value_error, system_exit, or_raise, traverse, >>=-eq-ok,
}
use ns3_sim.Python.Sequence.{remove-cases, count, count-zero, index_of}
use ns3_sim.Python.Dict.{Dict}
use ns3_sim.Python.Text.{Text, text_eq, codes, split, split_parts}
use ns3_sim.Python.Float.{Floats}
use ns3_sim.TopologyFile.{kept_lines, new_line}
use ns3_sim.Ntf.{Field, Key, Link, Topology, read_topology}
use ns3_sim.Ntf.Written.{write_pairs-topology}
use ns3_sim.Ntf.Output.{
  is_failures, id_src, write_map, map_file, Graph, zeros, Output, strike_line, set_link,
  direction_line, write_link, write_links, write_pairs, check_output, ntf_parser,
}

-- Each item of the first list is in the second, at least as often.
abbrev pub Within : List Text → List Text → Type 0
Within xs ys = (x : Text) → count x xs ≤ count x ys

count-append : (x : Text) (xs ys : List Text) → count x (xs ++ ys) ≡ count x xs + count x ys
count-append x [] ys = omega arith
count-append x (y ∷ xs) ys = omega (arith, count-append x xs ys)

-- From `xs` the lines `struck` were taken, each that was there.
abbrev Struck : List Text → List Text → List Text → Type 0
Struck struck xs xs' = (x : Text) → count x xs' ≡ count x xs - count x struck

Struck-append : (a b xs ys zs : List Text) → Struck a xs ys → Struck b ys zs → Struck (a ++ b) xs zs
Struck-append a b xs ys zs h k x = omega (arith, h x, k x, count-append x a b)

strike_line-Struck : (o : Output) (i : Text) → Struck (i ∷ []) o.lines (strike_line o i).lines
unfolding strike_line
strike_line-Struck o i x = elim (remove-cases i o.lines) [
  | inl (missing, absent) ↦
      rw (missing, strike_line)
        (elim (Bool-cases (x == i)) [
          | inl same ↦
              let at : x ≡ i = (text_eq.beq_iff x i).0 same in
              let none_there : count x o.lines ≡ 0 = rw at absent in
              rw same (omega (arith, none_there))
          | inr other ↦ rw other (omega arith)
        ])
  | inr (rest, there, counts) ↦ rw (there, strike_line) (omega (arith, counts x))
]

module _ (floats : Floats) (format6 : floats.Float → Text) where
  -- The two lines of each link.
  abbrev pub link_lines : Key → List Link → List Text
  link_lines key [] = []
  link_lines key (link ∷ l) =
      (direction_line floats format6 key.0 key.1 link.f_metric link.delay
        ∷ direction_line floats format6 key.1 key.0 link.r_metric link.delay
        ∷ [])
      ++ link_lines key l

  abbrev pub pair_lines : Dict Key (List Link) → List Text
  pair_lines [] = []
  pair_lines ((key, l) ∷ links) = link_lines key l ++ pair_lines links

  write_link-Struck :
      (i j : ℕ) (key : Key) (o o' : Output) (link : Link)
      → write_link floats format6 false i j key o link ≡ ok o'
      → Struck (link_lines key (link ∷ [])) o.lines o'.lines
  unfolding write_link
  write_link-Struck i j (src, dst) o o' link h =
      let (g, e, h') = >>=-eq-ok (set_link i j link o.mygraph) _ h in
      let same = out_eq h' in
      subst (λ (r : Output). Struck (link_lines (src, dst) (link ∷ [])) o.lines r.lines) same
        (Struck-append (_ ∷ []) (_ ∷ []) o.lines _ _ (strike_line-Struck _ _)
          (strike_line-Struck _ _))
    where
      out_eq : {a b : Output} → ok a ≡ ok b → a ≡ b
      out_eq q = cc

  write_links-Struck :
      (i j : ℕ) (key : Key) (o o' : Output) (l : List Link)
      → write_links floats format6 false i j key o l ≡ ok o'
      → Struck (link_lines key l) o.lines o'.lines
  unfolding write_links
  write_links-Struck i j key o o' [] h =
      let same : o ≡ o' = cc h in
      subst (λ (r : Output). Struck [] o.lines r.lines) same (λ x. omega arith)
  write_links-Struck i j key o o' (link ∷ l) h =
      let (mid, e, h') = >>=-eq-ok (write_link floats format6 false i j key o link) _ h in
      Struck-append (link_lines key (link ∷ [])) (link_lines key l) o.lines mid.lines o'.lines
        (write_link-Struck i j key o mid link e) (write_links-Struck i j key mid o' l h')

  write_pairs-Struck :
      (ids : List Field) (o o' : Output) (links : Dict Key (List Link))
      → write_pairs floats format6 false ids o links ≡ ok o'
      → Struck (pair_lines links) o.lines o'.lines
  unfolding write_pairs
  write_pairs-Struck ids o o' [] h =
      let same : o ≡ o' = cc h in
      subst (λ (r : Output). Struck [] o.lines r.lines) same (λ x. omega arith)
  write_pairs-Struck ids o o' ((key, l) ∷ links) h =
      let (i, e, h1) = >>=-eq-ok (or_raise value_error (index_of key.0 ids)) _ h in
      let (j, e1, h2) = >>=-eq-ok (or_raise value_error (index_of key.1 ids)) _ h1 in
      let (mid, e2, h3) = >>=-eq-ok (write_links floats format6 false i j key o l) _ h2 in
      Struck-append (link_lines key l) (pair_lines links) o.lines mid.lines o'.lines
        (write_links-Struck i j key o mid l e2) (write_pairs-Struck ids mid o' links h3)

-- It accepts, and the lines are within those that were looked for, and the graph has one component; or it
-- exits, and that is not so.
abbrev Checked : (Graph → ℕ) → Output → List Text → List Text → Type 0
Checked components o news written =
    ((check_output false components o ≡ ok o) × Within news written × (components o.mygraph ≡ 1))
    ⊎ ((check_output false components o ≡ raise (system_exit 1))
        × (¬ (Within news written × (components o.mygraph ≡ 1))))

left_over :
    (lines news written : List Text)
    → Struck written news lines
    → ltb 0 (length lines) ≡ true
    → ¬ Within news written
left_over [] news written h more within = absurd (ground (arith, more))
left_over (y ∷ lines) news written h more within = count-zero y lines (omega (arith, h y, within y))

nothing_left :
    (lines news written : List Text)
    → Struck written news lines
    → ltb 0 (length lines) ≡ false
    → Within news written
nothing_left [] news written h nothing x = omega (arith, h x)
nothing_left (y ∷ lines) news written h nothing x = absurd (ground (arith, nothing))

check_output-Checked :
    (components : Graph → ℕ) (o : Output) (news written : List Text)
    → Struck written news o.lines
    → Checked components o news written
unfolding check_output
check_output-Checked components o news written h = elim (Bool-cases (ltb 0 (length o.lines))) [
  | inl more ↦ inr (rw (more, check_output) refl, λ p. left_over o.lines news written h more p.0)
  | inr nothing ↦ elim (Bool-cases (components o.mygraph == 1)) [
    | inl one ↦ inl (
      rw (nothing, one, check_output) refl,
      nothing_left o.lines news written h nothing,
      (nat_beq_iff (components o.mygraph) 1).0 one,
    )
    | inr other ↦ inr (
      rw (nothing, other, check_output) refl,
      λ p. cc (other, (nat_beq_iff (components o.mygraph) 1).1 p.1),
    )
  ]
]

write_map_returns :
    (filename : Text) (nodes : List Field)
    → is_failures filename ≡ false
    → (m : Option (Text × Text)) × (write_map filename nodes ≡ ok m)
unfolding write_map
write_map_returns filename nodes plain =
    let (p, ps, e) = split_parts b'.' filename in
    (some (p ++ codes ".map", map_file 0 nodes), rw (plain, write_map) (rw e refl))

module _ (floats : Floats) (format6 : floats.Float → Text) where
  -- For a topology that is read from a file that is not one of failures, whose lines can be written anew:
  -- the loops over the links come to their end, and the script ends normally when each of the lines is
  -- there among the two lines of each link, as often as in the file, and the graph has one component;
  -- otherwise it exits with 1.
  pub ntf_parser_cases :
      (round : floats.Float → Outcome ℤ) (files : Text → Option Text) (components : Graph → ℕ)
      (filename text : Text) (t : Topology) (news : List Text)
      → is_failures filename ≡ false
      → read_topology floats round text ≡ ok t
      → traverse (new_line floats format6) (kept_lines (split 10 text)) ≡ ok news
      → (m : Option (Text × Text)) × (o : Output) × (write_pairs floats format6 false t.nodes
            (record { printed = []; mygraph = zeros (length t.nodes); lines = news; fail = 0 })
            t.links
          ≡ ok o)
        × (((ntf_parser floats format6 round files components filename text ≡ ok (m, o))
              × Within news (pair_lines floats format6 t.links)
              × (components o.mygraph ≡ 1))
            ⊎ ((ntf_parser floats format6 round files components filename text
                  ≡ raise (system_exit 1))
                × (¬ (
                    Within news (pair_lines floats format6 t.links) × (components o.mygraph ≡ 1)))))
  unfolding ntf_parser id_src
  ntf_parser_cases round files components filename text t news plain read renewed =
      let (m, written) = write_map_returns filename t.nodes plain in
      let (o, looped, square) = write_pairs-topology floats format6 round text t news read in
      (
        m,
        o,
        looped,
        elim (check_output-Checked components o news (pair_lines floats format6 t.links)
            (write_pairs-Struck floats format6 t.nodes _ o t.links looped)) [
              | inl (done, within, one) ↦ inl (
                rw (read, ntf_parser) (rw (plain, written) (rw renewed (rw looped (rw done refl)))),
                within,
                one,
              )
              | inr (out, not_so) ↦ inr (
                rw (read, ntf_parser) (rw (plain, written) (rw renewed (rw looped (rw out refl)))),
                not_so,
              )
            ],
      )
