-- ===== src/Ntf/Balance.antt =====
-- What the counts of the check say.
use mathlib.Core.Path.{subst}
use ns3_sim.Prelude.{
  ℕ, suc, ◌+◌, ◌*◌, option_eq, nat_eq, ◌==◌, ◌≡◌, refl, ◌∙◌, ap, inl, inr, Bool, false, Option,
  List, [], ◌∷◌, ◌++◌, if◌then◌else◌, length, length-append, ltb, arith, Bool-cases, Option-cases,
}
use ns3_sim.Prelude.Int.{ℤ}
use ns3_sim.Python.Outcome.{
  length-traverse, Outcome, ok, value_error, or_raise, traverse, >>=-eq-ok,
}
use ns3_sim.Python.Sequence.{remove, remove-shorter, index_of}
use ns3_sim.Python.Dict.{Dict}
use ns3_sim.Python.Text.{Text, text_eq, split}
use ns3_sim.Python.Float.{Floats}
use ns3_sim.TopologyFile.{kept_lines, new_line}
use ns3_sim.Ntf.{Field, Key, Link, Topology, read_topology, count_links}
use ns3_sim.Ntf.Output.{
  is_failures, id_src, write_map, Graph, zeros, Output, strike_line, set_link, write_link,
  write_links, write_pairs, check_output, ntf_parser,
}

-- The step from `o` to `o'` wrote `n` links.
pub record Wrote (n : ℕ) (o o' : Output) : Type 0 where
  pub balance : o'.fail + length o.lines ≡ 2 * n + (o.fail + length o'.lines)
  pub rows : length o'.printed ≡ length o.printed + n

Wrote-none : (o : Output) → Wrote 0 o o
Wrote-none o = record { balance = omega arith; rows = omega arith }

Wrote-add : (m n : ℕ) (o o' o'' : Output) → Wrote m o o' → Wrote n o' o'' → Wrote (m + n) o o''
Wrote-add m n o o' o'' a b = record {
  balance = omega (arith, a.balance, b.balance);
  rows = omega (arith, a.rows, b.rows);
}

Wrote-suc : (n : ℕ) (o o' o'' : Output) → Wrote 1 o o' → Wrote n o' o'' → Wrote (suc n) o o''
Wrote-suc n o o' o'' a b = record {
  balance = omega (arith, a.balance, b.balance);
  rows = omega (arith, a.rows, b.rows);
}

strike_line-balance :
    (o : Output) (i : Text)
    → ((strike_line o i).fail + length o.lines ≡ suc (o.fail + length (strike_line o i).lines))
      × ((strike_line o i).printed ≡ o.printed)
unfolding strike_line
strike_line-balance o i = elim (Option-cases (remove i o.lines)) [
  | inl missing ↦ rw (missing, strike_line) (omega arith, refl)
  | inr (rest, there) ↦
      let one = remove-shorter i o.lines rest there in
      rw (there, strike_line) (omega (arith, one), refl)
]

-- One row is printed, and two lines are looked for.
one_link :
    (o : Output) (g : Graph) (row a b : Text)
    → Wrote 1 o
        (strike_line (strike_line (record o { printed = o.printed ++ row ∷ []; mygraph = g }) a) b)
one_link o g row a b =
    let start : Output = record o { printed = o.printed ++ row ∷ []; mygraph = g } in
    let (first, rows) = strike_line-balance start a in
    let (second, rows') = strike_line-balance (strike_line start a) b in
    record {
      balance = omega (arith, first, second);
      rows = ap (λ (l : List Text). length l) (rows' ∙ rows) ∙ length-append o.printed (row ∷ []);
    }

check_output-ok :
    (components : Graph → ℕ) (o o' : Output)
    → check_output false components o ≡ ok o'
    → (o ≡ o') × (length o.lines ≡ 0) × (components o.mygraph ≡ 1)
unfolding check_output
check_output-ok components o o' h = elim (Bool-cases (ltb 0 (length o.lines))) [
  | inl more ↦ cc (rw (more, check_output) at h)
  | inr nothing ↦ elim (Bool-cases (components o.mygraph == 1)) [
    | inl one ↦
        let e : ok o ≡ ok o' = rw (nothing, one, check_output) at h in
        (out_eq e, ground (arith, nothing), ground (arith, one))
    | inr other ↦ cc (rw (nothing, other, check_output) at h)
  ]
]
  where
    out_eq : {a b : Output} → ok a ≡ ok b → a ≡ b
    out_eq q = cc

module _ (floats : Floats) (format6 : floats.Float → Text) where
  write_link-Wrote :
      (failures : Bool) (i j : ℕ) (key : Key) (o o' : Output) (link : Link)
      → write_link floats format6 failures i j key o link ≡ ok o'
      → Wrote 1 o o'
  unfolding write_link
  write_link-Wrote failures i j (src, dst) o o' link h =
      let (g, e, h') =
        >>=-eq-ok (if failures then ok o.mygraph else set_link i j link o.mygraph) _ h in
      let same = out_eq h' in subst (Wrote 1 o) same (one_link o g _ _ _)
    where
      out_eq : {a b : Output} → ok a ≡ ok b → a ≡ b
      out_eq q = cc

  write_links-Wrote :
      (failures : Bool) (i j : ℕ) (key : Key) (o o' : Output) (l : List Link)
      → write_links floats format6 failures i j key o l ≡ ok o'
      → Wrote (length l) o o'
  unfolding write_links
  write_links-Wrote failures i j key o o' [] h =
      let same : o ≡ o' = cc h in subst (Wrote 0 o) same (Wrote-none o)
  write_links-Wrote failures i j key o o' (link ∷ l) h =
      let (mid, e, h') = >>=-eq-ok (write_link floats format6 failures i j key o link) _ h in
      Wrote-suc (length l) o mid o' (write_link-Wrote failures i j key o mid link e)
        (write_links-Wrote failures i j key mid o' l h')

  write_pairs-Wrote :
      (failures : Bool) (ids : List Field) (o o' : Output) (links : Dict Key (List Link))
      → write_pairs floats format6 failures ids o links ≡ ok o'
      → Wrote (count_links links) o o'
  unfolding write_pairs count_links
  write_pairs-Wrote failures ids o o' [] h =
      let same : o ≡ o' = cc h in subst (Wrote 0 o) same (Wrote-none o)
  write_pairs-Wrote failures ids o o' ((key, l) ∷ links) h =
      let (i, e, h1) = >>=-eq-ok (or_raise value_error (index_of key.0 ids)) _ h in
      let (j, e1, h2) = >>=-eq-ok (or_raise value_error (index_of key.1 ids)) _ h1 in
      let (mid, e2, h3) = >>=-eq-ok (write_links floats format6 failures i j key o l) _ h2 in
      Wrote-add (length l) (count_links links) o mid o'
        (write_links-Wrote failures i j key o mid l e2)
        (write_pairs-Wrote failures ids mid o' links h3)

  -- A run that came to its normal end, for a file that is not one of failures.
  pub record Run (round : floats.Float → Outcome ℤ) (components : Graph → ℕ) (text : Text)
      (o : Output) : Type 0 where
    pub t : Topology
    pub read : read_topology floats round text ≡ ok t
    pub ids : List Field
    pub news : List Text
    pub renewed : traverse (new_line floats format6) (kept_lines (split 10 text)) ≡ ok news
    pub looped :
        write_pairs floats format6 false ids
          (record { printed = []; mygraph = zeros (length t.nodes); lines = news; fail = 0 })
          t.links
        ≡ ok o
    pub empty : length o.lines ≡ 0
    pub one : components o.mygraph ≡ 1

  pub ntf_parser-Run :
      (round : floats.Float → Outcome ℤ) (files : Text → Option Text) (components : Graph → ℕ)
      (filename text : Text) (m : Option (Text × Text)) (o : Output)
      → is_failures filename ≡ false
      → ntf_parser floats format6 round files components filename text ≡ ok (m, o)
      → Run round components text o
  unfolding ntf_parser
  ntf_parser-Run round files components filename text m o plain h =
      let h0 = rw (plain, ntf_parser) at h in
      let (t, read, h0') = >>=-eq-ok (read_topology floats round text) _ h0 in
      let (ids, e, h1) = >>=-eq-ok (id_src files filename t.nodes) _ h0' in
      let (written, e0, h1') = >>=-eq-ok (write_map filename t.nodes) _ h1 in
      let (news, e1, h2) =
        >>=-eq-ok (traverse (new_line floats format6) (kept_lines (split 10 text))) _ h1' in
      let (last_o, e2, h3) = >>=-eq-ok (write_pairs floats format6 false ids _ t.links) _ h2 in
      let (checked, e3, h4) = >>=-eq-ok (check_output false components last_o) _ h3 in
      let (same, empty, one) = check_output-ok components last_o checked e3 in
      let is_o : checked ≡ o = out_eq written m checked o h4 in
      subst (Run round components text) (same ∙ is_o) (record {
        t = t;
        read = read;
        ids = ids;
        news = news;
        renewed = e1;
        looped = e2;
        empty = empty;
        one = one;
      })
    where
      out_eq :
          (m n : Option (Text × Text)) (a b : Output)
          → ◌≡◌ {A = Outcome (Option (Text × Text) × Output)} (ok (m, a)) (ok (n, b))
          → a ≡ b
      out_eq m n a b q = cc

  -- When the script ends for a file that is not one of failures, it printed one row for each link, and
  -- the failures that it reports and the lines of the file make up the two directions of each link; the
  -- graph has one component.
  pub ntf_parser-balance :
      (round : floats.Float → Outcome ℤ) (files : Text → Option Text) (components : Graph → ℕ)
      (filename text : Text) (t : Topology) (m : Option (Text × Text)) (o : Output)
      → is_failures filename ≡ false
      → read_topology floats round text ≡ ok t
      → ntf_parser floats format6 round files components filename text ≡ ok (m, o)
      → (length o.printed ≡ count_links t.links)
        × (o.fail + length (kept_lines (split 10 text)) ≡ 2 * count_links t.links)
        × (components o.mygraph ≡ 1)
  ntf_parser-balance round files components filename text t m o plain read h =
      let r = ntf_parser-Run round files components filename text m o plain h in
      let w = write_pairs-Wrote false r.ids _ o r.t.links r.looped in
      let n =
        length-traverse (new_line floats format6) (kept_lines (split 10 text)) r.news r.renewed in
      let same : r.t ≡ t = cc (read, r.read) in
      subst
        (λ (t' : Topology).
          (length o.printed ≡ count_links t'.links)
          × (o.fail + length (kept_lines (split 10 text)) ≡ 2 * count_links t'.links)
          × (components o.mygraph ≡ 1))
        same (omega (arith, w.rows), omega (arith, w.balance, r.empty, n), r.one)
