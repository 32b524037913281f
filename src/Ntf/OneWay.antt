-- ===== src/Ntf/OneWay.antt =====
-- myscripts/bird/ntf_parser.py: a file with one line for each link, as misc/fail_gen.py writes it.
use mathlib.Core.Path.{subst}
use ns3_sim.Prelude.{
  option_eq, ◌≡◌, refl, sym, ap, ◌∙◌, ◌⊎◌, inl, inr, true, false, none, some, List, [], ◌∷◌, ◌++◌,
  In, IsOnce, IsOnce-append, In-append_left, In-append_right, All, All-of_In, Bool-cases, contains,
  contains→In, In→contains, append-nil, append_assoc,
}
use ns3_sim.Prelude.Int.{ℤ, int_eq}
use ns3_sim.Python.Outcome.{Outcome, ok, raise, system_exit, traverse, ◌>>=◌, >>=-eq-ok}
use ns3_sim.Python.Sequence.{append_new}
use ns3_sim.Python.Dict.{Dict, lookup, insert, insert_new, keys}
use ns3_sim.Python.Float.{Floats}
use ns3_sim.Python.Text.{Text, text_eq, split}
use ns3_sim.TopologyFile.{is_skipped, kept_lines}
use ns3_sim.Ntf.{
  Key, key_eq, reversed, Link, unset, pad, read_link, Topology, extend, add_link, read_lines,
  read_topology,
}
use ns3_sim.Ntf.Directions.{entry-unset}

-- The rounds of the loop, from the entries.
add_all : Topology → Dict Key Link → Outcome Topology
add_all t [] = ok t
add_all t ((key, entry) ∷ entries) = do t' ← add_link t key entry; add_all t' entries

-- Each pair with its one link.
abbrev pub singles : Dict Key Link → Dict Key (List Link)
singles [] = []
singles ((key, entry) ∷ entries) = (key, entry ∷ []) ∷ singles entries

singles-append : (a b : Dict Key Link) → singles (a ++ b) ≡ singles a ++ singles b
singles-append [] b = refl
singles-append (x ∷ a) b =
    ap (λ (l : Dict Key (List Link)). (x.0, x.1 ∷ []) ∷ l) (singles-append a b)

abbrev IsUnset : Key × Link → Type 0
IsUnset p = p.1.r_metric ≡ unset

lookup-singles :
    (k : Key) (done : Dict Key Link)
    → All IsUnset done
    → In k (keys done)
    → (l : Link) × (lookup k (singles done) ≡ some (l ∷ [])) × (l.r_metric ≡ unset)
unfolding lookup
lookup-singles k [] u m = absurd m
lookup-singles k ((j, l) ∷ done) (u, us) m = elim (Bool-cases (key_eq.beq k j)) [
  | inl same ↦ (l, rw same refl, u)
  | inr other ↦
      let later : In k (keys done) = elim m [
        | inl at ↦ let clash : true ≡ false = sym ((key_eq.beq_iff k j).1 at) ∙ other in cc clash
        | inr m' ↦ m'
      ] in
      let (l', e, u') = lookup-singles k done us later in (l', rw other e, u')
]

lookup-singles-none :
    (k : Key) (done : Dict Key Link) → ¬ In k (keys done) → lookup k (singles done) ≡ none
unfolding lookup
lookup-singles-none k [] out = refl
lookup-singles-none k ((j, l) ∷ done) out = elim (Bool-cases (key_eq.beq k j)) [
  | inl same ↦ absurd (out (inl ((key_eq.beq_iff k j).0 same)))
  | inr other ↦ rw other (lookup-singles-none k done (λ m. out (inr m)))
]

-- A second line in one direction, with none in the other, is an exit.
add_link-again :
    (t : Topology) (k : Key) (entry l : Link)
    → lookup k t.links ≡ some (l ∷ [])
    → l.r_metric ≡ unset
    → add_link t k entry ≡ raise (system_exit 1)
unfolding add_link extend
add_link-again t k entry l there u = rw (there, add_link) (rw u refl)

add_link-new :
    (t : Topology) (k : Key) (entry : Link)
    → lookup k t.links ≡ none
    → lookup (reversed k) t.links ≡ none
    → (t' : Topology) × (add_link t k entry ≡ ok t') × (t'.links ≡ t.links ++ (k, entry ∷ []) ∷ [])
unfolding add_link
add_link-new t k entry new new' = (
  record { nodes = append_new (append_new t.nodes k.0) k.1; links = insert k (entry ∷ []) t.links },
  rw (new, new', add_link) refl,
  insert_new k (entry ∷ []) t.links new,
)

keys-append : (a b : Dict Key Link) → keys (a ++ b) ≡ keys a ++ keys b
keys-append [] b = refl
keys-append (x ∷ a) b = ap (λ (l : List Key). x.0 ∷ l) (keys-append a b)

IsOnce-twice : (k : Key) (xs ys : List Key) → In k xs → ¬ IsOnce (xs ++ k ∷ ys)
IsOnce-twice k [] ys m once = absurd m
IsOnce-twice k (x ∷ xs) ys (inl at) once =
    once.0 (subst (λ y. In y (xs ++ k ∷ ys)) at (In-append_right k xs (k ∷ ys) (inl refl)))
IsOnce-twice k (x ∷ xs) ys (inr m) once = IsOnce-twice k xs ys m once.1

-- Either no two lines have the same ends, and each is a link of its own; or two have, and the script
-- exits.
abbrev Result : Outcome Topology → Dict Key Link → Type 0
Result read entries =
    ((t : Topology) × (read ≡ ok t) × (t.links ≡ singles entries) × IsOnce (keys entries))
    ⊎ ((read ≡ raise (system_exit 1)) × (¬ IsOnce (keys entries)))

module _ (entries : Dict Key Link) (all_unset : (p : Key × Link) → In p entries → IsUnset p)
    (apart : (k : Key) → In k (keys entries) → ¬ In (reversed k) (keys entries)) where
  add_all-Result :
      (t : Topology) (done todo : Dict Key Link)
      → done ++ todo ≡ entries
      → t.links ≡ singles done
      → IsOnce (keys done)
      → Result (add_all t todo) entries
  unfolding add_all
  add_all-Result t done [] e links once =
      let all : done ≡ entries = sym (append-nil done) ∙ e in
      inl (t, refl, links ∙ ap singles all, subst (λ (d : Dict Key Link). IsOnce (keys d)) all once)
  add_all-Result t done ((k, entry) ∷ todo) e links once =
      let parts : keys done ++ k ∷ keys todo ≡ keys entries =
        sym (keys-append done ((k, entry) ∷ todo)) ∙ ap (λ (d : Dict Key Link). keys d) e in
      let up : (j : Key) → In j (keys done) → In j (keys entries) =
        λ j m. subst (In j) parts (In-append_left j (keys done) (k ∷ keys todo) m) in
      let here : In k (keys entries) =
        subst (In k) parts (In-append_right k (keys done) (k ∷ keys todo) (inl refl)) in
      elim (Bool-cases (contains (keys done) k)) [
        | inl there ↦
            let m = contains→In k (keys done) there in
            let unset_done =
              All-of_In IsUnset done (λ p n.
                all_unset p (subst (In p) e (In-append_left p done ((k, entry) ∷ todo) n))) in
            let (l, at, u) = lookup-singles k done unset_done m in
            let out = add_link-again t k entry l (ap (lookup k) links ∙ at) u in
            inr (
              rw out refl,
              λ o. IsOnce-twice k (keys done) (keys todo) m (subst IsOnce (sym parts) o),
            )
        | inr new ↦
            let absent : ¬ In k (keys done) = λ m. cc (new, In→contains k (keys done) m) in
            let back : ¬ In (reversed k) (keys done) = λ m. apart k here (up (reversed k) m) in
            let (t', added, links') =
              add_link-new t k entry (ap (lookup k) links ∙ lookup-singles-none k done absent)
                (ap (lookup (reversed k)) links ∙ lookup-singles-none (reversed k) done back) in
            let rest =
              add_all-Result t' (done ++ (k, entry) ∷ []) todo
                (append_assoc done ((k, entry) ∷ []) todo ∙ e)
                (links'
                  ∙ ap (λ (d : Dict Key (List Link)). d ++ (k, entry ∷ []) ∷ []) links
                  ∙ sym (singles-append done ((k, entry) ∷ [])))
                (subst IsOnce (sym (keys-append done ((k, entry) ∷ []))) (
                  IsOnce-append (keys done) (k ∷ []) once (absurd_one, tt)
                    (λ j m n. elim n [
                      | inl at ↦ absent (subst (λ x. In x (keys done)) at m)
                      | inr none_left ↦ none_left
                    ]))) in
            rw added rest
      ]
    where
      absurd_one : ⊥ → ⊥
      absurd_one x = x

bind_ext :
    (m : Outcome Topology) (f g : Topology → Outcome Topology)
    → ((t : Topology) → f t ≡ g t)
    → (m >>= f) ≡ (m >>= g)
bind_ext (ok t) f g h = h t
bind_ext (raise x) f g h = refl

module _ (floats : Floats) (round : floats.Float → Outcome ℤ) where
  read_lines-add_all :
      (t : Topology) (lines : List Text) (entries : Dict Key Link)
      → traverse (read_link floats round) (kept_lines lines) ≡ ok entries
      → read_lines floats round t lines ≡ add_all t entries
  unfolding read_lines add_all traverse
  read_lines-add_all t [] entries h = let same : [] ≡ entries = cc h in rw (sym same) refl
  read_lines-add_all t (line ∷ lines) entries h = elim (Bool-cases (is_skipped line)) [
    | inl skip ↦ rw (skip, read_lines) (read_lines-add_all t lines entries (rw skip at h))
    | inr keep ↦
        let (r, e, h1) = >>=-eq-ok (read_link floats round line) _ (rw keep at h) in
        let (rest, e1, h2) =
          >>=-eq-ok (traverse (read_link floats round) (kept_lines lines)) _ h1 in
        let same : r ∷ rest ≡ entries = cc h2 in
        rw (keep, read_lines)
          (rw e (
            rw (sym same)
              (bind_ext (add_link t r.0 r.1) _ _ (λ mid. read_lines-add_all mid lines rest e1))))
  ]

  entries-IsUnset :
      (lines : List Text) (entries : Dict Key Link)
      → traverse (read_link floats round) lines ≡ ok entries
      → (p : Key × Link) → In p entries
      → IsUnset p
  unfolding traverse
  entries-IsUnset [] entries h p m =
      let same : [] ≡ entries = cc h in absurd (subst (In p) (sym same) m)
  entries-IsUnset (line ∷ lines) entries h p m =
      let (r, e, h1) = >>=-eq-ok (read_link floats round line) _ h in
      let (rest, e1, h2) = >>=-eq-ok (traverse (read_link floats round) lines) _ h1 in
      let same : r ∷ rest ≡ entries = cc h2 in
      elim (subst (In p) (sym same) m) [
        | inl at ↦
            subst IsUnset (sym at)
              (entry-unset floats round (pad 6 (split 32 line)) r.0 r.1 (unfold read_link in e))
        | inr m' ↦ entries-IsUnset lines rest e1 p m'
      ]

  -- A file each of whose lines can be read, and in which no line goes back between the ends of another,
  -- as the file of failures that fail_gen.py writes: when no two lines have the same ends, each line is
  -- read as a link of its own, in their order. When two have, as parallel links of the topology give, the
  -- script exits with 1.
  pub read_topology-one_way :
      (text : Text) (entries : Dict Key Link)
      → traverse (read_link floats round) (kept_lines (split 10 text)) ≡ ok entries
      → ((k : Key) → In k (keys entries) → ¬ In (reversed k) (keys entries))
      → ((t : Topology) × (read_topology floats round text ≡ ok t)
          × (t.links ≡ singles entries)
          × IsOnce (keys entries))
        ⊎ ((read_topology floats round text ≡ raise (system_exit 1)) × (¬ IsOnce (keys entries)))
  unfolding read_topology
  read_topology-one_way text entries h apart =
      let start : Topology = record { nodes = []; links = [] } in
      subst (λ (m : Outcome Topology). Result m entries)
        (sym (read_lines-add_all start (split 10 text) entries h))
        (add_all-Result entries (entries-IsUnset (kept_lines (split 10 text)) entries h) apart start
          [] entries refl refl tt)
