-- ===== src/Ntf/Plain.antt =====
-- No node of a topology has a space in its name.
use mathlib.Core.Path.{subst}
use ns3_sim.Prelude.{
  ℕ, zero, suc, ◌≡◌, sym, inl, inr, none, some, List, [], ◌∷◌, In, All, Bool-cases, Option-cases,
  option_eq,
}
use ns3_sim.Prelude.Int.{ℤ}
use ns3_sim.Python.Outcome.{Outcome, ok, >>=-eq-ok}
use ns3_sim.Python.Sequence.{append_new, append_new-Added}
use ns3_sim.Python.Dict.{lookup}
use ns3_sim.Python.Text.{Text, text_eq, Lacks, split, split-Lacks}
use ns3_sim.Python.Float.{Floats}
use ns3_sim.TopologyFile.{is_skipped}
use ns3_sim.Ntf.{
  Field, Key, key_eq, reversed, Link, pad, int_field, float_field, read_entry, read_link, Topology,
  extend, extend_reversed, add_link, read_lines, read_topology,
}

abbrev pub IsPlain : Field → Type 0
IsPlain none = Unit
IsPlain (some name) = Lacks 32 name

pad-IsPlain : (n : ℕ) (parts : List Text) → All (Lacks 32) parts → All IsPlain (pad n parts)
unfolding pad
pad-IsPlain zero [] h = tt
pad-IsPlain (suc n) [] h = (tt, pad-IsPlain n [] tt)
pad-IsPlain zero (part ∷ parts) h = (h.0, pad-IsPlain zero parts h.1)
pad-IsPlain (suc n) (part ∷ parts) h = (h.0, pad-IsPlain n parts h.1)

module _ (floats : Floats) (round : floats.Float → Outcome ℤ) where
  read_entry-IsPlain :
      (fields : List Field) (key : Key) (entry : Link)
      → All IsPlain fields
      → read_entry floats round fields ≡ ok (key, entry)
      → IsPlain key.0 × IsPlain key.1
  unfolding read_entry
  read_entry-IsPlain (src ∷ dst ∷ metric ∷ delay ∷ begin ∷ end ∷ []) key entry h e =
      let (f, e1, h1) = >>=-eq-ok (int_field metric) _ e in
      let (seconds, e2, h2) = >>=-eq-ok (float_field floats round delay) _ h1 in
      let (d, e3, h3) = >>=-eq-ok (round _) _ h2 in
      let (b, e4, h4) = >>=-eq-ok (int_field begin) _ h3 in
      let (l, e5, h5) = >>=-eq-ok (int_field end) _ h4 in
      let same = key_of h5 in subst (λ (k : Key). IsPlain k.0 × IsPlain k.1) same (h.0, h.1.0)
    where
      key_of :
          {k j : Key} {x y : Link} → ◌≡◌ {A = Outcome (Key × Link)} (ok (k, x)) (ok (j, y)) → k ≡ j
      key_of q = cc
  read_entry-IsPlain _ key entry h e = cc e

  read_link-IsPlain :
      (line : Text) (key : Key) (entry : Link)
      → read_link floats round line ≡ ok (key, entry)
      → IsPlain key.0 × IsPlain key.1
  unfolding read_link
  read_link-IsPlain line key entry h =
      read_entry-IsPlain (pad 6 (split 32 line)) key entry
        (pad-IsPlain 6 (split 32 line) (split-Lacks 32 line)) h

abbrev pub HasPlain : Topology → Type 0
HasPlain t = (x : Field) → In x t.nodes → IsPlain x

ok_eq : {a b : Topology} → ok a ≡ ok b → a ≡ b
ok_eq q = cc

nodes-HasPlain : (t t' : Topology) → t.nodes ≡ t'.nodes → HasPlain t → HasPlain t'
nodes-HasPlain t t' e h x m = h x (subst (λ l. In x l) (sym e) m)

add_link-HasPlain :
    (t t' : Topology) (key : Key) (entry : Link)
    → IsPlain key.0 × IsPlain key.1
    → HasPlain t
    → add_link t key entry ≡ ok t'
    → HasPlain t'
unfolding add_link
add_link-HasPlain t t' key entry p h e = elim (Option-cases (lookup key t.links)) [
  | inl new ↦ elim (Option-cases (lookup (reversed key) t.links)) [
    | inl new' ↦
        let same = ok_eq (rw (new, new', add_link) at e) in
        subst HasPlain same (λ x m.
          elim ((append_new-Added (append_new t.nodes key.0) key.1).back x m) [
            | inl at ↦ subst IsPlain (sym at) p.1
            | inr m' ↦ elim ((append_new-Added t.nodes key.0).back x m') [
              | inl at ↦ subst IsPlain (sym at) p.0
              | inr m'' ↦ h x m''
            ]
          ])
    | inr (link, there) ↦
        let (link', e1, h1) =
          >>=-eq-ok (extend_reversed entry link) _ (rw (new, there, add_link) at e) in
        let same = ok_eq h1 in subst HasPlain same h
  ]
  | inr (link, there) ↦
      let (link', e1, h1) = >>=-eq-ok (extend entry link) _ (rw (there, add_link) at e) in
      let same = ok_eq h1 in subst HasPlain same h
]

module _ (floats : Floats) (round : floats.Float → Outcome ℤ) where
  read_lines-HasPlain :
      (t t' : Topology) (lines : List Text)
      → HasPlain t
      → read_lines floats round t lines ≡ ok t'
      → HasPlain t'
  unfolding read_lines
  read_lines-HasPlain t t' [] h e = let same : t ≡ t' = cc e in subst HasPlain same h
  read_lines-HasPlain t t' (line ∷ lines) h e = elim (Bool-cases (is_skipped line)) [
    | inl skip ↦ read_lines-HasPlain t t' lines h (rw (skip, read_lines) at e)
    | inr keep ↦
        let (r, e1, h1) = >>=-eq-ok (read_link floats round line) _ (rw (keep, read_lines) at e) in
        let (mid, e2, h2) = >>=-eq-ok (add_link t r.0 r.1) _ h1 in
        let plain = read_link-IsPlain floats round line r.0 r.1 e1 in
        read_lines-HasPlain mid t' lines (add_link-HasPlain t mid r.0 r.1 plain h e2) h2
  ]

  -- The names of the nodes are parts of lines, so none has a space.
  pub read_topology-HasPlain :
      (text : Text) (t : Topology) → read_topology floats round text ≡ ok t → HasPlain t
  unfolding read_topology
  read_topology-HasPlain text t h =
      read_lines-HasPlain (record { nodes = []; links = [] }) t (split 10 text) (λ x m. absurd m) h
