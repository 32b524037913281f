-- ===== src/Ntf/Nodes.antt =====
-- The list of nodes names the ends of all links, each once.
use mathlib.Core.Path.{subst}
use ns3_sim.Prelude.{
  IsOnce, option_eq, ◌≡◌, inl, inr, some, List, [], ◌∷◌, In, Bool-cases, Option-cases,
}
use ns3_sim.Prelude.Int.{ℤ}
use ns3_sim.Python.Outcome.{Outcome, ok, >>=-eq-ok}
use ns3_sim.Python.Dict.{Dict, lookup, insert, Entries, Entries-insert, Entries-lookup}
use ns3_sim.Python.Text.{text_eq, Text, split}
use ns3_sim.Python.Float.{Floats}
use ns3_sim.Python.Sequence.{append_new, append_new-Added}
use ns3_sim.Ntf.{
  Field, Key, key_eq, reversed, Link, read_link, Topology, extend, extend_reversed, add_link,
  read_lines, read_topology,
}
use ns3_sim.TopologyFile.{is_skipped}

abbrev pub HasEnds : List Field → Key → List Link → Type 0
HasEnds nodes key l = In key.0 nodes × In key.1 nodes

pub record IsIndexed (t : Topology) : Type 0 where
  pub once : IsOnce t.nodes
  pub ends : Entries (HasEnds t.nodes) t.links

Entries-more :
    (nodes nodes' : List Field) (links : Dict Key (List Link))
    → ((x : Field) → In x nodes → In x nodes')
    → Entries (HasEnds nodes) links
    → Entries (HasEnds nodes') links
Entries-more nodes nodes' [] k h = tt
Entries-more nodes nodes' ((key, l) ∷ links) k h =
    ((k key.0 h.0.0, k key.1 h.0.1), Entries-more nodes nodes' links k h.1)

abbrev with_link : Topology → Key → List Link → Topology
with_link t key link = record t { links = insert key link t.links }

IsIndexed-of_old :
    (t : Topology) (key : Key) (old link : List Link)
    → IsIndexed t
    → lookup key t.links ≡ some old
    → IsIndexed (with_link t key link)
IsIndexed-of_old t key old link h there = record {
  once = h.once;
  ends =
      Entries-insert (HasEnds t.nodes) key link t.links
        (Entries-lookup (HasEnds t.nodes) key t.links h.ends there) h.ends;
}

IsIndexed-of_new :
    (t : Topology) (key : Key) (link : List Link)
    → IsIndexed t
    → IsIndexed (record {
      nodes = append_new (append_new t.nodes key.0) key.1;
      links = insert key link t.links;
    })
IsIndexed-of_new t key link h =
    let a = append_new-Added t.nodes key.0 in
    let b = append_new-Added (append_new t.nodes key.0) key.1 in
    record {
      once = b.still_once (a.still_once h.once);
      ends =
          Entries-insert (HasEnds _) key link t.links (b.kept key.0 a.added, b.added)
            (Entries-more t.nodes _ t.links (λ x m. b.kept x (a.kept x m)) h.ends);
    }

add_link-IsIndexed :
    (t t' : Topology) (key : Key) (entry : Link)
    → IsIndexed t
    → add_link t key entry ≡ ok t'
    → IsIndexed t'
unfolding add_link
add_link-IsIndexed t t' key entry i h = elim (Option-cases (lookup key t.links)) [
  | inl new ↦ elim (Option-cases (lookup (reversed key) t.links)) [
    | inl new' ↦
        let e = ok_eq (rw (new, new', add_link) at h) in
        subst IsIndexed e (IsIndexed-of_new t key (entry ∷ []) i)
    | inr (link, there) ↦
        let (link', e, h') =
          >>=-eq-ok (extend_reversed entry link) _ (rw (new, there, add_link) at h) in
        subst IsIndexed (ok_eq h') (IsIndexed-of_old t (reversed key) link link' i there)
  ]
  | inr (link, there) ↦
      let (link', e, h') = >>=-eq-ok (extend entry link) _ (rw (there, add_link) at h) in
      subst IsIndexed (ok_eq h') (IsIndexed-of_old t key link link' i there)
]
  where
    ok_eq : {a b : Topology} → ok a ≡ ok b → a ≡ b
    ok_eq q = cc

module _ (floats : Floats) (round : floats.Float → Outcome ℤ) where
  read_lines-IsIndexed :
      (t t' : Topology) (lines : List Text)
      → IsIndexed t
      → read_lines floats round t lines ≡ ok t'
      → IsIndexed t'
  unfolding read_lines
  read_lines-IsIndexed t t' [] i h = let same : t ≡ t' = cc h in subst IsIndexed same i
  read_lines-IsIndexed t t' (line ∷ lines) i h = elim (Bool-cases (is_skipped line)) [
    | inl skip ↦ read_lines-IsIndexed t t' lines i (rw (skip, read_lines) at h)
    | inr keep ↦
        let (r, e, h') = >>=-eq-ok (read_link floats round line) _ (rw (keep, read_lines) at h) in
        let (mid, e', h'') = >>=-eq-ok (add_link t r.0 r.1) _ h' in
        read_lines-IsIndexed mid t' lines (add_link-IsIndexed t mid r.0 r.1 i e') h''
  ]

  -- In a topology that is read, no node is named twice, and both ends of each pair of the link table
  -- are nodes, so that the search for their numbers finds one.
  pub read_topology-IsIndexed :
      (text : Text) (t : Topology) → read_topology floats round text ≡ ok t → IsIndexed t
  unfolding read_topology
  read_topology-IsIndexed text t h =
      read_lines-IsIndexed (record { nodes = []; links = [] }) t (split 10 text)
        (record { once = tt; ends = tt }) h
