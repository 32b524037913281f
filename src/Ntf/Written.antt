-- ===== src/Ntf/Written.antt =====
-- The loops that write the links come to their end.
use mathlib.Core.Path.{subst}
use ns3_sim.Prelude.{
  Option-cases, ℕ, zero, suc, ◌<◌, ◌≡◌, refl, sym, ◌∙◌, ap, inl, inr, false, none, some, List, [],
  ◌∷◌, length, get_elem?, option_eq, All, In, arith,
}
use ns3_sim.Prelude.Int.{ℤ, pos}
use ns3_sim.Python.Outcome.{Outcome, ok, ◌>>=◌}
use ns3_sim.Python.Sequence.{remove, index_of, index_of-append}
use ns3_sim.Python.Dict.{Dict, Entries}
use ns3_sim.Python.Text.{Text, text_eq}
use ns3_sim.Python.Float.{Floats}
use ns3_sim.Ntf.{Field, Key, key_eq, Link, Topology, read_topology}
use ns3_sim.Ntf.Nodes.{HasEnds, read_topology-IsIndexed}
use ns3_sim.Ntf.Output.{
  Graph, replicate, zeros, set_at, set_cell, set_link, Output, strike_line, write_link, write_links,
  write_pairs,
}

-- `n` rows of `n` numbers.
pub record IsSquare (n : ℕ) (graph : Graph) : Type 0 where
  pub height : length graph ≡ n
  pub width : All (λ row. length row ≡ n) graph

module _ {ℓ} {A : Type ℓ} where
  length-replicate : (n : ℕ) (a : A) → length (replicate n a) ≡ n
  unfolding replicate
  length-replicate zero a = refl
  length-replicate (suc n) a = ap suc (length-replicate n a)

  set_at-below :
      (i : ℕ) (a : A) (xs : List A)
      → i < length xs
      → (ys : List A) × (set_at i a xs ≡ some ys) × (length ys ≡ length xs)
  unfolding set_at
  set_at-below i a [] h = absurd (omega arith)
  set_at-below zero a (x ∷ xs) h = (a ∷ xs, refl, refl)
  set_at-below (suc i) a (x ∷ xs) h =
      let (ys, e, n) = set_at-below i a xs (omega arith) in (x ∷ ys, rw e refl, ap suc n)

  set_at-All :
      (P : A → Type 0) (i : ℕ) (a : A) (xs ys : List A)
      → set_at i a xs ≡ some ys
      → P a
      → All P xs
      → All P ys
  unfolding set_at
  set_at-All P i a [] ys e p h = cc e
  set_at-All P zero a (x ∷ xs) ys e p h =
      let parts : a ∷ xs ≡ ys = cc e in subst (All P) parts (p, h.1)
  set_at-All P (suc i) a (x ∷ xs) ys e p h = elim (Option-cases (set_at i a xs)) [
    | inl out ↦ let e' : none ≡ some ys = rw (out, set_at) at e in cc e'
    | inr (zs, there) ↦
        let e' : some (x ∷ zs) ≡ some ys = rw (there, set_at) at e in
        let parts : x ∷ zs ≡ ys = cc e' in
        subst (All P) parts (h.0, set_at-All P i a xs zs there p h.1)
  ]

  All-get_elem? :
      (P : A → Type 0) (i : ℕ) (xs : List A)
      → i < length xs
      → All P xs
      → (x : A) × (get_elem? xs i ≡ some x) × P x
  All-get_elem? P i [] h a = absurd (omega arith)
  All-get_elem? P zero (x ∷ xs) h a = (x, refl, a.0)
  All-get_elem? P (suc i) (x ∷ xs) h a = All-get_elem? P i xs (omega arith) a.1

  replicate-All : (P : A → Type 0) (n : ℕ) (a : A) → P a → All P (replicate n a)
  unfolding replicate
  replicate-All P zero a p = tt
  replicate-All P (suc n) a p = (p, replicate-All P n a p)

zeros-IsSquare : (n : ℕ) → IsSquare n (zeros n)
unfolding zeros
zeros-IsSquare n = record {
  height = length-replicate n (replicate n (pos 0));
  width =
      replicate-All (λ row. length row ≡ n) n (replicate n (pos 0)) (length-replicate n (pos 0));
}

set_cell-IsSquare :
    (n i j : ℕ) (metric : ℤ) (graph : Graph)
    → i < n
    → j < n
    → IsSquare n graph
    → (graph' : Graph) × (set_cell i j metric graph ≡ ok graph') × IsSquare n graph'
unfolding set_cell
set_cell-IsSquare n i j metric graph hi hj s =
    let (row, at, wide) =
      All-get_elem? (λ row. length row ≡ n) i graph (omega (arith, s.height, hi)) s.width in
    let (row', at', wide') = set_at-below j metric row (omega (arith, wide, hj)) in
    let (graph', at'', high) = set_at-below i row' graph (omega (arith, s.height, hi)) in
    (
      graph',
      rw (at, set_cell) (rw at' (rw at'' refl)),
      record {
        height = high ∙ s.height;
        width = set_at-All (λ r. length r ≡ n) i row' graph graph' at'' (wide' ∙ wide) s.width;
      },
    )

set_link-IsSquare :
    (n i j : ℕ) (link : Link) (graph : Graph)
    → i < n
    → j < n
    → IsSquare n graph
    → (graph' : Graph) × (set_link i j link graph ≡ ok graph') × IsSquare n graph'
unfolding set_link
set_link-IsSquare n i j link graph hi hj s =
    let (graph', e, s') = set_cell-IsSquare n i j link.f_metric graph hi hj s in
    let (graph'', e', s'') = set_cell-IsSquare n j i link.r_metric graph' hj hi s' in
    (graph'', rw (e, set_link) e', s'')

strike_line-mygraph : (o : Output) (i : Text) → (strike_line o i).mygraph ≡ o.mygraph
unfolding strike_line
strike_line-mygraph o i = elim (Option-cases (remove i o.lines)) [
  | inl missing ↦ rw (missing, strike_line) refl
  | inr (rest, there) ↦ rw (there, strike_line) refl
]

module _ (floats : Floats) (format6 : floats.Float → Text) where
  write_link_returns :
      (n i j : ℕ) (key : Key) (o : Output) (link : Link)
      → i < n
      → j < n
      → IsSquare n o.mygraph
      → (o' : Output) × (write_link floats format6 false i j key o link ≡ ok o')
        × IsSquare n o'.mygraph
  unfolding write_link
  write_link_returns n i j (src, dst) o link hi hj s =
      let (graph, e, s') = set_link-IsSquare n i j link o.mygraph hi hj s in
      finish (set_link i j link o.mygraph) graph _ e (λ g. struck _ _ _) s'
    where
      struck : (o : Output) (a b : Text) → (strike_line (strike_line o a) b).mygraph ≡ o.mygraph
      struck o a b = strike_line-mygraph (strike_line o a) b ∙ strike_line-mygraph o a

      finish :
          (m : Outcome Graph) (graph : Graph) (f : Graph → Output)
          → m ≡ ok graph
          → ((g : Graph) → (f g).mygraph ≡ g)
          → IsSquare n graph
          → (o' : Output) × ((m >>= λ g. ok (f g)) ≡ ok o') × IsSquare n o'.mygraph
      finish m graph f at keeps sq =
          (f graph, rw at refl, subst (IsSquare n) (sym (keeps graph)) sq)

  write_links_returns :
      (n i j : ℕ) (key : Key) (o : Output) (l : List Link)
      → i < n
      → j < n
      → IsSquare n o.mygraph
      → (o' : Output) × (write_links floats format6 false i j key o l ≡ ok o')
        × IsSquare n o'.mygraph
  unfolding write_links
  write_links_returns n i j key o [] hi hj s = (o, refl, s)
  write_links_returns n i j key o (link ∷ l) hi hj s =
      let (mid, e, s') = write_link_returns n i j key o link hi hj s in
      let (o', e', s'') = write_links_returns n i j key mid l hi hj s' in
      (o', rw (e, write_links) e', s'')

  position :
      (x : Field) (nodes : List Field)
      → In x nodes
      → (i : ℕ) × (index_of x nodes ≡ some i) × (i < length nodes)
  position x nodes m = let (i, e, e', below) = index_of-append x nodes [] m in (i, e, below)

  write_pairs_returns :
      (nodes : List Field) (o : Output) (links : Dict Key (List Link))
      → Entries (HasEnds nodes) links
      → IsSquare (length nodes) o.mygraph
      → (o' : Output) × (write_pairs floats format6 false nodes o links ≡ ok o')
        × IsSquare (length nodes) o'.mygraph
  unfolding write_pairs
  write_pairs_returns nodes o [] h s = (o, refl, s)
  write_pairs_returns nodes o ((key, l) ∷ links) h s =
      let (i, at, below) = position key.0 nodes h.0.0 in
      let (j, at', below') = position key.1 nodes h.0.1 in
      let (mid, e, s') = write_links_returns (length nodes) i j key o l below below' s in
      let (o', e', s'') = write_pairs_returns nodes mid links h.1 s' in
      (o', rw (at, write_pairs) (rw at' (rw e e')), s'')

  -- For a topology that is read from a file that is not one of failures, the loops that print the links
  -- and fill the matrix come to their end: each node has a number, which is a row and a column of the
  -- matrix, whose size does not change.
  pub write_pairs-topology :
      (round : floats.Float → Outcome ℤ) (text : Text) (t : Topology) (lines : List Text)
      → read_topology floats round text ≡ ok t
      → (o : Output) × (write_pairs floats format6 false t.nodes
            (record { printed = []; mygraph = zeros (length t.nodes); lines = lines; fail = 0 })
            t.links
          ≡ ok o)
        × IsSquare (length t.nodes) o.mygraph
  write_pairs-topology round text t lines h =
      let indexed = read_topology-IsIndexed floats round text t h in
      write_pairs_returns t.nodes _ t.links indexed.ends (zeros-IsSquare (length t.nodes))
