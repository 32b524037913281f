-- ===== src/Collect/Stale.antt =====
-- A dump that does not name its router.
use mathlib.Core.Path.{subst}
use ns3_sim.Prelude.{
  ◌≡◌, ◌≢◌, sym, ap, ◌∙◌, inl, inr, false, Option, none, some, List, [], ◌∷◌, ◌==◌, arith,
  option_eq, Bool-cases, All,
}
use ns3_sim.Python.Outcome.{
  ok, index, last, before_last, >>=-eq-ok, or_raise, or_raise-eq-ok, unbound_local,
}
use ns3_sim.Python.Text.{Text, codes, text_eq}
use ns3_sim.Python.Float.{Floats}
use ns3_sim.Fib.{Fib}
use ns3_sim.Collect.{
  Dump, read_kernel, read_nexthop, read_parts, read_row, read_rows, rows_of, Collected, store,
  collect_dump,
}

-- No row has `lo` for its third part.
abbrev pub NamesNone : List (List Text) → Type 0
NamesNone = All (λ row. index row 2 ≢ ok (codes "lo"))

read_kernel-node_id :
    (d d' : Dump) (row : List Text) → read_kernel d row ≡ ok d' → d'.node_id ≡ d.node_id
unfolding read_kernel
read_kernel-node_id d d' row h =
    let (first, e, h1) = >>=-eq-ok (index row 0) _ h in
    let (device, e', h2) = >>=-eq-ok (last row) _ h1 in sym (node_id_eq h2)
  where
    node_id_eq : {a b : Dump} → ok a ≡ ok b → a.node_id ≡ b.node_id
    node_id_eq q = cc

read_nexthop-node_id :
    (d d' : Dump) (row : List Text) → read_nexthop d row ≡ ok d' → d'.node_id ≡ d.node_id
unfolding read_nexthop
read_nexthop-node_id d d' row h =
    let (via, e, h1) = >>=-eq-ok (index row 2) _ h in
    let (end, e', h2) = >>=-eq-ok (last row) _ h1 in
    let (before_end, e'', h3) = >>=-eq-ok (before_last row) _ h2 in sym (node_id_eq h3)
  where
    node_id_eq : {a b : Dump} → ok a ≡ ok b → a.node_id ≡ b.node_id
    node_id_eq q = cc

read_parts-node_id :
    (d d' : Dump) (row : List Text) (first second third fifth : Text)
    → (third == codes "lo") ≡ false
    → read_parts d row first second third fifth ≡ ok d'
    → d'.node_id ≡ d.node_id
unfolding read_parts
read_parts-node_id d d' row first second third fifth lo h =
    elim (Bool-cases (fifth == codes "kernel")) [
      | inl kernel ↦ read_kernel-node_id d d' row (rw kernel at h)
      | inr k ↦ elim (Bool-cases (second == codes "via")) [
        | inl via ↦ elim (Bool-cases (first == codes "\tnexthop")) [
          | inl nexthop ↦ read_nexthop-node_id d d' row (ground (arith, k, lo, via, nexthop, h))
          | inr n ↦ ground (arith, k, lo, via, n, h)
        ]
        | inr v ↦ ground (arith, k, lo, v, h)
      ]
    ]

read_row-node_id :
    (d d' : Dump) (row : List Text)
    → index row 2 ≢ ok (codes "lo")
    → read_row d row ≡ ok d'
    → d'.node_id ≡ d.node_id
unfolding read_row
read_row-node_id d d' row no_lo h =
    let (fifth, e4, h1) = >>=-eq-ok (index row 4) _ h in
    let (first, e0, h2) = >>=-eq-ok (index row 0) _ h1 in
    let (second, e1, h3) = >>=-eq-ok (index row 1) _ h2 in
    let (third, e2, h4) = >>=-eq-ok (index row 2) _ h3 in
    let lo : (third == codes "lo") ≡ false = elim (Bool-cases (third == codes "lo")) [
      | inl same ↦ absurd (no_lo (e2 ∙ ap ok ((text_eq.beq_iff third (codes "lo")).0 same)))
      | inr n ↦ n
    ] in
    read_parts-node_id d d' row first second third fifth lo h4

read_rows-node_id :
    (d d' : Dump) (rows : List (List Text))
    → NamesNone rows
    → read_rows d rows ≡ ok d'
    → d'.node_id ≡ d.node_id
unfolding read_rows
read_rows-node_id d d' [] m h = let same : d ≡ d' = cc h in ap (λ (x : Dump). x.node_id) (sym same)
read_rows-node_id d d' (row ∷ rows) m h =
    let (mid, e, h') = >>=-eq-ok (read_row d row) _ h in
    read_rows-node_id mid d' rows m.1 h' ∙ read_row-node_id d mid row m.0 e

abbrev pub start_of : Option Text → Dump
start_of node_id = record { neighs = []; routes = []; current = none; node_id = node_id }

-- A dump in which no row names the router is filed under the router of the dump before: its rows are
-- stored there, in place of a table that this router has at the same time.
pub collect_dump_stale :
    (floats : Floats) (c c' : Collected floats) (timestamp : floats.Float) (stdout node : Text)
    → NamesNone (rows_of stdout)
    → c.node_id ≡ some node
    → collect_dump floats c timestamp stdout ≡ ok c'
    → (d : Dump) × (read_rows (start_of (some node)) (rows_of stdout) ≡ ok d)
      × (c'.fibs
          ≡ store floats timestamp node (record { neighs = d.neighs; routes = d.routes }) c.fibs)
      × (c'.node_id ≡ some node)
unfolding collect_dump
collect_dump_stale floats c c' timestamp stdout node m before h =
    let (d, e, h1) = >>=-eq-ok (read_rows (start_of c.node_id) (rows_of stdout)) _ h in
    let stale : d.node_id ≡ some node =
      read_rows-node_id (start_of c.node_id) d (rows_of stdout) m e ∙ before in
    let (named, e', h2) = >>=-eq-ok (or_raise unbound_local d.node_id) _ h1 in
    let same : named ≡ node = cc (or_raise-eq-ok unbound_local d.node_id e', stale) in
    let fib : Fib = record { neighs = d.neighs; routes = d.routes } in
    let fibs_are : store floats timestamp named fib c.fibs ≡ c'.fibs = fibs_eq h2 in
    let node_is : d.node_id ≡ c'.node_id = node_eq h2 in
    (
      d,
      subst (λ n. read_rows (start_of n) (rows_of stdout) ≡ ok d) before e,
      subst (λ n. c'.fibs ≡ store floats timestamp n fib c.fibs) same (sym fibs_are),
      sym node_is ∙ stale,
    )
  where
    fibs_eq : {a b : Collected floats} → ok a ≡ ok b → a.fibs ≡ b.fibs
    fibs_eq q = cc

    node_eq : {a b : Collected floats} → ok a ≡ ok b → a.node_id ≡ b.node_id
    node_eq q = cc
