-- ===== src/Collect/Printed.antt =====
-- A forwarding table as `ip route` prints it, independent of the code that reads it.
use mathlib.Core.Path.{subst}
use ns3_sim.Prelude.{
  sym, false, ℕ, ◌≡◌, ◌≢◌, refl, ap, ◌∙◌, Bool, true, Option, some, List, [], ◌∷◌, ◌++◌, map, arith,
  All, All-append, nat_eq,
}
use ns3_sim.Python.Text.{Text, codes, Lacks, split, split-cons, split-join, join, non_empty}
use ns3_sim.Fib.{Nexthops, Routes}
use ns3_sim.Python.Dict.{Dict}
use ns3_sim.Collect.{rows_of}
use ns3_sim.Collect.Multipath.{nexthop_row, route_row}

-- The router's own address, the address of the end of a link to a neighbour, and a route of one nexthop
-- or of several.
pub data Entry : Type 0 where
  own : Text → Entry
  neighbour : Text → Text → Text → Entry
  single : Text → Text → Text → Entry
  multi : Text → Text → Text × Bool → Nexthops → Entry

abbrev pub printed : Entry → List (List Text)
printed (own address) =
    (address ∷ codes "dev" ∷ codes "lo" ∷ codes "scope" ∷ codes "link" ∷ []) ∷ []
printed (neighbour dst device address) =
    (dst
      ∷ codes "dev"
      ∷ device
      ∷ codes "proto"
      ∷ codes "kernel"
      ∷ codes "scope"
      ∷ codes "link"
      ∷ codes "src"
      ∷ address
      ∷ [])
    ∷ []
printed (single dst via device) =
    (dst ∷ codes "via" ∷ via ∷ codes "dev" ∷ device ∷ codes "proto" ∷ codes "bird" ∷ []) ∷ []
printed (multi dst device hop more) = route_row dst ∷ map (nexthop_row device) (hop ∷ more)

abbrev pub printed_all : List Entry → List (List Text)
printed_all [] = []
printed_all (e ∷ entries) = printed e ++ printed_all entries

-- What the entries say.
abbrev pub neighs_of : List Entry → Dict Text Text
neighs_of [] = []
neighs_of (neighbour dst device address ∷ entries) = (dst, address) ∷ neighs_of entries
neighs_of (own address ∷ entries) = neighs_of entries
neighs_of (single dst via device ∷ entries) = neighs_of entries
neighs_of (multi dst device hop more ∷ entries) = neighs_of entries

abbrev pub routes_of : List Entry → Routes
routes_of [] = []
routes_of (single dst via device ∷ entries) = (some dst, (via, true) ∷ []) ∷ routes_of entries
routes_of (multi dst device hop more ∷ entries) = (some dst, hop ∷ more) ∷ routes_of entries
routes_of (own address ∷ entries) = routes_of entries
routes_of (neighbour dst device address ∷ entries) = routes_of entries

abbrev pub node_of : Option Text → List Entry → Option Text
node_of before [] = before
node_of before (own address ∷ entries) = node_of (some address) entries
node_of before (neighbour dst device address ∷ entries) = node_of before entries
node_of before (single dst via device ∷ entries) = node_of before entries
node_of before (multi dst device hop more ∷ entries) = node_of before entries

-- A part of a row.
abbrev pub IsCell : Text → Type 0
IsCell [] = ⊥
IsCell (c ∷ s) = Lacks 32 (c ∷ s) × Lacks 10 (c ∷ s)

-- The words of an entry can be told apart.
abbrev pub IsReadable : Entry → Type 0
IsReadable (own address) = IsCell address
IsReadable (neighbour dst device address) = IsCell dst × IsCell device × IsCell address
IsReadable (single dst via device) =
    IsCell dst × IsCell via × IsCell device × (dst ≢ codes "\tnexthop") × (device ≢ codes "kernel")
IsReadable (multi dst device hop more) =
    IsCell dst × IsCell device × All (λ h. IsCell h.0) (hop ∷ more) × (device ≢ codes "kernel")

-- The text of rows.
abbrev pub dump_text : List (List Text) → Text
dump_text [] = []
dump_text (row ∷ rows) = join (codes " ") row ++ 10 ∷ dump_text rows

abbrev pub IsRow : List Text → Type 0
IsRow [] = ⊥
IsRow (p ∷ ps) = All IsCell (p ∷ ps)

cells-Lacks : (ps : List Text) → All IsCell ps → All (Lacks 32) ps
cells-Lacks [] h = tt
cells-Lacks ([] ∷ ps) h = absurd h.0
cells-Lacks ((c ∷ s) ∷ ps) h = (h.0.0, cells-Lacks ps h.1)

non_empty-cells : (ps : List Text) → All IsCell ps → non_empty ps ≡ ps
unfolding non_empty
non_empty-cells [] h = refl
non_empty-cells ([] ∷ ps) h = absurd h.0
non_empty-cells ((c ∷ s) ∷ ps) h = ap (λ (l : List Text). (c ∷ s) ∷ l) (non_empty-cells ps h.1)

-- A row's text, which is a line of its own.
record IsLine (row : List Text) : Type 0 where
  first : ℕ
  rest : Text
  text : join (codes " ") row ≡ first ∷ rest
  one_line : Lacks 10 (join (codes " ") row)
  cut_again : non_empty (split 32 (join (codes " ") row)) ≡ row

join-Lacks :
    (p : Text) (ps : List Text) → All IsCell (p ∷ ps) → Lacks 10 (join (codes " ") (p ∷ ps))
unfolding join
join-Lacks [] ps h = absurd h.0
join-Lacks (c ∷ s) [] h = h.0.1
join-Lacks (c ∷ s) (q ∷ ps) h =
    All-append (λ d. d ≢ 10) ((c ∷ s) ++ codes " ") (join (codes " ") (q ∷ ps))
      (All-append (λ d. d ≢ 10) (c ∷ s) (codes " ") h.0.1 (λ e. omega (arith, e), tt))
      (join-Lacks q ps h.1)

IsLine-of_IsRow : (row : List Text) → IsRow row → IsLine row
unfolding join
IsLine-of_IsRow [] h = absurd h
IsLine-of_IsRow ([] ∷ ps) h = absurd h.0
IsLine-of_IsRow ((c ∷ s) ∷ []) h = record {
  first = c;
  rest = s;
  text = refl;
  one_line = h.0.1;
  cut_again =
      ap non_empty (split-join 32 (c ∷ s) [] (cells-Lacks ((c ∷ s) ∷ []) h))
      ∙ non_empty-cells ((c ∷ s) ∷ []) h;
}
IsLine-of_IsRow ((c ∷ s) ∷ q ∷ ps) h = record {
  first = c;
  rest = (s ++ codes " ") ++ join (codes " ") (q ∷ ps);
  text = refl;
  one_line = join-Lacks (c ∷ s) (q ∷ ps) h;
  cut_again =
      ap non_empty (split-join 32 (c ∷ s) (q ∷ ps) (cells-Lacks ((c ∷ s) ∷ q ∷ ps) h))
      ∙ non_empty-cells ((c ∷ s) ∷ q ∷ ps) h;
}

rows_of-cons :
    (c : ℕ) (s rest : Text)
    → Lacks 10 (c ∷ s)
    → rows_of ((c ∷ s) ++ 10 ∷ rest) ≡ non_empty (split 32 (c ∷ s)) ∷ rows_of rest
unfolding rows_of non_empty
rows_of-cons c s rest h = rw (split-cons 10 (c ∷ s) rest h) refl

-- The rows of a text are those that it was made from.
pub rows_of-dump_text : (rows : List (List Text)) → All IsRow rows → rows_of (dump_text rows) ≡ rows
unfolding rows_of split non_empty
rows_of-dump_text [] h = refl
rows_of-dump_text (row ∷ rows) h =
    let l = IsLine-of_IsRow row h.0 in
    subst
      (λ z. rows_of (z ++ 10 ∷ dump_text rows) ≡ non_empty (split 32 z) ∷ rows_of (dump_text rows))
      (sym l.text)
      (rows_of-cons l.first l.rest (dump_text rows) (subst (Lacks 10) l.text l.one_line))
    ∙ rw (l.cut_again, rows_of-dump_text rows h.1) refl

IsRow-nexthop_row :
    (device : Text) (hop : Text × Bool)
    → IsCell device
    → IsCell hop.0
    → IsRow (nexthop_row device hop)
IsRow-nexthop_row device (via, true) d v =
    (omega arith, (omega arith, (v, (omega arith, (d, (omega arith, (omega arith, tt)))))))
IsRow-nexthop_row device (via, false) d v = (
  omega arith,
  (
    omega arith,
    (v, (omega arith, (d, (omega arith, (omega arith, (omega arith, (omega arith, tt))))))),
  ),
)

nexthop_rows-IsRow :
    (device : Text) (hops : Nexthops)
    → IsCell device
    → All (λ h. IsCell h.0) hops
    → All IsRow (map (nexthop_row device) hops)
nexthop_rows-IsRow device [] d h = tt
nexthop_rows-IsRow device (hop ∷ hops) d h =
    (IsRow-nexthop_row device hop d h.0, nexthop_rows-IsRow device hops d h.1)

printed-IsRow : (e : Entry) → IsReadable e → All IsRow (printed e)
printed-IsRow (own address) h =
    ((h, (omega arith, (omega arith, (omega arith, (omega arith, tt))))), tt)
printed-IsRow (neighbour dst device address) (h, d, a) = (
  (
    h,
    (
      omega arith,
      (d, (omega arith, (omega arith, (omega arith, (omega arith, (omega arith, (a, tt))))))),
    ),
  ),
  tt,
)
printed-IsRow (single dst via device) (h, v, d, first, other) =
    ((h, (omega arith, (v, (omega arith, (d, (omega arith, (omega arith, tt))))))), tt)
printed-IsRow (multi dst device hop more) (h, d, hops, other) = (
  (h, (omega arith, (omega arith, (omega arith, (omega arith, tt))))),
  nexthop_rows-IsRow device (hop ∷ more) d hops,
)

pub printed_all-IsRow :
    (entries : List Entry) → All IsReadable entries → All IsRow (printed_all entries)
printed_all-IsRow [] h = tt
printed_all-IsRow (e ∷ entries) h =
    All-append IsRow (printed e) (printed_all entries) (printed-IsRow e h.0)
      (printed_all-IsRow entries h.1)
