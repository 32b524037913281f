-- ===== src/Failures.antt =====
-- misc/fail_gen.py: the list of link failures that is made from a topology file. Of the two lines of a
-- link the later one is deleted, from the list that the loop walks.
pub mod Halves
pub mod Prune
pub mod OneDirection
pub mod Schedule
pub mod Times
pub mod Generated
use ns3_sim.Prelude.{
  ℕ, zero, suc, ◌+◌, ◌*◌, Bool, true, false, Option, none, some, List, [], ◌∷◌, ◌++◌, ◌==◌, Eq,
  nat_eq, if◌then◌else◌, map, length, get_elem?,
}
use ns3_sim.Prelude.Int.{ℤ, leb_ℤ}
use ns3_sim.Python.Outcome.{
  Outcome, ok, raise, index, index_error, value_error, out_of_fuel, or_raise, traverse, ◌>>=◌,
}
use ns3_sim.TopologyFile.{is_comment}
use ns3_sim.Python.Sequence.{remove}
use ns3_sim.Python.Sorting.{sorted}
use ns3_sim.Python.Text.{Text, text_eq, list_beq, list_beq_iff, codes, split, join, drop_last}
use ns3_sim.Python.Number.{int, decimal}

-- The parts of a line.
abbrev pub Row : Type 0
Row = List Text

instance abbrev pub row_eq : Eq Row
row_eq = record { beq = list_beq; beq_iff = list_beq_iff }

-- The comprehension `[line.split(' ') for line in ... if line[0] != '#']`.
unfoldable pub rows_from : List Text → Outcome (List Row)
rows_from [] = ok []
rows_from (line ∷ lines) = do
  comment ← is_comment line
  rest ← rows_from lines
  ok (if comment then rest else split 32 line ∷ rest)

-- `[line[1], line[0], line[2], line[3]]`.
unfoldable pub reverse_of : Row → Outcome Row
reverse_of line = do
  second ← index line 1
  first ← index line 0
  third ← index line 2
  fourth ← index line 3
  ok (second ∷ first ∷ third ∷ fourth ∷ [])

-- `for line in b: del b[b.index(...)]`. The loop reads `b` at a position that goes up by one, whatever
-- was deleted.
unfoldable pub prune : ℕ → ℕ → List Row → Outcome (List Row)
prune zero i b = raise out_of_fuel
prune (suc fuel) i b = elim (get_elem? b i) [
  | none ↦ ok b
  | some line ↦ do
    reverse ← reverse_of line
    b' ← or_raise value_error (remove reverse b)
    prune fuel (i + 1) b'
]

-- The loop ends at the latest when the position is behind the list as it was at first.
unfoldable pub one_direction : List Row → Outcome (List Row)
one_direction b = prune (suc (length b)) 0 b

-- `int(x[2])`.
unfoldable pub keyed : Row → Outcome (ℤ × Row)
keyed row = do text ← index row 2; key ← int text; ok (key, row)

-- `b.sort(key=...)`: the keys are computed first.
unfoldable pub by_metric : List Row → Outcome (List Row)
by_metric b = do
  rows ← traverse keyed b
  ok (map (λ r. r.1) (sorted (λ (x y : ℤ × Row). leb_ℤ x.0 y.0) rows))

abbrev pub base : ℕ
base = 60

-- `line += [str(BASE+i*10)]`, from the `i`-th line on.
unfoldable pub timed : ℕ → List Row → List Row
timed i [] = []
timed i (row ∷ rows) = (row ++ decimal (base + i * 10) ∷ []) ∷ timed (i + 1) rows

unfoldable pub print_rows : List Row → Text
print_rows [] = []
print_rows (row ∷ rows) = join (codes " ") row ++ 10 ∷ print_rows rows

-- The rows of the file `failures.ntf`.
unfoldable pub failures : Text → Outcome (List Row)
failures text = do
  r ← rows_from (drop_last (split 10 text))
  b ← one_direction r
  b' ← by_metric b
  ok (timed 0 b')

unfoldable pub fail_gen : Text → Outcome Text
fail_gen text = do rows ← failures text; ok (print_rows rows)
