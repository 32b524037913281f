-- ===== src/Ntf/Mapping.antt =====
-- The map file that one run writes and a later run for failures reads.

use ns3_sim.Prelude.{
  ◌==◌, if◌then◌else◌, none, false, ℕ, ◌+◌, ◌≡◌, ◌≢◌, refl, ap, sym, ◌∙◌, true, Option, some, List,
  [], ◌∷◌, ◌++◌, nat_eq, option_eq, length, ltb, map, All, All-append, In, arith,
}
use ns3_sim.Python.Outcome.{ok, last, index, traverse}
use ns3_sim.Python.Sequence.{index_of, index_of-append}
use ns3_sim.Python.Text.{Text, text_eq, codes, Lacks, split, split-cons, split_one}
use ns3_sim.Python.Number.{decimal, decimal-IsDigits, Lacks-of_IsDigits}
use ns3_sim.Ntf.{Field}
use ns3_sim.Ntf.Output.{field_text, map_file, mapping, is_failures, id_src, write_map}

-- A name as a part of a line has it.
abbrev pub IsName : Text → Type 0
IsName name = Lacks 32 name × Lacks 10 name

row_of : ℕ → Text → Text
row_of idx name = decimal idx ++ 32 ∷ name

row_of-Lacks : (idx : ℕ) (name : Text) → IsName name → Lacks 10 (row_of idx name)
unfolding row_of
row_of-Lacks idx name (spaces, ends) =
    All-append (λ c. c ≢ 10) (decimal idx) (32 ∷ name)
      (Lacks-of_IsDigits 10 (decimal idx) refl (decimal-IsDigits idx)) (λ e. omega (arith, e), ends)

last-row_of : (idx : ℕ) (name : Text) → IsName name → last (split 32 (row_of idx name)) ≡ ok name
unfolding row_of
last-row_of idx name (spaces, ends) =
    rw
      (
        split-cons 32 (decimal idx) name
            (Lacks-of_IsDigits 32 (decimal idx) refl (decimal-IsDigits idx)),
        split_one 32 name spaces,
      )
      refl

mapping-cons :
    (row rest name : Text) (names : List Text)
    → Lacks 10 row
    → last (split 32 row) ≡ ok name
    → mapping rest ≡ ok names
    → mapping (row ++ 10 ∷ rest) ≡ ok (name ∷ names)
unfolding mapping traverse
mapping-cons row rest name names lacks first others =
    rw (split-cons 10 row rest lacks) (rw (first, others) refl)

-- Behind the last name there is an empty one, that of the text behind the last end of a line.
pub mapping-map_file :
    (idx : ℕ) (names : List Text)
    → All IsName names
    → mapping (map_file idx (map some names)) ≡ ok (names ++ [] ∷ [])
unfolding mapping map_file field_text traverse row_of split
mapping-map_file idx [] h = refl
mapping-map_file idx (name ∷ names) (n, h) =
    (mapping-cons (row_of idx name) (map_file (idx + 1) (map some names)) name (names ++ [] ∷ [])
      (row_of-Lacks idx name n) (last-row_of idx name n) (mapping-map_file (idx + 1) names h))

not_empty : (names : List Text) → ltb 0 (length (names ++ [] ∷ [])) ≡ true
not_empty [] = refl
not_empty (name ∷ names) = ground arith

map-append :
    (xs ys : List Text) → map some (xs ++ ys) ≡ ◌++◌ {A = Field} (map some xs) (map some ys)
map-append [] ys = refl
map-append (x ∷ xs) ys = ap (λ (l : List Field). some x ∷ l) (map-append xs ys)

id_src-map_file :
    (files : Text → Option Text) (filename base : Text) (names : List Text) (other : List Field)
    → All IsName names
    → is_failures filename ≡ true
    → index (split b'-' filename) 0 ≡ ok base
    → files (base ++ codes ".map") ≡ some (map_file 0 (map some names))
    → (ids : List Field) × (id_src files filename other ≡ ok ids)
      × ((node : Field)
          → In node (map some names)
          → index_of node ids ≡ index_of node (map some names))
unfolding id_src
id_src-map_file files filename base names other h fails cut there = (
  map some (names ++ [] ∷ []),
  rw fails (rw (cut, there, mapping-map_file 0 names h) (rw (not_empty names) refl)),
  λ node m.
      let (i, before, after, below) = index_of-append node (map some names) (some [] ∷ []) m in
      rw (map-append names ([] ∷ [])) (after ∙ sym before),
)

-- The files of the working directory behind a run.
abbrev pub with_map : Option (Text × Text) → (Text → Option Text) → Text → Option Text
with_map none files path = files path
with_map (some (name, text)) files path = if path == name then some text else files path

-- A run for failures that reads the map file that an earlier run wrote, gives each node the number that
-- the earlier run gave it. The names of the two files begin with the same part, in front of a dot and
-- of a dash, and no node has a space or a line's end in its name.
pub id_src-write_map :
    (files : Text → Option Text) (filename later base : Text) (names : List Text)
    (other : List Field)
    → All IsName names
    → is_failures filename ≡ false
    → index (split b'.' filename) 0 ≡ ok base
    → is_failures later ≡ true
    → index (split b'-' later) 0 ≡ ok base
    → (m : Option (Text × Text)) × (write_map filename (map some names) ≡ ok m)
      × (ids : List Field) × (id_src (with_map m files) later other ≡ ok ids)
      × ((node : Field)
          → In node (map some names)
          → index_of node ids ≡ index_of node (map some names))
unfolding write_map
id_src-write_map files filename later base names other h plain cut fails cut' =
    let name = base ++ codes ".map" in
    let text = map_file 0 (map some names) in
    let there : with_map (some (name, text)) files name ≡ some text =
      rw ((text_eq.beq_iff name name).1 refl) refl in
    let (ids, read, numbers) =
      id_src-map_file (with_map (some (name, text)) files) later base names other h fails cut'
        there in
    (some (name, text), rw plain (rw cut refl), ids, read, numbers)
