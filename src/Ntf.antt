-- ===== src/Ntf.antt =====
-- myscripts/bird/ntf_parser.py: the table of links that is read from a topology file.
pub mod Metrics
pub mod Directions
pub mod Nodes
pub mod Output
pub mod Balance
pub mod Mapping
pub mod Written
pub mod Plain
pub mod Parts
pub mod Timed
pub mod Accepted
pub mod OneWay
use ns3_sim.Prelude.{
  option_eq, ◌≡◌, ◌↔◌, refl, ℕ, zero, suc, ◌+◌, ◌-◌, Bool, true, false, ◌&&◌, ◌||◌, Option, none,
  some, List, [], ◌∷◌, ◌++◌, ◌==◌, nat_eq, Eq, if◌then◌else◌, not, length, ltb, contains, arith,
}
use ns3_sim.Prelude.Int.{ℤ, pos, negsuc, int_eq}
use ns3_sim.Python.Outcome.{Outcome, ok, raise, value_error, system_exit, last, or_raise, ◌>>=◌}
use ns3_sim.Python.Sequence.{append_new}
use ns3_sim.Python.Dict.{Dict, lookup, insert}
use ns3_sim.Python.Text.{Text, text_eq, split, starts_with}
use ns3_sim.Python.Number.{int}
use ns3_sim.Python.Float.{Floats}
use ns3_sim.TopologyFile.{is_skipped}

-- A part of a line, or the `-1` that stands for a missing one.
abbrev pub Field : Type 0
Field = Option Text

abbrev pub Key : Type 0
Key = Field × Field

abbrev pub key_beq : Key → Key → Bool
key_beq (a, b) (c, d) = a == c && b == d

pub key_beq_iff : (k j : Key) → (key_beq k j ≡ true) ↔ (k ≡ j)
key_beq_iff (a, b) (c, d) =
    ground (arith, (option_eq ⦃e = text_eq⦄).beq_iff a c, (option_eq ⦃e = text_eq⦄).beq_iff b d)

instance abbrev pub key_eq : Eq Key
key_eq = record { beq = key_beq; beq_iff = key_beq_iff }

-- `reversed_key`.
abbrev pub reversed : Key → Key
reversed (src, dst) = (dst, src)

pub record Link : Type 0 where
  pub f_metric : ℤ
  pub delay : ℤ
  pub r_metric : ℤ
  pub begin : ℤ
  pub end : ℤ

abbrev pub unset : ℤ
unset = negsuc 0

-- `split + [-1 for i in range(6-len(split))]`.
unfoldable pub pad : ℕ → List Text → List Field
pad zero [] = []
pad (suc n) [] = none ∷ pad n []
pad zero (part ∷ parts) = some part ∷ pad zero parts
pad (suc n) (part ∷ parts) = some part ∷ pad n parts

unfoldable pub int_field : Field → Outcome ℤ
int_field none = ok unset
int_field (some s) = int s

module _ (floats : Floats) (round : floats.Float → Outcome ℤ) where
  open floats use {Float, parse, of_int, mul}

  unfoldable pub float_field : Field → Outcome Float
  float_field none = ok (of_int unset)
  float_field (some s) = or_raise value_error (parse s)

  -- Six parts are unpacked.
  unfoldable pub read_entry : List Field → Outcome (Key × Link)
  unfolding float_field
  read_entry (src ∷ dst ∷ metric ∷ delay ∷ begin ∷ end ∷ []) = do
    f ← int_field metric
    seconds ← float_field delay
    d ← round (mul seconds (of_int (pos 1000000)))
    b ← int_field begin
    e ← int_field end
    ok ((src, dst), record { f_metric = f; delay = d; r_metric = unset; begin = b; end = e })
  read_entry _ = raise value_error

  unfoldable pub read_link : Text → Outcome (Key × Link)
  unfolding read_entry
  read_link line = read_entry (pad 6 (split 32 line))

pub record Topology : Type 0 where
  pub nodes : List Field
  pub links : Dict Key (List Link)

-- An assignment to `link[-1]`.
unfoldable pub set_last : Link → List Link → List Link
set_last x [] = []
set_last x (y ∷ []) = x ∷ []
set_last x (y ∷ z ∷ ys) = y ∷ set_last x (z ∷ ys)

-- `links[key]` is there.
unfoldable pub extend : Link → List Link → Outcome (List Link)
extend entry link = do
  l ← last link
  if not (l.r_metric == unset) && not (l.f_metric == unset)
      then ok (link ++ entry ∷ [])
      else if not (l.r_metric == unset)
      then ok (set_last (record l { f_metric = entry.f_metric }) link)
      else raise (system_exit 1)

-- `links[reversed_key]` is there, and `links[key]` is not.
unfoldable pub extend_reversed : Link → List Link → Outcome (List Link)
extend_reversed entry link = do
  l ← last link
  if l.r_metric == unset
      then ok (set_last (record l { r_metric = entry.f_metric }) link)
      else ok (link ++ record entry { r_metric = entry.f_metric; f_metric = unset } ∷ [])

unfoldable pub add_link : Topology → Key → Link → Outcome Topology
add_link t key entry = elim (lookup key t.links) [
  | some link ↦ do link' ← extend entry link; ok (record t { links = insert key link' t.links })
  | none ↦ elim (lookup (reversed key) t.links) [
    | some link ↦ do
      link' ← extend_reversed entry link
      ok (record t { links = insert (reversed key) link' t.links })
    | none ↦ ok (record {
      nodes = append_new (append_new t.nodes key.0) key.1;
      links = insert key (entry ∷ []) t.links;
    })
  ]
]

module _ (floats : Floats) (round : floats.Float → Outcome ℤ) where
  -- The loop over the lines.
  unfoldable pub read_lines : Topology → List Text → Outcome Topology
  unfolding read_link
  read_lines t [] = ok t
  read_lines t (line ∷ lines) =
      let skipped = read_lines t lines in
      let taken = (do
        (key, entry) ← read_link floats round line
        t' ← add_link t key entry
        read_lines t' lines) in
      if is_skipped line then skipped else taken

  unfoldable pub read_topology : Text → Outcome Topology
  read_topology text = read_lines (record { nodes = []; links = [] }) (split 10 text)

-- `n_links` and `n_pairs`.
unfoldable pub count_links : Dict Key (List Link) → ℕ
count_links [] = 0
count_links ((pair, l) ∷ links) = length l + count_links links

unfoldable pub count_pairs : Dict Key (List Link) → ℕ
count_pairs [] = 0
count_pairs ((pair, l) ∷ links) =
    if ltb 1 (length l) then suc (count_pairs links) else count_pairs links
