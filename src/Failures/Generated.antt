-- ===== src/Failures/Generated.antt =====
-- The failures of the networks of ring.py and fm.py.
use mathlib.Core.Path.{subst}
use ns3_sim.Prelude.{
  ℕ, ◌≤◌, ◌≡◌, ◌≢◌, refl, sym, ap, ◌∙◌, inl, inr, false, List, [], ◌∷◌, ◌++◌, map, In, IsOnce, All,
  All-append, arith, append_assoc,
}
use ns3_sim.Prelude.Int.{pos}
use ns3_sim.Python.Outcome.{ok}
use ns3_sim.Python.Text.{Text, text_eq, Lacks, split, split-cons, split-join, join, drop_last}
use ns3_sim.Python.Number.{
  is_digit, decimal, int-decimal, decimal-IsDigits, decimal-starts, Lacks-of_IsDigits,
}
use ns3_sim.TopologyFile.{is_comment}
use ns3_sim.Generators.{Line, print_line, print_lines, ring, mesh}
use ns3_sim.Generators.Once.{swap, IsTwoWay, ring-IsTwoWay, mesh-IsTwoWay}
use ns3_sim.Failures.{Row, rows_from, keyed, timed, failures}
use ns3_sim.Failures.Halves.{flipped, IsLink}
use ns3_sim.Failures.Schedule.{HasMetric, Schedule, failures-Schedule}

-- The parts of a line.
abbrev pub row_of : Line → Row
row_of l = decimal l.src ∷ decimal l.dst ∷ decimal l.metric ∷ decimal l.delay ∷ []

number-Lacks : (sep n : ℕ) → is_digit sep ≡ false → Lacks sep (decimal n)
number-Lacks sep n h = Lacks-of_IsDigits sep (decimal n) h (decimal-IsDigits n)

split-print_line : (l : Line) → split 32 (print_line l) ≡ row_of l
unfolding print_line
split-print_line l =
    split-join 32 (decimal l.src) (decimal l.dst ∷ decimal l.metric ∷ decimal l.delay ∷ []) (
      number-Lacks 32 l.src refl,
      (
        number-Lacks 32 l.dst refl,
        (number-Lacks 32 l.metric refl, (number-Lacks 32 l.delay refl, tt)),
      ),
    )

number_then : (n : ℕ) (rest : Text) → Lacks 10 rest → Lacks 10 (decimal n ++ 32 ∷ rest)
number_then n rest h =
    All-append (λ c. c ≢ 10) (decimal n) (32 ∷ rest) (number-Lacks 10 n refl)
      (λ e. omega (arith, e), h)

print_line_flat :
    (l : Line)
    → print_line l
      ≡ decimal l.src ++ 32 ∷ (decimal l.dst ++ 32 ∷ (decimal l.metric ++ 32 ∷ decimal l.delay))
unfolding print_line join
print_line_flat l = simp (append_assoc)

print_line-Lacks : (l : Line) → Lacks 10 (print_line l)
print_line-Lacks l = subst (Lacks 10) (sym (print_line_flat l)) (
    number_then l.src _
      (number_then l.dst _ (number_then l.metric _ (number-Lacks 10 l.delay refl))))

is_comment-print_line : (l : Line) → is_comment (print_line l) ≡ ok false
unfolding is_comment
is_comment-print_line l =
    let (c, s, e, digit) = decimal-starts l.src in
    rw (print_line_flat l) (rw e (ground (arith, digit)))

split-print_lines :
    (lines : List Line) → split 10 (print_lines lines) ≡ map print_line lines ++ [] ∷ []
unfolding print_lines split
split-print_lines [] = refl
split-print_lines (l ∷ lines) =
    split-cons 10 (print_line l) (print_lines lines) (print_line-Lacks l)
    ∙ ap (λ (ls : List Text). print_line l ∷ ls) (split-print_lines lines)

drop_last-append : (xs : List Text) (x : Text) → drop_last (xs ++ x ∷ []) ≡ xs
drop_last-append [] x = refl
drop_last-append (y ∷ []) x = refl
drop_last-append (y ∷ z ∷ xs) x = ap (λ (l : List Text). y ∷ l) (drop_last-append (z ∷ xs) x)

rows_from-lines : (lines : List Line) → rows_from (map print_line lines) ≡ ok (map row_of lines)
unfolding rows_from
rows_from-lines [] = refl
rows_from-lines (l ∷ lines) =
    rw (is_comment-print_line l) (rw (rows_from-lines lines) (rw (split-print_line l) refl))

-- The file is read back as the lines that were printed.
pub rows_from-print_lines :
    (lines : List Line)
    → rows_from (drop_last (split 10 (print_lines lines))) ≡ ok (map row_of lines)
rows_from-print_lines lines =
    rw (split-print_lines lines)
      (rw (drop_last-append (map print_line lines) []) (rows_from-lines lines))

decimal-injective : (m n : ℕ) → decimal m ≡ decimal n → m ≡ n
decimal-injective m n e = cc (int-decimal m, int-decimal n, e)

row_of-IsLink : (l : Line) → l.src ≢ l.dst → IsLink (row_of l)
row_of-IsLink l ne = record {
  src = decimal l.src;
  dst = decimal l.dst;
  metric = decimal l.metric;
  delay = decimal l.delay;
  parts = refl;
  ends_differ = λ e. ne (decimal-injective l.src l.dst e);
}

row_of-HasMetric : (l : Line) → HasMetric (row_of l)
unfolding keyed
row_of-HasMetric l = (pos l.metric, rw (int-decimal l.metric) refl)

cell : {a b : Text} {r s : Row} → a ∷ r ≡ b ∷ s → (a ≡ b) × (r ≡ s)
cell e = (cc (e), cc (e))

row_of-injective : (l k : Line) → row_of l ≡ row_of k → l ≡ k
row_of-injective l k e =
    let (src, e1) = cell e in
    let (dst, e2) = cell e1 in
    let (metric, e3) = cell e2 in
    let (delay, e4) = cell e3 in
    λ i. record {
      src = decimal-injective l.src k.src src i;
      dst = decimal-injective l.dst k.dst dst i;
      metric = decimal-injective l.metric k.metric metric i;
      delay = decimal-injective l.delay k.delay delay i;
    }

In-rows :
    (lines : List Line) (row : Row)
    → In row (map row_of lines)
    → (l : Line) × In l lines × (row ≡ row_of l)
In-rows [] row m = absurd m
In-rows (l ∷ lines) row (inl e) = (l, inl refl, e)
In-rows (l ∷ lines) row (inr m) = let (k, there, e) = In-rows lines row m in (k, inr there, e)

In-rows_of : (lines : List Line) (l : Line) → In l lines → In (row_of l) (map row_of lines)
In-rows_of [] l m = m
In-rows_of (k ∷ lines) l (inl e) = inl (ap row_of e)
In-rows_of (k ∷ lines) l (inr m) = inr (In-rows_of lines l m)

rows-IsOnce : (lines : List Line) → IsOnce lines → IsOnce (map row_of lines)
rows-IsOnce [] h = tt
rows-IsOnce (l ∷ lines) h = (
  λ m.
      let (k, there, e) = In-rows lines (row_of l) m in
      h.0 (subst (λ z. In z lines) (sym (row_of-injective l k e)) there),
  rows-IsOnce lines h.1,
)

rows_have {κ} :
    (P : Row → Type κ) (lines : List Line)
    → ((l : Line) → In l lines → P (row_of l))
    → All P (map row_of lines)
rows_have P [] h = tt
rows_have P (l ∷ lines) h = (h l (inl refl), rows_have P lines (λ k m. h k (inr m)))

-- For a file with both directions of links between different nodes, none twice, that is printed as ring.py
-- and fm.py print, fail_gen.py ends with failures of exactly one direction of each link.
failures-of_IsTwoWay :
    (lines : List Line)
    → IsTwoWay lines
    → (b : List Row) × (failures (print_lines lines) ≡ ok (timed 0 b))
      × Schedule (map row_of lines) b
failures-of_IsTwoWay lines h =
    failures-Schedule (print_lines lines) (map row_of lines) (rows_from-print_lines lines)
      (rows_have IsLink lines (λ l m. row_of-IsLink l (h.ends l m))) (rows-IsOnce lines h.once)
      (rows_have (λ row. In (flipped row) (map row_of lines)) lines
        (λ l m. In-rows_of lines (swap l) (h.back l m)))
      (rows_have HasMetric lines (λ l m. row_of-HasMetric l))

-- The file of a ring of three or more nodes, and that of a full mesh, are read by fail_gen.py without an
-- error, and give failures of exactly one direction of each of their links. (A ring of one node or of two
-- has lines that are there twice.)
pub failures-generated :
    (n : ℕ)
    → 3 ≤ n
    → ((b : List Row) × (failures (print_lines (ring n)) ≡ ok (timed 0 b))
        × Schedule (map row_of (ring n)) b)
      × ((b : List Row) × (failures (print_lines (mesh n)) ≡ ok (timed 0 b))
          × Schedule (map row_of (mesh n)) b)
failures-generated n h = (
  failures-of_IsTwoWay (ring n) (ring-IsTwoWay n h),
  failures-of_IsTwoWay (mesh n) (mesh-IsTwoWay n),
)
