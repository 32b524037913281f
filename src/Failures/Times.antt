-- ===== src/Failures/Times.antt =====
-- The times of the failures.
use mathlib.Core.Path.{subst}
use ns3_sim.Prelude.{ℕ, suc, ◌+◌, ◌*◌, ◌≡◌, refl, ap, some, List, [], ◌∷◌, ◌++◌, map, length}
use ns3_sim.Python.Outcome.{ok, last?, >>=-eq-ok}
use ns3_sim.Python.Text.{Text, split, drop_last}
use ns3_sim.Python.Number.{decimal}
use ns3_sim.Gaps.Assign.{fails_from}
use ns3_sim.Failures.{Row, rows_from, one_direction, by_metric, base, timed, failures}

last-append : (row : Row) (t : Text) → last? (row ++ t ∷ []) ≡ some t
last-append [] t = refl
last-append (x ∷ []) t = refl
last-append (x ∷ y ∷ row) t = last-append (y ∷ row) t

times-timed :
    (i : ℕ) (rows : List Row)
    → map last? (timed i rows) ≡ map (λ t. some (decimal t)) (fails_from i (length rows))
unfolding timed fails_from
times-timed i [] = refl
times-timed i (row ∷ rows) =
    rw (last-append row (decimal (base + i * 10)), times-timed (i + 1) rows) refl

length-timed : (i : ℕ) (rows : List Row) → length (timed i rows) ≡ length rows
unfolding timed
length-timed i [] = refl
length-timed i (row ∷ rows) = ap suc (length-timed (i + 1) rows)

-- The times in the last column are, in order, those of the failures that `local_gaps` looks for.
pub times-failures :
    (text : Text) (rows : List Row)
    → failures text ≡ ok rows
    → map last? rows ≡ map (λ t. some (decimal t)) (fails_from 0 (length rows))
unfolding failures
times-failures text rows h =
    let (r, e, h1) = >>=-eq-ok (rows_from (drop_last (split 10 text))) _ h in
    let (b, e', h2) = >>=-eq-ok (one_direction r) _ h1 in
    let (b', e'', h3) = >>=-eq-ok (by_metric b) _ h2 in
    let same : timed 0 b' ≡ rows = ok_eq h3 in
    subst (λ l. map last? l ≡ map (λ t. some (decimal t)) (fails_from 0 (length l))) same
      (rw (length-timed 0 b') (times-timed 0 b'))
  where
    ok_eq : {x y : List Row} → ok x ≡ ok y → x ≡ y
    ok_eq q = cc
