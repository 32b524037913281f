-- ===== src/Gaps/Assign.antt =====
-- udp_parser.py: the end of `local_gaps`, which assigns gaps to failures, and `converge_time`.
use ns3_sim.Prelude.{
  ℕ, zero, suc, ◌+◌, ◌-◌, ◌*◌, Bool, ◌&&◌, Option, none, some, List, [], ◌∷◌, ◌++◌, nat_eq,
  if◌then◌else◌,
}
use ns3_sim.Prelude.Int.{ℤ, ◌-ℤ◌, leb_ℤ, quot_ℤ}
use ns3_sim.Python.Outcome.{Outcome, ok, index, ◌>>=◌}
use ns3_sim.Python.Dict.{Dict, lookup, insert}
use ns3_sim.Python.Sorting.{sorted}
use ns3_sim.Python.Text.{Text, codes, occurs_in}
use ns3_sim.Gaps.{Gap, iconvert, find_gaps}

-- `[60+i*10 for i in range(100)]`: the failures from the `i`-th on.
unfoldable pub fails_from : ℕ → ℕ → List ℕ
fails_from i zero = []
fails_from i (suc n) = (60 + i * 10) ∷ fails_from (i + 1) n

abbrev pub n_fails : ℕ
n_fails = 100

unfoldable pub fit : ℕ → Gap → Bool
fit fail gap = leb_ℤ gap.low (iconvert fail) && leb_ℤ (iconvert fail) gap.high

-- `while not fit(fails[idx], gap): idx += 1`, over the failures that are left from index `idx`;
-- `none` is the `IndexError` behind the last one.
unfoldable pub seek : List ℕ → ℕ → Gap → Option (ℕ × ℕ)
seek [] idx gap = none
seek (fail ∷ rest) idx gap =
    let later = seek rest (idx + 1) gap in if fit fail gap then some (idx, fail) else later

-- `d[k].append(v)`, or a new list for a missing key.
unfoldable pub append_at {ℓ} : {V : Type ℓ} → ℕ → List V → Dict ℕ (List V) → Dict ℕ (List V)
append_at k vs d = elim (lookup k d) [ none ↦ insert k vs d | some old ↦ insert k (old ++ vs) d ]

-- The index and the lists after the search for one gap.
unfoldable pub index_after : ℕ → Option (ℕ × ℕ) → ℕ
index_after idx none = idx
index_after idx (some (i, fail)) = i

unfoldable pub filed : Gap → Option (ℕ × ℕ) → Dict ℕ (List Gap) → Dict ℕ (List Gap)
filed gap none a = a
filed gap (some (i, fail)) a = append_at fail (gap ∷ []) a

-- A gap that fits no failure from `idx` on is passed over, and `idx` is set back.
unfoldable pub assign : ℕ → Dict ℕ (List Gap) → List Gap → Dict ℕ (List Gap)
assign idx a [] = a
assign idx a (gap ∷ gaps) =
    let found = seek (fails_from idx (n_fails - idx)) idx gap in
    assign (index_after idx found) (filed gap found a) gaps

unfoldable pub local_gaps : Text → Outcome (Dict ℕ (List Gap))
local_gaps text = do gaps ← find_gaps text; ok (assign 0 [] gaps)

-- `all_gaps[key] += value` for each failure of one log.
unfoldable pub merge : Dict ℕ (List Gap) → Dict ℕ (List Gap) → Dict ℕ (List Gap)
merge all [] = all
merge all ((key, value) ∷ rest) = merge (append_at key value all) rest

-- The entries of `os.listdir` with their logs; `none` is a `FileNotFoundError`, which is passed over.
unfoldable pub collect_gaps :
    Dict ℕ (List Gap) → List (Text × Option Text) → Outcome (Dict ℕ (List Gap))
collect_gaps all [] = ok all
collect_gaps all ((directory, none) ∷ logs) = collect_gaps all logs
collect_gaps all ((directory, some log) ∷ logs) =
    let skipped = collect_gaps all logs in
    let merged = (do found ← local_gaps log; collect_gaps (merge all found) logs) in
    if occurs_in (codes "files-") directory then merged else skipped

-- The lowest `low` and the highest `high` of the gaps of one failure.
unfoldable pub lowest : List Gap → Outcome ℤ
lowest gaps = do g ← index (sorted (λ x y. leb_ℤ x.low y.low) gaps) 0; ok g.low

unfoldable pub highest : List Gap → Outcome ℤ
highest gaps = do g ← index (sorted (λ x y. leb_ℤ y.high x.high) gaps) 0; ok g.high

-- `int((high - low)/1000)`: the quotient rounded towards 0.
unfoldable pub milliseconds : ℤ → ℤ → ℤ
milliseconds low high = quot_ℤ (high -ℤ low) 1000

unfoldable pub convergence : Dict ℕ ℤ → Dict ℕ (List Gap) → Outcome (Dict ℕ ℤ)
convergence result [] = ok result
convergence result ((key, value) ∷ rest) = do
  low ← lowest value
  high ← highest value
  convergence (insert key (milliseconds low high) result) rest

unfoldable pub converge_time : List (Text × Option Text) → Outcome (Dict ℕ ℤ)
converge_time logs = do all_gaps ← collect_gaps [] logs; convergence [] all_gaps
