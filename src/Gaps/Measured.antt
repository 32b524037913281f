-- ===== src/Gaps/Measured.antt =====
-- What the report of the ping evaluation holds.
use mathlib.Core.Path.{subst}
use ns3_sim.Prelude.{
  arith, ◌++◌, ap, ℕ, ◌≡◌, refl, ◌⊎◌, inl, inr, Option, none, some, List, [], ◌∷◌, nat_eq, In,
  Option-cases, All-of_In,
}
use ns3_sim.Prelude.Int.{ℤ, pos, ◌≤ℤ◌}
use ns3_sim.Python.Outcome.{ok, traverse_returns, >>=-eq-ok}
use ns3_sim.Python.Dict.{
  Dict, lookup, insert, keys, Entries, Entries-insert, In-keys-insert, lookup_of_In-keys,
}
use ns3_sim.Python.Sorting.{sorted, In-sorted}
use ns3_sim.Python.Text.{Text, text_eq, codes}
use ns3_sim.Gaps.Assign.{converge_time}
use ns3_sim.Gaps.Times.{converge_time_spans}
use ns3_sim.Gaps.Results.{Logs, first_failure, times_from, text_le, time_line, print_times}

abbrev pub Listed : Text → List (Text × Option Logs) → Type 0
Listed base bases = (logs : Logs) × In {A = Text × Option Logs} (base, some logs) bases

-- The time of a simulation is that of the failure at 60 s, or 0 without one; it is not negative.
pub record Measured (bases : List (Text × Option Logs)) (base : Text) (ms : ℤ) : Type 0 where
  pub logs : Logs
  pub listed : In (base, some logs) bases
  pub ret : Dict ℕ ℤ
  pub evaluated : converge_time logs ≡ ok ret
  pub is_first : ms ≡ first_failure ret
  pub nonneg : pos 0 ≤ℤ ms

first_failure_nonneg :
    (logs : Logs) (ret : Dict ℕ ℤ) → converge_time logs ≡ ok ret → pos 0 ≤ℤ first_failure ret
unfolding first_failure
first_failure_nonneg logs ret h = elim (Option-cases (lookup 60 ret)) [
  | inl missing ↦ rw (missing, first_failure) (omega arith)
  | inr (ms, there) ↦
      let (all, e, timed) = converge_time_spans logs ret 60 ms h there in
      rw (there, first_failure) timed.spans.nonneg
]

Entries-more :
    (bases bases' : List (Text × Option Logs)) (times : Dict Text ℤ)
    → ((x : Text × Option Logs) → In x bases → In x bases')
    → Entries (Measured bases) times
    → Entries (Measured bases') times
Entries-more bases bases' [] sub h = tt
Entries-more bases bases' ((base, ms) ∷ times) sub (m, h) = (
  record {
    logs = m.logs;
    listed = sub (base, some m.logs) m.listed;
    ret = m.ret;
    evaluated = m.evaluated;
    is_first = m.is_first;
    nonneg = m.nonneg;
  },
  Entries-more bases bases' times sub h,
)

times_from-Measured :
    (bases rest : List (Text × Option Logs)) (times r : Dict Text ℤ)
    → ((x : Text × Option Logs) → In x rest → In x bases)
    → Entries (Measured bases) times
    → times_from times rest ≡ ok r
    → Entries (Measured bases) r
      × ((base : Text) → In base (keys times) ⊎ Listed base rest → In base (keys r))
unfolding times_from
times_from-Measured bases [] times r sub h e =
    let same : times ≡ r = cc e in
    subst
      (λ d.
        Entries (Measured bases) d
        × ((base : Text) → In base (keys times) ⊎ Listed base [] → In base (keys d)))
      same (h, λ base m. elim m [ inl there ↦ there | inr (logs, none_left) ↦ absurd none_left ])
times_from-Measured bases ((base, none) ∷ rest) times r sub h e =
    let (entries, found) = times_from-Measured bases rest times r (λ x m. sub x (inr m)) h e in
    (
      entries,
      λ b m. elim m [
        | inl there ↦ found b (inl there)
        | inr (logs, inl at) ↦ let clash : some logs ≡ none = cc at in cc clash
        | inr (logs, inr m') ↦ found b (inr (logs, m'))
      ],
    )
times_from-Measured bases ((base, some logs) ∷ rest) times r sub h e =
    let (ret, e1, e2) = >>=-eq-ok (converge_time logs) _ e in
    let new : Measured bases base (first_failure ret) = record {
      logs = logs;
      listed = sub (base, some logs) (inl refl);
      ret = ret;
      evaluated = e1;
      is_first = refl;
      nonneg = first_failure_nonneg logs ret e1;
    } in
    let (entries, found) =
      times_from-Measured bases rest (insert base (first_failure ret) times) r
        (λ x m. sub x (inr m))
        (Entries-insert (Measured bases) base (first_failure ret) times new h) e2 in
    (
      entries,
      λ b m. elim m [
        | inl there ↦
            found b (inl ((In-keys-insert b base (first_failure ret) times).1 (inr there)))
        | inr (l, inl at) ↦ found b (
            inl (
              (In-keys-insert b base (first_failure ret) times).1
                (inl (ap (λ (p : Text × Option Logs). p.0) at))))
        | inr (l, inr m') ↦ found b (inr (l, m'))
      ],
    )

module _ (format6 : ℤ → Text) (times : Dict Text ℤ) where
  time_line_returns :
      (i : Text) → In i (keys times) → (line : Text) × (time_line format6 times i ≡ ok line)
  unfolding time_line
  time_line_returns i m =
      let (ms, there) = lookup_of_In-keys i times m in
      (codes "X-" ++ i ++ codes "-RESULT-CONVERGENCE " ++ format6 ms, rw there refl)

  print_times_returns : (lines : List Text) × (print_times format6 times ≡ ok lines)
  unfolding print_times
  print_times_returns = traverse_returns (time_line format6 times) (sorted text_le (keys times)) (
      All-of_In _ (sorted text_le (keys times))
        λ i m. time_line_returns i ((In-sorted text_le i (keys times)).0 m))

-- When the logs of all simulations can be evaluated, each directory has a time, each time is that of a
-- directory's failure at 60 s, or 0 without gaps there, none is negative, and the report is printed.
pub times_from_report :
    (format6 : ℤ → Text) (bases : List (Text × Option Logs)) (times : Dict Text ℤ)
    → times_from [] bases ≡ ok times
    → Entries (Measured bases) times
      × ((base : Text) → Listed base bases → In base (keys times))
      × ((lines : List Text) × (print_times format6 times ≡ ok lines))
times_from_report format6 bases times h =
    let (entries, found) = times_from-Measured bases bases [] times (λ x m. m) tt h in
    (entries, λ base m. found base (inr m), print_times_returns format6 times)
