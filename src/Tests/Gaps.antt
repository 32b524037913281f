-- ===== src/Tests/Gaps.antt =====
-- Gaps.antt at concrete inputs.
use ns3_sim.Prelude.{
  In, ℕ, zero, suc, ◌+◌, ◌≡◌, refl, Option, some, none, List, [], ◌∷◌, ◌++◌, arith, ap, nat_eq,
}
use ns3_sim.Prelude.Int.{ℤ, pos, pos_part, int_eq, ◌-ℤ◌}
use ns3_sim.Python.Outcome.{ok, traverse}
use ns3_sim.Python.Dict.{Dict, lookup, insert, Entries}
use ns3_sim.Python.Text.{Text, codes, text_eq, split, split_long, occurs_in}
use ns3_sim.Python.Number.{int, decimal, decimal_ℤ}
use ns3_sim.Address.{ip_into_rid}
use ns3_sim.Gaps.{
  iconvert, dx, Control, Gap, Monitor, Ping, fresh, remember, read_line, unpack, feed_lines, feed,
  observe, advance, or_fresh, report, find_gaps,
}
use ns3_sim.Gaps.Assign.{
  fails_from, seek, append_at, index_after, filed, assign, local_gaps, fit, collect_gaps,
  converge_time, convergence, lowest, highest, milliseconds, merge,
}
use ns3_sim.Gaps.Steps.{run, stream}
use ns3_sim.Gaps.Clean.{gap_found, gap_behind_break, run_regular, settled, gap}
use ns3_sim.Gaps.Forgotten.{gap_behind_first_ping}
use ns3_sim.Gaps.Sources.{track, track-feed_lines}
use ns3_sim.Gaps.Fits.{Covers, local_gaps-Entries}
use ns3_sim.Gaps.Times.{Timed, converge_time_spans, converge_time_returns}
use ns3_sim.Gaps.Results.{Logs, first_failure, times_from, print_times}
use ns3_sim.Gaps.Measured.{Listed, Measured, times_from_report}
use ns3_sim.Python.Sorting.{sorted}
use ns3_sim.Tests.Sample.{ip1, ip2}

-- A line of the log for a ping of the first router that takes 1000 microseconds.
abbrev line : ℕ → Text
line t = ip1 ++ codes ", " ++ decimal t ++ codes ", " ++ decimal (t + 1000)

abbrev log_from : ℕ → ℕ → Text
log_from zero t = []
log_from (suc n) t = line t ++ (10 ∷ log_from n (t + dx))

-- Two pings before the first failure, and 103 on time behind it.
abbrev lossy_log : Text
lossy_log = log_from 2 1262304059990000 ++ log_from 103 1262304060025000

abbrev lossy_gap : Gap
lossy_gap = record {
  rid = pos 0;
  low = pos 1262304059995000;
  high = pos 1262304060026000;
  span = pos 30000;
  reset_at = pos 1262304060535000;
}

abbrev acks : ℕ → List ℤ
acks zero = []
acks (suc n) = pos 7 ∷ acks n

number1 : ip_into_rid ip1 ≡ ok (pos 0)
unfolding ip_into_rid split int ◌-ℤ◌
number1 = refl

-- The last ping before the loss was sent at 10000.
abbrev healthy : Control
healthy = record (fresh (pos 10000)) { low_received = some (pos 10400) }

gap_found_example :
    (before : Option ℤ) × (run ip1 healthy
        (stream 50000 (pos 50300 ∷ pos 55300 ∷ (acks 100 ++ pos 8 ∷ [])))
      ≡ ok (
        settled 560000 (pos 8) before,
        gap ip1 (pos 0) number1 (pos 10000) (pos 10400) (pos 50300) 560000 ∷ [],
      ))
unfolding fresh ◌-ℤ◌
gap_found_example =
    gap_found ip1 (pos 0) number1 healthy 50000 (pos 50300) (pos 55300) (acks 100) (pos 8)
      (pos 10400) (omega arith) (λ z. absurd (omega (arith, ap pos_part z)))
      (λ z. absurd (omega (arith, ap pos_part z))) refl refl refl refl

-- A candidate at 50000 was confirmed 99 times, and then a ping is lost.
abbrev nearly : Control
nearly = record (fresh (pos 10000)) {
  low_received = some (pos 10400);
  previous = pos 550000;
  previous_received = some (pos 550100);
  candidate = pos 50000;
  high_received = some (pos 50300);
  validate = 1;
}

gap_behind_break_example :
    (before : Option ℤ) × (run ip1 nearly
        (stream 560000 (pos 560300 ∷ pos 565300 ∷ (acks 1 ++ pos 8 ∷ [])))
      ≡ ok (
        settled 575000 (pos 8) before,
        gap ip1 (pos 0) number1 (pos 10000) (pos 10400) (pos 560300) 575000 ∷ [],
      ))
unfolding fresh ◌-ℤ◌
gap_behind_break_example =
    gap_behind_break ip1 (pos 0) number1 nearly 560000 (pos 560300) (pos 565300) (acks 1) (pos 8)
      (pos 10400) (omega arith) (λ z. absurd (omega (arith, ap pos_part z)))
      (λ z. absurd (omega (arith, ap pos_part z))) refl refl

run_regular_example :
    (c' : Control) × (run ip1 healthy (stream 15000 (acks 3)) ≡ ok (c', []))
    × (c'.low ≡ pos 25000)
    × (c'.previous ≡ pos 0)
    × (c'.candidate ≡ pos 0)
    × (c'.validate ≡ 100)
unfolding fresh
run_regular_example = run_regular ip1 healthy 10000 (acks 3) refl refl

gap_behind_first_ping_example :
    run ip1 (fresh (pos 10000)) (stream 50000 (pos 50300 ∷ pos 55300 ∷ (acks 100 ++ pos 8 ∷ [])))
    ≡ ok (fresh (pos 560000), [])
gap_behind_first_ping_example =
    gap_behind_first_ping ip1 (pos 0) number1 10000 50000 (pos 50300) (pos 55300) (acks 100) (pos 8)
      (omega arith) (omega arith) (omega arith) refl

-- The pings of two routers, the second of which loses one.
abbrev two_sources : List Text
two_sources =
    codes "10.1.0.1, 10000, 10400"
    ∷ codes "10.1.0.2, 10200, 10900"
    ∷ codes "10.1.0.1, 15000, 15400"
    ∷ codes "10.1.0.2, 20200, 20900"
    ∷ []

abbrev two_pings : List Ping
two_pings =
    record { src = ip1; timestamp = pos 10000; received = pos 10400 }
    ∷ record { src = ip2; timestamp = pos 10200; received = pos 10900 }
    ∷ record { src = ip1; timestamp = pos 15000; received = pos 15400 }
    ∷ record { src = ip2; timestamp = pos 20200; received = pos 20900 }
    ∷ []

abbrev empty_monitor : Monitor
empty_monitor = record { control = []; gaps = [] }

abbrev two_monitor : Monitor
two_monitor = record {
  control =
      (ip1, record (fresh (pos 15000)) { low_received = some (pos 15400) })
      ∷ (ip2, remember (fresh (pos 10200)) (pos 20200) (pos 20900))
      ∷ [];
  gaps = [];
}

feed_lines-two : feed_lines empty_monitor two_sources ≡ ok two_monitor
unfolding feed_lines feed read_line unpack observe advance or_fresh report fresh remember split
    split_long int ip_into_rid lookup insert ◌-ℤ◌
feed_lines-two = refl

read_line-two : traverse read_line two_sources ≡ ok two_pings
unfolding traverse read_line unpack split_long int
read_line-two = refl

track-feed_lines_example :
    track ip2 none two_pings ≡ ok (some (remember (fresh (pos 10200)) (pos 20200) (pos 20900)))
unfolding lookup
track-feed_lines_example =
    track-feed_lines ip2 empty_monitor two_monitor two_sources two_pings feed_lines-two
      read_line-two

local_gaps-lossy : local_gaps lossy_log ≡ ok ((60, lossy_gap ∷ []) ∷ [])
unfolding local_gaps find_gaps feed_lines feed read_line unpack observe advance or_fresh report
    fresh remember split split_long int decimal ip_into_rid lookup insert ◌-ℤ◌ assign seek
    fails_from fit index_after filed append_at iconvert
local_gaps-lossy = refl

local_gaps-Entries_example : Entries Covers ((60, lossy_gap ∷ []) ∷ [])
local_gaps-Entries_example =
    local_gaps-Entries lossy_log ((60, lossy_gap ∷ []) ∷ []) local_gaps-lossy

abbrev logs : List (Text × Option Text)
logs = (codes "files-0", some lossy_log) ∷ (codes "files-1", none) ∷ []

collect_gaps-logs : collect_gaps [] logs ≡ ok ((60, lossy_gap ∷ []) ∷ [])
unfolding collect_gaps merge local_gaps find_gaps feed_lines feed read_line unpack observe advance
    or_fresh report fresh remember split split_long int decimal ip_into_rid lookup insert ◌-ℤ◌
    assign seek fails_from fit index_after filed append_at iconvert occurs_in
collect_gaps-logs = refl

converge_time-logs : converge_time logs ≡ ok ((60, pos 31) ∷ [])
unfolding converge_time convergence lowest highest milliseconds sorted collect_gaps merge local_gaps
    find_gaps feed_lines feed read_line unpack observe advance or_fresh report fresh remember split
    split_long int decimal ip_into_rid lookup insert ◌-ℤ◌ assign seek fails_from fit index_after
    filed append_at iconvert occurs_in
converge_time-logs = refl

converge_time_returns_example : (r : Dict ℕ ℤ) × (converge_time logs ≡ ok r)
converge_time_returns_example =
    converge_time_returns logs ((60, lossy_gap ∷ []) ∷ []) collect_gaps-logs

converge_time_spans_example :
    (all : Dict ℕ (List Gap)) × (collect_gaps [] logs ≡ ok all) × Timed all 60 (pos 31)
converge_time_spans_example =
    converge_time_spans logs ((60, pos 31) ∷ []) 60 (pos 31) converge_time-logs
      (unfold lookup in refl)

-- A simulation with the gap, and a file beside it.
abbrev bases : List (Text × Option Logs)
bases = (codes "70", some logs) ∷ (codes "plot.png", none) ∷ []

times_from-bases : times_from [] bases ≡ ok ((codes "70", pos 31) ∷ [])
unfolding times_from insert first_failure lookup
times_from-bases = rw converge_time-logs refl

times_from_report_example :
    Entries (Measured bases) ((codes "70", pos 31) ∷ [])
    × ((base : Text) → Listed base bases → In base (codes "70" ∷ []))
    × ((lines : List Text) × (print_times decimal_ℤ ((codes "70", pos 31) ∷ []) ≡ ok lines))
times_from_report_example =
    times_from_report decimal_ℤ bases ((codes "70", pos 31) ∷ []) times_from-bases
