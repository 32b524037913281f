-- ===== src/Gaps.antt =====
-- udp_parser.py, `local_gaps`: the gaps in the pings that a router received, source by source.
pub mod Assign
pub mod Steps
pub mod Clean
pub mod Forgotten
pub mod Sources
pub mod Watched
pub mod Logged
pub mod Fits
pub mod First
pub mod Filed
pub mod Times
pub mod Results
pub mod Measured
use ns3_sim.Prelude.{
  ℕ, zero, suc, ◌+◌, ◌-◌, ◌*◌, Bool, true, false, ◌&&◌, ◌||◌, Option, none, some, List, [], ◌∷◌,
  ◌++◌, ◌==◌, nat_eq, if◌then◌else◌,
}
use ns3_sim.Prelude.Int.{ℤ, pos, ◌-ℤ◌, int_eq, leb_ℤ}
use ns3_sim.Python.Outcome.{
  Exception, Outcome, ok, raise, key_error, value_error, or_raise, traverse, ◌>>=◌,
}
use ns3_sim.Python.Dict.{Dict, lookup, insert}
use ns3_sim.Python.Text.{Text, codes, text_eq, split, split_long, drop_last}
use ns3_sim.Python.Number.{int}
use ns3_sim.Address.{ip_into_rid}

-- The pings of a source are sent every 5000 microseconds.
abbrev pub dx : ℕ
dx = 5000

abbrev pub origin : ℕ
origin = 1262304000000000

-- `500 / (dx/1000)`, a float that is a whole number.
abbrev pub validate_rounds : ℕ
validate_rounds = 100

-- Seconds of the simulation as microseconds of its clock.
unfoldable pub iconvert : ℕ → ℤ
iconvert timestamp = pos (timestamp * 1000000 + origin)

pub record Ping : Type 0 where
  pub src : Text
  pub timestamp : ℤ
  pub received : ℤ

-- A line is unpacked into three parts.
unfoldable pub unpack : List Text → Outcome Ping
unpack (src ∷ timestamp ∷ received ∷ []) = do
  t ← int timestamp
  r ← int received
  ok (record { src = src; timestamp = t; received = r })
unpack _ = raise value_error

unfoldable pub read_line : Text → Outcome Ping
read_line line = unpack (split_long (codes ", ") line)

-- `control[src]`. The keys `low_received`, `previous_received` and `high_received` may be missing.
pub record Control : Type 0 where
  pub low : ℤ
  pub low_received : Option ℤ
  pub previous : ℤ
  pub previous_received : Option ℤ
  pub candidate : ℤ
  pub high_received : Option ℤ
  pub validate : ℕ

-- The list `tmp`. Its fourth element is kept in microseconds; the code stores a thousandth of it,
-- and only prints it.
pub record Gap : Type 0 where
  pub rid : ℤ
  pub low : ℤ
  pub high : ℤ
  pub span : ℤ
  pub reset_at : ℤ

-- The state that the handler of a `KeyError` sets.
unfoldable pub fresh : ℤ → Control
fresh timestamp = record {
  low = timestamp;
  low_received = none;
  previous = pos 0;
  previous_received = none;
  candidate = pos 0;
  high_received = none;
  validate = validate_rounds;
}

-- `previous` takes the role of the lower bound.
unfoldable pub remember : Control → ℤ → ℤ → Control
remember c timestamp received = record c { previous = timestamp; previous_received = some received }

-- The end of the validation phase: the gap, and the state reset.
unfoldable pub report : Text → Control → ℤ → ℤ → Outcome (Control × List Gap)
report src c timestamp received = do
  rid ← ip_into_rid src
  high ← or_raise key_error c.high_received
  low_received ← or_raise key_error c.low_received
  ok (
    record {
      low = timestamp;
      low_received = some received;
      previous = pos 0;
      previous_received = c.previous_received;
      candidate = pos 0;
      high_received = some (pos 0);
      validate = validate_rounds;
    },
    record {
      rid = rid;
      low = c.low;
      high = high;
      span = high -ℤ low_received;
      reset_at = timestamp;
    }
        ∷ [],
  )

-- The body of the `try` for a source that is known.
unfoldable pub advance : Text → Control → ℤ → ℤ → Outcome (Control × List Gap)
advance src c timestamp received =
    if (c.low == pos 0 || timestamp -ℤ c.low == pos dx) && c.previous == pos 0
    then ok (record c { low = timestamp; low_received = some received }, [])
    else if c.previous == pos 0
    then ok (remember c timestamp received, [])
    else if timestamp -ℤ c.previous == pos dx
    then (if c.candidate == pos 0
        then (do
          high ← or_raise key_error c.previous_received
          ok (
            remember (record c { candidate = c.previous; high_received = some high }) timestamp
                received,
            [],
          ))
        else if c.validate == 0
        then report src c timestamp received
        else ok (remember (record c { validate = c.validate - 1 }) timestamp received, []))
    else ok (
      remember (record c { candidate = pos 0; high_received = some (pos 0) }) timestamp received,
      [],
    )

-- `except KeyError`: what the body changed before is overwritten.
unfoldable pub or_fresh : ℤ → Outcome (Control × List Gap) → Outcome (Control × List Gap)
or_fresh timestamp (raise key_error) = ok (fresh timestamp, [])
or_fresh timestamp m = m

-- One ping of a source, known or not.
unfoldable pub observe : Text → Option Control → ℤ → ℤ → Outcome (Control × List Gap)
observe src none timestamp received = ok (fresh timestamp, [])
observe src (some c) timestamp received = or_fresh timestamp (advance src c timestamp received)

pub record Monitor : Type 0 where
  pub control : Dict Text Control
  pub gaps : List Gap

-- One round of the loop over the lines.
unfoldable pub feed : Monitor → Ping → Outcome Monitor
feed m p = do
  (c, found) ← observe p.src (lookup p.src m.control) p.timestamp p.received
  ok (record { control = insert p.src c m.control; gaps = m.gaps ++ found })

-- Reading a line stands outside the `try`.
unfoldable pub feed_lines : Monitor → List Text → Outcome Monitor
feed_lines m [] = ok m
feed_lines m (line ∷ lines) = do p ← read_line line; m' ← feed m p; feed_lines m' lines

unfoldable pub find_gaps : Text → Outcome (List Gap)
find_gaps text = do
  m ← feed_lines (record { control = []; gaps = [] }) (drop_last (split 10 text))
  ok m.gaps
