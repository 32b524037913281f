-- ===== src/Tests/Logged.antt =====
-- A loss in a log of two sources.
use ns3_sim.Prelude.{◌+◌, ◌*◌, ◌≡◌, refl, ap, arith, Option, some, List, [], ◌∷◌, In}
use ns3_sim.Prelude.Int.{ℤ, pos, pos_part, ◌-ℤ◌}
use ns3_sim.Python.Outcome.{ok, traverse}
use ns3_sim.Python.Dict.{lookup, insert}
use ns3_sim.Python.Text.{Text, text_eq, codes, split, split_long}
use ns3_sim.Python.Number.{int}
use ns3_sim.Address.{ip_into_rid}
use ns3_sim.Gaps.{
  dx, Ping, Control, Monitor, fresh, remember, unpack, read_line, feed, feed_lines, observe,
  advance, or_fresh, report,
}
use ns3_sim.Gaps.Clean.{settled, gap}
use ns3_sim.Gaps.Watched.{Watched, feed_lines-Watched}
use ns3_sim.Gaps.Logged.{gap_in_log}
use ns3_sim.Tests.Sample.{ip1, ip2}

number1 : ip_into_rid ip1 ≡ ok (pos 0)
unfolding ip_into_rid split int ◌-ℤ◌
number1 = refl

-- The first source was confirmed, save for one ping.
abbrev waiting : Control
waiting = record (fresh (pos 10000)) { low_received = some (pos 10400); validate = 1 }

abbrev start : Monitor
start = record { control = (ip1, waiting) ∷ []; gaps = [] }

abbrev lines : List Text
lines =
    codes "10.1.0.1, 50000, 50300"
    ∷ codes "10.1.0.2, 51000, 51400"
    ∷ codes "10.1.0.1, 55000, 55300"
    ∷ codes "10.1.0.1, 60000, 60300"
    ∷ codes "10.1.0.1, 65000, 65300"
    ∷ []

abbrev pings : List Ping
pings =
    record { src = ip1; timestamp = pos 50000; received = pos 50300 }
    ∷ record { src = ip2; timestamp = pos 51000; received = pos 51400 }
    ∷ record { src = ip1; timestamp = pos 55000; received = pos 55300 }
    ∷ record { src = ip1; timestamp = pos 60000; received = pos 60300 }
    ∷ record { src = ip1; timestamp = pos 65000; received = pos 65300 }
    ∷ []

abbrev end : Monitor
end = record {
  control = (ip1, settled 65000 (pos 65300) (some (pos 60300))) ∷ (ip2, fresh (pos 51000)) ∷ [];
  gaps = gap ip1 (pos 0) number1 (pos 10000) (pos 10400) (pos 50300) 65000 ∷ [];
}

feed_lines-lines : feed_lines start lines ≡ ok end
unfolding feed_lines feed read_line unpack observe advance or_fresh report fresh remember split
    split_long int ip_into_rid lookup insert ◌-ℤ◌
feed_lines-lines = refl

read_line-lines : traverse read_line lines ≡ ok pings
unfolding traverse read_line unpack split_long int
read_line-lines = refl

feed_lines-Watched_example : Watched start end pings
feed_lines-Watched_example =
    feed_lines-Watched start end lines pings feed_lines-lines read_line-lines

gap_in_log_example :
    In (gap ip1 (pos 0) number1 (pos 10000) (pos 10400) (pos 50300) (50000 + (1 + 2) * dx)) end.gaps
    × ((before : Option ℤ) × (lookup ip1 end.control
          ≡ some (settled (50000 + (1 + 2) * dx) (pos 65300) before)))
unfolding fresh lookup ◌-ℤ◌
gap_in_log_example =
    gap_in_log ip1 (pos 0) number1 start end lines pings waiting 50000 (pos 50300) (pos 55300)
      (pos 60300 ∷ []) (pos 65300) (pos 10400) feed_lines-lines read_line-lines refl refl
      (omega arith) (λ z. absurd (omega (arith, ap pos_part z)))
      (λ z. absurd (omega (arith, ap pos_part z))) refl refl refl refl
