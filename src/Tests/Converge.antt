-- ===== src/Tests/Converge.antt =====
-- Converge.antt at concrete inputs.
use ns3_sim.Prelude.{
  ◌+◌, ◌-◌, ◌*◌, ◌≡◌, ◌≢◌, refl, ◌↔◌, inl, inr, Bool, true, false, some, [], ◌∷◌, In, contains,
}
use ns3_sim.Prelude.Int.{ℤ, pos, int_eq, leb_ℤ, ◌-ℤ◌}
use ns3_sim.Python.Outcome.{ok, traverse}
use ns3_sim.Python.Dict.{Dict, lookup, keys, In-keys_of_lookup}
use ns3_sim.Python.Sorting.{sorted}
use ns3_sim.Python.Text.{Text, text_eq, split}
use ns3_sim.Python.Number.{int, decimal}
use ns3_sim.Address.{address, gen_addresses, ip_into_rid, parse_route}
use ns3_sim.Explore.{explore, loop, follow_all, follow, forwarding}
use ns3_sim.Converge.{
  Tally, is_valid, tally, tally_all, tally_from, newest_first, first_incorrect,
  instant_of_convergence,
}
use ns3_sim.Converge.Count.{tally_counts_pairs}
use ns3_sim.Converge.Served.{IsServed, tally_correct_iff}
use ns3_sim.Converge.Run.{at_time, CorrectSince}
use ns3_sim.Converge.Instant.{
  instant_of_convergence_newest_correct, instant_of_convergence_newest_incorrect,
}
use ns3_sim.Tests.Sample.{pair, pair_reverse, whole_floats}

abbrev both : Tally
both = record { correct = 2; incorrect = 0 }

tally-pair : tally pair pair_reverse 2 ≡ ok both
unfolding tally tally_all tally_from gen_addresses address decimal is_valid explore loop forwarding
    follow_all follow parse_route ip_into_rid split int lookup contains ◌-ℤ◌
tally-pair = refl

tally_counts_pairs_example : both.correct + both.incorrect ≡ 2 * (2 - 1)
tally_counts_pairs_example = tally_counts_pairs pair pair_reverse 2 both tally-pair

tally_correct_iff_example : (both.correct ≡ 2 * (2 - 1)) ↔ (
    (src dst : Text)
    → In src (gen_addresses 2)
    → In dst (gen_addresses 2)
    → src ≢ dst
    → IsServed pair pair_reverse src dst)
tally_correct_iff_example = tally_correct_iff pair pair_reverse 2 both tally-pair

-- Correct at 5 ms, incorrect at 7 ms, correct from 9 ms on.
abbrev settled : Dict ℤ Bool
settled = (pos 5, true) ∷ (pos 7, false) ∷ (pos 9, true) ∷ (pos 12, true) ∷ []

-- The same with an incorrect newest snapshot.
abbrev unsettled : Dict ℤ Bool
unsettled = (pos 5, true) ∷ (pos 7, false) ∷ []

settled_le : (t : ℤ) → In t (keys settled) → leb_ℤ t (pos 12) ≡ true
settled_le t (inl e) = rw e
settled_le t (inr (inl e)) = rw e
settled_le t (inr (inr (inl e))) = rw e
settled_le t (inr (inr (inr (inl e)))) = rw e
settled_le t (inr (inr (inr (inr m)))) = absurd m

instant_of_convergence_newest_correct_example :
    (since : ℤ) × (instant_of_convergence whole_floats settled ≡ ok since)
    × (at_time whole_floats settled since ≡ some true)
    × CorrectSince whole_floats settled since
    × ((t : ℤ) (v : Bool)
        → at_time whole_floats settled t ≡ some v
        → CorrectSince whole_floats settled t
        → leb_ℤ since t ≡ true)
unfolding lookup
instant_of_convergence_newest_correct_example =
    instant_of_convergence_newest_correct whole_floats settled (pos 12) refl
      (λ t v h. settled_le t (In-keys_of_lookup t settled h))

settled_at_9 : instant_of_convergence whole_floats settled ≡ ok (pos 9)
unfolding instant_of_convergence newest_first first_incorrect sorted traverse lookup
settled_at_9 = refl

unsettled_le : (t : ℤ) → In t (keys unsettled) → leb_ℤ t (pos 7) ≡ true
unsettled_le t (inl e) = rw e
unsettled_le t (inr (inl e)) = rw e
unsettled_le t (inr (inr m)) = absurd m

unsettled_ge : (t : ℤ) → In t (keys unsettled) → leb_ℤ (pos 5) t ≡ true
unsettled_ge t (inl e) = rw e
unsettled_ge t (inr (inl e)) = rw e
unsettled_ge t (inr (inr m)) = absurd m

-- The network is not converged at 7 ms, and 5 ms is returned.
instant_of_convergence_newest_incorrect_example :
    instant_of_convergence whole_floats unsettled ≡ ok (pos 5)
unfolding lookup
instant_of_convergence_newest_incorrect_example =
    instant_of_convergence_newest_incorrect whole_floats unsettled (pos 7) (pos 5) true refl
      (λ t v h. unsettled_le t (In-keys_of_lookup t unsettled h)) refl
      (λ t v h. unsettled_ge t (In-keys_of_lookup t unsettled h))
