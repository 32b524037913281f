-- ===== src/Failures/OneDirection.antt =====
-- What the loop over a whole file leaves.

use ns3_sim.Prelude.{suc, ◌≡◌, inl, inr, List, [], arith, length, In, All, In_of_All, IsOnce}
use ns3_sim.Python.Outcome.{ok, raise, value_error}
use ns3_sim.Failures.{Row, one_direction}
use ns3_sim.Failures.Halves.{flipped, IsLink, Halves}
use ns3_sim.Failures.Prune.{Ends, walk}

module _ (rows : List Row) (links : All IsLink rows) (once : IsOnce rows) where
  all_walked : Ends (suc (length rows)) [] rows
  all_walked = walk (suc (length rows)) [] rows (omega arith) (record {
    once = once;
    gone = λ x m. absurd m;
    links = λ x m. In_of_All IsLink rows x links m;
  })

  -- Rows that are links, none twice, each with its other direction: the loop ends without an error,
  -- and leaves exactly one of the two directions of each link, so half of the rows.
  pub one_direction-Halves :
      All (λ x. In (flipped x) rows) rows
      → (out : List Row) × (one_direction rows ≡ ok out) × Halves rows out
  unfolding one_direction
  one_direction-Halves paired = elim all_walked [
    | inl (out, done, k) ↦ (
      out,
      done,
      record { from = k.from; one = k.one; halved = k.halved; once = k.once; half = k.half },
    )
    | inr (done, s) ↦
        absurd (s.alone (In_of_All (λ x. In (flipped x) rows) rows s.row paired s.member))
  ]

  -- A row whose other direction is missing, with another metric or delay for instance, is a
  -- `ValueError`, wherever it stands.
  pub one_direction-unpaired :
      (x : Row) → In x rows → ¬ In (flipped x) rows → one_direction rows ≡ raise value_error
  unfolding one_direction
  one_direction-unpaired x m alone = elim all_walked [
    | inl (out, done, k) ↦ absurd (alone (k.paired x m))
    | inr (done, s) ↦ done
  ]
