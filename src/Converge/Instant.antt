-- ===== src/Converge/Instant.antt =====
-- What `instant_of_convergence` returns. The list that it walks is sorted, newest snapshot first.
use mathlib.Core.Path.{subst}
use ns3_sim.Prelude.{
  ◌≡◌, sym, ap, inl, inr, Bool, true, false, some, List, [], ◌∷◌, if◌then◌else◌, In, All, In_of_All,
}
use ns3_sim.Prelude.Int.{negsuc}
use ns3_sim.Python.Outcome.{ok, last?}
use ns3_sim.Python.Dict.{Dict, keys, In-keys_of_lookup}
use ns3_sim.Python.Sorting.{In-sorted}
use ns3_sim.Python.Float.{Floats}
use ns3_sim.Converge.{first_incorrect, newest_first, instant_of_convergence}
use ns3_sim.Converge.Run.{
  at_time, Older, Descending, CorrectSince, le_refl, run, run_correct, run_sound, run_first,
  first_incorrect-run,
}
use ns3_sim.Converge.Listing.{newest_first-Listing}

module _ (floats : Floats) where
  open floats use {Float, float_eq, le, of_int, le-total_order, le-antisymm}

  module _ (raw_data : Dict Float Bool) (newest : Float)
      (is_newest : (t : Float) (v : Bool)
        → at_time floats raw_data t ≡ some v
        → le t newest ≡ true) where
    -- The head of the list is the newest snapshot.
    newest_head :
        (t : Float) (b v : Bool) (rest : List (Float × Bool))
        → at_time floats raw_data newest ≡ some b
        → at_time floats raw_data t ≡ some v
        → Older floats raw_data t rest
        → In (newest, b) ((t, v) ∷ rest)
        → v ≡ b
    newest_head t b v rest there at_t older m =
        let above =
          In_of_All (λ (entry : Float × Bool). le entry.0 t ≡ true) ((t, v) ∷ rest) (newest, b)
            (le_refl floats t, older) m in
        cc (le-antisymm t newest (is_newest t v at_t) above, there, at_t)

    newest_correct_list :
        (recent : List (Float × Bool))
        → at_time floats raw_data newest ≡ some true
        → All (λ entry. at_time floats raw_data entry.0 ≡ some entry.1) recent
        → Descending floats raw_data recent
        → ((t : Float) (v : Bool) → at_time floats raw_data t ≡ some v → In (t, v) recent)
        → (since : Float) × (first_incorrect floats recent 0 recent ≡ ok since)
          × (at_time floats raw_data since ≡ some true)
          × CorrectSince floats raw_data since
          × ((t : Float) (v : Bool)
              → at_time floats raw_data t ≡ some v
              → CorrectSince floats raw_data t
              → le since t ≡ true)
    unfolding first_incorrect
    newest_correct_list [] there a d all = absurd (all newest true there)
    newest_correct_list ((t, false) ∷ rest) there a d all =
        cc (newest_head t true false rest there a.0 d.0 (all newest true there))
    newest_correct_list ((t, true) ∷ rest) there a d all = (
      run floats t rest,
      first_incorrect-run floats [] rest t,
      run_correct floats raw_data t rest a.0 a.1,
      λ s v e l. elim (all s v e) [
        | inl same ↦ ap (λ (p : Float × Bool). p.1) same
        | inr m ↦ run_sound floats raw_data t rest a.0 a.1 d.0 d.1 s v m l
      ],
      λ q v e good. run_first floats raw_data t rest a.1 d.0 d.1 q v (all q v e) good,
    )

    -- The last entry of the list is the oldest snapshot.
    last-eq-oldest :
        (oldest : Float) (b : Bool) (t : Float) (v : Bool) (rest : List (Float × Bool))
        → All (λ entry. at_time floats raw_data entry.0 ≡ some entry.1) ((t, v) ∷ rest)
        → Descending floats raw_data ((t, v) ∷ rest)
        → ((s : Float) (w : Bool) → at_time floats raw_data s ≡ some w → le oldest s ≡ true)
        → at_time floats raw_data oldest ≡ some b
        → In (oldest, b) ((t, v) ∷ rest)
        → last? ((t, v) ∷ rest) ≡ some (oldest, b)
    last-eq-oldest oldest b t v [] a d lowest at_end (inl e) = ap some (sym e)
    last-eq-oldest oldest b t v [] a d lowest at_end (inr m) = absurd m
    last-eq-oldest oldest b t v ((s, w) ∷ rest) a d lowest at_end (inr m) =
        last-eq-oldest oldest b s w rest a.1 d.1 lowest at_end m
    last-eq-oldest oldest b t v ((s, w) ∷ rest) a d lowest at_end (inl e) =
        let t_is : t ≡ oldest = sym (ap (λ (p : Float × Bool). p.0) e) in
        let below : le s oldest ≡ true = subst (λ r. le s r ≡ true) t_is d.0.0 in
        let same : oldest ≡ s = le-antisymm oldest s (lowest s w a.1.0) below in
        let value : b ≡ w = cc (same, at_end, a.1.0) in
        last-eq-oldest oldest b s w rest a.1 d.1 lowest at_end (inl (λ i. (same i, value i)))

    newest_incorrect_list :
        (oldest : Float) (b : Bool) (recent : List (Float × Bool))
        → at_time floats raw_data newest ≡ some false
        → at_time floats raw_data oldest ≡ some b
        → ((s : Float) (w : Bool) → at_time floats raw_data s ≡ some w → le oldest s ≡ true)
        → All (λ entry. at_time floats raw_data entry.0 ≡ some entry.1) recent
        → Descending floats raw_data recent
        → ((t : Float) (v : Bool) → at_time floats raw_data t ≡ some v → In (t, v) recent)
        → first_incorrect floats recent 0 recent ≡ ok (if b then oldest else of_int (negsuc 0))
    unfolding first_incorrect
    newest_incorrect_list oldest b [] there at_end lowest a d all = absurd (all newest false there)
    newest_incorrect_list oldest b ((t, true) ∷ rest) there at_end lowest a d all =
        cc (newest_head t false true rest there a.0 d.0 (all newest false there))
    newest_incorrect_list oldest b ((t, false) ∷ rest) there at_end lowest a d all =
        rw (last-eq-oldest oldest b t false rest a d lowest at_end (all oldest b at_end))

  -- Where the newest snapshot is correct, the result is the first time from which on every snapshot is
  -- correct: a snapshot of that time is there, and no earlier one has this property.
  pub instant_of_convergence_newest_correct :
      (raw_data : Dict Float Bool) (newest : Float)
      → at_time floats raw_data newest ≡ some true
      → ((t : Float) (v : Bool) → at_time floats raw_data t ≡ some v → le t newest ≡ true)
      → (since : Float) × (instant_of_convergence floats raw_data ≡ ok since)
        × (at_time floats raw_data since ≡ some true)
        × CorrectSince floats raw_data since
        × ((t : Float) (v : Bool)
            → at_time floats raw_data t ≡ some v
            → CorrectSince floats raw_data t
            → le since t ≡ true)
  unfolding instant_of_convergence newest_first
  instant_of_convergence_newest_correct raw_data newest there is_newest =
      let l = newest_first-Listing floats raw_data in
      let everything = λ (t : Float) (v : Bool) (e : at_time floats raw_data t ≡ some v).
        l.complete t v
          ((In-sorted (λ x y. le y x) t (keys raw_data)).1
            (In-keys_of_lookup ⦃e = float_eq⦄ t raw_data e))
          e in
      let (since, e, there', sound, first) =
        newest_correct_list raw_data newest is_newest l.recent there l.agrees l.descending
          everything in
      (since, rw l.built e, there', sound, first)

  -- Where the newest snapshot is incorrect, the loop looks at `data[-1]`, the oldest one: if that is
  -- correct, its time is returned as the instant of convergence, and -1 otherwise.
  pub instant_of_convergence_newest_incorrect :
      (raw_data : Dict Float Bool) (newest oldest : Float) (b : Bool)
      → at_time floats raw_data newest ≡ some false
      → ((t : Float) (v : Bool) → at_time floats raw_data t ≡ some v → le t newest ≡ true)
      → at_time floats raw_data oldest ≡ some b
      → ((t : Float) (v : Bool) → at_time floats raw_data t ≡ some v → le oldest t ≡ true)
      → instant_of_convergence floats raw_data ≡ ok (if b then oldest else of_int (negsuc 0))
  unfolding instant_of_convergence newest_first
  instant_of_convergence_newest_incorrect raw_data newest oldest b there is_newest at_end
        is_oldest =
      let l = newest_first-Listing floats raw_data in
      let everything = λ (t : Float) (v : Bool) (e : at_time floats raw_data t ≡ some v).
        l.complete t v
          ((In-sorted (λ x y. le y x) t (keys raw_data)).1
            (In-keys_of_lookup ⦃e = float_eq⦄ t raw_data e))
          e in
      rw l.built (
        newest_incorrect_list raw_data newest is_newest oldest b l.recent there at_end is_oldest
          l.agrees l.descending everything)
