-- ===== src/Converge/Run.antt =====
-- The loop of `instant_of_convergence` over a list of snapshots, newest first.
use mathlib.Core.Path.{subst}
use ns3_sim.Prelude.{
  suc, ◌+◌, ◌≡◌, refl, sym, ap, inl, inr, Bool, true, false, Option, some, List, [], ◌∷◌, ◌++◌,
  append_assoc, length, arith, In, All, In_of_All, length-append,
}
use ns3_sim.Python.Outcome.{ok, index, last?}
use ns3_sim.Python.Dict.{Dict, lookup}
use ns3_sim.Python.Float.{Floats}
use ns3_sim.Converge.{first_incorrect}

module _ {A : Type 0} where
  index-middle : (xs ys : List A) (x : A) → index (xs ++ x ∷ ys) (length xs) ≡ ok x
  index-middle [] ys x = refl
  index-middle (y ∷ xs) ys x = index-middle xs ys x

  pub last-append : (xs : List A) (x : A) → last? (xs ++ x ∷ []) ≡ some x
  last-append [] x = refl
  last-append (y ∷ []) x = refl
  last-append (y ∷ z ∷ xs) x = last-append (z ∷ xs) x

module _ (floats : Floats) where
  open floats use {Float, float_eq, le, of_int, le-total_order, le-antisymm}

  -- The last time of the run of correct snapshots that begins at `t`.
  pub run : Float → List (Float × Bool) → Float
  run t [] = t
  run t ((s, true) ∷ rest) = run s rest
  run t ((s, false) ∷ rest) = t

  -- Behind a correct snapshot the loop goes on to the end of its run.
  pub first_incorrect-run :
      (before rest : List (Float × Bool)) (t : Float)
      → first_incorrect floats (before ++ (t, true) ∷ rest) (suc (length before)) rest
        ≡ ok (run t rest)
  unfolding first_incorrect run
  first_incorrect-run before [] t = rw (last-append before (t, true))
  first_incorrect-run before ((s, false) ∷ rest) t =
      rw (index-middle before ((s, false) ∷ rest) (t, true))
  first_incorrect-run before ((s, true) ∷ rest) t =
      let ih = first_incorrect-run (before ++ (t, true) ∷ []) rest s in
      let places : suc (length (before ++ (t, true) ∷ [])) ≡ suc (length before) + 1 =
        omega (arith, length-append before ((t, true) ∷ [])) in
      rw (append_assoc before ((t, true) ∷ []) ((s, true) ∷ rest), places) at ih

  -- A list whose entries are those of the dictionary.
  Agrees : Dict Float Bool → List (Float × Bool) → Type 0
  Agrees raw_data = All (λ entry. lookup ⦃e = float_eq⦄ entry.0 raw_data ≡ some entry.1)

  pub le_refl : (x : Float) → le x x ≡ true
  le_refl x = elim (le-total_order.total x x) [ inl h ↦ h | inr h ↦ h ]

  module _ (raw_data : Dict Float Bool) where
    abbrev pub at_time : Float → Option Bool
    at_time t = lookup ⦃e = float_eq⦄ t raw_data

    -- Every snapshot from `t` on is correct.
    abbrev pub CorrectSince : Float → Type 0
    CorrectSince t = (s : Float) (v : Bool) → at_time s ≡ some v → le t s ≡ true → v ≡ true

    abbrev pub Older : Float → List (Float × Bool) → Type 0
    Older t = All (λ entry. le entry.0 t ≡ true)

    -- Each entry is at least as new as those behind it.
    abbrev pub Descending : List (Float × Bool) → Type 0
    Descending [] = Unit
    Descending ((t, v) ∷ rest) = Older t rest × Descending rest

    Older-of_le :
        (s t : Float) (rest : List (Float × Bool)) → le s t ≡ true → Older s rest → Older t rest
    Older-of_le s t [] h o = tt
    Older-of_le s t ((r, v) ∷ rest) h (hr, o) =
        (le-total_order.trans r s t hr h, Older-of_le s t rest h o)

    run-le :
        (t : Float) (rest : List (Float × Bool))
        → Older t rest
        → Descending rest
        → le (run t rest) t ≡ true
    unfolding run
    run-le t [] o d = le_refl t
    run-le t ((s, false) ∷ rest) o d = le_refl t
    run-le t ((s, true) ∷ rest) o d =
        le-total_order.trans (run s rest) s t (run-le s rest d.0 d.1) o.0

    pub run_correct :
        (t : Float) (rest : List (Float × Bool))
        → at_time t ≡ some true
        → All (λ entry. at_time entry.0 ≡ some entry.1) rest
        → at_time (run t rest) ≡ some true
    unfolding run
    run_correct t [] h a = h
    run_correct t ((s, false) ∷ rest) h a = h
    run_correct t ((s, true) ∷ rest) h a = run_correct s rest a.0 a.1

    -- No entry of the list from the run's end on is incorrect.
    pub run_sound :
        (t : Float) (rest : List (Float × Bool))
        → at_time t ≡ some true
        → All (λ entry. at_time entry.0 ≡ some entry.1) rest
        → Older t rest
        → Descending rest
        → (s : Float) (v : Bool) → In (s, v) rest
        → le (run t rest) s ≡ true
        → v ≡ true
    unfolding run
    run_sound t [] h a o d s v m l = absurd m
    run_sound t ((r, true) ∷ rest) h a o d s v (inl e) l = cc e
    run_sound t ((r, true) ∷ rest) h a o d s v (inr m) l = run_sound r rest a.0 a.1 d.0 d.1 s v m l
    run_sound t ((r, false) ∷ rest) h a o d s v m l =
        let back = In_of_All _ ((r, false) ∷ rest) (s, v) o m in
        let there = In_of_All _ ((r, false) ∷ rest) (s, v) a m in
        cc (le-antisymm t s l back, there, h)

    -- A time from which on all is correct is not before the run's end.
    pub run_first :
        (t : Float) (rest : List (Float × Bool))
        → All (λ entry. at_time entry.0 ≡ some entry.1) rest
        → Older t rest
        → Descending rest
        → (q : Float) (v : Bool) → In (q, v) ((t, true) ∷ rest)
        → CorrectSince q
        → le (run t rest) q ≡ true
    unfolding run
    run_first t rest a o d q v (inl e) good =
        subst (λ w. le (run t rest) w ≡ true) (sym (ap (λ (p : Float × Bool). p.0) e))
          (run-le t rest o d)
    run_first t [] a o d q v (inr m) good = absurd m
    run_first t ((r, true) ∷ rest) a o d q v (inr m) good = run_first r rest a.1 d.0 d.1 q v m good
    run_first t ((r, false) ∷ rest) a o d q v (inr m) good =
        let newer = In_of_All _ ((r, false) ∷ rest) (q, v) (le_refl r, d.0) m in
        cc (good r false a.0 newer)
