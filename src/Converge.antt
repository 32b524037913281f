-- ===== src/Converge.antt =====
-- fib_parser.py, `evaluate_convergence`: which snapshots give every router a route to every other,
-- and since when that is so.
pub mod Run
mod Listing
pub mod Instant
pub mod Count
pub mod Valid
pub mod Served
pub mod Returns
use ns3_sim.Prelude.{
  ℕ, zero, suc, ◌+◌, ◌-◌, ◌*◌, Bool, true, false, not, ◌&&◌, Option, none, some, List, [], ◌∷◌,
  ◌==◌, nat_eq, if◌then◌else◌, length, ltb,
}
use ns3_sim.Prelude.Int.{ℤ, pos, negsuc}
use ns3_sim.Python.Outcome.{
  Outcome, ok, key_error, index_error, or_raise, index, last, traverse, ◌>>=◌,
}
use ns3_sim.Python.Dict.{Dict, lookup, insert, keys}
use ns3_sim.Python.Sorting.{sorted}
use ns3_sim.Python.Float.{Floats}
use ns3_sim.Python.Text.{Text, text_eq}
use ns3_sim.Fib.{Snapshot, Reverse}
use ns3_sim.Address.{gen_addresses}
use ns3_sim.Explore.{Item, route, not_found, looped, explore}

-- `data[idx-1]`, which for the first index is the last element.
abbrev pub element_before {ℓ} : {A : Type ℓ} → List A → ℕ → Outcome A
element_before xs zero = last xs
element_before xs (suc i) = index xs i

module _ (floats : Floats) where
  open floats use {Float, float_eq, le, of_int}

  -- `candidate[0] if candidate[1] else -1`.
  unfoldable pub instant_or_minus_one : Float × Bool → Float
  instant_or_minus_one (timestamp, correct) = if correct then timestamp else of_int (negsuc 0)

  -- The loop over `enumerate(data)`, from index `idx`.
  unfoldable pub first_incorrect : List (Float × Bool) → ℕ → List (Float × Bool) → Outcome Float
  unfolding instant_or_minus_one
  first_incorrect all idx [] = do candidate ← last all; ok (instant_or_minus_one candidate)
  first_incorrect all idx ((timestamp, value) ∷ rest) =
      let later = first_incorrect all (idx + 1) rest in
      if not value
      then (do candidate ← element_before all idx; ok (instant_or_minus_one candidate))
      else later

  unfoldable pub newest_first : Dict Float Bool → Outcome (List (Float × Bool))
  newest_first raw_data =
      traverse
        (λ t. do value ← or_raise key_error (lookup ⦃e = float_eq⦄ t raw_data); ok (t, value))
        (sorted (λ x y. le y x) (keys raw_data))

  unfoldable pub instant_of_convergence : Dict Float Bool → Outcome Float
  instant_of_convergence raw_data = do
    recent ← newest_first raw_data
    first_incorrect recent 0 recent

-- `type(item) == list`.
abbrev pub is_route : Item → Bool
is_route (route r) = true
is_route (not_found d s r) = false
is_route (looped n r) = false

unfoldable pub count_routes : List Item → ℕ
count_routes [] = 0
count_routes (item ∷ items) = if is_route item then suc (count_routes items) else count_routes items

-- There is an item, and every item is a route.
unfoldable pub is_valid : List Item → Bool
unfolding count_routes
is_valid routes = count_routes routes == length routes && ltb 0 (length routes)

pub record Tally : Type 0 where
  pub correct : ℕ
  pub incorrect : ℕ

module _ (data_at : Snapshot) (reverse : Reverse) where
  -- The loop over `dst`.
  unfoldable pub tally_from : Text → List Text → Tally → Outcome Tally
  tally_from src [] t = ok t
  tally_from src (dst ∷ rest) t =
      let skipped = tally_from src rest t in
      let counted = (do
        routes ← explore src dst data_at reverse
        tally_from src rest (
            if is_valid routes
            then record t { correct = t.correct + 1 }
            else record t { incorrect = t.incorrect + 1 })) in
      if src == dst then skipped else counted

  -- The loop over `src`.
  unfoldable pub tally_all : List Text → List Text → Tally → Outcome Tally
  tally_all [] addr t = ok t
  tally_all (src ∷ rest) addr t = do t' ← tally_from src addr t; tally_all rest addr t'

  unfoldable pub tally : ℕ → Outcome Tally
  tally n_nodes =
      let addr = gen_addresses n_nodes in
      tally_all addr addr (record { correct = 0; incorrect = 0 })

module _ (floats : Floats) where
  open floats use {Float, float_eq, le, of_int}

  -- The loop over the snapshots; `none` is the return of `(0, -1)` with the message of an error.
  unfoldable pub judge :
      List (Float × Snapshot) → Reverse → ℕ → Dict Float Bool → Outcome (Option (Dict Float Bool))
  judge [] reverse n_nodes result = ok (some result)
  judge ((timestamp, data_at) ∷ rest) reverse n_nodes result = do
    t ← tally data_at reverse n_nodes
    let expected = n_nodes * (n_nodes - 1)
    let result' = insert ⦃e = float_eq⦄ timestamp (t.correct == expected) result
    if not (t.correct + t.incorrect == expected)
        then ok none
        else judge rest reverse n_nodes result'

  -- `{timestamp: fibs[timestamp] for timestamp in sorted(fibs.keys())}`.
  unfoldable pub oldest_first : Dict Float Snapshot → Outcome (List (Float × Snapshot))
  oldest_first fibs =
      traverse
        (λ t. do data_at ← or_raise key_error (lookup ⦃e = float_eq⦄ t fibs); ok (t, data_at))
        (sorted le (keys fibs))

  -- `evaluate_convergence` after the logs are read: the instant, or `none` for `(0, -1)`.
  unfoldable pub convergence_of : Dict Float Snapshot → Reverse → ℕ → Outcome (Option Float)
  convergence_of fibs reverse n_nodes = do
    snapshots ← oldest_first fibs
    judged ← judge snapshots reverse n_nodes []
    elim judged [
      | none ↦ ok none
      | some result ↦ (do instant ← instant_of_convergence floats result; ok (some instant))
    ]
