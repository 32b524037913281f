-- ===== src/Converge/Listing.antt =====
-- The list that `instant_of_convergence` walks.

use ns3_sim.Prelude.{◌≡◌, refl, inl, inr, Bool, true, some, List, [], ◌∷◌, In, All}
use ns3_sim.Python.Outcome.{ok, key_error, or_raise, traverse, ◌>>=◌}
use ns3_sim.Python.Dict.{Dict, lookup, keys, lookup_of_In-keys}
use ns3_sim.Python.Sorting.{sorted, IsSorted, sorted-IsSorted, In-sorted}
use ns3_sim.Python.Float.{Floats}
use ns3_sim.Converge.Run.{at_time, Older, Descending}

module _ (floats : Floats) where
  open floats use {Float, float_eq, le, of_int, le-total_order, le-antisymm}

  -- The entries that the comprehension builds for a sorted list of times.
  pub record Listing (raw_data : Dict Float Bool) (times : List Float) : Type 0 where
    pub recent : List (Float × Bool)
    pub built :
        traverse
          (λ t. do value ← or_raise key_error (lookup ⦃e = float_eq⦄ t raw_data); ok (t, value))
          times
        ≡ ok recent
    pub agrees : All (λ entry. at_time floats raw_data entry.0 ≡ some entry.1) recent
    pub descending : Descending floats raw_data recent
    pub older : (t : Float) → All (λ s. le s t ≡ true) times → Older floats raw_data t recent
    pub complete :
        (t : Float) (v : Bool) → In t times → at_time floats raw_data t ≡ some v → In (t, v) recent

  lists :
      (raw_data : Dict Float Bool) (times : List Float)
      → ((t : Float) → In t times → (v : Bool) × (at_time floats raw_data t ≡ some v))
      → IsSorted (λ x y. le y x) times
      → Listing raw_data times
  unfolding traverse
  lists raw_data [] h s = record {
    recent = [];
    built = refl;
    agrees = tt;
    descending = tt;
    older = λ t o. tt;
    complete = λ t v m e. absurd m;
  }
  lists raw_data (t ∷ times) h s =
      let (v, there) = h t (inl refl) in
      let later = lists raw_data times (λ r m. h r (inr m)) s.1 in
      record {
        recent = (t, v) ∷ later.recent;
        built = rw (there, later.built);
        agrees = (there, later.agrees);
        descending = (later.older t s.0, later.descending);
        older = λ r o. (o.0, later.older r o.1);
        complete = λ r w m e. elim m [
          | inl same ↦ inl (Σ_pair same (cc (same, there, e)))
          | inr m' ↦ inr (later.complete r w m' e)
        ];
      }
    where
      Σ_pair : {a b : Float} {x y : Bool} → a ≡ b → x ≡ y → ◌≡◌ {A = Float × Bool} (a, x) (b, y)
      Σ_pair p q = λ i. (p i, q i)

  pub newest_first-Listing :
      (raw_data : Dict Float Bool) → Listing raw_data (sorted (λ x y. le y x) (keys raw_data))
  newest_first-Listing raw_data =
      lists raw_data _
        (λ t m.
          lookup_of_In-keys ⦃e = float_eq⦄ t raw_data
            ((In-sorted (λ x y. le y x) t (keys raw_data)).0 m))
        (sorted-IsSorted (λ x y. le y x)
          (record {
            total = λ x y. le-total_order.total y x;
            trans = λ x y z p q. le-total_order.trans z y x q p;
          })
          (keys raw_data))
