-- ===== src/Converge/Valid.antt =====
-- What the test of the results of a search asks for.
use ns3_sim.Prelude.{
  suc, ◌≤◌, ◌≡◌, ◌≢◌, refl, ap, ◌↔◌, true, false, List, [], ◌∷◌, nat_eq, arith, All, length,
}
use ns3_sim.Prelude.Int.{ℤ}
use ns3_sim.Explore.{Item, route, not_found, looped}
use ns3_sim.Converge.{is_route, count_routes, is_valid}

abbrev pub IsRoute : Item → Type 0
IsRoute item = (r : List ℤ) × (item ≡ route r)

not-IsRoute : (item : Item) → is_route item ≡ false → ¬ IsRoute item
not-IsRoute item h (r, e) = cc (h, ap is_route e)

count_routes-length : (items : List Item) → count_routes items ≤ length items
unfolding count_routes
count_routes-length [] = omega arith
count_routes-length (route r ∷ items) = omega (arith, count_routes-length items)
count_routes-length (not_found d s r ∷ items) = omega (arith, count_routes-length items)
count_routes-length (looped n r ∷ items) = omega (arith, count_routes-length items)

All-of_count_routes : (items : List Item) → count_routes items ≡ length items → All IsRoute items
unfolding count_routes
All-of_count_routes [] h = tt
All-of_count_routes (route r ∷ items) h = ((r, refl), All-of_count_routes items (omega (arith, h)))
All-of_count_routes (not_found d s r ∷ items) h =
    absurd (omega (arith, h, count_routes-length items))
All-of_count_routes (looped n r ∷ items) h = absurd (omega (arith, h, count_routes-length items))

count_routes-All : (items : List Item) → All IsRoute items → count_routes items ≡ length items
unfolding count_routes
count_routes-All [] h = refl
count_routes-All (route r ∷ items) (a, h) = ap suc (count_routes-All items h)
count_routes-All (not_found d s r ∷ items) (a, h) = absurd (not-IsRoute (not_found d s r) refl a)
count_routes-All (looped n r ∷ items) (a, h) = absurd (not-IsRoute (looped n r) refl a)

-- The results are good when there is one and all are routes.
pub is_valid_iff : (items : List Item) → (is_valid items ≡ true) ↔ (items ≢ []) × All IsRoute items
unfolding is_valid
is_valid_iff [] = (λ h. cc h, λ p. absurd (p.0 refl))
is_valid_iff (x ∷ items) = (
  λ h. (λ e. cc e, All-of_count_routes (x ∷ items) (ground (arith, h))),
  λ p. valid (count_routes-All (x ∷ items) p.1),
)
  where
    valid : count_routes (x ∷ items) ≡ length (x ∷ items) → is_valid (x ∷ items) ≡ true
    valid e = ground (arith, e)
