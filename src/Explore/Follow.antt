-- ===== src/Explore/Follow.antt =====
-- What the loop over the nexthops appends.
use ns3_sim.Prelude.{
  Bool, true, false, ◌≡◌, refl, sym, ap, ◌⊎◌, inl, inr, none, some, List, [], ◌∷◌, ◌++◌, In,
  contains, contains→In, In→contains, Bool-cases, Option-cases, arith,
}
use mathlib.Core.Path.{subst}
use ns3_sim.Prelude.Int.{ℤ}
use ns3_sim.Python.Outcome.{Outcome, ok, ◌>>=◌, >>=-eq-ok}
use ns3_sim.Python.Dict.{lookup}
use ns3_sim.Python.Text.{Text, text_eq}
use ns3_sim.Fib.{Nexthops, Reverse}
use ns3_sim.Address.{ip_into_rid, parse_route}
use ns3_sim.Explore.{Item, looped, follow, follow_all}
use ns3_sim.Explore.Adds.{Adds, Adds-none, Adds-one, Adds-trans, Adds-iff, ok_lem}

-- The two numbers of a loop's item.
pub record Closes (here : List Text) (v : Text) (item : Item) : Type 0 where
  pub number : ℤ
  pub numbers : List ℤ
  pub read_back : ip_into_rid v ≡ ok number
  pub read_here : parse_route here ≡ ok numbers
  pub is_loop : item ≡ looped number numbers

-- What one nexthop that is up does to the list.
data Follows (reverse : Reverse) (here : List Text) (enter : Text → List Item → Outcome (List Item))
    (via : Text) (c out : List Item) : Type 0 where
  unknown : lookup via reverse ≡ none → out ≡ c → Follows reverse here enter via c out
  back :
      (v : Text) (item : Item)
      → lookup via reverse ≡ some v
      → In v here
      → Closes here v item
      → out ≡ c ++ item ∷ []
      → Follows reverse here enter via c out
  fresh :
      (v : Text)
      → lookup via reverse ≡ some v
      → ¬ In v here
      → enter v c ≡ ok out
      → Follows reverse here enter via c out

loop_item :
    (here : List Text) (v : Text) (c out : List Item)
    → (do n ← ip_into_rid v; r ← parse_route here; ok (c ++ looped n r ∷ [])) ≡ ok out
    → (item : Item) × Closes here v item × (out ≡ c ++ item ∷ [])
loop_item here v c out h =
    let (n, en, h') = >>=-eq-ok (ip_into_rid v) _ h in
    let (r, er, h'') = >>=-eq-ok (parse_route here) _ h' in
    (
      looped n r,
      record { number = n; numbers = r; read_back = en; read_here = er; is_loop = refl },
      sym (ok_lem h''),
    )

module _ (reverse : Reverse) (here : List Text)
    (enter : Text → List Item → Outcome (List Item)) where
  follow_up :
      (via : Text) (c out : List Item)
      → follow reverse here enter via true c ≡ ok out
      → Follows reverse here enter via c out
  unfolding follow
  follow_up via c out h = elim (Option-cases (lookup via reverse)) [
    | inl u ↦ unknown u (ground arith)
    | inr (v, known) ↦ elim (Bool-cases (contains here v)) [
      | inl old ↦
          let (item, closes, e) = loop_item here v c out (rw (known, old, follow) at h) in
          back v item known (contains→In v here old) closes e
      | inr new ↦ fresh v known (λ m. cc (new, In→contains v here m)) (ground arith)
    ]
  ]

-- What a nexthop that is up appends, where entering `v` appends what `Q v` holds of.
pub record Emits (reverse : Reverse) (here : List Text) (Q : Text → Item → Type 0) (via : Text)
    (item : Item) : Type 0 where
  pub owner : Text
  pub owned : lookup via reverse ≡ some owner
  pub emitted : (In owner here × Closes here owner item) ⊎ ((¬ In owner here) × Q owner item)

-- The same of a list of nexthops.
pub record EmitsOne (reverse : Reverse) (here : List Text) (Q : Text → Item → Type 0)
    (nexthops : Nexthops) (item : Item) : Type 0 where
  pub via : Text
  pub listed : In (via, true) nexthops
  pub emits : Emits reverse here Q via item

Emits-known :
    (reverse : Reverse) (here : List Text) (Q : Text → Item → Type 0) (via v : Text) {item : Item}
    → lookup via reverse ≡ some v
    → Emits reverse here Q via item
    → (In v here × Closes here v item) ⊎ ((¬ In v here) × Q v item)
Emits-known reverse here Q via v {item} known m =
    subst (λ w. (In w here × Closes here w item) ⊎ ((¬ In w here) × Q w item)) same m.emitted
  where
    same : m.owner ≡ v
    same = cc (known, m.owned)

Closes-unique :
    (here : List Text) (v : Text) {a b : Item} → Closes here v a → Closes here v b → a ≡ b
Closes-unique here v p q = ground arith

module _ (reverse : Reverse) (here : List Text) (enter : Text → List Item → Outcome (List Item))
    (Q : Text → Item → Type 0)
    (enter_adds : (v : Text) (c out : List Item)
      → ¬ In v here
      → enter v c ≡ ok out
      → Adds c out (Q v)) where
  follow_adds :
      (via : Text) (c out : List Item)
      → Follows reverse here enter via c out
      → Adds c out (Emits reverse here Q via)
  follow_adds via c out (unknown u e) = Adds-none e (λ item m. ground arith)
  follow_adds via c out (back v item known passed closes e) = Adds-one item e (λ i. (
    λ m. elim (Emits-known reverse here Q via v known m) [
      | inl p ↦ Closes-unique here v (p.1) closes
      | inr q ↦ absurd (q.0 passed)
    ],
    λ same. record {
      owner = v;
      owned = known;
      emitted = inl (passed, subst (Closes here v) (sym same) closes);
    },
  ))
  follow_adds via c out (fresh v known new h) = Adds-iff (enter_adds v c out new h) (λ i. (
    λ q. record { owner = v; owned = known; emitted = inr (new, q) },
    λ m. elim (Emits-known reverse here Q via v known m) [
      | inl p ↦ absurd (new (p.0))
      | inr q ↦ q.1
    ],
  ))

  pub follow_all_adds :
      (nexthops : Nexthops) (c out : List Item)
      → follow_all reverse here enter nexthops c ≡ ok out
      → Adds c out (EmitsOne reverse here Q nexthops)
  unfolding follow_all follow
  follow_all_adds [] c out h = Adds-none (sym (ok_lem h)) (λ item m. m.listed)
  follow_all_adds ((via, true) ∷ rest) c out h =
      let (mid, first, later) = >>=-eq-ok (follow reverse here enter via true c) _ h in
      Adds-trans (follow_adds via c mid (follow_up reverse here enter via c mid first))
        (follow_all_adds rest mid out later)
        (λ item. (
          λ m. elim (m.listed) [
            | inl e ↦ inl (subst (λ w. Emits reverse here Q w item) (ap (λ p. p.0) e) m.emits)
            | inr later' ↦ inr (record { via = m.via; listed = later'; emits = m.emits })
          ],
          λ m. elim m [
            | inl p ↦ record { via = via; listed = inl refl; emits = p }
            | inr q ↦ record { via = q.via; listed = inr q.listed; emits = q.emits }
          ],
        ))
  follow_all_adds ((via, false) ∷ rest) c out h =
      Adds-iff (follow_all_adds rest c out (ground arith)) (λ item. (
        λ q. record { via = q.via; listed = inr q.listed; emits = q.emits },
        λ m. elim (m.listed) [
          | inl e ↦ cc (ap (λ (p : Text × Bool). p.1) e)
          | inr later' ↦ record { via = m.via; listed = later'; emits = m.emits }
        ],
      ))
