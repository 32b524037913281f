-- ===== src/Failures/Prune.antt =====
-- The loop that deletes from the list it walks leaves one direction of each link.
use mathlib.Core.Path.{subst}
use ns3_sim.Prelude.{
  ℕ, zero, suc, ◌+◌, ◌<◌, ◌≡◌, ◌≢◌, refl, sym, ap, ◌∙◌, ◌⊎◌, inl, inr, none, some, List, [], ◌∷◌,
  ◌++◌, append_assoc, append-nil, arith, length, length-append, get_elem?, get_elem?-middle,
  get_elem?-length, In, In-append, In-append_right, IsOnce, IsOnce-append_right, contains,
  contains→In, In→contains, Bool-cases,
}
use ns3_sim.Python.Outcome.{ok, raise, value_error}
use ns3_sim.Python.Sequence.{remove, remove-none, remove-In, remove-append, Removed}
use ns3_sim.Failures.{Row, row_eq, prune}
use ns3_sim.Failures.Halves.{
  flipped, IsLink, flipped_twice, flipped-ne, reverse_of-flipped, IsHalved,
}

-- Each row has its other direction in the list.
abbrev pub IsPaired : List Row → Type 0
IsPaired rows = (x : Row) → In x rows → In (flipped x) rows

-- `front` has been walked: the other directions of its rows are gone.
pub record Walked (front rest : List Row) : Type 0 where
  pub once : IsOnce (front ++ rest)
  pub gone : (x : Row) → In x front → ¬ In (flipped x) (front ++ rest)
  pub links : (x : Row) → In x (front ++ rest) → IsLink x

pub record Kept (front rest out : List Row) : Type 0 where
  pub paired : IsPaired rest
  pub from : (x : Row) → In x out → In x rest
  pub one : (x : Row) → In x rest → In x out ⊎ In (flipped x) out
  pub once : IsOnce (front ++ out)
  pub halved : IsHalved (front ++ out)
  pub half : length out + length out ≡ length rest

-- A row with no other direction.
pub record Single (rest : List Row) : Type 0 where
  pub row : Row
  pub member : In row rest
  pub alone : ¬ In (flipped row) rest

abbrev pub Ends : ℕ → List Row → List Row → Type 0
Ends fuel front rest =
    ((out : List Row) × (prune fuel (length front) (front ++ rest) ≡ ok (front ++ out))
      × Kept front rest out)
    ⊎ ((prune fuel (length front) (front ++ rest) ≡ raise value_error) × Single rest)

-- One round finds its row, deletes the other direction behind it, and goes on.
prune_round :
    (fuel : ℕ) (front : List Row) (x : Row) (xs rest : List Row)
    → IsLink x
    → remove (flipped x) ((front ++ x ∷ []) ++ xs) ≡ some rest
    → prune (suc fuel) (length front) ((front ++ x ∷ []) ++ xs)
      ≡ prune fuel (length (front ++ x ∷ [])) rest
unfolding prune
prune_round fuel front x xs rest l h =
    let here : get_elem? ((front ++ x ∷ []) ++ xs) (length front) ≡ some x =
      rw (append_assoc front (x ∷ []) xs) (get_elem?-middle front x xs) in
    let longer : length front + 1 ≡ length (front ++ x ∷ []) =
      omega (arith, length-append front (x ∷ [])) in
    rw (here, prune) (rw (reverse_of-flipped x l, h, longer) refl)

prune_fail :
    (fuel : ℕ) (front : List Row) (x : Row) (xs : List Row)
    → IsLink x
    → remove (flipped x) (front ++ x ∷ xs) ≡ none
    → prune (suc fuel) (length front) (front ++ x ∷ xs) ≡ raise value_error
unfolding prune
prune_fail fuel front x xs l h =
    rw (get_elem?-middle front x xs, prune) (rw (reverse_of-flipped x l, h) refl)

module _ (front : List Row) (x : Row) (xs : List Row) (w : Walked front (x ∷ xs)) where
  own : IsLink x
  own = w.links x (In-append_right x front (x ∷ xs) (inl refl))

  row-IsOnce : (¬ In x xs) × IsOnce xs
  row-IsOnce = IsOnce-append_right front (x ∷ xs) w.once

  not_walked : ¬ In (flipped x) front
  not_walked m = w.gone (flipped x) m (
      subst (λ y. In y (front ++ x ∷ xs)) (sym (flipped_twice x own))
        (In-append_right x front (x ∷ xs) (inl refl)))

  alone_fails : (fuel : ℕ) → ¬ In (flipped x) xs → Ends (suc fuel) front (x ∷ xs)
  alone_fails fuel out =
      let nowhere : ¬ In (flipped x) (x ∷ xs) =
        λ m. elim m [ inl e ↦ flipped-ne x own e | inr m' ↦ out m' ] in
      inr (
        prune_fail fuel front x xs own (
            remove-none (flipped x) (front ++ x ∷ xs) (λ m.
              elim (In-append (flipped x) front (x ∷ xs) m) [
                | inl m' ↦ not_walked m'
                | inr m' ↦ nowhere m'
              ])),
        record { row = x; member = inl refl; alone = nowhere },
      )

  module _ (rest : List Row) (r : Removed (flipped x) xs rest) where
    -- The other direction of a row that is left is not the row of this round.
    flipped-ne_own : (y : Row) → In y rest → flipped y ≢ x
    flipped-ne_own y m e =
        let link = w.links y (In-append_right y front (x ∷ xs) (inr (r.kept y m))) in
        let same : y ≡ flipped x = sym (flipped_twice y link) ∙ ap flipped e in
        (r.once row-IsOnce.1).1 (subst (λ z. In z rest) same m)

    Single-of_Removed : Single rest → Single (x ∷ xs)
    Single-of_Removed s = record {
      row = s.row;
      member = inr (r.kept s.row s.member);
      alone = λ m. elim m [
        | inl e ↦ flipped-ne_own s.row s.member e
        | inr m' ↦ elim (r.back (flipped s.row) m') [
          | inl e ↦
              let link =
                w.links s.row
                  (In-append_right s.row front (x ∷ xs) (inr (r.kept s.row s.member))) in
              let same : s.row ≡ x =
                sym (flipped_twice s.row link) ∙ ap flipped e ∙ flipped_twice x own in
              row-IsOnce.0 (subst (λ z. In z xs) same (r.kept s.row s.member))
          | inr m'' ↦ s.alone m''
        ]
      ];
    }

    Kept-of_Removed :
        (out : List Row) → Kept (front ++ x ∷ []) rest out → Kept front (x ∷ xs) (x ∷ out)
    Kept-of_Removed out k =
        let regroup : (front ++ x ∷ []) ++ out ≡ front ++ x ∷ out =
          append_assoc front (x ∷ []) out in
        record {
          paired = λ y m. elim m [
            | inl e ↦ inr (subst (λ z. In (flipped z) xs) (sym e) r.there)
            | inr m' ↦ elim (r.back y m') [
              | inl e ↦ inl (ap flipped e ∙ flipped_twice x own)
              | inr m'' ↦ inr (r.kept (flipped y) (k.paired y m''))
            ]
          ];
          from = λ y m. elim m [ inl e ↦ inl e | inr m' ↦ inr (r.kept y (k.from y m')) ];
          one = λ y m. elim m [
            | inl e ↦ inl (inl e)
            | inr m' ↦ elim (r.back y m') [
              | inl e ↦ inr (inl (ap flipped e ∙ flipped_twice x own))
              | inr m'' ↦ elim (k.one y m'') [ inl h ↦ inl (inr h) | inr h ↦ inr (inr h) ]
            ]
          ];
          once = subst IsOnce regroup k.once;
          halved = subst IsHalved regroup k.halved;
          half = omega (arith, k.half, r.shorter);
        }

    Walked-of_Removed :
        (whole : List Row)
        → Removed (flipped x) ((front ++ x ∷ []) ++ xs) whole
        → whole ≡ (front ++ x ∷ []) ++ rest
        → Walked (front ++ x ∷ []) rest
    Walked-of_Removed whole big e =
        let regroup : (front ++ x ∷ []) ++ xs ≡ front ++ x ∷ xs = append_assoc front (x ∷ []) xs in
        let (o, out) = big.once (subst IsOnce (sym regroup) w.once) in
        let back = λ (y : Row) (m : In y ((front ++ x ∷ []) ++ rest)).
          subst (In y) regroup (big.kept y (subst (In y) (sym e) m)) in
        record {
          once = subst IsOnce e o;
          gone = λ y m n. elim (In-append y front (x ∷ []) m) [
            | inl m' ↦ w.gone y m' (back (flipped y) n)
            | inr (inl same) ↦ out (
                subst (In (flipped x)) (sym e)
                  (subst (λ z. In (flipped z) ((front ++ x ∷ []) ++ rest)) same n))
            | inr (inr none_left) ↦ none_left
          ];
          links = λ y m. w.links y (back y m);
        }

pub walk :
    (fuel : ℕ) (front rest : List Row)
    → length rest < fuel
    → Walked front rest
    → Ends fuel front rest
walk zero front rest h w = absurd (omega (arith, h))
walk (suc fuel) front [] h w = inl (
  [],
  unfold prune in rw (get_elem?-length front, prune) refl,
  record {
    paired = λ x m. absurd m;
    from = λ x m. absurd m;
    one = λ x m. absurd m;
    once = w.once;
    halved = λ x m. w.gone x (subst (In x) (append-nil front) m);
    half = omega arith;
  },
)
walk (suc fuel) front (x ∷ xs) h w = elim (Bool-cases (contains xs (flipped x))) [
  | inr missing ↦ alone_fails front x xs w fuel (λ m. cc (missing, In→contains (flipped x) xs m))
  | inl there ↦
      let (rest, e, r) = remove-In (flipped x) xs (contains→In (flipped x) xs there) in
      let not_front : ¬ In (flipped x) (front ++ x ∷ []) = λ m.
        elim (In-append (flipped x) front (x ∷ []) m) [
          | inl m' ↦ not_walked front x xs w m'
          | inr (inl same) ↦ flipped-ne x (own front x xs w) same
          | inr (inr none_left) ↦ none_left
        ] in
      let e' = remove-append (flipped x) (front ++ x ∷ []) xs rest not_front e in
      let (whole, e'', big) =
        remove-In (flipped x) ((front ++ x ∷ []) ++ xs)
          (In-append_right (flipped x) (front ++ x ∷ []) xs r.there) in
      let same : whole ≡ (front ++ x ∷ []) ++ rest = cc (e', e'') in
      let on = prune_round fuel front x xs ((front ++ x ∷ []) ++ rest) (own front x xs w) e' in
      let regroup : (front ++ x ∷ []) ++ xs ≡ front ++ x ∷ xs = append_assoc front (x ∷ []) xs in
      let first =
        subst
          (λ l.
            prune (suc fuel) (length front) l
            ≡ prune fuel (length (front ++ x ∷ [])) ((front ++ x ∷ []) ++ rest))
          regroup on in
      elim (walk fuel (front ++ x ∷ []) rest (omega (arith, h, r.shorter))
        (Walked-of_Removed front x xs w rest r whole big same)) [
          | inl (out, done, k) ↦ inl (
            x ∷ out,
            first ∙ done ∙ ap ok (append_assoc front (x ∷ []) out),
            Kept-of_Removed front x xs w rest r out k,
          )
          | inr (done, s) ↦ inr (first ∙ done, Single-of_Removed front x xs w rest r s)
        ]
]
