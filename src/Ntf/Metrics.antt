-- ===== src/Ntf/Metrics.antt =====
-- The metrics that are set in a link table, and how one line changes their number.
use mathlib.Core.Path.{subst}
use ns3_sim.Prelude.{
  ℕ, suc, ◌+◌, ◌≡◌, ◌≢◌, inl, inr, none, some, List, [], ◌∷◌, ◌++◌, ◌==◌, if◌then◌else◌, arith,
  Bool-cases, Option-cases,
}
use ns3_sim.Prelude.Int.{ℤ, int_eq}
use ns3_sim.Python.Outcome.{ok, last, >>=-eq-ok}
use ns3_sim.Python.Dict.{Dict, lookup, insert}
use ns3_sim.Ntf.{
  Key, key_eq, reversed, Link, unset, Topology, set_last, extend, extend_reversed, add_link,
}

-- Whether a metric is set, as a number.
abbrev pub metric_set : ℤ → ℕ
metric_set m = if m == unset then 0 else 1

abbrev pub link_directions : Link → ℕ
link_directions l = metric_set l.f_metric + metric_set l.r_metric

abbrev pub list_directions : List Link → ℕ
list_directions [] = 0
list_directions (l ∷ ls) = link_directions l + list_directions ls

-- The metrics that are set, in all links.
abbrev pub directions : Dict Key (List Link) → ℕ
directions [] = 0
directions ((pair, l) ∷ links) = list_directions l + directions links

list_directions-append :
    (xs ys : List Link) → list_directions (xs ++ ys) ≡ list_directions xs + list_directions ys
list_directions-append [] ys = omega arith
list_directions-append (x ∷ xs) ys = omega (arith, list_directions-append xs ys)

directions-insert_old :
    (key : Key) (old new : List Link) (links : Dict Key (List Link))
    → lookup key links ≡ some old
    → directions (insert key new links) + list_directions old
      ≡ directions links + list_directions new
unfolding lookup insert
directions-insert_old key old new [] h = cc
directions-insert_old key old new ((k, l) ∷ links) h = elim (Bool-cases (key == k)) [
  | inl same ↦ let e : l ≡ old = cc (rw same at h) in rw (same, e) (omega arith)
  | inr other ↦
      let rest = directions-insert_old key old new links (rw other at h) in
      rw other (omega (arith, rest))
]

directions-insert_new :
    (key : Key) (new : List Link) (links : Dict Key (List Link))
    → lookup key links ≡ none
    → directions (insert key new links) ≡ directions links + list_directions new
unfolding lookup insert
directions-insert_new key new [] h = omega arith
directions-insert_new key new ((k, l) ∷ links) h = elim (Bool-cases (key == k)) [
  | inl same ↦ cc (rw same at h)
  | inr other ↦
      let rest = directions-insert_new key new links (rw other at h) in
      rw other (omega (arith, rest))
]

directions-set_last :
    (x l : Link) (ls : List Link)
    → last ls ≡ ok l
    → list_directions (set_last x ls) + link_directions l ≡ list_directions ls + link_directions x
unfolding set_last
directions-set_last x l [] h = cc
directions-set_last x l (y ∷ []) h = let e : y ≡ l = cc h in rw e (omega arith)
directions-set_last x l (y ∷ z ∷ ys) h =
    let rest = directions-set_last x l (z ∷ ys) h in omega (arith, rest)

metric_set_of_set : (m : ℤ) → m ≢ unset → metric_set m ≡ 1
metric_set_of_set m h = ground (arith, h)

-- A line for a pair in its order sets one direction.
directions-extend :
    (entry : Link) (link link' : List Link)
    → entry.f_metric ≢ unset
    → entry.r_metric ≡ unset
    → extend entry link ≡ ok link'
    → list_directions link' ≡ suc (list_directions link)
unfolding extend
directions-extend entry link link' hf hr h =
    let (l, at_last, h') = >>=-eq-ok (last link) _ h in
    let one = metric_set_of_set entry.f_metric hf in
    elim (Bool-cases (l.r_metric == unset)) [
      | inl no_reverse ↦ cc (rw no_reverse at h')
      | inr reverse ↦ elim (Bool-cases (l.f_metric == unset)) [
        | inl no_forward ↦
            let e : set_last (record l { f_metric = entry.f_metric }) link ≡ link' =
              cc (rw (reverse, no_forward) at h') in
            let n = directions-set_last (record l { f_metric = entry.f_metric }) l link at_last in
            let zero_before : metric_set l.f_metric ≡ 0 = rw no_forward in
            subst (λ k. list_directions k ≡ suc (list_directions link)) e
              (omega (arith, n, one, zero_before))
        | inr forward ↦
            let e : link ++ entry ∷ [] ≡ link' = cc (rw (reverse, forward) at h') in
            let n = list_directions-append link (entry ∷ []) in
            let none_back : metric_set entry.r_metric ≡ 0 = rw hr in
            subst (λ k. list_directions k ≡ suc (list_directions link)) e
              (omega (arith, n, one, none_back))
      ]
    ]

directions-extend_reversed :
    (entry : Link) (link link' : List Link)
    → entry.f_metric ≢ unset
    → extend_reversed entry link ≡ ok link'
    → list_directions link' ≡ suc (list_directions link)
unfolding extend_reversed
directions-extend_reversed entry link link' hf h =
    let (l, at_last, h') = >>=-eq-ok (last link) _ h in
    let one = metric_set_of_set entry.f_metric hf in
    elim (Bool-cases (l.r_metric == unset)) [
      | inl no_reverse ↦
          let e : set_last (record l { r_metric = entry.f_metric }) link ≡ link' =
            cc (rw no_reverse at h') in
          let n = directions-set_last (record l { r_metric = entry.f_metric }) l link at_last in
          let zero_before : metric_set l.r_metric ≡ 0 = rw no_reverse in
          subst (λ k. list_directions k ≡ suc (list_directions link)) e
            (omega (arith, n, one, zero_before))
      | inr reverse ↦
          let new : Link = record entry { r_metric = entry.f_metric; f_metric = unset } in
          let e : link ++ new ∷ [] ≡ link' = cc (rw reverse at h') in
          let n = list_directions-append link (new ∷ []) in
          subst (λ k. list_directions k ≡ suc (list_directions link)) e (omega (arith, n, one))
    ]

pub directions-add_link :
    (t t' : Topology) (key : Key) (entry : Link)
    → entry.f_metric ≢ unset
    → entry.r_metric ≡ unset
    → add_link t key entry ≡ ok t'
    → directions t'.links ≡ suc (directions t.links)
unfolding add_link
directions-add_link t t' key entry hf hr h =
    let one = metric_set_of_set entry.f_metric hf in
    elim (Option-cases (lookup key t.links)) [
      | inl new ↦ elim (Option-cases (lookup (reversed key) t.links)) [
        | inl new' ↦
            let e : insert key (entry ∷ []) t.links ≡ t'.links =
              cc (rw (new, new', add_link) at h) in
            let n = directions-insert_new key (entry ∷ []) t.links new in
            let none_back : metric_set entry.r_metric ≡ 0 = rw hr in
            subst (λ k. directions k ≡ suc (directions t.links)) e
              (omega (arith, n, one, none_back))
        | inr (link, there) ↦
            let (link', e, h') =
              >>=-eq-ok (extend_reversed entry link) _ (rw (new, there, add_link) at h) in
            let same : insert (reversed key) link' t.links ≡ t'.links = cc h' in
            let n = directions-insert_old (reversed key) link link' t.links there in
            let more = directions-extend_reversed entry link link' hf e in
            subst (λ k. directions k ≡ suc (directions t.links)) same (omega (arith, n, more))
      ]
      | inr (link, there) ↦
          let (link', e, h') = >>=-eq-ok (extend entry link) _ (rw (there, add_link) at h) in
          let same : insert key link' t.links ≡ t'.links = cc h' in
          let n = directions-insert_old key link link' t.links there in
          let more = directions-extend entry link link' hf hr e in
          subst (λ k. directions k ≡ suc (directions t.links)) same (omega (arith, n, more))
    ]
