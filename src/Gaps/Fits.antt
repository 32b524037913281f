-- ===== src/Gaps/Fits.antt =====
-- The gaps that are filed under a failure have the failure within them.
use ns3_sim.Prelude.{
  ℕ, ◌+◌, ◌-◌, ◌≡◌, ◌≢◌, refl, sym, inl, inr, true, Option, none, some, List, [], ◌∷◌, ◌++◌, All,
  All-append, Option-cases, Bool-cases, nat_eq,
}
use mathlib.Core.Path.{subst}
use ns3_sim.Python.Outcome.{ok, >>=-eq-ok}
use ns3_sim.Python.Dict.{Dict, lookup, insert, Entries, Entries-insert, Entries-lookup}
use ns3_sim.Python.Text.{Text, codes, occurs_in}
use ns3_sim.Gaps.{Gap, find_gaps}
use ns3_sim.Gaps.Assign.{
  fails_from, n_fails, fit, seek, append_at, index_after, filed, assign, local_gaps, merge,
  collect_gaps,
}

-- A list that is not empty, of gaps that have the failure within them.
pub record Covers (fail : ℕ) (gaps : List Gap) : Type 0 where
  pub some_gap : gaps ≢ []
  pub all_fit : All (λ g. fit fail g ≡ true) gaps

Covers-append :
    (fail : ℕ) (xs ys : List Gap) → Covers fail xs → Covers fail ys → Covers fail (xs ++ ys)
Covers-append fail [] ys p q = q
Covers-append fail (x ∷ xs) ys p q = record {
  some_gap = λ e. cc e;
  all_fit = All-append _ (x ∷ xs) ys p.all_fit q.all_fit;
}

pub seek-fit :
    (fails : List ℕ) (idx : ℕ) (g : Gap) (i fail : ℕ)
    → seek fails idx g ≡ some (i, fail)
    → fit fail g ≡ true
unfolding seek
seek-fit [] idx g i fail h = cc
seek-fit (f ∷ rest) idx g i fail h = elim (Bool-cases (fit f g)) [
  | inl t ↦
      let here : some (idx, f) ≡ some (i, fail) = rw (t, seek) at h in
      let found : f ≡ fail = cc here in subst (λ x. fit x g ≡ true) found t
  | inr n ↦ seek-fit rest (idx + 1) g i fail (rw (n, seek) at h)
]

pub append_at_new :
    (k : ℕ) (vs : List Gap) (d : Dict ℕ (List Gap))
    → lookup k d ≡ none
    → append_at k vs d ≡ insert k vs d
unfolding append_at
append_at_new k vs d h = rw (h, append_at)

pub append_at_old :
    (k : ℕ) (vs old : List Gap) (d : Dict ℕ (List Gap))
    → lookup k d ≡ some old
    → append_at k vs d ≡ insert k (old ++ vs) d
unfolding append_at
append_at_old k vs old d h = rw (h, append_at)

append_at-Entries :
    (k : ℕ) (vs : List Gap) (d : Dict ℕ (List Gap))
    → Covers k vs
    → Entries Covers d
    → Entries Covers (append_at k vs d)
append_at-Entries k vs d p h = elim (Option-cases (lookup k d)) [
  | inl new ↦
      subst (Entries Covers) (sym (append_at_new k vs d new)) (Entries-insert Covers k vs d p h)
  | inr (old, there) ↦ subst (Entries Covers) (sym (append_at_old k vs old d there)) (
      Entries-insert Covers k (old ++ vs) d
        (Covers-append k old vs (Entries-lookup Covers k d h there) p) h)
]

filed-Entries :
    (idx : ℕ) (g : Gap) (found : Option (ℕ × ℕ)) (d : Dict ℕ (List Gap))
    → seek (fails_from idx (n_fails - idx)) idx g ≡ found
    → Entries Covers d
    → Entries Covers (filed g found d)
unfolding filed
filed-Entries idx g none d e h = h
filed-Entries idx g (some (i, fail)) d e h =
    append_at-Entries fail (g ∷ []) d
      (record { some_gap = λ z. cc z; all_fit = (seek-fit _ idx g i fail e, tt) }) h

assign-Entries :
    (idx : ℕ) (d : Dict ℕ (List Gap)) (gaps : List Gap)
    → Entries Covers d
    → Entries Covers (assign idx d gaps)
unfolding assign
assign-Entries idx d [] h = h
assign-Entries idx d (g ∷ gaps) h =
    let found = seek (fails_from idx (n_fails - idx)) idx g in
    assign-Entries (index_after idx found) (filed g found d) gaps
      (filed-Entries idx g found d refl h)

-- What `local_gaps` files under a failure is a list that is not empty, of gaps that begin no later
-- than it and end no earlier.
pub local_gaps-Entries :
    (text : Text) (a : Dict ℕ (List Gap)) → local_gaps text ≡ ok a → Entries Covers a
unfolding local_gaps
local_gaps-Entries text a h =
    let (gaps, e, h') = >>=-eq-ok (find_gaps text) _ h in
    let same : assign 0 [] gaps ≡ a = cc h' in
    subst (Entries Covers) same (assign-Entries 0 [] gaps tt)

merge-Entries :
    (all found : Dict ℕ (List Gap))
    → Entries Covers all
    → Entries Covers found
    → Entries Covers (merge all found)
unfolding merge
merge-Entries all [] h k = h
merge-Entries all ((key, value) ∷ rest) h (p, k) =
    merge-Entries (append_at key value all) rest (append_at-Entries key value all p h) k

pub collect_gaps-Entries :
    (all out : Dict ℕ (List Gap)) (logs : List (Text × Option Text))
    → Entries Covers all
    → collect_gaps all logs ≡ ok out
    → Entries Covers out
unfolding collect_gaps
collect_gaps-Entries all out [] h e = let same : all ≡ out = cc e in subst (Entries Covers) same h
collect_gaps-Entries all out ((directory, none) ∷ logs) h e = collect_gaps-Entries all out logs h e
collect_gaps-Entries all out ((directory, some log) ∷ logs) h e =
    elim (Bool-cases (occurs_in (codes "files-") directory)) [
      | inl ours ↦
          let (found, l, e') = >>=-eq-ok (local_gaps log) _ (rw (ours, collect_gaps) at e) in
          collect_gaps-Entries (merge all found) out logs
            (merge-Entries all found h (local_gaps-Entries log found l)) e'
      | inr other ↦ collect_gaps-Entries all out logs h (rw (other, collect_gaps) at e)
    ]
