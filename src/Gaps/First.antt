-- ===== src/Gaps/First.antt =====
-- udp_parser.py, the end of `local_gaps`: the first failure within a gap, and the search for it.
use ns3_sim.Prelude.{
  ℕ, zero, suc, ◌+◌, ◌-◌, ◌*◌, ◌≤◌, ◌<◌, ◌≡◌, refl, sym, ap, ◌∙◌, inl, inr, Bool, true, false,
  Option, none, some, List, [], ◌∷◌, filter, All, Bool-cases, ◌==◌, nat_eq, nat_beq_iff, arith, ltb,
}
use ns3_sim.Prelude.Int.{leb_ℤ}
use ns3_sim.Gaps.{Gap, iconvert}
use ns3_sim.Gaps.Assign.{fails_from, n_fails, fit, seek, index_after}

abbrev is_head : ℕ → List ℕ → Bool
is_head fail [] = false
is_head fail (f ∷ rest) = fail == f

-- The instant of a failure is the first one that lies within the gap.
abbrev pub is_first : ℕ → Gap → Bool
is_first fail g = is_head fail (filter (λ f. fit f g) (fails_from 0 n_fails))

-- The search found the failure.
abbrev pub is_found : ℕ → Option (ℕ × ℕ) → Bool
is_found fail none = false
is_found fail (some (i, f)) = fail == f

abbrev pub by_low : Gap → Gap → Bool
by_low g h = leb_ℤ g.low h.low

-- No failure before index `idx` is within the gap.
abbrev pub Passed : ℕ → Gap → Type 0
Passed idx g = (j : ℕ) → j < idx → fit (60 + j * 10) g ≡ false

-- What the search finds is the first of the failures that fit.
record Found (idx n : ℕ) (g : Gap) (i fail : ℕ) : Type 0 where
  from : idx ≤ i
  to : i < idx + n
  is_fail : fail ≡ 60 + i * 10
  fits : fit fail g ≡ true
  between : (j : ℕ) → idx ≤ j → j < i → fit (60 + j * 10) g ≡ false

Found-here :
    (n idx : ℕ) (g : Gap) (i fail : ℕ)
    → fit (60 + idx * 10) g ≡ true
    → idx ≡ i
    → 60 + idx * 10 ≡ fail
    → Found idx (suc n) g i fail
Found-here n idx g i fail t at_idx same = record {
  from = omega (arith, at_idx);
  to = omega (arith, at_idx);
  is_fail = omega (arith, at_idx, same);
  fits = rw (sym same) t;
  between = λ j a b. absurd (omega (arith, at_idx, a, b));
}

seek-Found :
    (n idx : ℕ) (g : Gap) (i fail : ℕ)
    → seek (fails_from idx n) idx g ≡ some (i, fail)
    → Found idx n g i fail
unfolding seek fails_from
seek-Found zero idx g i fail h = cc
seek-Found (suc n) idx g i fail h = elim (Bool-cases (fit (60 + idx * 10) g)) [
  | inl t ↦
      let here : some (idx, 60 + idx * 10) ≡ some (i, fail) = rw (t, seek) at h in
      Found-here n idx g i fail t (cc here) (cc here)
  | inr f ↦
      let r = seek-Found n (idx + 1) g i fail (rw (f, seek) at h) in
      record {
        from = omega (arith, r.from);
        to = omega (arith, r.to);
        is_fail = r.is_fail;
        fits = r.fits;
        between = λ j a b. elim (Bool-cases (j == idx)) [
          | inl same ↦ rw ((nat_beq_iff j idx).0 same) f
          | inr other ↦ r.between j (ground arith) b
        ];
      }
]

-- The head of the failures that fit.
seek-filter :
    (n idx fail : ℕ) (g : Gap)
    → is_head fail (filter (λ f. fit f g) (fails_from idx n))
      ≡ is_found fail (seek (fails_from idx n) idx g)
unfolding seek fails_from
seek-filter zero idx fail g = refl
seek-filter (suc n) idx fail g = elim (Bool-cases (fit (60 + idx * 10) g)) [
  | inl t ↦ rw (t, seek) refl
  | inr f ↦ rw (f, seek) (seek-filter n (idx + 1) fail g)
]

filter-fails_from :
    (k n i : ℕ) (g : Gap)
    → ((j : ℕ) → i ≤ j → j < i + k → fit (60 + j * 10) g ≡ false)
    → filter (λ f. fit f g) (fails_from i (k + n)) ≡ filter (λ f. fit f g) (fails_from (i + k) n)
unfolding fails_from
filter-fails_from zero n i g h =
    let first : i + 0 ≡ i = omega arith in
    let count : zero + n ≡ n = omega arith in rw (first, count) refl
filter-fails_from (suc k) n i g h =
    let here = h i (omega arith) (omega arith) in
    let later =
      filter-fails_from k n (i + 1) g (λ j a b. h j (omega (arith, a)) (omega (arith, b))) in
    let same : i + 1 + k ≡ i + suc k = omega arith in
    let count : suc k + n ≡ suc (k + n) = omega arith in rw (count, here) (rw same at later)

pub is_first-seek :
    (idx fail : ℕ) (g : Gap)
    → idx ≤ n_fails
    → Passed idx g
    → is_first fail g ≡ is_found fail (seek (fails_from idx (n_fails - idx)) idx g)
is_first-seek idx fail g le passed =
    let skip = filter-fails_from idx (n_fails - idx) 0 g (λ j a b. passed j (omega (arith, b))) in
    let all : idx + (n_fails - idx) ≡ n_fails = omega arith in
    let start : 0 + idx ≡ idx = omega arith in
    ap (is_head fail) (rw (all, start) at skip) ∙ seek-filter (n_fails - idx) idx fail g

fit-earlier :
    (f f' : ℕ) (g h : Gap)
    → f' ≤ f
    → fit f g ≡ true
    → by_low g h ≡ true
    → fit f' h ≡ true
    → fit f' g ≡ true
unfolding fit iconvert
fit-earlier f f' g h le t low t' = ground arith

-- A gap that begins no earlier than one that the search found a failure for does not need the failures
-- before it either.
Passed-later :
    (idx n i fail : ℕ) (g h : Gap)
    → Found idx n g i fail
    → Passed idx g
    → by_low g h ≡ true
    → Passed i h
Passed-later idx n i fail g h found passed low j lt = elim (Bool-cases (fit (60 + j * 10) h)) [
  | inl t ↦
      let t' =
        fit-earlier fail (60 + j * 10) g h (omega (arith, found.is_fail, lt)) found.fits low t in
      elim (Bool-cases (ltb j idx)) [
        | inl before ↦ cc (t', passed j (ground arith))
        | inr behind ↦ cc (t', found.between j (ground arith) lt)
      ]
  | inr f ↦ f
]

-- Behind the search for a gap no later one needs a failure before the index.
Passed-index_after :
    (idx : ℕ) (g h : Gap) (found : Option (ℕ × ℕ))
    → seek (fails_from idx (n_fails - idx)) idx g ≡ found
    → Passed idx g
    → Passed idx h
    → by_low g h ≡ true
    → Passed (index_after idx found) h
unfolding index_after
Passed-index_after idx g h none e pg ph low = ph
Passed-index_after idx g h (some (i, fail)) e pg ph low =
    Passed-later idx (n_fails - idx) i fail g h (seek-Found (n_fails - idx) idx g i fail e) pg low

pub index_after-le :
    (idx : ℕ) (g : Gap) (found : Option (ℕ × ℕ))
    → seek (fails_from idx (n_fails - idx)) idx g ≡ found
    → idx ≤ n_fails
    → index_after idx found ≤ n_fails
unfolding index_after
index_after-le idx g none e le = le
index_after-le idx g (some (i, fail)) e le =
    omega (arith, (seek-Found (n_fails - idx) idx g i fail e).to)

pub All-Passed :
    (idx : ℕ) (g : Gap) (gaps : List Gap) (found : Option (ℕ × ℕ))
    → seek (fails_from idx (n_fails - idx)) idx g ≡ found
    → Passed idx g
    → All (Passed idx) gaps
    → All (λ h. by_low g h ≡ true) gaps
    → All (Passed (index_after idx found)) gaps
All-Passed idx g [] found e pg ps low = tt
All-Passed idx g (h ∷ gaps) found e pg (p, ps) (l, low) =
    (Passed-index_after idx g h found e pg p l, All-Passed idx g gaps found e pg ps low)
