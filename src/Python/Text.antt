-- ===== src/Python/Text.antt =====
-- Texts as lists of code points, and the methods of `str` that the scripts call.
use Prim.Native.Char.{code}
use ns3_sim.Prelude.{
  ap, All-append, Bool-cases, inl, inr, ℕ, zero, suc, ◌-◌, String, ◌≡◌, ◌≢◌, ◌↔◌, refl, Bool, true,
  false, ◌&&◌, ◌||◌, List, [], ◌∷◌, ◌++◌, append-nil, append_assoc, arith, Eq, ◌==◌, nat_eq,
  nat_beq_iff, length, All,
}

abbrev pub Text : Type 0
Text = List ℕ

abbrev pub codes : String → Text
codes String.[] = []
codes (String.◌∷◌ c s) = code c ∷ codes s

module _ {ℓ} {A : Type ℓ} ⦃e : Eq A⦄ where
  abbrev pub list_beq : List A → List A → Bool
  list_beq [] [] = true
  list_beq (x ∷ xs) (y ∷ ys) = x == y && list_beq xs ys
  list_beq _ _ = false

  pub list_beq_iff : (xs ys : List A) → (list_beq xs ys ≡ true) ↔ (xs ≡ ys)
  list_beq_iff [] [] = (λ _. refl, λ _. refl)
  list_beq_iff (x ∷ xs) (y ∷ ys) = ground (arith, e.beq_iff x y, list_beq_iff xs ys)
  list_beq_iff _ _ = ground arith

instance abbrev pub text_eq : Eq Text
text_eq = record { beq = list_beq; beq_iff = list_beq_iff }

-- `s.startswith(p)`.
abbrev pub starts_with : Text → Text → Bool
starts_with s [] = true
starts_with [] (p ∷ ps) = false
starts_with (c ∷ s) (p ∷ ps) = c == p && starts_with s ps

-- `p in s`.
unfoldable pub occurs_in : Text → Text → Bool
occurs_in p [] = starts_with [] p
occurs_in p (c ∷ s) = starts_with (c ∷ s) p || occurs_in p s

module _ (sep : ℕ) where
  cut : Text → Text → List Text
  cut [] cur = cur ∷ []
  cut (c ∷ s) cur = elim (c == sep) [ true ↦ cur ∷ cut s [] | false ↦ cut s (cur ++ c ∷ []) ]

-- `s.split(sep)` for a separator of one character.
unfoldable pub split : ℕ → Text → List Text
unfolding cut
split sep s = cut sep s []

module _ (sep : Text) where
  -- The number says how many characters of a separator are still to be passed over.
  cut_long : Text → ℕ → Text → List Text
  cut_long [] skip cur = cur ∷ []
  cut_long (c ∷ s) (suc skip) cur = cut_long s skip cur
  cut_long (c ∷ s) zero cur = elim (starts_with (c ∷ s) sep) [
    | true ↦ cur ∷ cut_long s (length sep - 1) []
    | false ↦ cut_long s 0 (cur ++ c ∷ [])
  ]

-- `s.split(sep)` for a separator of one or more characters.
unfoldable pub split_long : Text → Text → List Text
unfolding cut_long
split_long sep s = cut_long sep s 0 []

-- `sep.join(parts)`.
unfoldable pub join : Text → List Text → Text
join sep [] = []
join sep (p ∷ []) = p
join sep (p ∷ q ∷ ps) = p ++ sep ++ join sep (q ∷ ps)

-- `s[:-1]`, also of a list.
abbrev pub drop_last {ℓ} : {A : Type ℓ} → List A → List A
drop_last [] = []
drop_last (x ∷ []) = []
drop_last (x ∷ y ∷ xs) = x ∷ drop_last (y ∷ xs)

-- `[i for i in parts if i != '']`.
unfoldable pub non_empty : List Text → List Text
non_empty [] = []
non_empty ([] ∷ ps) = non_empty ps
non_empty ((c ∷ p) ∷ ps) = (c ∷ p) ∷ non_empty ps

abbrev pub Lacks : ℕ → Text → Type 0
Lacks sep = All (λ c. c ≢ sep)

cut-append :
    (sep : ℕ) (p rest cur : Text) → Lacks sep p → cut sep (p ++ rest) cur ≡ cut sep rest (cur ++ p)
unfolding cut
cut-append sep [] rest cur h = rw append-nil
cut-append sep (c ∷ p) rest cur h =
    ground
      (arith, nat_beq_iff c sep, cut-append sep p rest (cur ++ c ∷ []), append_assoc cur (c ∷ []) p)

-- A part that lacks the separator is cut off whole.
pub split-cons :
    (sep : ℕ) (p rest : Text) → Lacks sep p → split sep (p ++ sep ∷ rest) ≡ p ∷ split sep rest
unfolding split
split-cons sep p rest h = rw (cut-append sep p (sep ∷ rest) [] h) (ground (arith, cut))

cut-Lacks : (sep : ℕ) (p cur : Text) → Lacks sep p → cut sep p cur ≡ (cur ++ p) ∷ []
unfolding cut
cut-Lacks sep [] cur h = rw append-nil
cut-Lacks sep (c ∷ p) cur h =
    ground (arith, nat_beq_iff c sep, cut-Lacks sep p (cur ++ c ∷ []), append_assoc cur (c ∷ []) p)

pub split_one : (sep : ℕ) (p : Text) → Lacks sep p → split sep p ≡ p ∷ []
unfolding split
split_one sep p h = cut-Lacks sep p [] h

cut_parts : (sep : ℕ) (s cur : Text) → (p : Text) × (ps : List Text) × (cut sep s cur ≡ p ∷ ps)
unfolding cut
cut_parts sep [] cur = (cur, [], refl)
cut_parts sep (c ∷ s) cur = elim (Bool-cases (c == sep)) [
  | inl at ↦ (cur, cut sep s [], rw (at, cut) refl)
  | inr other ↦ let (p, ps, e) = cut_parts sep s (cur ++ c ∷ []) in (p, ps, rw (other, cut) e)
]

-- There is at least one part.
pub split_parts : (sep : ℕ) (s : Text) → (p : Text) × (ps : List Text) × (split sep s ≡ p ∷ ps)
unfolding split
split_parts sep s = cut_parts sep s []

cut-Lacks_parts : (sep : ℕ) (s cur : Text) → Lacks sep cur → All (Lacks sep) (cut sep s cur)
unfolding cut
cut-Lacks_parts sep [] cur h = (h, tt)
cut-Lacks_parts sep (c ∷ s) cur h = elim (Bool-cases (c == sep)) [
  | inl at ↦ rw (at, cut) (h, cut-Lacks_parts sep s [] tt)
  | inr other ↦
      let ne : c ≢ sep = λ e. cc (other, (nat_beq_iff c sep).1 e) in
      rw (other, cut)
        (cut-Lacks_parts sep s (cur ++ c ∷ []) (All-append (λ d. d ≢ sep) cur (c ∷ []) h (ne, tt)))
]

-- No part has the separator.
pub split-Lacks : (sep : ℕ) (s : Text) → All (Lacks sep) (split sep s)
unfolding split
split-Lacks sep s = cut-Lacks_parts sep s [] tt

-- Parts that lack the separator, joined by it, are split again into the same parts.
pub split-join :
    (sep : ℕ) (p : Text) (ps : List Text)
    → All (Lacks sep) (p ∷ ps)
    → split sep (join (sep ∷ []) (p ∷ ps)) ≡ p ∷ ps
unfolding join
split-join sep p [] h = split_one sep p h.0
split-join sep p (q ∷ ps) h = rw (append_assoc p (sep ∷ []) (join (sep ∷ []) (q ∷ ps))) (
    rw (split-cons sep p (join (sep ∷ []) (q ∷ ps)) h.0)
      (ap (λ (l : List Text). p ∷ l) (split-join sep q ps h.1)))

cut-last :
    (sep : ℕ) (p s cur : Text)
    → Lacks sep s
    → (ps : List Text) × (cut sep (p ++ sep ∷ s) cur ≡ ps ++ s ∷ [])
unfolding cut
cut-last sep [] s cur h = (
  cur ∷ [],
  rw ((nat_beq_iff sep sep).1 refl, cut) (ap (λ (l : List Text). cur ∷ l) (cut-Lacks sep s [] h)),
)
cut-last sep (c ∷ p) s cur h = elim (Bool-cases (c == sep)) [
  | inl at ↦
      let (ps, e) = cut-last sep p s [] h in
      (cur ∷ ps, rw (at, cut) (ap (λ (l : List Text). cur ∷ l) e))
  | inr other ↦ let (ps, e) = cut-last sep p s (cur ++ c ∷ []) h in (ps, rw (other, cut) e)
]

-- What stands behind the last separator is the last part.
pub split-last :
    (sep : ℕ) (p s : Text)
    → Lacks sep s
    → (ps : List Text) × (split sep (p ++ sep ∷ s) ≡ ps ++ s ∷ [])
unfolding split
split-last sep p s h = cut-last sep p s [] h
