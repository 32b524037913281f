-- ===== src/Python/Number.antt =====
-- `int` on a text, and `%i` of a number. Digits and white space are those of ASCII.
use ns3_sim.Prelude.{
  ℕ, zero, suc, ◌+◌, ◌-◌, ◌*◌, ◌/◌, ◌%◌, ◌<◌, ◌≡◌, refl, inl, inr, Bool, true, false, ◌&&◌, ◌||◌,
  Option, none, some, [], ◌∷◌, reverse, arith, ◌==◌, if◌then◌else◌, nat_eq, leb, ltb, All,
  All-append, Bool-cases,
}
use mathlib.Core.List.{reverse-cons, reverse-reverse}
use mathlib.Core.Path.{subst}
use ns3_sim.Prelude.Int.{ℤ, pos, negsuc, sub_ℕ}
use ns3_sim.Python.Outcome.{Outcome, ok, value_error, or_raise}
use ns3_sim.Python.Text.{Text, codes, Lacks}

abbrev pub is_digit : ℕ → Bool
is_digit c = leb b'0' c && leb c b'9'

-- `s.isdigit()`.
unfoldable pub all_digits : Text → Bool
all_digits [] = false
all_digits (c ∷ []) = is_digit c
all_digits (c ∷ d ∷ s) = is_digit c && all_digits (d ∷ s)

abbrev is_space : ℕ → Bool
is_space c = c == 32 || leb 9 c && leb c 13 || leb 28 c && leb c 31

skip_spaces : Text → Text
skip_spaces [] = []
skip_spaces (c ∷ s) = let rest = skip_spaces s in if is_space c then rest else c ∷ s

strip : Text → Text
unfolding skip_spaces
strip s = reverse (skip_spaces (reverse (skip_spaces s)))

-- Digits, with single underscores between them; the flag says that a digit stands in front.
scan : Text → ℕ → Bool → Option ℕ
scan [] n true = some n
scan [] n false = none
scan (c ∷ s) n after =
    let next = scan s (n * 10 + (c - b'0')) true in
    let gap = scan s n false in
    if is_digit c then next else if c == b'_' && after then gap else none

negate : ℕ → ℤ
negate n = sub_ℕ 0 n

signed : Text → Option ℤ
unfolding scan negate
signed [] = none
signed (c ∷ s) =
    if c == b'-'
    then (elim (scan s 0 false) [ none ↦ none | some n ↦ some (negate n) ])
    else if c == b'+'
    then (elim (scan s 0 false) [ none ↦ none | some n ↦ some (pos n) ])
    else (elim (scan (c ∷ s) 0 false) [ none ↦ none | some n ↦ some (pos n) ])

-- `int(s)`.
unfoldable pub int : Text → Outcome ℤ
unfolding signed strip
int s = or_raise value_error (signed (strip s))

-- The digits of `n` in front of `out`; the first number bounds the digits still to come.
digits : ℕ → ℕ → Text → Text
digits zero n out = out
digits (suc f) n out =
    let out' = (b'0' + n % 10) ∷ out in
    let more = digits f (n / 10) out' in if ltb n 10 then out' else more

-- `%i` of a number that is at least 0. A number has at most as many digits as its value plus one.
unfoldable pub decimal : ℕ → Text
unfolding digits
decimal n = digits (suc n) n []

-- `%i`.
unfoldable pub decimal_ℤ : ℤ → Text
unfolding decimal
decimal_ℤ (pos n) = decimal n
decimal_ℤ (negsuc n) = b'-' ∷ decimal (suc n)

int_examples :
    (int (codes " -12 ") ≡ ok (negsuc 11))
    × (int (codes "1_000") ≡ ok (pos 1000))
    × (int (codes "1__0") ≡ or_raise value_error none)
    × (decimal 1203 ≡ codes "1203")
unfolding int decimal
int_examples = (refl, refl, refl, refl)

abbrev pub IsDigits : Text → Type 0
IsDigits = All (λ c. is_digit c ≡ true)

digits-IsDigits : (f n : ℕ) (out : Text) → IsDigits out → IsDigits (digits f n out)
unfolding digits
digits-IsDigits zero n out h = h
digits-IsDigits (suc f) n out h = ground (arith, digits-IsDigits f (n / 10) ((b'0' + n % 10) ∷ out))

scan-digits : (f n : ℕ) (out : Text) → n < f → scan (digits f n out) 0 false ≡ scan out n true
unfolding digits scan
scan-digits zero n out h = absurd (omega arith)
scan-digits (suc f) n out h = ground (arith, scan-digits f (n / 10) ((b'0' + n % 10) ∷ out))

digits-cases : (f n : ℕ) (out : Text) → (c : ℕ) × (s : Text) × (digits (suc f) n out ≡ c ∷ s)
unfolding digits
digits-cases zero n out = (b'0' + n % 10, out, ground arith)
digits-cases (suc f) n out = elim (Bool-cases (ltb n 10)) [
  | inl t ↦ (b'0' + n % 10, out, rw t)
  | inr t ↦ let (c, s, e) = digits-cases f (n / 10) ((b'0' + n % 10) ∷ out) in (c, s, rw t e)
]

skip_spaces-digits : (s : Text) → IsDigits s → skip_spaces s ≡ s
unfolding skip_spaces
skip_spaces-digits [] h = refl
skip_spaces-digits (c ∷ s) h = ground arith

reverse-IsDigits : (s : Text) → IsDigits s → IsDigits (reverse s)
reverse-IsDigits [] h = h
reverse-IsDigits (c ∷ s) (hc, hs) =
    rw (reverse-cons c s) (All-append _ (reverse s) (c ∷ []) (reverse-IsDigits s hs) (hc, tt))

strip-digits : (s : Text) → IsDigits s → strip s ≡ s
unfolding strip
strip-digits s h =
    rw (skip_spaces-digits s h, skip_spaces-digits (reverse s) (reverse-IsDigits s h))
      (reverse-reverse s)

-- A text of digits has no sign.
signed-scan :
    (c : ℕ) (s : Text) {n : ℕ}
    → is_digit c ≡ true
    → scan (c ∷ s) 0 false ≡ some n
    → signed (c ∷ s) ≡ some (pos n)
unfolding signed
signed-scan c s hc h = ground arith

-- `int` undoes `%i`.
pub int-decimal : (n : ℕ) → int (decimal n) ≡ ok (pos n)
unfolding int decimal
int-decimal n =
    let (c, s, e) = digits-cases n n [] in
    let h = digits-IsDigits (suc n) n [] tt in
    let h' : IsDigits (c ∷ s) = rw e at h in
    let r : scan (c ∷ s) 0 false ≡ some n =
      subst (λ t. scan t 0 false ≡ some n) e (scan-digits (suc n) n [] (omega arith)) in
    rw (strip-digits _ h, e, signed-scan c s h'.0 r)

-- No digit is a dot, a comma, a space or a line's end.
pub decimal-IsDigits : (n : ℕ) → IsDigits (decimal n)
unfolding decimal
decimal-IsDigits n = digits-IsDigits (suc n) n [] tt

pub Lacks-of_IsDigits : (sep : ℕ) (s : Text) → is_digit sep ≡ false → IsDigits s → Lacks sep s
Lacks-of_IsDigits sep [] h d = tt
Lacks-of_IsDigits sep (c ∷ s) h (dc, ds) = (λ e. ground arith, Lacks-of_IsDigits sep s h ds)

-- A number that is written begins with a digit.
pub decimal-starts : (n : ℕ) → (c : ℕ) × (s : Text) × (decimal n ≡ c ∷ s) × (is_digit c ≡ true)
unfolding decimal
decimal-starts n =
    let (c, s, e) = digits-cases n n [] in
    let all : IsDigits (c ∷ s) = subst IsDigits e (digits-IsDigits (suc n) n [] tt) in
    (c, s, e, all.0)
