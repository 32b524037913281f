-- ===== src/Address/Quads.antt =====
-- Address.antt: which addresses are four numbers of one byte.
use mathlib.Core.Path.{subst}
use ns3_sim.Prelude.{
  position, In-get_elem?, ℕ, ◌+◌, ◌/◌, ◌%◌, ◌≤◌, ◌<◌, ◌≡◌, ◌↔◌, refl, sym, inl, inr, List, [], ◌∷◌,
  arith, length, All, All-of_In, In_of_All, Bool-cases, ltb,
}
use ns3_sim.Prelude.Int.{ℤ, pos, ◌≤ℤ◌}
use ns3_sim.Python.Outcome.{ok, traverse}
use ns3_sim.Python.Text.{Text, codes, split}
use ns3_sim.Python.Number.{int, int-decimal}
use ns3_sim.Address.{address, gen_addresses}
use ns3_sim.Address.Layout.{gen_addresses_layout, length-gen_addresses, split-address}

abbrev pub IsByte : ℤ → Type 0
IsByte part = (pos 0 ≤ℤ part) × (part ≤ℤ pos 255)

-- Four parts between dots, each a number of one byte.
pub record IsQuad (ip : Text) : Type 0 where
  pub parts : List ℤ
  pub read : traverse int (split b'.' ip) ≡ ok parts
  pub four : length parts ≡ 4
  pub bytes : All IsByte parts

int_ten : int (codes "10") ≡ ok (pos 10)
unfolding int
int_ten = refl

int_one : int (codes "1") ≡ ok (pos 1)
unfolding int
int_one = refl

read-address :
    (high low : ℕ)
    → traverse int (split b'.' (address high low)) ≡ ok (pos 10 ∷ pos 1 ∷ pos high ∷ pos low ∷ [])
unfolding traverse
read-address high low = rw (split-address, int_ten, int_one, int-decimal high, int-decimal low) refl

IsQuad-address : (high low : ℕ) → high < 256 → low < 256 → IsQuad (address high low)
IsQuad-address high low h l = record {
  parts = pos 10 ∷ pos 1 ∷ pos high ∷ pos low ∷ [];
  read = read-address high low;
  four = refl;
  bytes = (
    (omega arith, omega arith),
    (
      (omega arith, omega arith),
      ((omega arith, omega (arith, h)), ((omega arith, omega (arith, l)), tt)),
    ),
  );
}

address-IsQuad : (high low : ℕ) → IsQuad (address high low) → high < 256
address-IsQuad high low q =
    let same : pos 10 ∷ pos 1 ∷ pos high ∷ pos low ∷ [] ≡ q.parts =
      cc (q.read, read-address high low) in
    let bytes : All IsByte (pos 10 ∷ pos 1 ∷ pos high ∷ pos low ∷ []) =
      subst (All IsByte) (sym same) q.bytes in
    omega (arith, bytes.1.1.0.1)

-- For up to 64000 routers, and for no larger number, each generated address is four numbers between dots,
-- each of one byte.
pub gen_addresses-IsQuad : (n : ℕ) → All IsQuad (gen_addresses n) ↔ (n ≤ 64000)
gen_addresses-IsQuad n = (
  λ all. elim (Bool-cases (ltb 64000 n)) [
    | inl many ↦
        let there = gen_addresses_layout n 64000 (ground arith) in
        let member = In-get_elem? _ (gen_addresses n) 64000 there in
        absurd (
          omega (
            arith,
            address-IsQuad (64000 / 250) (64000 % 250 + 1)
                (In_of_All IsQuad (gen_addresses n) _ all member),
          ))
    | inr few ↦ ground arith
  ],
  λ few. All-of_In IsQuad (gen_addresses n) (λ ip m.
      let (i, below, at) = position ip (gen_addresses n) m in
      let i_n : i < n = omega (arith, below, length-gen_addresses n) in
      let same : address (i / 250) (i % 250 + 1) ≡ ip = cc (at, gen_addresses_layout n i i_n) in
      subst IsQuad same
        (IsQuad-address (i / 250) (i % 250 + 1) (omega (arith, i_n, few)) (omega arith))),
)
