-- ===== src/Ntf/Parts.antt =====
-- The parts of the lines that are compared.
use mathlib.Core.Path.{subst}
use ns3_sim.Prelude.{
  ℕ, suc, ◌<◌, ◌≡◌, refl, ◌∙◌, ap, inl, inr, none, some, List, [], ◌∷◌, ◌++◌, option_eq, length,
  length-append, In, All, arith, All-append,
}
use ns3_sim.Prelude.Int.{ℤ, pos, negsuc}
use ns3_sim.Python.Outcome.{Outcome, ok, last, last?, traverse, >>=-eq-ok}
use ns3_sim.Python.Sequence.{count, count-zero}
use ns3_sim.Python.Text.{Text, text_eq, Lacks, codes, split, split-join, join, drop_last}
use ns3_sim.Python.Number.{decimal, decimal_ℤ, decimal-IsDigits, Lacks-of_IsDigits}
use ns3_sim.Ntf.{Field, key_eq}
use ns3_sim.Ntf.Plain.{IsPlain}
use ns3_sim.Ntf.Output.{field_text}

abbrev pub n_parts : Text → ℕ
n_parts line = length (split 32 line)

pub decimal_ℤ-Lacks : (n : ℤ) → Lacks 32 (decimal_ℤ n)
unfolding decimal_ℤ
decimal_ℤ-Lacks (pos n) = Lacks-of_IsDigits 32 (decimal n) refl (decimal-IsDigits n)
decimal_ℤ-Lacks (negsuc n) =
    (λ e. omega (arith, e), Lacks-of_IsDigits 32 (decimal (suc n)) refl (decimal-IsDigits (suc n)))

pub field_text-Lacks : (x : Field) → IsPlain x → Lacks 32 (field_text x)
unfolding field_text
field_text-Lacks none h = (λ e. omega (arith, e), (λ e. omega (arith, e), tt))
field_text-Lacks (some name) h = h

n_parts-join :
    (parts : List Text)
    → 0 < length parts
    → All (Lacks 32) parts
    → n_parts (join (codes " ") parts) ≡ length parts
n_parts-join [] some_parts h = absurd (omega (arith, some_parts))
n_parts-join (p ∷ ps) some_parts h = ap (λ (l : List Text). length l) (split-join 32 p ps h)

drop_last-Lacks : (parts : List Text) → All (Lacks 32) parts → All (Lacks 32) (drop_last parts)
drop_last-Lacks [] h = tt
drop_last-Lacks (p ∷ []) h = tt
drop_last-Lacks (p ∷ q ∷ ps) h = (h.0, drop_last-Lacks (q ∷ ps) h.1)

length-drop_last : (p : Text) (ps : List Text) → length (drop_last (p ∷ ps)) ≡ length ps
length-drop_last p [] = refl
length-drop_last p (q ∷ ps) = ap suc (length-drop_last q ps)

-- The last part is replaced by one part.
pub n_parts_replaced :
    (splitted : List Text) (end : Text)
    → All (Lacks 32) splitted
    → Lacks 32 end
    → (last : Text) → last? splitted ≡ some last
    → n_parts (join (codes " ") (drop_last splitted ++ end ∷ [])) ≡ length splitted
n_parts_replaced [] end h e last there = cc there
n_parts_replaced (p ∷ ps) end h e last there =
    let n = length-append (drop_last (p ∷ ps)) (end ∷ []) in
    let m = length-drop_last p ps in
    n_parts-join (drop_last (p ∷ ps) ++ end ∷ []) (omega (arith, n))
      (All-append (Lacks 32) (drop_last (p ∷ ps)) (end ∷ []) (drop_last-Lacks (p ∷ ps) h) (e, tt))
    ∙ omega (arith, n, m)

pub In-traverse :
    (f : Text → Outcome Text) (xs ys : List Text) (x : Text)
    → traverse f xs ≡ ok ys
    → In x xs
    → (y : Text) × (f x ≡ ok y) × (0 < count y ys)
unfolding traverse
In-traverse f [] ys x h m = absurd m
In-traverse f (z ∷ xs) ys x h m =
    let (y, e1, h1) = >>=-eq-ok (f z) _ h in
    let (zs, e2, h2) = >>=-eq-ok (traverse f xs) _ h1 in
    let parts : y ∷ zs ≡ ys = cc h2 in
    elim m [
      | inl at ↦ (
        y,
        ap f at ∙ e1,
        subst (λ (l : List Text). 0 < count y l) parts
            (let some_times = count-zero y zs in omega (arith, some_times)),
      )
      | inr m' ↦
          let (w, e, more) = In-traverse f xs zs x e2 m' in
          (w, e, subst (λ (l : List Text). 0 < count w l) parts (omega (arith, more)))
    ]
