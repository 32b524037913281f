-- ===== src/Failures/Halves.antt =====
-- A link's two rows: one is the other with its ends exchanged.
use ns3_sim.Prelude.{◌+◌, ◌≡◌, ◌≢◌, refl, sym, ap, ◌∙◌, ◌⊎◌, List, [], ◌∷◌, In, IsOnce, length}
use ns3_sim.Python.Outcome.{ok}
use ns3_sim.Python.Text.{Text}
use ns3_sim.Failures.{Row, reverse_of}

-- The row with its ends exchanged.
abbrev pub flipped : Row → Row
flipped (src ∷ dst ∷ metric ∷ delay ∷ []) = dst ∷ src ∷ metric ∷ delay ∷ []
flipped row = row

-- Four parts, with two ends that differ.
pub record IsLink (row : Row) : Type 0 where
  pub src : Text
  pub dst : Text
  pub metric : Text
  pub delay : Text
  pub parts : row ≡ src ∷ dst ∷ metric ∷ delay ∷ []
  pub ends_differ : src ≢ dst

pub flipped_twice : (row : Row) → IsLink row → flipped (flipped row) ≡ row
flipped_twice row l = rw l.parts refl

pub flipped-ne : (row : Row) → IsLink row → flipped row ≢ row
flipped-ne row l e = l.ends_differ (sym (heads (sym (ap flipped l.parts) ∙ e ∙ l.parts)))
  where
    heads : {x y : Text} {xs ys : Row} → x ∷ xs ≡ y ∷ ys → x ≡ y
    heads h = cc

pub reverse_of-flipped : (row : Row) → IsLink row → reverse_of row ≡ ok (flipped row)
unfolding reverse_of
reverse_of-flipped row l = rw l.parts refl

-- No row is the other direction of another.
abbrev pub IsHalved : List Row → Type 0
IsHalved rows = (x : Row) → In x rows → ¬ In (flipped x) rows

-- One direction of each link of `rows`, half as many rows, none twice.
pub record Halves (rows out : List Row) : Type 0 where
  pub from : (x : Row) → In x out → In x rows
  pub one : (x : Row) → In x rows → In x out ⊎ In (flipped x) out
  pub halved : IsHalved out
  pub once : IsOnce out
  pub half : length out + length out ≡ length rows
