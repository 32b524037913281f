-- ===== src/Python/Float.antt =====
-- Python's `float`: a type with the operations that the scripts call, and no definition of them. The
-- laws say what the reports rest on: the values that are read have a total order (none is NaN).
use ns3_sim.Prelude.{◌≡◌, Bool, true, Option, Eq}
use ns3_sim.Prelude.Int.{ℤ}
use ns3_sim.Python.Sorting.{IsTotalOrder}
use ns3_sim.Python.Text.{Text}

pub record Floats : Type 1 where
  pub Float : Type 0
  -- `==`, which a dictionary uses for its keys.
  pub float_eq : Eq Float
  -- `<=`.
  pub le : Float → Float → Bool
  -- `float(s)`, with `none` for a `ValueError`.
  pub parse : Text → Option Float
  -- The value of an integer.
  pub of_int : ℤ → Float
  pub mul : Float → Float → Float
  pub sub : Float → Float → Float
  pub div : Float → Float → Float
  pub le-total_order : IsTotalOrder le
  pub le-antisymm : (x y : Float) → le x y ≡ true → le y x ≡ true → x ≡ y
