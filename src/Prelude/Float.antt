-- ===== src/Prelude/Float.antt =====
-- The floating point arithmetic of the compiler and the C library, as an interface: the operations
-- that the source uses on `float` and `double`, and no law of them. A theorem that needs a law takes
-- it as a hypothesis.
use Prim.Native.Nat.{◌/◌}
use mathlib.Core.Bool.{Bool, not}
use lg_magic.Prelude.Int.{ℤ, pos, ◌+ℤ◌, ◌-ℤ◌, ◌*ℤ◌, ltb_ℤ, neg, pos_part}

pub record Floats : Type 1 where
  pub Float : Type 0
  pub Double : Type 0
  -- conversions; `of_int` also gives the literals such as 30.0
  pub float_of_int : ℤ → Float
  pub of_int : ℤ → Double
  pub widen : Float → Double
  pub narrow : Double → Float
  -- casts, which round towards zero
  pub float_to_s16 : Float → ℤ
  pub to_int : Double → ℤ
  pub fsub : Float → Float → Float
  pub fmul : Float → Float → Float
  pub fneg : Float → Float
  pub flt : Float → Float → Bool
  pub dadd : Double → Double → Double
  pub dsub : Double → Double → Double
  pub dmul : Double → Double → Double
  pub dneg : Double → Double
  pub ddiv : Double → Double → Double
  pub dlt : Double → Double → Bool
  pub dle : Double → Double → Bool
  -- `M_PI` of <math.h>
  pub pi : Double

-- Whole numbers in place of floating point numbers: they meet the interface, for the examples.
abbrev pub whole : Floats
whole = record {
  Float = ℤ;
  Double = ℤ;
  float_of_int = λ n. n;
  of_int = λ n. n;
  widen = λ n. n;
  narrow = λ n. n;
  float_to_s16 = λ n. n;
  to_int = λ n. n;
  fsub = ◌-ℤ◌;
  fmul = ◌*ℤ◌;
  fneg = neg;
  flt = ltb_ℤ;
  dadd = ◌+ℤ◌;
  dsub = ◌-ℤ◌;
  dmul = ◌*ℤ◌;
  dneg = neg;
  ddiv = λ a b. pos (pos_part a / pos_part b);
  dlt = ltb_ℤ;
  dle = λ a b. not (ltb_ℤ b a);
  pi = pos 3;
}
