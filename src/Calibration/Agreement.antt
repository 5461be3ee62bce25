-- ===== src/Calibration/Agreement.antt =====
-- The checks of a blob in tools/src/calib.c and in kernel/lg_magic_airmouse.c.
use lg_magic.Calibration.{
  Warning, bad_gyro_bias, bad_gyro_scale, axis_warnings, not_fraction, blob_warnings,
  calib_validate_blob,
}
use lg_magic.Kernel.Airmouse
use lg_magic.Kernel.Airmouse.{fabs, axis_invalid, fraction_invalid, validate_calib}
use lg_magic.Prelude.{
  ℕ, ◌≡◌, ◌≤◌, arith, refl, ap, ◌∙◌, Bool, true, false, ◌||◌, List, [], ◌∷◌, ◌++◌, if◌then◌else◌,
}
use lg_magic.Prelude.Float.{Floats}
use lg_magic.Prelude.Int.{pos}

-- The conversion of a float to a double keeps the order and the whole numbers up to 2^24, which a
-- float holds exactly, and `fabsf` compares like the `fabs` of the kernel module, from which it can differ in the sign of a zero.
pub record Widening (fp : Floats) (fabsf : fp.Float → fp.Float) : Type 0 where
  pub keeps_order : (a b : fp.Float) → fp.flt a b ≡ fp.dlt (fp.widen a) (fp.widen b)
  pub keeps_int : (n : ℕ) → n ≤ 16777216 → fp.widen (fp.float_of_int (pos n)) ≡ fp.of_int (pos n)
  pub compares_alike : (a x : fp.Float) → fp.flt a (fabsf x) ≡ fp.flt a (fabs fp x)

-- Whether a list of warnings is one.
is_some : List Warning → Bool
is_some [] = false
is_some (w ∷ ws) = true

is_some-++ : (xs ys : List Warning) → is_some (xs ++ ys) ≡ (is_some xs || is_some ys)
unfolding is_some
is_some-++ [] ys = refl
is_some-++ (x ∷ xs) ys = refl

is_some-if : (b : Bool) (w : Warning) → is_some (if b then w ∷ [] else []) ≡ b
unfolding is_some
is_some-if true w = refl
is_some-if false w = refl

module _ (fp : Floats) (fabsf : fp.Float → fp.Float) (law : Widening fp fabsf) where
  open fp use {Float, float_of_int, of_int, widen, flt, dlt}

  above :
      (n : ℕ) (x : Float)
      → n ≤ 16777216
      → flt (float_of_int (pos n)) x ≡ dlt (of_int (pos n)) (widen x)
  above n x small =
      law.keeps_order (float_of_int (pos n)) x ∙ ap (λ d. dlt d (widen x)) (law.keeps_int n small)

  below :
      (n : ℕ) (x : Float)
      → n ≤ 16777216
      → flt x (float_of_int (pos n)) ≡ dlt (widen x) (of_int (pos n))
  below n x small =
      law.keeps_order x (float_of_int (pos n)) ∙ ap (dlt (widen x)) (law.keeps_int n small)

  above_abs :
      (n : ℕ) (x : Float)
      → n ≤ 16777216
      → flt (float_of_int (pos n)) (fabsf x) ≡ dlt (of_int (pos n)) (widen (fabs fp x))
  above_abs n x small = law.compares_alike (float_of_int (pos n)) x ∙ above n (fabs fp x) small

  is_some-axis_warnings :
      (i : ℕ) (bias scale : Float)
      → is_some (axis_warnings fp fabsf i bias scale) ≡ axis_invalid fp bias scale
  unfolding axis_warnings axis_invalid
  is_some-axis_warnings i bias scale =
      is_some-++ _ _
      ∙ ap
          (λ b.
            b
            || is_some
                (if flt (float_of_int (pos 10)) (fabsf scale) then bad_gyro_scale i ∷ [] else []))
          (is_some-if (flt (float_of_int (pos 100)) (fabsf bias)) (bad_gyro_bias i))
      ∙ ap (λ b. flt (float_of_int (pos 100)) (fabsf bias) || b)
          (is_some-if (flt (float_of_int (pos 10)) (fabsf scale)) (bad_gyro_scale i))
      ∙ rw (above_abs 100 bias (omega arith), above_abs 10 scale (omega arith)) refl

  not_fraction_lem : (x : Float) → not_fraction fp fabsf x ≡ fraction_invalid fp x
  unfolding not_fraction fraction_invalid
  not_fraction_lem x = rw (below 0 x (omega arith), above 1 x (omega arith)) refl

  warned :
      (blob : lg_magic.Kernel.Airmouse.Calib Float)
      → calib_validate_blob fp fabsf blob ≡ is_some (blob_warnings fp fabsf blob)
  unfolding calib_validate_blob is_some
  warned blob = refl

  -- When floats widen in order, whole numbers up to 2^24 widen exactly and `fabsf` compares like the kernel
  -- module's `fabs`: `calib_validate_blob` of the tools refuses exactly the calibrations that
  -- `lgmagic_validate_calib` of the kernel module refuses.
  pub calib_validate_blob_lem :
      (blob : lg_magic.Kernel.Airmouse.Calib Float)
      → calib_validate_blob fp fabsf blob ≡ validate_calib fp blob
  unfolding blob_warnings validate_calib
  calib_validate_blob_lem blob =
      warned blob ∙ simp (is_some-++, is_some-if, is_some-axis_warnings, not_fraction_lem) refl
