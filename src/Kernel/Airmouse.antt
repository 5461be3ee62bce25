-- ===== src/Kernel/Airmouse.antt =====
-- kernel/lg_magic_airmouse.c: the calibration record, its check, and the pointer movement.
use lg_magic.Prelude.{ℕ, ◌^◌, ◌%◌, Bool, ◌||◌, if◌then◌else◌}
use lg_magic.Prelude.Int.{ℤ, pos}
use lg_magic.Prelude.Float.{Floats}
use lg_magic.Prelude.Three.{Three}

-- `struct lg_magic_airmouse_calib` of include/lg_magic_calib.h, over the type of floats.
pub record Calib (F : Type 0) : Type 0 where
  pub gyro_bias : Three F
  pub gyro_scale : Three F
  pub alpha : F
  pub mouse_k : F

-- What `lgmagic_calc_mouse` writes through its pointers, and what it returns.
pub record Movement (F : Type 0) : Type 0 where
  pub gyro_acc : Three F
  pub mouse_x : ℤ
  pub mouse_y : ℤ
  pub bigmove : Bool

module _ (fp : Floats) where
  open fp use {
    Float, float_of_int, of_int, widen, narrow, float_to_s16, fsub, fmul, fneg, flt, dadd, dsub,
    dmul, dlt,
  }

  unfoldable pub fabs : Float → Float
  fabs val = if flt val (float_of_int (pos 0)) then fneg val else val

  -- The two tests of the loop of `lgmagic_validate_calib` at one index.
  unfoldable pub axis_invalid : Float → Float → Bool
  unfolding fabs
  axis_invalid bias scale =
      dlt (of_int (pos 100)) (widen (fabs bias)) || dlt (of_int (pos 10)) (widen (fabs scale))

  -- `x < 0.0 || x > 1.0`
  unfoldable pub fraction_invalid : Float → Bool
  fraction_invalid x = dlt (widen x) (of_int (pos 0)) || dlt (of_int (pos 1)) (widen x)

  -- `true` is the 1 of an invalid table.
  unfoldable pub validate_calib : Calib Float → Bool
  validate_calib calib =
      let bias = calib.gyro_bias in
      let scale = calib.gyro_scale in
      axis_invalid bias.at0 scale.at0
      || (axis_invalid bias.at1 scale.at1
          || (axis_invalid bias.at2 scale.at2
              || (fraction_invalid calib.alpha || fraction_invalid calib.mouse_k)))

  -- One round of the filter loop of `lgmagic_calc_mouse`. The product is of floats, the rest of
  -- doubles, since `1.0` is a double.
  unfoldable pub filter_axis : Float → Float → Float → Float → ℤ → Float
  filter_axis alpha bias scale acc gyro =
      let gyro_corr = fmul (fsub (float_of_int gyro) bias) scale in
      narrow (
        dadd (widen (fmul alpha gyro_corr))
          (dmul (dsub (of_int (pos 1)) (widen alpha)) (widen acc)))

  unfoldable pub calc_mouse : Calib Float → Three Float → ℕ → Three ℤ → Movement Float
  calc_mouse calib acc threshold gyro =
      let alpha = calib.alpha in
      let bias = calib.gyro_bias in
      let scale = calib.gyro_scale in
      let acc0 = filter_axis alpha bias.at0 scale.at0 acc.at0 gyro.at0 in
      let acc1 = filter_axis alpha bias.at1 scale.at1 acc.at1 gyro.at1 in
      let acc2 = filter_axis alpha bias.at2 scale.at2 acc.at2 gyro.at2 in
      let limit = float_of_int (pos (threshold % 2 ^ 16)) in
      record {
        gyro_acc = record { at0 = acc0; at1 = acc1; at2 = acc2 };
        mouse_x = float_to_s16 (fmul acc2 calib.mouse_k);
        mouse_y = float_to_s16 (fmul acc0 calib.mouse_k);
        bigmove = flt limit (fabs acc0) || flt limit (fabs acc2);
      }
