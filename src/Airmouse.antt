-- ===== src/Airmouse.antt =====
-- tools/src/airmouse.c and the correction of samples of tools/src/calib.c.
use lg_magic.Prelude.Float.{Floats}
use lg_magic.Prelude.Int.{ℤ, pos, negsuc}
use lg_magic.Prelude.Three.{Three}

-- `struct airmouse`, and `struct calib` of tools/include/calib.h.
pub record Airmouse (D : Type 0) : Type 0 where
  pub alpha : D
  pub scale : D
  pub prev : Three D

pub record Calib (D : Type 0) : Type 0 where
  pub accel_bias : Three D
  pub accel_matrix : Three (Three D)
  pub gyro_bias : Three D
  pub gyro_scale : Three D

-- The filtered rates and the movement that `airmouse_process` writes.
pub record Motion (D : Type 0) : Type 0 where
  pub out : Three D
  pub dx : ℤ
  pub dy : ℤ

module _ (fp : Floats) where
  open fp use {Double, of_int, to_int, dadd, dsub, dmul, ddiv, dneg, pi}

  abbrev pub zero3 : Three Double
  zero3 = record { at0 = of_int (pos 0); at1 = of_int (pos 0); at2 = of_int (pos 0) }

  unfoldable pub airmouse_init : Double → Double → Airmouse Double
  airmouse_init alpha scale = record { alpha = alpha; scale = scale; prev = zero3 }

  -- One line of the filter.
  unfoldable pub low_pass : Double → Double → Double → Double
  low_pass alpha g prev = dadd (dmul alpha g) (dmul (dsub (of_int (pos 1)) alpha) prev)

  unfoldable pub airmouse_process : Airmouse Double → Three Double → Airmouse Double × Motion Double
  airmouse_process a g =
      let out : Three Double = record {
        at0 = low_pass a.alpha g.at0 a.prev.at0;
        at1 = low_pass a.alpha g.at1 a.prev.at1;
        at2 = low_pass a.alpha g.at2 a.prev.at2;
      } in
      (
        record a { prev = out },
        record {
          out = out;
          dx = to_int (dmul (dneg out.at2) a.scale);
          dy = to_int (dmul (dneg out.at1) a.scale);
        },
      )

  unfoldable pub calib_init_identity : Calib Double
  calib_init_identity =
      let o = of_int (pos 0) in
      let i = of_int (pos 1) in
      record {
        accel_bias = zero3;
        accel_matrix = record {
          at0 = record { at0 = i; at1 = o; at2 = o };
          at1 = record { at0 = o; at1 = i; at2 = o };
          at2 = record { at0 = o; at1 = o; at2 = i };
        };
        gyro_bias = zero3;
        gyro_scale = record { at0 = i; at1 = i; at2 = i };
      }

  -- A row of `mat3_mul_vec3` of tools/src/matrix.c, and the product.
  unfoldable pub row_mul : Three Double → Three Double → Double
  row_mul m v = dadd (dadd (dmul m.at0 v.at0) (dmul m.at1 v.at1)) (dmul m.at2 v.at2)

  unfoldable pub mat3_mul_vec3 : Three (Three Double) → Three Double → Three Double
  mat3_mul_vec3 m v = record { at0 = row_mul m.at0 v; at1 = row_mul m.at1 v; at2 = row_mul m.at2 v }

  unfoldable pub vec3_scale : Three Double → Double → Three Double
  vec3_scale v s = record { at0 = dmul v.at0 s; at1 = dmul v.at1 s; at2 = dmul v.at2 s }

  -- `R_align`
  unfoldable pub r_align : Three (Three Double)
  r_align =
      let o = of_int (pos 0) in
      let m = of_int (negsuc 0) in
      record {
        at0 = record { at0 = o; at1 = m; at2 = o };
        at1 = record { at0 = m; at1 = o; at2 = o };
        at2 = record { at0 = o; at1 = o; at2 = m };
      }

  -- `calib_apply`: the corrected acceleration, and the corrected rates in radians per second.
  unfoldable pub calib_apply :
      Calib Double → Three Double → Three Double → Three Double × Three Double
  calib_apply c a_raw g_raw =
      let d : Three Double = record {
        at0 = dsub a_raw.at0 c.accel_bias.at0;
        at1 = dsub a_raw.at1 c.accel_bias.at1;
        at2 = dsub a_raw.at2 c.accel_bias.at2;
      } in
      let g : Three Double = record {
        at0 = dmul (dsub g_raw.at0 c.gyro_bias.at0) c.gyro_scale.at0;
        at1 = dmul (dsub g_raw.at1 c.gyro_bias.at1) c.gyro_scale.at1;
        at2 = dmul (dsub g_raw.at2 c.gyro_bias.at2) c.gyro_scale.at2;
      } in
      (
        mat3_mul_vec3 r_align (mat3_mul_vec3 c.accel_matrix d),
        vec3_scale (mat3_mul_vec3 r_align g) (ddiv pi (of_int (pos 180))),
      )
