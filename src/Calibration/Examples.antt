-- ===== src/Calibration/Examples.antt =====
-- Tests and examples of the calibrations of tools/src/calib.c, with whole numbers in place of
-- floating point numbers.
use lg_magic.Airmouse.{Calib}
use lg_magic.Calibration.{round6, calib_save_json, calib_load, calib_to_blob, calib_validate_blob}
use lg_magic.Calibration.Agreement.{Widening, calib_validate_blob_lem}
use lg_magic.Calibration.RoundTrip.{map_calib, AllCalib, calib_load-calib_save_json}
use lg_magic.Json.Parser.{start_of, is_number_byte, has_digit}
use lg_magic.Json.Writable.{StartsNumber, IsReadable}
use lg_magic.Json.Writer.{has_point, trim_tail, trim_zeros, close_point, fmt_number, is_scientific}
use lg_magic.Kernel.Airmouse.{fabs, validate_calib}
use lg_magic.Prelude.{ℕ, ◌-◌, ◌+◌, ◌^◌, ◌≡◌, refl, Bool, false, List, [], ◌∷◌}
use lg_magic.Prelude.Float.{whole}
use lg_magic.Prelude.Int.{ℤ, pos, pos_part, neg_part}
use lg_magic.Prelude.Result.{ok}
use lg_magic.Prelude.Three.{Three}

abbrev digit_strtod : List ℕ → ℤ × ℕ × Bool
digit_strtod [] = (pos 0, 0, false)
digit_strtod (c ∷ cs) = (pos (c - 48), 3, false)

abbrev digit_text : ℤ → List ℕ
digit_text d = (48 + pos_part d) ∷ b'.' ∷ b'0' ∷ b'0' ∷ b'0' ∷ b'0' ∷ b'0' ∷ b'0' ∷ []

abbrev never : ℤ → Bool
never d = false

abbrev magnitude : ℤ → ℤ
magnitude n = pos (pos_part n + neg_part n)

abbrev scientific : ℤ → Bool
scientific = is_scientific whole magnitude (pos 1) (pos (10 ^ 16))

abbrev vector : ℕ → ℕ → ℕ → Three ℤ
vector a b c = record { at0 = pos a; at1 = pos b; at2 = pos c }

abbrev tilted : Calib ℤ
tilted = record {
  accel_bias = vector 1 2 3;
  accel_matrix = record { at0 = vector 1 0 0; at1 = vector 0 1 0; at2 = vector 0 0 1 };
  gyro_bias = vector 3 2 1;
  gyro_scale = vector 1 1 2;
}

-- Each of the digits of the example is read back.
zero-IsReadable : IsReadable digit_strtod never scientific digit_text digit_text (pos 0)
unfolding is_scientific StartsNumber fmt_number has_point trim_zeros trim_tail close_point start_of
    is_number_byte has_digit
zero-IsReadable = record {
  starts = refl;
  number_bytes = (refl, (refl, (refl, tt)));
  digit = refl;
  read_back = λ rest end. refl;
}

one-IsReadable : IsReadable digit_strtod never scientific digit_text digit_text (pos 1)
unfolding is_scientific StartsNumber fmt_number has_point trim_zeros trim_tail close_point start_of
    is_number_byte has_digit
one-IsReadable = record {
  starts = refl;
  number_bytes = (refl, (refl, (refl, tt)));
  digit = refl;
  read_back = λ rest end. refl;
}

two-IsReadable : IsReadable digit_strtod never scientific digit_text digit_text (pos 2)
unfolding is_scientific StartsNumber fmt_number has_point trim_zeros trim_tail close_point start_of
    is_number_byte has_digit
two-IsReadable = record {
  starts = refl;
  number_bytes = (refl, (refl, (refl, tt)));
  digit = refl;
  read_back = λ rest end. refl;
}

three-IsReadable : IsReadable digit_strtod never scientific digit_text digit_text (pos 3)
unfolding is_scientific StartsNumber fmt_number has_point trim_zeros trim_tail close_point start_of
    is_number_byte has_digit
three-IsReadable = record {
  starts = refl;
  number_bytes = (refl, (refl, (refl, tt)));
  digit = refl;
  read_back = λ rest end. refl;
}

tilted_is_round : map_calib (round6 digit_strtod digit_text) tilted ≡ tilted
unfolding round6
tilted_is_round = refl

tilted-IsReadable :
    AllCalib
      (IsReadable digit_strtod never scientific digit_text digit_text)
      (map_calib (round6 digit_strtod digit_text) tilted)
unfolding round6
tilted-IsReadable = (
  (one-IsReadable, two-IsReadable, three-IsReadable),
  (
    (one-IsReadable, zero-IsReadable, zero-IsReadable),
    (zero-IsReadable, one-IsReadable, zero-IsReadable),
    (zero-IsReadable, zero-IsReadable, one-IsReadable),
  ),
  (three-IsReadable, two-IsReadable, one-IsReadable),
  (one-IsReadable, one-IsReadable, two-IsReadable),
)

calib_load-calib_save_json_example :
    (saved : List ℕ) × (calib_save_json digit_strtod digit_text never scientific digit_text tilted
      ≡ ok saved)
    × (calib_load whole digit_strtod saved
        ≡ (ok tt, map_calib (round6 digit_strtod digit_text) tilted))
calib_load-calib_save_json_example =
    calib_load-calib_save_json whole digit_strtod never scientific digit_text digit_text tilted
      tilted-IsReadable

whole_widens : Widening whole (fabs whole)
whole_widens = record {
  keeps_order = λ a b. refl;
  keeps_int = λ n small. refl;
  compares_alike = λ a x. refl;
}

calib_validate_blob_lem_example :
    calib_validate_blob whole (fabs whole) (calib_to_blob whole tilted (pos 2) (pos 0))
    ≡ validate_calib whole (calib_to_blob whole tilted (pos 2) (pos 0))
calib_validate_blob_lem_example =
    calib_validate_blob_lem whole (fabs whole) whole_widens
      (calib_to_blob whole tilted (pos 2) (pos 0))
