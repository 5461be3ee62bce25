-- ===== src/Calibration.antt =====
-- tools/src/calib.c: calibrations in JSON files, and the blob for the kernel module. `strtod`, the
-- texts of numbers and `fabsf` are parameters; allocation and the writing of the file do not fail.
mod Examples
pub mod Agreement
pub mod RoundTrip
use lg_magic.Airmouse.{Calib, calib_init_identity}
use lg_magic.Json.{Json, Items, Members, num, arr, obj, no_items, item, no_members, member, Failure}
use lg_magic.Json.Access.{
  json_obj_get, json_get_float3, json_get_mat3, json_arr_add, json_obj_add, Rejected,
}
use lg_magic.Json.Parser.{json_parse}
use lg_magic.Json.Writer.{json_dumps}
use lg_magic.Kernel.Airmouse
use lg_magic.Prelude.{
  ℕ, Bool, true, false, not, ◌||◌, Option, none, some, List, [], ◌∷◌, ◌++◌, if◌then◌else◌,
}
use lg_magic.Prelude.Float.{Floats}
use lg_magic.Prelude.Int.{ℤ, pos}
use lg_magic.Prelude.Result.{Result, ok, err, ◌>>=◌}
use lg_magic.Prelude.Three.{Three}

abbrev pub bias_key : List ℕ
bias_key = b'b' ∷ b'i' ∷ b'a' ∷ b's' ∷ []

abbrev pub matrix_key : List ℕ
matrix_key = b'm' ∷ b'a' ∷ b't' ∷ b'r' ∷ b'i' ∷ b'x' ∷ []

abbrev pub scale_key : List ℕ
scale_key = b's' ∷ b'c' ∷ b'a' ∷ b'l' ∷ b'e' ∷ []

abbrev pub accel_key : List ℕ
accel_key = b'a' ∷ b'c' ∷ b'c' ∷ b'e' ∷ b'l' ∷ []

abbrev pub gyro_key : List ℕ
gyro_key = b'g' ∷ b'y' ∷ b'r' ∷ b'o' ∷ []

-- The errors of `calib_load` on a file that was read.
pub data LoadError : Type 0 where
  bad_json : Failure → LoadError
  not_an_object : LoadError

module _ {D : Type 0} (strtod : List ℕ → D × ℕ × Bool) (text_f6 : D → List ℕ) where
  unfoldable pub round6 : D → D
  round6 v = (strtod (text_f6 v)).0

  unfoldable pub arr3 : Three D → Result Rejected (Json D)
  arr3 v = json_arr_add (arr no_items) (num (round6 v.at0)) >>= λ one.
      json_arr_add one (num (round6 v.at1)) >>= λ two. json_arr_add two (num (round6 v.at2))

  -- The tree that `calib_save_json` builds.
  unfoldable pub calib_tree : Calib D → Result Rejected (Json D)
  calib_tree c = arr3 c.accel_matrix.at0 >>= λ row0. json_arr_add (arr no_items) row0 >>= λ one.
      arr3 c.accel_matrix.at1 >>= λ row1. json_arr_add one row1 >>= λ two.
      arr3 c.accel_matrix.at2 >>= λ row2. json_arr_add two row2 >>= λ mat.
      arr3 c.accel_bias >>= λ accel_bias.
      json_obj_add (obj no_members) bias_key accel_bias >>= λ half_accel.
      json_obj_add half_accel matrix_key mat >>= λ accel. arr3 c.gyro_bias >>= λ gyro_bias.
      json_obj_add (obj no_members) bias_key gyro_bias >>= λ half_gyro.
      arr3 c.gyro_scale >>= λ gyro_scale. json_obj_add half_gyro scale_key gyro_scale >>= λ gyro.
      json_obj_add (obj no_members) accel_key accel >>= λ half_root.
      json_obj_add half_root gyro_key gyro

  -- `calib_save_json`: the text of the file.
  unfoldable pub calib_save_json :
      (not_finite scientific : D → Bool) (text_g : D → List ℕ) → Calib D → Result Rejected (List ℕ)
  calib_save_json not_finite scientific text_g c =
      calib_tree c >>= λ root. ok (json_dumps not_finite scientific text_g text_f6 root)

-- `accel` of `calib_load`, when it is there and an object.
unfoldable pub load_accel : {D : Type 0} → Option (Json D) → Calib D → Calib D
load_accel (some (obj ms)) c = record c {
  accel_bias = (json_get_float3 (some (obj ms)) bias_key c.accel_bias).1;
  accel_matrix = (json_get_mat3 (some (obj ms)) matrix_key c.accel_matrix).1;
}
load_accel v c = c

-- `gyro` of `calib_load`, when it is there and an object.
unfoldable pub load_gyro : {D : Type 0} → Option (Json D) → Calib D → Calib D
load_gyro (some (obj ms)) c = record c {
  gyro_bias = (json_get_float3 (some (obj ms)) bias_key c.gyro_bias).1;
  gyro_scale = (json_get_float3 (some (obj ms)) scale_key c.gyro_scale).1;
}
load_gyro v c = c

-- `calib_load` behind the parser.
unfoldable pub load_root : {D : Type 0} → Json D → Calib D → Result LoadError (Unit {0}) × Calib D
load_root (obj ms) c = (
  ok tt,
  load_gyro (json_obj_get (some (obj ms)) gyro_key)
      (load_accel (json_obj_get (some (obj ms)) accel_key) c),
)
load_root v c = (err not_an_object, c)

module _ (fp : Floats) where
  open fp use {Float, Double, float_of_int, narrow, flt}

  -- `calib_load` on the text of the file, with the calibration after it.
  unfoldable pub calib_load :
      (List ℕ → Double × ℕ × Bool) → List ℕ → Result LoadError (Unit {0}) × Calib Double
  calib_load strtod text = elim (json_parse strtod text) [
    | err failure ↦ (err (bad_json failure), calib_init_identity fp)
    | ok root ↦ load_root root (calib_init_identity fp)
  ]

  -- The blob is `struct lg_magic_airmouse_calib`, of which the kernel module has the record.
  unfoldable pub calib_to_blob : Calib Double → Float → Float → lg_magic.Kernel.Airmouse.Calib Float
  calib_to_blob c alpha mouse_k = record {
    gyro_bias = record {
      at0 = narrow c.gyro_bias.at0;
      at1 = narrow c.gyro_bias.at1;
      at2 = narrow c.gyro_bias.at2;
    };
    gyro_scale = record {
      at0 = narrow c.gyro_scale.at0;
      at1 = narrow c.gyro_scale.at1;
      at2 = narrow c.gyro_scale.at2;
    };
    alpha = alpha;
    mouse_k = mouse_k;
  }

-- What `calib_validate_blob` warns of.
pub data Warning : Type 0 where
  bad_gyro_bias bad_gyro_scale : ℕ → Warning
  bad_alpha bad_mouse_k : Warning

module _ (fp : Floats) (fabsf : fp.Float → fp.Float) where
  open fp use {Float, float_of_int, flt}

  -- One round of the loop of `calib_validate_blob`.
  unfoldable pub axis_warnings : ℕ → Float → Float → List Warning
  axis_warnings i bias scale =
      (if flt (float_of_int (pos 100)) (fabsf bias) then bad_gyro_bias i ∷ [] else [])
      ++ (if flt (float_of_int (pos 10)) (fabsf scale) then bad_gyro_scale i ∷ [] else [])

  -- `x < 0.0f || x > 1.0f`
  unfoldable pub not_fraction : Float → Bool
  not_fraction x = flt x (float_of_int (pos 0)) || flt (float_of_int (pos 1)) x

  unfoldable pub blob_warnings : lg_magic.Kernel.Airmouse.Calib Float → List Warning
  blob_warnings blob =
      axis_warnings 0 blob.gyro_bias.at0 blob.gyro_scale.at0
      ++ (axis_warnings 1 blob.gyro_bias.at1 blob.gyro_scale.at1
          ++ (axis_warnings 2 blob.gyro_bias.at2 blob.gyro_scale.at2
              ++ ((if not_fraction blob.alpha then bad_alpha ∷ [] else [])
                  ++ (if not_fraction blob.mouse_k then bad_mouse_k ∷ [] else []))))

  -- Whether `calib_validate_blob` returns -1: after a warning.
  unfoldable pub calib_validate_blob : lg_magic.Kernel.Airmouse.Calib Float → Bool
  calib_validate_blob blob = elim (blob_warnings blob) [ [] ↦ false | w ∷ ws ↦ true ]
