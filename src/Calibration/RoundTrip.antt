-- ===== src/Calibration/RoundTrip.antt =====
-- Loading a calibration that tools/src/calib.c saved.
use lg_magic.Airmouse.{Calib, calib_init_identity}
use lg_magic.Calibration.{
  bias_key, matrix_key, scale_key, accel_key, gyro_key, round6, arr3, calib_tree, calib_save_json,
  load_accel, load_gyro, load_root, calib_load,
}
use lg_magic.Json.{Json, num, arr, obj, no_items, item, no_members, member}
use lg_magic.Json.Access.{
  find_member, json_obj_get, fill3, read_row, json_get_float3, fill_rows, read_matrix,
  json_get_mat3, append_item, json_arr_add, append_member, json_obj_add,
}
use lg_magic.Json.Parser.{json_parse}
use lg_magic.Json.RoundTrip.{json_parse-json_dumps}
use lg_magic.Json.Writable.{IsReadable, IsWritable, AreWritable, MembersAreWritable}
use lg_magic.Json.Strings.{is_writable}
use lg_magic.Json.Writer.{json_dumps}
use lg_magic.Prelude.{ℕ, ◌<◌, ◌≡◌, refl, Bool, true, List, All, ◌+◌, arith}
use lg_magic.Prelude.Float.{Floats}
use lg_magic.Prelude.Result.{ok}
use lg_magic.Prelude.Text.{same_bytes}
use lg_magic.Prelude.Three.{Three}

abbrev pub map3 : {A B : Type 0} → (A → B) → Three A → Three B
map3 f v = record { at0 = f v.at0; at1 = f v.at1; at2 = f v.at2 }

abbrev pub map_calib : {A B : Type 0} → (A → B) → Calib A → Calib B
map_calib f c = record {
  accel_bias = map3 f c.accel_bias;
  accel_matrix = map3 (map3 f) c.accel_matrix;
  gyro_bias = map3 f c.gyro_bias;
  gyro_scale = map3 f c.gyro_scale;
}

-- The predicate holds of each number.
abbrev pub All3 : {A : Type 0} → (A → Type 0) → Three A → Type 0
All3 P v = P v.at0 × P v.at1 × P v.at2

abbrev pub AllCalib : {A : Type 0} → (A → Type 0) → Calib A → Type 0
AllCalib P c =
    All3 P c.accel_bias × All3 (All3 P) c.accel_matrix × All3 P c.gyro_bias × All3 P c.gyro_scale

-- The trees of a vector, a matrix and a calibration.
module _ {D : Type 0} where
  row_tree : Three D → Json D
  row_tree v = arr (item (num v.at0) (item (num v.at1) (item (num v.at2) no_items)))

  matrix_tree : Three (Three D) → Json D
  matrix_tree m =
      arr (item (row_tree m.at0) (item (row_tree m.at1) (item (row_tree m.at2) no_items)))

  pair_tree : List ℕ → Json D → List ℕ → Json D → Json D
  pair_tree k x l y = obj (member k x (member l y no_members))

  tree_of : Calib D → Json D
  unfolding row_tree matrix_tree pair_tree
  tree_of c =
      pair_tree accel_key
        (pair_tree bias_key (row_tree c.accel_bias) matrix_key (matrix_tree c.accel_matrix))
        gyro_key (pair_tree bias_key (row_tree c.gyro_bias) scale_key (row_tree c.gyro_scale))

  load_root-tree_of : (c old : Calib D) → load_root (tree_of c) old ≡ (ok tt, c)
  unfolding tree_of row_tree matrix_tree pair_tree load_root load_gyro load_accel json_obj_get
      find_member same_bytes json_get_float3 json_get_mat3 read_row read_matrix fill3 fill_rows
  load_root-tree_of c old = refl

module _ {D : Type 0} (strtod : List ℕ → D × ℕ × Bool) (not_finite scientific : D → Bool)
    (text_g text_f6 : D → List ℕ) where
  calib_tree_lem :
      (c : Calib D)
      → calib_tree strtod text_f6 c ≡ ok (tree_of (map_calib (round6 strtod text_f6) c))
  unfolding calib_tree tree_of row_tree matrix_tree pair_tree arr3 json_arr_add json_obj_add
      append_item append_member
  calib_tree_lem c = refl

  IsWritable-row_tree :
      (v : Three D) (depth : ℕ)
      → depth < 32
      → All3 (IsReadable strtod not_finite scientific text_g text_f6) v
      → IsWritable strtod not_finite scientific text_g text_f6 depth (row_tree v)
  unfolding IsWritable AreWritable row_tree
  IsWritable-row_tree v depth shallow (x, y, z) = (shallow, (x, (y, (z, tt))))

  IsWritable-matrix_tree :
      (m : Three (Three D)) (depth : ℕ)
      → depth + 1 < 32
      → All3 (All3 (IsReadable strtod not_finite scientific text_g text_f6)) m
      → IsWritable strtod not_finite scientific text_g text_f6 depth (matrix_tree m)
  unfolding IsWritable AreWritable matrix_tree
  IsWritable-matrix_tree m depth shallow (x, y, z) = (
    omega (arith, shallow),
    (
      IsWritable-row_tree m.at0 (depth + 1) shallow x,
      (
        IsWritable-row_tree m.at1 (depth + 1) shallow y,
        (IsWritable-row_tree m.at2 (depth + 1) shallow z, tt),
      ),
    ),
  )

  IsWritable-pair_tree :
      (k : List ℕ) (x : Json D) (l : List ℕ) (y : Json D) (depth : ℕ)
      → depth < 32
      → All (λ c. is_writable c ≡ true) k
      → All (λ c. is_writable c ≡ true) l
      → IsWritable strtod not_finite scientific text_g text_f6 (depth + 1) x
      → IsWritable strtod not_finite scientific text_g text_f6 (depth + 1) y
      → IsWritable strtod not_finite scientific text_g text_f6 depth (pair_tree k x l y)
  unfolding IsWritable MembersAreWritable pair_tree
  IsWritable-pair_tree k x l y depth shallow k_fine l_fine x_fine y_fine =
      (shallow, (k_fine, x_fine, (l_fine, y_fine, tt)))

  IsWritable-tree_of :
      (c : Calib D)
      → AllCalib (IsReadable strtod not_finite scientific text_g text_f6) c
      → IsWritable strtod not_finite scientific text_g text_f6 0 (tree_of c)
  unfolding tree_of
  IsWritable-tree_of c (ab, m, gb, gs) =
      let bias_fine : All (λ c. is_writable c ≡ true) bias_key =
        (refl, (refl, (refl, (refl, tt)))) in
      IsWritable-pair_tree accel_key _ gyro_key _ 0 (omega arith)
        (refl, (refl, (refl, (refl, (refl, tt))))) (refl, (refl, (refl, (refl, tt))))
        (IsWritable-pair_tree bias_key _ matrix_key _ 1 (omega arith) bias_fine
          (refl, (refl, (refl, (refl, (refl, (refl, tt))))))
          (IsWritable-row_tree c.accel_bias 2 (omega arith) ab)
          (IsWritable-matrix_tree c.accel_matrix 2 (omega arith) m))
        (IsWritable-pair_tree bias_key _ scale_key _ 1 (omega arith) bias_fine
          (refl, (refl, (refl, (refl, (refl, tt)))))
          (IsWritable-row_tree c.gyro_bias 2 (omega arith) gb)
          (IsWritable-row_tree c.gyro_scale 2 (omega arith) gs))

  json_parse-tree_of :
      (c : Calib D)
      → AllCalib (IsReadable strtod not_finite scientific text_g text_f6) c
      → json_parse strtod (json_dumps not_finite scientific text_g text_f6 (tree_of c))
        ≡ ok (tree_of c)
  json_parse-tree_of c readable =
      json_parse-json_dumps strtod not_finite scientific text_g text_f6 (tree_of c)
        (IsWritable-tree_of c readable)

module _ (fp : Floats) (strtod : List ℕ → fp.Double × ℕ × Bool)
    (not_finite scientific : fp.Double → Bool) (text_g text_f6 : fp.Double → List ℕ) where
  -- When `strtod` reads the text of each rounded number of the calibration back: `calib_save_json`
  -- writes a text, of which `calib_load` gives the calibration rounded to six decimals.
  pub calib_load-calib_save_json :
      (c : Calib fp.Double)
      → AllCalib
          (IsReadable strtod not_finite scientific text_g text_f6)
          (map_calib (round6 strtod text_f6) c)
      → (saved : List ℕ) × (calib_save_json strtod text_f6 not_finite scientific text_g c
          ≡ ok saved)
        × (calib_load fp strtod saved ≡ (ok tt, map_calib (round6 strtod text_f6) c))
  unfolding calib_save_json calib_load
  calib_load-calib_save_json c readable =
      let rounded = map_calib (round6 strtod text_f6) c in
      (
        json_dumps not_finite scientific text_g text_f6 (tree_of rounded),
        rw (calib_tree_lem strtod not_finite scientific text_g text_f6 c) refl,
        rw
            (
              json_parse-tree_of strtod not_finite scientific text_g text_f6 rounded readable,
              calib_load,
            )
            (load_root-tree_of rounded (calib_init_identity fp)),
      )
