-- ===== src/Config/Precedence.antt =====
-- Which file a setting of tools/src/config.c comes from.
use Prim.Native.String.{String}
use lg_magic.Config.{
  Key, x_imu_device, x_hidraw_device, x_default_calib, x_lpf_alpha, x_mouse_scale, x_madgwick_beta,
  x_alpha, x_mouse_k, x_gyro_scale, key_eq, Config, Loaded, key_bit, text_value, number_value,
  set_field, set_key, set_from_value, merge_keys, merge_file, merge_named, set_defaults,
  nothing_loaded, config_load, config_load_daemon,
}
use lg_magic.Prelude.{
  ℕ, map, ◌≡◌, refl, ap, ◌∙◌, Bool, true, false, ◌||◌, Option, none, some, List, [], ◌∷◌, arith,
  if◌then◌else◌, Bool-cases, inl, inr,
}
use lg_magic.Prelude.Float.{Floats}
use lg_magic.Toml.{Toml, table_get_short}

-- A setting: a text, or a number.
pub data Setting (D : Type 0) : Type 0 where
  text : Option String → Setting D
  number : D → Setting D

abbrev pub setting : {D : Type 0} → Key → Config D → Setting D
setting x_imu_device c = text c.imu_device
setting x_hidraw_device c = text c.hidraw_device
setting x_default_calib c = text c.default_calib
setting x_lpf_alpha c = number c.lpf_alpha
setting x_mouse_scale c = number c.mouse_scale
setting x_madgwick_beta c = number c.madgwick_beta
setting x_alpha c = number c.alpha
setting x_mouse_k c = number c.mouse_k
setting x_gyro_scale c = number c.gyro_scale_default

abbrev pub is_text : Key → Bool
is_text x_imu_device = true
is_text x_hidraw_device = true
is_text x_default_calib = true
is_text k = false

abbrev pub key_name : Key → String
key_name x_imu_device = "imu_device"
key_name x_hidraw_device = "hidraw_device"
key_name x_default_calib = "default_calib"
key_name x_lpf_alpha = "lpf_alpha"
key_name x_mouse_scale = "mouse_scale"
key_name x_madgwick_beta = "madgwick_beta"
key_name x_alpha = "alpha"
key_name x_mouse_k = "mouse_k"
key_name x_gyro_scale = "gyro_scale_default"

abbrev pub or_given : {A : Type 0} → Option A → A → A
or_given none a = a
or_given (some b) a = b

abbrev pub is_given : {A : Type 0} → Option A → Bool
is_given none = false
is_given (some b) = true

key_bit-key_name : (k : Key) → key_bit (key_name k) ≡ some k
unfolding key_bit
key_bit-key_name x_imu_device = refl
key_bit-key_name x_hidraw_device = refl
key_bit-key_name x_default_calib = refl
key_bit-key_name x_lpf_alpha = refl
key_bit-key_name x_mouse_scale = refl
key_bit-key_name x_madgwick_beta = refl
key_bit-key_name x_alpha = refl
key_bit-key_name x_mouse_k = refl
key_bit-key_name x_gyro_scale = refl

abbrev all_keys : List Key
all_keys =
    x_imu_device ∷ x_hidraw_device ∷ x_default_calib ∷ x_lpf_alpha ∷ x_mouse_scale ∷ x_madgwick_beta
    ∷ x_alpha ∷ x_mouse_k ∷ x_gyro_scale ∷ []

abbrev among : Key → List Key → Bool
among k [] = false
among k (j ∷ js) = key_eq j k || among k js

among_all : (k : Key) → among k all_keys ≡ true
among_all x_imu_device = refl
among_all x_hidraw_device = refl
among_all x_default_calib = refl
among_all x_lpf_alpha = refl
among_all x_mouse_scale = refl
among_all x_madgwick_beta = refl
among_all x_alpha = refl
among_all x_mouse_k = refl
among_all x_gyro_scale = refl

key_eq-eq : (j k : Key) → key_eq j k ≡ true → j ≡ k
key_eq-eq j k same = ground arith

module _ (fp : Floats) where
  open fp use {Double}

  -- What a value gives for a key: nothing, where its type is wrong.
  abbrev pub accepted : Key → Toml Double → Option (Setting Double)
  accepted k v =
      if is_text k
      then elim (text_value v) [ none ↦ none | some s ↦ some (text s) ]
      else elim (number_value fp v) [ none ↦ none | some d ↦ some (number d) ]

  abbrev pub given_value : Key → Option (Toml Double) → Option (Setting Double)
  given_value k none = none
  given_value k (some v) = accepted k v

  -- What a file gives for a key.
  abbrev pub given : Key → Option (Toml Double) → Option (Setting Double)
  given k none = none
  given k (some root) = given_value k (table_get_short root (key_name k))

  -- The setting of a key, and whether it is explicit.
  abbrev pub state_of : Key → Loaded Double → Setting Double × Bool
  state_of k st = (setting k st.config, st.explicit k)

  abbrev pub overlay : Option (Setting Double) → Setting Double × Bool → Setting Double × Bool
  overlay none s = s
  overlay (some s) old = (s, true)

  state_of-set_key :
      (st : Loaded Double) (j k : Key) (v : Option (Toml Double))
      → state_of k (set_key fp st j v)
        ≡ (if key_eq j k then overlay (given_value k v) (state_of k st) else state_of k st)
  unfolding set_key set_field
  state_of-set_key st j k none = ground arith
  state_of-set_key st x_imu_device k (some v) = ground arith
  state_of-set_key st x_hidraw_device k (some v) = ground arith
  state_of-set_key st x_default_calib k (some v) = ground arith
  state_of-set_key st x_lpf_alpha k (some v) = ground arith
  state_of-set_key st x_mouse_scale k (some v) = ground arith
  state_of-set_key st x_madgwick_beta k (some v) = ground arith
  state_of-set_key st x_alpha k (some v) = ground arith
  state_of-set_key st x_mouse_k k (some v) = ground arith
  state_of-set_key st x_gyro_scale k (some v) = ground arith

  state_of-set_from_value :
      (st : Loaded Double) (j k : Key) (root : Toml Double)
      → state_of k (set_from_value fp st (key_name j) (table_get_short root (key_name j)))
        ≡ (if key_eq j k then overlay (given k (some root)) (state_of k st) else state_of k st)
  unfolding set_from_value
  state_of-set_from_value st j k root = elim (Bool-cases (key_eq j k)) [
    | inl same ↦ ground (
      arith,
      key_bit-key_name j,
      key_eq-eq j k same,
      state_of-set_key st j k (table_get_short root (key_name j)),
    )
    | inr other ↦
        ground
          (arith, key_bit-key_name j, state_of-set_key st j k (table_get_short root (key_name j)))
  ]

  overlay_twice :
      (g : Option (Setting Double)) (s : Setting Double × Bool)
      → overlay g (overlay g s) ≡ overlay g s
  overlay_twice none s = refl
  overlay_twice (some g) s = refl

  state_of-merge_keys :
      (js : List Key) (st : Loaded Double) (k : Key) (root : Toml Double)
      → state_of k (merge_keys fp st (map key_name js) root)
        ≡ (if among k js then overlay (given k (some root)) (state_of k st) else state_of k st)
  unfolding merge_keys
  state_of-merge_keys [] st k root = refl
  state_of-merge_keys (j ∷ js) st k root =
      let st' = set_from_value fp st (key_name j) (table_get_short root (key_name j)) in
      let later = state_of-merge_keys js st' k root in
      let now = state_of-set_from_value st j k root in
      later
      ∙ rw now (elim (Bool-cases (key_eq j k)) [
        | inl same ↦ elim (Bool-cases (among k js)) [
          | inl again ↦ rw (same, again) (overlay_twice (given k (some root)) (state_of k st))
          | inr last ↦ rw (same, last) refl
        ]
        | inr other ↦ rw other refl
      ])

  state_of-merge_file :
      (st : Loaded Double) (k : Key) (file : Option (Toml Double))
      → state_of k (merge_file fp st file) ≡ overlay (given k file) (state_of k st)
  unfolding merge_file
  state_of-merge_file st k none = refl
  state_of-merge_file st k (some root) =
      state_of-merge_keys all_keys st k root ∙ rw (among_all k) refl

  abbrev pub given_named : Key → Option (Option (Toml Double)) → Option (Setting Double)
  given_named k none = none
  given_named k (some file) = given k file

  state_of-merge_named :
      (st : Loaded Double) (k : Key) (file : Option (Option (Toml Double)))
      → state_of k (merge_named fp st file) ≡ overlay (given_named k file) (state_of k st)
  unfolding merge_named
  state_of-merge_named st k none = refl
  state_of-merge_named st k (some file) = state_of-merge_file st k file

  -- Each setting is that of the extra file where this gives the key a value of the right type, or
  -- else that of the user's file, or else that of the system's file, or else the default; and it is
  -- explicit exactly where one of the files gives it.
  pub config_load_precedence :
      (decimal : ℕ → ℕ → Double) (system : Option (Toml Double))
      (user extra : Option (Option (Toml Double))) (k : Key)
      → let st = config_load fp decimal system user extra in
        (setting k st.config, st.explicit k)
        ≡ overlay (given_named k extra) (
            overlay
              (given_named k user)
              (overlay (given k system) (setting k (set_defaults fp decimal), false)))
  unfolding config_load
  config_load_precedence decimal system user extra k =
      let first = merge_file fp (nothing_loaded fp decimal) system in
      state_of-merge_named (merge_named fp first user) k extra
      ∙ ap (λ s. overlay (given_named k extra) s)
          (state_of-merge_named first k user
            ∙ ap (λ s. overlay (given_named k user) s)
                (state_of-merge_file (nothing_loaded fp decimal) k system))

  -- The daemon takes each setting from its one file, or else the default.
  config_load_daemon_lem :
      (decimal : ℕ → ℕ → Double) (file : Option (Toml Double)) (k : Key)
      → let st = config_load_daemon fp decimal file in
        (setting k st.config, st.explicit k)
        ≡ overlay (given k file) (setting k (set_defaults fp decimal), false)
  unfolding config_load_daemon
  config_load_daemon_lem decimal file k = state_of-merge_file (nothing_loaded fp decimal) k file
