-- ===== src/DeviceConfig/Writing.antt =====
-- `device_config_to_toml` of tools/src/profiles.c; `none` is the NULL of a tree that it could not
-- build.
use Prim.Native.String.{String}
use lg_magic.Keymap.{code_to_name}
use lg_magic.DeviceConfig.{DeviceConfig}
use lg_magic.Prelude.{Bool, Option, none, some, List, [], ◌∷◌, if◌then◌else◌}
use lg_magic.Profile.{Profile, ButtonMapEntry}
use lg_magic.Toml.{Toml, Entries, str, float, bool, table, nil, add}

infixl 5 ◌>>=◌
abbrev ◌>>=◌ : {A B : Type 0} → Option A → (A → Option B) → Option B
some a >>= f = f a
none >>= f = none

-- `if (present && toml_table_add(t, key, v) < 0) goto oom;`
unfoldable pub add_if : {D : Type 0} → Bool → Entries D → String → Toml D → Option (Entries D)
add_if present t key v = if present then add t key v else some t

-- The loop over the button map.
unfoldable pub map_to_toml : {D : Type 0} → List ButtonMapEntry → Entries D → Option (Entries D)
map_to_toml [] bm = some bm
map_to_toml (e ∷ es) bm = do
  from ← code_to_name e.from
  to ← code_to_name e.to
  bm' ← add bm from (str to)
  map_to_toml es bm'

-- `if (p->nmap > 0) { ... }`
unfoldable pub add_map : {D : Type 0} → List ButtonMapEntry → Entries D → Option (Entries D)
add_map [] t = some t
add_map (e ∷ es) t = do bm ← map_to_toml (e ∷ es) nil; add t "button_map" (table bm)

-- The table of a profile.
unfoldable pub profile_to_toml : {D : Type 0} → Profile D → Option (Entries D)
profile_to_toml p = do
  t₁ ← add_if p.has_scroll nil "scroll_speed" (float p.scroll_speed)
  t₂ ← add_if p.has_sens t₁ "sensitivity" (float p.sensitivity)
  t₃ ← add_if p.has_lpf t₂ "lpf_alpha" (float p.lpf_alpha)
  add_map p.map t₃

-- The loop over the profiles. The source adds each table before it fills it, which comes to the
-- same, since an error frees the whole tree.
unfoldable pub profiles_to_toml : {D : Type 0} → List (Profile D) → Entries D → Option (Entries D)
profiles_to_toml [] acc = some acc
profiles_to_toml (p ∷ ps) acc = do
  t ← profile_to_toml p
  acc' ← add acc p.name (table t)
  profiles_to_toml ps acc'

unfoldable pub add_profiles : {D : Type 0} → List (Profile D) → Entries D → Option (Entries D)
add_profiles [] t = some t
add_profiles (p ∷ ps) t = do
  profiles ← profiles_to_toml (p ∷ ps) nil
  add t "profiles" (table profiles)

unfoldable pub add_calib : {D : Type 0} → Option String → Entries D → Option (Entries D)
add_calib none t = some t
add_calib (some path) t = add t "calib" (str path)

unfoldable pub device_config_to_toml : {D : Type 0} → DeviceConfig D → Option (Toml D)
device_config_to_toml dc = do
  t₁ ← add nil "profile" (str dc.profile)
  t₂ ← add_calib dc.calib t₁
  t₃ ← add_if dc.has_airmouse t₂ "airmouse" (bool dc.airmouse)
  t₄ ← add_profiles dc.profiles t₃
  some (table t₄)
