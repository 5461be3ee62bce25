-- ===== src/DeviceConfig/Reading.antt =====
-- What a device configuration that tools/src/profiles.c has read from a file is like.
use Prim.Native.String.{String}
use lg_magic.DeviceConfig.{
  DeviceConfig, parse_button, parse_map, map_field, num_field, profile_parse_fields, parse_profile,
  read_profile, parse_profiles, profiles_field, device_config_validate, from_table,
  device_config_from_toml, profile_ensure, str_field, airmouse_field,
}
use mathlib.Core.Path.{subst}
use lg_magic.Prelude.{
  ◌≡◌, refl, sym, ap, Option, none, some, List, [], ◌∷◌, ◌++◌, arith, if◌then◌else◌, All,
  All-append, Option-cases, inl, inr,
}
use lg_magic.Prelude.Float.{Floats}
use lg_magic.Prelude.Result.{ok, >>=-eq-ok, ok-injective}
use lg_magic.Prelude.Text.{str_eq, str_eq_iff}
use lg_magic.Profile.{
  Profile, ButtonMapEntry, set_entry, find_profile, profile_init, profile_validate,
}
use lg_magic.Profile.Buttons.{or_else, IsDistinct, set_entry-IsDistinct}
use lg_magic.Toml.{Toml, Entries, str, int, float, bool, arr, table, nil, entry, table_get_short}

-- No two profiles share a name.
abbrev pub HasDistinctNames : {D : Type 0} → List (Profile D) → Type 0
HasDistinctNames [] = Unit
HasDistinctNames (p ∷ ps) = (find_profile ps p.name ≡ none) × HasDistinctNames ps

abbrev pub HasDistinctMap : {D : Type 0} → Profile D → Type 0
HasDistinctMap p = IsDistinct p.map

pub find_profile-append :
    {D : Type 0} (ps : List (Profile D)) (p : Profile D) (name : String)
    → find_profile ps name ≡ none
    → find_profile (ps ++ p ∷ []) name ≡ (if str_eq p.name name then some p else none)
unfolding find_profile
find_profile-append [] p name h = refl
find_profile-append (q ∷ ps) p name h = ground (arith, find_profile-append ps p name)

find_profile-append_any :
    {D : Type 0} (ps : List (Profile D)) (p : Profile D) (name : String)
    → find_profile (ps ++ p ∷ []) name
      ≡ or_else (find_profile ps name) (if str_eq p.name name then some p else none)
unfolding find_profile
find_profile-append_any [] p name = refl
find_profile-append_any (q ∷ ps) p name = ground (arith, find_profile-append_any ps p name)

HasDistinctNames-append :
    {D : Type 0} (ps : List (Profile D)) (p : Profile D)
    → HasDistinctNames ps
    → find_profile ps p.name ≡ none
    → HasDistinctNames (ps ++ p ∷ [])
unfolding find_profile
HasDistinctNames-append [] p d h = (refl, tt)
HasDistinctNames-append (q ∷ ps) p d h = (
  ground
      (arith, find_profile-append ps p q.name, str_eq_iff q.name p.name, str_eq_iff p.name q.name),
  HasDistinctNames-append ps p d.1 (ground arith),
)

parse_map-IsDistinct :
    {D : Type 0} (es : Entries D) (m : List ButtonMapEntry) {m' : List ButtonMapEntry}
    → IsDistinct m
    → parse_map es m ≡ ok m'
    → IsDistinct m'
unfolding parse_map
parse_map-IsDistinct nil m d h = subst IsDistinct (ok-injective h) d
parse_map-IsDistinct (entry k v es) m d h =
    let ((from, to), parsed, rest) = >>=-eq-ok (parse_button k v) _ h in
    parse_map-IsDistinct es (set_entry m from to) (set_entry-IsDistinct m from to d) rest

map_field-IsDistinct :
    {D : Type 0} (t : Toml D) (m m' : List ButtonMapEntry)
    → IsDistinct m
    → map_field t m ≡ ok m'
    → IsDistinct m'
unfolding map_field
map_field-IsDistinct {D = D} t m m' d h = go (table_get_short t "button_map") refl
  where
    go : (o : Option (Toml D)) → table_get_short t "button_map" ≡ o → IsDistinct m'
    go none e = subst IsDistinct (ground arith) d
    go (some (table es)) e = parse_map-IsDistinct es m d (ground arith)
    go (some (str s)) e = absurd (ground arith)
    go (some (int n)) e = absurd (ground arith)
    go (some (float x)) e = absurd (ground arith)
    go (some (bool b)) e = absurd (ground arith)
    go (some (arr xs)) e = absurd (ground arith)

module _ (fp : Floats) where
  open fp use {Double}

  profile_parse_fields_lem :
      (p : Profile Double) (t : Toml Double) {q : Profile Double}
      → HasDistinctMap p
      → profile_parse_fields fp p t ≡ ok q
      → HasDistinctMap q × (q.name ≡ p.name)
  unfolding profile_parse_fields
  profile_parse_fields_lem p t d h =
      let (_, _, h₁) = >>=-eq-ok (num_field fp t "scroll_speed" _) _ h in
      let (_, _, h₂) = >>=-eq-ok (num_field fp t "sensitivity" _) _ h₁ in
      let (_, _, h₃) = >>=-eq-ok (num_field fp t "lpf_alpha" _) _ h₂ in
      let (m, parsed, h₄) = >>=-eq-ok (map_field t p.map) _ h₃ in
      let e = ok-injective h₄ in
      (
        subst HasDistinctMap e (map_field-IsDistinct t p.map m d parsed),
        ap (λ (r : Profile Double). r.name) (sym e),
      )

  -- The profiles read so far: each name once, each keycode once in each map.
  abbrev pub AreRead : List (Profile Double) → Type 0
  AreRead ps = HasDistinctNames ps × All HasDistinctMap ps

  read_profile-AreRead :
      (key : String) (t : Toml Double) (ps : List (Profile Double)) {ps' : List (Profile Double)}
      → AreRead ps
      → find_profile ps key ≡ none
      → read_profile fp key t ps ≡ ok ps'
      → AreRead ps'
  unfolding read_profile profile_init
  read_profile-AreRead key t ps r fresh h =
      let (p, parsed, h₁) = >>=-eq-ok (profile_parse_fields fp (profile_init fp key) t) _ h in
      let (_, valid, h₂) = >>=-eq-ok (profile_validate fp p) _ h₁ in
      let (distinct, named) = profile_parse_fields_lem (profile_init fp key) t tt parsed in
      subst AreRead (ok-injective h₂) (
        (
          HasDistinctNames-append ps p r.0 (rw named fresh),
          All-append HasDistinctMap ps (p ∷ []) r.1 (distinct, tt),
        ))

  parse_profile-AreRead :
      (key : String) (t : Toml Double) (ps : List (Profile Double)) {ps' : List (Profile Double)}
      → AreRead ps
      → parse_profile fp key t ps ≡ ok ps'
      → AreRead ps'
  unfolding parse_profile
  parse_profile-AreRead key t ps r h = elim (Option-cases (find_profile ps key)) [
    | inr (p, found) ↦ absurd (ground arith)
    | inl fresh ↦ read_profile-AreRead key t ps r fresh (ground arith)
  ]

  parse_profiles-AreRead :
      (es : Entries Double) (ps : List (Profile Double)) {ps' : List (Profile Double)}
      → AreRead ps
      → parse_profiles fp es ps ≡ ok ps'
      → AreRead ps'
  unfolding parse_profiles
  parse_profiles-AreRead nil ps r h = subst AreRead (ok-injective h) r
  parse_profiles-AreRead (entry key (table es) rest) ps r h =
      let (ps₁, parsed, h₁) = >>=-eq-ok (parse_profile fp key (table es) ps) _ h in
      parse_profiles-AreRead rest ps₁ (parse_profile-AreRead key (table es) ps r parsed) h₁
  parse_profiles-AreRead (entry key (str s) rest) ps r h = absurd (ground arith)
  parse_profiles-AreRead (entry key (int n) rest) ps r h = absurd (ground arith)
  parse_profiles-AreRead (entry key (float x) rest) ps r h = absurd (ground arith)
  parse_profiles-AreRead (entry key (bool b) rest) ps r h = absurd (ground arith)
  parse_profiles-AreRead (entry key (arr xs) rest) ps r h = absurd (ground arith)

  profiles_field-AreRead :
      (t : Toml Double) (ps : List (Profile Double)) → profiles_field fp t ≡ ok ps → AreRead ps
  unfolding profiles_field
  profiles_field-AreRead t ps h = go (table_get_short t "profiles") refl
    where
      go : (o : Option (Toml Double)) → table_get_short t "profiles" ≡ o → AreRead ps
      go none e = subst AreRead {x = []} (ground arith) (tt, tt)
      go (some (table es)) e = parse_profiles-AreRead es [] (tt, tt) (ground arith)
      go (some (str s)) e = absurd (ground arith)
      go (some (int n)) e = absurd (ground arith)
      go (some (float x)) e = absurd (ground arith)
      go (some (bool b)) e = absurd (ground arith)
      go (some (arr xs)) e = absurd (ground arith)

  -- What the daemon relies on in a configuration: it passes `device_config_validate`, no two
  -- profiles share a name, and no button map has a keycode twice.
  pub record IsWellFormed (dc : DeviceConfig Double) : Type 0 where
    pub validated : device_config_validate fp dc ≡ ok tt
    pub names : HasDistinctNames dc.profiles
    pub maps : All HasDistinctMap dc.profiles

  from_table-IsWellFormed :
      (root : Toml Double) (dc : DeviceConfig Double) {dc' : DeviceConfig Double}
      → from_table fp root dc ≡ ok dc'
      → IsWellFormed dc'
  unfolding from_table
  from_table-IsWellFormed root dc h =
      let (_, _, h₁) = >>=-eq-ok (str_field root "profile" _ _) _ h in
      let (_, _, h₂) = >>=-eq-ok (str_field root "calib" _ _) _ h₁ in
      let (_, _, h₃) = >>=-eq-ok (airmouse_field root _) _ h₂ in
      let (ps, parsed, h₄) = >>=-eq-ok (profiles_field fp root) _ h₃ in
      let (_, valid, h₅) = >>=-eq-ok (device_config_validate fp _) _ h₄ in
      let (names, maps) = profiles_field-AreRead root ps parsed in
      subst IsWellFormed (ok-injective h₅)
        (record { validated = valid; names = names; maps = maps })

  -- Whatever the document, a configuration that `device_config_from_toml` accepts passes
  -- `device_config_validate`, has no two profiles of one name, and no button map with a keycode
  -- twice.
  pub device_config_from_toml-IsWellFormed :
      (root : Option (Toml Double)) (dc dc' : DeviceConfig Double)
      → device_config_from_toml fp root dc ≡ ok dc'
      → IsWellFormed dc'
  unfolding device_config_from_toml
  device_config_from_toml-IsWellFormed none dc dc' h = absurd (ground arith)
  device_config_from_toml-IsWellFormed (some (table es)) dc dc' h =
      from_table-IsWellFormed (table es) dc h
  device_config_from_toml-IsWellFormed (some (str s)) dc dc' h = absurd (ground arith)
  device_config_from_toml-IsWellFormed (some (int n)) dc dc' h = absurd (ground arith)
  device_config_from_toml-IsWellFormed (some (float x)) dc dc' h = absurd (ground arith)
  device_config_from_toml-IsWellFormed (some (bool b)) dc dc' h = absurd (ground arith)
  device_config_from_toml-IsWellFormed (some (arr xs)) dc dc' h = absurd (ground arith)

  -- `device_config_profile_ensure` makes the name one of a profile, leaves what every other name
  -- finds, and finds the profile that was there if one was; names and maps stay distinct.
  pub profile_ensure_lem :
      (dc : DeviceConfig Double) (name : String)
      → AreRead dc.profiles
      → let ps = (profile_ensure fp dc name).profiles in
        ((other : String)
          → find_profile ps other
            ≡ or_else
                (find_profile dc.profiles other)
                (if str_eq name other then some (profile_init fp name) else none))
        × AreRead ps
  unfolding profile_ensure profile_init
  profile_ensure_lem dc name r = elim (Option-cases (find_profile dc.profiles name)) [
    | inr (p, found) ↦
        rw (found, profile_ensure) ((λ other. ground (arith, str_eq_iff name other)), r)
    | inl missing ↦
        rw (missing, profile_ensure)
          (
            (λ other. find_profile-append_any dc.profiles (profile_init fp name) other),
            (
              HasDistinctNames-append dc.profiles (profile_init fp name) r.0 missing,
              All-append HasDistinctMap dc.profiles (profile_init fp name ∷ []) r.1 (tt, tt),
            ),
          )
  ]
