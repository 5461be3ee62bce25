-- ===== src/DeviceConfig/RoundTrip.antt =====
-- A device configuration that tools/src/profiles.c writes is read back as it was.
use Prim.Native.String.{String}
use lg_magic.DeviceConfig.{
  DeviceConfig, device_config_init, str_field, calib_of, airmouse_field, profiles_field,
  validate_profiles, device_config_validate, from_table, device_config_from_toml,
}
use lg_magic.DeviceConfig.ProfileRoundTrip.{IsCanonical}
use lg_magic.DeviceConfig.ProfilesRoundTrip.{
  profiles_entries, profiles_to_toml-append, HasFreshNames-nil, HasNewNames-nil,
  parse_profiles-append, AreKnown,
}
use lg_magic.DeviceConfig.Reading.{HasDistinctNames, HasDistinctMap, IsWellFormed}
use lg_magic.DeviceConfig.Writing.{add_if, add_profiles, add_calib, device_config_to_toml}
use lg_magic.Prelude.{◌≡◌, refl, Bool, true, false, Option, none, some, List, [], ◌∷◌, arith, All}
use lg_magic.Prelude.Float.{Floats}
use lg_magic.Prelude.Result.{ok}
use lg_magic.Profile.{Profile}
use lg_magic.Profile.Merge.{IsKnown}
use lg_magic.Toml.{Toml, Entries, str, bool, table, nil, entry, table_get_short, add}

module _ (fp : Floats) where
  open fp use {Double}

  abbrev calib_entries : Option String → Entries Double → Entries Double
  calib_entries none rest = rest
  calib_entries (some path) rest = entry "calib" (str path) rest

  abbrev airmouse_entries : Bool → Bool → Entries Double → Entries Double
  airmouse_entries true b rest = entry "airmouse" (bool b) rest
  airmouse_entries false b rest = rest

  abbrev list_entries : List (Profile Double) → Entries Double
  list_entries [] = nil
  list_entries (p ∷ ps) = entry "profiles" (table (profiles_entries (p ∷ ps))) nil

  -- The entries that a configuration becomes.
  abbrev config_entries : DeviceConfig Double → Entries Double
  config_entries dc = entry "profile" (str dc.profile) (
      calib_entries dc.calib
        (airmouse_entries dc.has_airmouse dc.airmouse (list_entries dc.profiles)))

  add_calib_written :
      (name : String) (c : Option String)
      → add_calib c (entry "profile" (str name) nil)
        ≡ some (entry "profile" (str name) (calib_entries c nil))
  unfolding add_calib add
  add_calib_written name c = ground arith

  add_airmouse_written :
      (name : String) (c : Option String) (h b : Bool)
      → add_if h (entry "profile" (str name) (calib_entries c nil)) "airmouse" (bool b)
        ≡ some (entry "profile" (str name) (calib_entries c (airmouse_entries h b nil)))
  unfolding add_if add
  add_airmouse_written name c h b = ground arith

  add_profiles_written :
      (name : String) (c : Option String) (h b : Bool) (ps : List (Profile Double))
      → All (λ (p : Profile Double). All IsKnown p.map) ps
      → All HasDistinctMap ps
      → HasDistinctNames ps
      → add_profiles ps (entry "profile" (str name) (calib_entries c (airmouse_entries h b nil)))
        ≡ some
            (entry "profile" (str name) (calib_entries c (airmouse_entries h b (list_entries ps))))
  unfolding add_profiles add
  add_profiles_written name c h b [] known maps names = refl
  add_profiles_written name c h b (p ∷ ps) known maps names =
      let written =
        profiles_to_toml-append (p ∷ ps) nil known maps names (HasFreshNames-nil (p ∷ ps)) in
      ground arith

  device_config_to_toml-config_entries :
      (dc : DeviceConfig Double)
      → All (λ (p : Profile Double). All IsKnown p.map) dc.profiles
      → All HasDistinctMap dc.profiles
      → HasDistinctNames dc.profiles
      → device_config_to_toml dc ≡ some (table (config_entries dc))
  unfolding device_config_to_toml add
  device_config_to_toml-config_entries dc known maps names =
      rw
        (
          add_calib_written,
          add_airmouse_written,
          add_profiles_written dc.profile dc.calib dc.has_airmouse dc.airmouse dc.profiles known
              maps names,
        )
        refl

  read_profiles :
      (name : String) (c : Option String) (h b : Bool) (ps : List (Profile Double))
      → validate_profiles fp ps ≡ ok tt
      → All (IsCanonical fp) ps
      → All HasDistinctMap ps
      → HasDistinctNames ps
      → profiles_field fp (
          table
            (entry "profile" (str name) (calib_entries c (airmouse_entries h b (list_entries ps)))))
        ≡ ok ps
  unfolding profiles_field table_get_short
  read_profiles name c h b [] valid canonical maps names = ground arith
  read_profiles name c h b (p ∷ ps) valid canonical maps names =
      let read =
        parse_profiles-append fp (p ∷ ps) [] valid canonical maps names
          (HasNewNames-nil (p ∷ ps)) in
      ground arith

  read_airmouse :
      (name : String) (c : Option String) (h b : Bool) (ps : List (Profile Double))
      → (h ≡ false → b ≡ true)
      → airmouse_field
          (table
            (entry "profile" (str name) (calib_entries c (airmouse_entries h b (list_entries ps)))))
          (true, false)
        ≡ ok (b, h)
  unfolding airmouse_field table_get_short
  read_airmouse name c h b [] default = ground arith
  read_airmouse name c h b (p ∷ ps) default = ground arith

  read_name :
      (name old : String) (rest : Entries Double)
      → str_field (table (entry "profile" (str name) rest)) "profile" old (λ s. s) ≡ ok name
  unfolding str_field table_get_short
  read_name name old rest = refl

  read_calib :
      (name : String) (c : Option String) (h b : Bool) (ps : List (Profile Double))
      → str_field
          (table
            (entry "profile" (str name) (calib_entries c (airmouse_entries h b (list_entries ps)))))
          "calib"
          none
          some
        ≡ ok c
  unfolding str_field table_get_short
  read_calib name c h b [] = ground arith
  read_calib name c h b (p ∷ ps) = ground arith

  -- What a file cannot tell apart: a value that is not set is the built-in one, and an empty path
  -- of the calibration is none.
  pub record IsCanonicalConfig (dc : DeviceConfig Double) : Type 0 where
    pub profiles : All (IsCanonical fp) dc.profiles
    pub calib : calib_of dc.calib ≡ dc.calib
    pub airmouse : dc.has_airmouse ≡ false → dc.airmouse ≡ true

  from_table-config_entries :
      (dc : DeviceConfig Double)
      → IsWellFormed fp dc
      → IsCanonicalConfig dc
      → validate_profiles fp dc.profiles ≡ ok tt
      → from_table fp (table (config_entries dc)) (device_config_init Double) ≡ ok dc
  unfolding from_table device_config_init
  from_table-config_entries dc w c valid =
      rw
        (
          read_name dc.profile "default" (
              calib_entries dc.calib
                (airmouse_entries dc.has_airmouse dc.airmouse (list_entries dc.profiles))),
          read_calib dc.profile dc.calib dc.has_airmouse dc.airmouse dc.profiles,
          read_airmouse dc.profile dc.calib dc.has_airmouse dc.airmouse dc.profiles c.airmouse,
          read_profiles dc.profile dc.calib dc.has_airmouse dc.airmouse dc.profiles valid c.profiles
              w.maps w.names,
          c.calib,
          w.validated,
        )
        refl

  validate_profiles_ok :
      (dc : DeviceConfig Double)
      → device_config_validate fp dc ≡ ok tt
      → validate_profiles fp dc.profiles ≡ ok tt
  unfolding device_config_validate
  validate_profiles_ok dc h = ground arith

  -- A well-formed configuration whose unset values are the built-in ones is written to a document
  -- that `device_config_from_toml`, from the built-in defaults, reads as that same configuration.
  pub device_config_round_trip :
      (dc : DeviceConfig Double)
      → IsWellFormed fp dc
      → IsCanonicalConfig dc
      → (t : Toml Double) × (device_config_to_toml dc ≡ some t)
        × (device_config_from_toml fp (some t) (device_config_init Double) ≡ ok dc)
  unfolding device_config_from_toml
  device_config_round_trip dc w c =
      let valid = validate_profiles_ok dc w.validated in
      (
        table (config_entries dc),
        device_config_to_toml-config_entries dc (AreKnown fp dc.profiles valid) w.maps w.names,
        from_table-config_entries dc w c valid,
      )
