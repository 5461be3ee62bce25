-- ===== src/DeviceConfig/ProfileRoundTrip.antt =====
-- A profile that tools/src/profiles.c writes is read back as it was.
use Prim.Native.String.{String}
use lg_magic.DeviceConfig.{map_field, num_field, profile_parse_fields}
use lg_magic.DeviceConfig.MapRoundTrip.{map_entries, map_round_trip}
use lg_magic.DeviceConfig.Writing.{add_if, add_map, profile_to_toml}
use lg_magic.Prelude.{◌≡◌, refl, Bool, true, false, some, List, [], ◌∷◌, arith, All}
use lg_magic.Prelude.Float.{Floats}
use lg_magic.Prelude.Int.{pos, negsuc}
use lg_magic.Prelude.Result.{ok}
use lg_magic.Profile.{Profile, ButtonMapEntry, profile_init}
use lg_magic.Profile.Buttons.{IsDistinct}
use lg_magic.Profile.Merge.{IsKnown}
use lg_magic.Toml.{Toml, Entries, float, table, nil, entry, table_get_short, add}

module _ {D : Type 0} where
  abbrev entry_if : Bool → String → Toml D → Entries D → Entries D
  entry_if true k v rest = entry k v rest
  entry_if false k v rest = rest

  abbrev button_map_entry : List ButtonMapEntry → Entries D
  button_map_entry [] = nil
  button_map_entry (e ∷ es) = entry "button_map" (table (map_entries (e ∷ es))) nil

  -- The entries that a profile becomes.
  abbrev pub profile_entries : Profile D → Entries D
  profile_entries p = entry_if p.has_scroll "scroll_speed" (float p.scroll_speed) (
      entry_if p.has_sens "sensitivity" (float p.sensitivity)
        (entry_if p.has_lpf "lpf_alpha" (float p.lpf_alpha) (button_map_entry p.map)))

  add_map_written :
      (a b c : Bool) (x y z : D) (es : List ButtonMapEntry)
      → All IsKnown es
      → IsDistinct es
      → add_map es (
          entry_if a "scroll_speed"
            (float x)
            (entry_if b "sensitivity" (float y) (entry_if c "lpf_alpha" (float z) nil)))
        ≡ some (
            entry_if a "scroll_speed" (float x) (
              entry_if b "sensitivity"
                (float y)
                (entry_if c "lpf_alpha" (float z) (button_map_entry es))))
  unfolding add_map add
  add_map_written a b c x y z [] known distinct = refl
  add_map_written a b c x y z (e ∷ es) known distinct =
      let written = (map_round_trip {D = D} (e ∷ es) known distinct).0 in ground arith

  add_scroll_speed :
      (a : Bool) (x : D)
      → add_if a nil "scroll_speed" (float x) ≡ some (entry_if a "scroll_speed" (float x) nil)
  unfolding add_if add
  add_scroll_speed a x = ground arith

  add_sensitivity :
      (a b : Bool) (x y : D)
      → add_if b (entry_if a "scroll_speed" (float x) nil) "sensitivity" (float y)
        ≡ some (entry_if a "scroll_speed" (float x) (entry_if b "sensitivity" (float y) nil))
  unfolding add_if add
  add_sensitivity a b x y = ground arith

  add_lpf_alpha :
      (a b c : Bool) (x y z : D)
      → add_if c
          (entry_if a "scroll_speed" (float x) (entry_if b "sensitivity" (float y) nil))
          "lpf_alpha"
          (float z)
        ≡ some (
            entry_if a "scroll_speed"
              (float x)
              (entry_if b "sensitivity" (float y) (entry_if c "lpf_alpha" (float z) nil)))
  unfolding add_if add
  add_lpf_alpha a b c x y z = ground arith

  pub profile_to_toml-profile_entries :
      (p : Profile D)
      → All IsKnown p.map
      → IsDistinct p.map
      → profile_to_toml p ≡ some (profile_entries p)
  unfolding profile_to_toml
  profile_to_toml-profile_entries p known distinct =
      rw
        (
          add_scroll_speed p.has_scroll p.scroll_speed,
          add_sensitivity p.has_scroll p.has_sens p.scroll_speed p.sensitivity,
          add_lpf_alpha p.has_scroll p.has_sens p.has_lpf p.scroll_speed p.sensitivity p.lpf_alpha,
        )
        (add_map_written p.has_scroll p.has_sens p.has_lpf p.scroll_speed p.sensitivity p.lpf_alpha
          p.map known distinct)

module _ (fp : Floats) where
  open fp use {Double, of_int}

  -- A value that is not set is the built-in one.
  pub record IsCanonical (p : Profile Double) : Type 0 where
    pub scroll_speed : p.has_scroll ≡ false → p.scroll_speed ≡ of_int (pos 1)
    pub sensitivity : p.has_sens ≡ false → p.sensitivity ≡ of_int (pos 30)
    pub lpf_alpha : p.has_lpf ≡ false → p.lpf_alpha ≡ of_int (negsuc 0)

  read_scroll_speed :
      (p : Profile Double) (d : Double)
      → (p.has_scroll ≡ false → p.scroll_speed ≡ d)
      → num_field fp (table (profile_entries p)) "scroll_speed" (d, false)
        ≡ ok (p.scroll_speed, p.has_scroll)
  unfolding num_field table_get_short
  read_scroll_speed p d h = ground arith

  read_sensitivity :
      (p : Profile Double) (d : Double)
      → (p.has_sens ≡ false → p.sensitivity ≡ d)
      → num_field fp (table (profile_entries p)) "sensitivity" (d, false)
        ≡ ok (p.sensitivity, p.has_sens)
  unfolding num_field table_get_short
  read_sensitivity p d h = ground arith

  read_lpf_alpha :
      (p : Profile Double) (d : Double)
      → (p.has_lpf ≡ false → p.lpf_alpha ≡ d)
      → num_field fp (table (profile_entries p)) "lpf_alpha" (d, false)
        ≡ ok (p.lpf_alpha, p.has_lpf)
  unfolding num_field table_get_short
  read_lpf_alpha p d h = ground arith

  read_map :
      (a b c : Bool) (x y z : Double) (es : List ButtonMapEntry)
      → All IsKnown es
      → IsDistinct es
      → map_field
          (table (
            entry_if a "scroll_speed" (float x) (
              entry_if b "sensitivity"
                (float y)
                (entry_if c "lpf_alpha" (float z) (button_map_entry es)))))
          []
        ≡ ok es
  unfolding map_field table_get_short
  read_map a b c x y z [] known distinct = ground arith
  read_map a b c x y z (e ∷ es) known distinct =
      let read = (map_round_trip {D = Double} (e ∷ es) known distinct).1 in ground arith

  -- A profile whose values are built in where they are not set, whose map has known keycodes and
  -- none of them twice, is what its written entries read as.
  pub profile_round_trip :
      (p : Profile Double)
      → IsCanonical p
      → All IsKnown p.map
      → IsDistinct p.map
      → (profile_to_toml p ≡ some (profile_entries p))
        × (profile_parse_fields fp (profile_init fp p.name) (table (profile_entries p)) ≡ ok p)
  unfolding profile_parse_fields profile_init
  profile_round_trip p canonical known distinct = (
    profile_to_toml-profile_entries p known distinct,
    rw
        (
          read_scroll_speed p (of_int (pos 1)) canonical.scroll_speed,
          read_sensitivity p (of_int (pos 30)) canonical.sensitivity,
          read_lpf_alpha p (of_int (negsuc 0)) canonical.lpf_alpha,
          read_map p.has_scroll p.has_sens p.has_lpf p.scroll_speed p.sensitivity p.lpf_alpha p.map
              known distinct,
        )
        refl,
  )
