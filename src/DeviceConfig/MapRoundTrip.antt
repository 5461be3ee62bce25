-- ===== src/DeviceConfig/MapRoundTrip.antt =====
-- A button map that tools/src/profiles.c writes is read back as it was.
use Prim.Native.String.{String}
use mathlib.Core.List.{append_assoc, append-nil}
use lg_magic.DeviceConfig.{parse_button, parse_map}
use lg_magic.DeviceConfig.Writing.{map_to_toml}
use lg_magic.Keymap.{name_to_code, code_to_name}
use lg_magic.Keymap.RoundTrip.{name_to_code-code_to_name_iff}
use lg_magic.Prelude.{
  ℕ, ◌≡◌, ◌≢◌, refl, sym, ap, ◌∙◌, false, none, some, List, [], ◌∷◌, ◌++◌, arith, All,
}
use lg_magic.Prelude.Result.{ok}
use lg_magic.Prelude.Text.{str_eq, str_eq_iff}
use lg_magic.Profile.{ButtonMapEntry, set_entry, merge_map}
use lg_magic.Profile.Buttons.{mapped, IsDistinct}
use lg_magic.Profile.Merge.{IsKnown}
use lg_magic.Toml.{Entries, str, nil, entry, lookup}
use lg_magic.Toml.Laws.{
  append, snoc, add-fresh, lookup-snoc_ne, append-snoc, append-nil as entries_append-nil,
}

-- The name of a keycode that has one.
name : ℕ → String
name code = elim (code_to_name code) [ none ↦ "" | some n ↦ n ]

name_known : (code : ℕ) → code_to_name code ≢ none → code_to_name code ≡ some (name code)
unfolding name
name_known code known = ground arith

name_back : (code : ℕ) → code_to_name code ≢ none → name_to_code (some (name code)) ≡ some code
name_back code known = (name_to_code-code_to_name_iff code (name code)).0 (name_known code known)

name-ne :
    (c d : ℕ)
    → code_to_name c ≢ none
    → code_to_name d ≢ none
    → c ≢ d
    → str_eq (name c) (name d) ≡ false
name-ne c d hc hd ne = ground (arith, name_back c hc, name_back d hd, str_eq_iff (name c) (name d))

module _ {D : Type 0} where
  -- The entries that the map becomes.
  unfoldable pub map_entries : List ButtonMapEntry → Entries D
  unfolding name
  map_entries [] = nil
  map_entries (e ∷ es) = entry (name e.from) (str (name e.to)) (map_entries es)

  -- None of the names is in the table yet.
  IsFresh : Entries D → List ButtonMapEntry → Type 0
  IsFresh acc es = All (λ (e : ButtonMapEntry). lookup acc (name e.from) ≡ none) es

  IsFresh-snoc :
      (acc : Entries D) (c : ℕ) (v : String) (es : List ButtonMapEntry)
      → code_to_name c ≢ none
      → All IsKnown es
      → mapped es c ≡ none
      → IsFresh acc es
      → IsFresh (snoc acc (name c) (str v)) es
  unfolding IsFresh mapped
  IsFresh-snoc acc c v [] known all other fresh = tt
  IsFresh-snoc acc c v (e ∷ es) known all other fresh = (
    lookup-snoc_ne acc (name c) (name e.from) (str v)
        (name-ne c e.from known all.0.0 (λ same. ground arith)) fresh.0,
    IsFresh-snoc acc c v es known all.1 (ground arith) fresh.1,
  )

  map_to_toml-append :
      (es : List ButtonMapEntry) (acc : Entries D)
      → All IsKnown es
      → IsDistinct es
      → IsFresh acc es
      → map_to_toml es acc ≡ some (append acc (map_entries es))
  unfolding map_to_toml map_entries IsFresh
  map_to_toml-append [] acc known distinct fresh = rw entries_append-nil
  map_to_toml-append (e ∷ es) acc known distinct fresh =
      rw
        (
          name_known e.from known.0.0,
          name_known e.to known.0.1,
          add-fresh acc (name e.from) (str (name e.to)) fresh.0,
        )
        (map_to_toml-append es (snoc acc (name e.from) (str (name e.to))) known.1 distinct.1
            (IsFresh-snoc acc e.from (name e.to) es known.0.0 known.1 distinct.0 fresh.1)
          ∙ ap some (append-snoc acc (map_entries es) (name e.from) (str (name e.to))))

IsFresh-nil : (D : Type 0) (es : List ButtonMapEntry) → IsFresh {D = D} nil es
unfolding IsFresh lookup
IsFresh-nil D [] = tt
IsFresh-nil D (e ∷ es) = (refl, IsFresh-nil D es)

parse_button_known :
    (D : Type 0) (e : ButtonMapEntry)
    → IsKnown e
    → parse_button {D = D} (name e.from) (str (name e.to)) ≡ ok (e.from, e.to)
unfolding parse_button
parse_button_known D e known = ground (arith, name_back e.from known.0, name_back e.to known.1)

parse_map-map_entries :
    (D : Type 0) (es m : List ButtonMapEntry)
    → All IsKnown es
    → parse_map (map_entries {D = D} es) m ≡ ok (merge_map m es)
unfolding parse_map map_entries merge_map
parse_map-map_entries D [] m known = refl
parse_map-map_entries D (e ∷ es) m known =
    rw (parse_button_known D e known.0)
      (parse_map-map_entries D es (set_entry m e.from e.to) known.1)

set_entry_new :
    (m : List ButtonMapEntry) (e : ButtonMapEntry)
    → mapped m e.from ≡ none
    → set_entry m e.from e.to ≡ m ++ e ∷ []
unfolding mapped set_entry
set_entry_new [] e h = refl
set_entry_new (d ∷ m) e h = ground (arith, set_entry_new m e)

-- No keycode of the second map is in the first.
IsApart : List ButtonMapEntry → List ButtonMapEntry → Type 0
IsApart m es = All (λ (e : ButtonMapEntry). mapped m e.from ≡ none) es

mapped-append_ne :
    (m : List ButtonMapEntry) (e : ButtonMapEntry) (c : ℕ)
    → mapped m c ≡ none
    → e.from ≢ c
    → mapped (m ++ e ∷ []) c ≡ none
unfolding mapped
mapped-append_ne [] e c h ne = ground arith
mapped-append_ne (d ∷ m) e c h ne = ground (arith, mapped-append_ne m e c)

IsApart-append :
    (m : List ButtonMapEntry) (e : ButtonMapEntry) (es : List ButtonMapEntry)
    → mapped es e.from ≡ none
    → IsApart m es
    → IsApart (m ++ e ∷ []) es
unfolding IsApart mapped
IsApart-append m e [] other apart = tt
IsApart-append m e (d ∷ es) other apart = (
  mapped-append_ne m e d.from apart.0 (λ same. ground arith),
  IsApart-append m e es (ground arith) apart.1,
)

merge_map-append :
    (m es : List ButtonMapEntry) → IsDistinct es → IsApart m es → merge_map m es ≡ m ++ es
unfolding merge_map IsApart
merge_map-append m [] distinct apart = sym (append-nil m)
merge_map-append m (e ∷ es) distinct apart = rw (set_entry_new m e apart.0) (
    merge_map-append (m ++ e ∷ []) es distinct.1 (IsApart-append m e es distinct.0 apart.1)
    ∙ append_assoc m (e ∷ []) es)

IsApart-nil : (es : List ButtonMapEntry) → IsApart [] es
unfolding IsApart mapped
IsApart-nil [] = tt
IsApart-nil (e ∷ es) = (refl, IsApart-nil es)

-- A map whose keycodes have names, none of them mapped twice, is written, and read back as it was.
pub map_round_trip :
    {D : Type 0} (es : List ButtonMapEntry)
    → All IsKnown es
    → IsDistinct es
    → (map_to_toml es nil ≡ some (map_entries {D = D} es))
      × (parse_map (map_entries {D = D} es) [] ≡ ok es)
map_round_trip {D} es known distinct = (
  map_to_toml-append es nil known distinct (IsFresh-nil D es),
  parse_map-map_entries D es [] known ∙ ap ok (merge_map-append [] es distinct (IsApart-nil es)),
)
