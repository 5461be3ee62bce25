-- ===== src/DeviceConfig/ProfilesRoundTrip.antt =====
-- The profiles that tools/src/profiles.c writes are read back as they were.
use Prim.Native.String.{String}
use mathlib.Core.List.{append_assoc, append-nil as list_append-nil}
use lg_magic.DeviceConfig.{read_profile, parse_profile, parse_profiles, validate_profiles}
use lg_magic.DeviceConfig.ProfileRoundTrip.{
  IsCanonical, profile_entries, profile_round_trip, profile_to_toml-profile_entries,
}
use lg_magic.DeviceConfig.Reading.{HasDistinctNames, HasDistinctMap, find_profile-append}
use lg_magic.DeviceConfig.Writing.{profiles_to_toml}
use lg_magic.Prelude.{◌≡◌, refl, ap, ◌∙◌, none, some, List, [], ◌∷◌, ◌++◌, arith, All}
use lg_magic.Prelude.Float.{Floats}
use lg_magic.Prelude.Result.{ok, >>=-eq-ok}
use lg_magic.Prelude.Text.{str_eq_iff}
use lg_magic.Profile.{Profile, find_profile, profile_validate}
use lg_magic.Profile.Buttons.{IsDistinct}
use lg_magic.Profile.Merge.{IsKnown, profile_validate-IsValid}
use lg_magic.Toml.{Toml, Entries, table, nil, entry, lookup}
use lg_magic.Toml.Laws.{append, snoc, add-fresh, lookup-snoc_ne, append-snoc, append-nil}

module _ {D : Type 0} where
  abbrev pub profiles_entries : List (Profile D) → Entries D
  profiles_entries [] = nil
  profiles_entries (p ∷ ps) = entry p.name (table (profile_entries p)) (profiles_entries ps)

  pub HasFreshNames : Entries D → List (Profile D) → Type 0
  HasFreshNames acc ps = All (λ (p : Profile D). lookup acc p.name ≡ none) ps

  HasFreshNames-snoc :
      (acc : Entries D) (name : String) (v : Toml D) (ps : List (Profile D))
      → find_profile ps name ≡ none
      → HasFreshNames acc ps
      → HasFreshNames (snoc acc name v) ps
  unfolding HasFreshNames find_profile
  HasFreshNames-snoc acc name v [] other fresh = tt
  HasFreshNames-snoc acc name v (p ∷ ps) other fresh = (
    lookup-snoc_ne acc name p.name v
        (ground (arith, str_eq_iff name p.name, str_eq_iff p.name name)) fresh.0,
    HasFreshNames-snoc acc name v ps (ground arith) fresh.1,
  )

  pub profiles_to_toml-append :
      (ps : List (Profile D)) (acc : Entries D)
      → All (λ (p : Profile D). All IsKnown p.map) ps
      → All HasDistinctMap ps
      → HasDistinctNames ps
      → HasFreshNames acc ps
      → profiles_to_toml ps acc ≡ some (append acc (profiles_entries ps))
  unfolding profiles_to_toml HasFreshNames
  profiles_to_toml-append [] acc known maps names fresh = rw append-nil
  profiles_to_toml-append (p ∷ ps) acc known maps names fresh =
      rw
        (
          profile_to_toml-profile_entries p known.0 maps.0,
          add-fresh acc p.name (table (profile_entries p)) fresh.0,
        )
        (profiles_to_toml-append ps (snoc acc p.name (table (profile_entries p))) known.1 maps.1
            names.1 (HasFreshNames-snoc acc p.name (table (profile_entries p)) ps names.0 fresh.1)
          ∙ ap some (append-snoc acc (profiles_entries ps) p.name (table (profile_entries p))))

  pub HasFreshNames-nil : (ps : List (Profile D)) → HasFreshNames nil ps
  unfolding HasFreshNames lookup
  HasFreshNames-nil [] = tt
  HasFreshNames-nil (p ∷ ps) = (refl, HasFreshNames-nil ps)

  -- None of the second profiles has the name of one of the first.
  pub HasNewNames : List (Profile D) → List (Profile D) → Type 0
  HasNewNames acc ps = All (λ (p : Profile D). find_profile acc p.name ≡ none) ps

  HasNewNames-append :
      (acc : List (Profile D)) (p : Profile D) (ps : List (Profile D))
      → find_profile ps p.name ≡ none
      → HasNewNames acc ps
      → HasNewNames (acc ++ p ∷ []) ps
  unfolding HasNewNames find_profile
  HasNewNames-append acc p [] other fresh = tt
  HasNewNames-append acc p (q ∷ ps) other fresh = (
    ground (
      arith,
      find_profile-append acc p q.name fresh.0,
      str_eq_iff p.name q.name,
      str_eq_iff q.name p.name,
    ),
    HasNewNames-append acc p ps (ground arith) fresh.1,
  )

  pub HasNewNames-nil : (ps : List (Profile D)) → HasNewNames [] ps
  unfolding HasNewNames find_profile
  HasNewNames-nil [] = tt
  HasNewNames-nil (p ∷ ps) = (refl, HasNewNames-nil ps)

module _ (fp : Floats) where
  open fp use {Double}

  read_profile_written :
      (p : Profile Double) (acc : List (Profile Double))
      → profile_validate fp p ≡ ok tt
      → IsCanonical fp p
      → IsDistinct p.map
      → read_profile fp p.name (table (profile_entries p)) acc ≡ ok (acc ++ p ∷ [])
  unfolding read_profile
  read_profile_written p acc valid canonical distinct =
      let known = (profile_validate-IsValid fp p valid).known in
      rw ((profile_round_trip fp p canonical known distinct).1, valid) refl

  parse_profile_written :
      (p : Profile Double) (acc : List (Profile Double))
      → profile_validate fp p ≡ ok tt
      → IsCanonical fp p
      → IsDistinct p.map
      → find_profile acc p.name ≡ none
      → parse_profile fp p.name (table (profile_entries p)) acc ≡ ok (acc ++ p ∷ [])
  unfolding parse_profile
  parse_profile_written p acc valid canonical distinct fresh =
      rw (fresh, parse_profile) (read_profile_written p acc valid canonical distinct)

  pub parse_profiles-append :
      (ps acc : List (Profile Double))
      → validate_profiles fp ps ≡ ok tt
      → All (IsCanonical fp) ps
      → All HasDistinctMap ps
      → HasDistinctNames ps
      → HasNewNames acc ps
      → parse_profiles fp (profiles_entries ps) acc ≡ ok (acc ++ ps)
  unfolding parse_profiles validate_profiles HasNewNames
  parse_profiles-append [] acc valid canonical maps names fresh = rw list_append-nil
  parse_profiles-append (p ∷ ps) acc valid canonical maps names fresh =
      let (_, p_valid, rest) = >>=-eq-ok (profile_validate fp p) _ valid in
      rw (parse_profile_written p acc p_valid canonical.0 maps.0 fresh.0) (
        parse_profiles-append ps (acc ++ p ∷ []) rest canonical.1 maps.1 names.1
          (HasNewNames-append acc p ps names.0 fresh.1)
        ∙ ap ok (append_assoc acc (p ∷ []) ps))

  pub AreKnown :
      (ps : List (Profile Double))
      → validate_profiles fp ps ≡ ok tt
      → All (λ (p : Profile Double). All IsKnown p.map) ps
  unfolding validate_profiles
  AreKnown [] valid = tt
  AreKnown (p ∷ ps) valid =
      let (_, p_valid, rest) = >>=-eq-ok (profile_validate fp p) _ valid in
      ((profile_validate-IsValid fp p p_valid).known, AreKnown ps rest)
