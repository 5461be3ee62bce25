-- ===== src/Profile/Merge.antt =====
-- The check and the merge of profiles of tools/src/profiles.c.
use Prim.Native.String.{String}
use lg_magic.Keymap.{code_to_name}
use lg_magic.Profile.{
  ButtonMapEntry, Profile, set_entry, merge_map, known_keycode, validate_map, profile_validate,
  profile_merge,
}
use lg_magic.Profile.Buttons.{mapped, or_else, IsDistinct, mapped-merge_map}
use lg_magic.Prelude.{
  ℕ, ◌≡◌, ◌≢◌, refl, true, false, none, List, [], ◌∷◌, arith, ◌==◌, All, Option-cases, Bool-cases,
  inl, inr, ◌↔◌,
}
use lg_magic.Prelude.Float.{Floats}
use lg_magic.Prelude.Int.{pos}
use lg_magic.Prelude.Result.{ok, >>=-eq-ok}
use lg_magic.Prelude.Text.{str_eq}

-- Both keycodes of an entry have names.
abbrev pub IsKnown : ButtonMapEntry → Type 0
IsKnown e = (code_to_name e.from ≢ none) × (code_to_name e.to ≢ none)

known_keycode_iff :
    (name : String) (code : ℕ) → (known_keycode name code ≡ ok tt) ↔ (code_to_name code ≢ none)
unfolding known_keycode
known_keycode_iff name code = elim (Option-cases (code_to_name code)) [
  | inl unknown ↦ (λ h. ground arith, λ h. absurd (h unknown))
  | inr (n, known) ↦ (λ h. ground arith, λ h. ground arith)
]

pub validate_map_iff :
    (name : String) (es : List ButtonMapEntry) → (validate_map name es ≡ ok tt) ↔ All IsKnown es
unfolding validate_map
validate_map_iff name [] = (λ h. tt, λ h. refl)
validate_map_iff name (e ∷ es) = (
  λ h.
      let (_, from_ok, rest) = >>=-eq-ok (known_keycode name e.from) _ h in
      let (_, to_ok, tail) = >>=-eq-ok (known_keycode name e.to) _ rest in
      (
        ((known_keycode_iff name e.from).0 from_ok, (known_keycode_iff name e.to).0 to_ok),
        (validate_map_iff name es).0 tail,
      ),
  λ h.
      rw ((known_keycode_iff name e.from).1 h.0.0, (known_keycode_iff name e.to).1 h.0.1)
        ((validate_map_iff name es).1 h.1),
)

set_entry-IsKnown :
    (es : List ButtonMapEntry) (from to : ℕ)
    → All IsKnown es
    → (code_to_name from ≢ none)
    → (code_to_name to ≢ none)
    → All IsKnown (set_entry es from to)
unfolding set_entry
set_entry-IsKnown [] from to h f t = ((f, t), tt)
set_entry-IsKnown (e ∷ es) from to h f t = elim (Bool-cases (e.from == from)) [
  | inl same ↦ rw same ((h.0.0, t), h.1)
  | inr other ↦ rw other (h.0, set_entry-IsKnown es from to h.1 f t)
]

merge_map-IsKnown :
    (dst src : List ButtonMapEntry)
    → All IsKnown dst
    → All IsKnown src
    → All IsKnown (merge_map dst src)
unfolding merge_map
merge_map-IsKnown dst [] d s = d
merge_map-IsKnown dst (e ∷ src) d s =
    merge_map-IsKnown (set_entry dst e.from e.to) src
      (set_entry-IsKnown dst e.from e.to d s.0.0 s.0.1) s.1

module _ (fp : Floats) where
  open fp use {Double, of_int, dlt, dle}

  -- What `profile_validate` accepts.
  pub record IsValid (p : Profile Double) : Type 0 where
    pub named : str_eq p.name "" ≡ false
    pub scroll_above : dle p.scroll_speed (of_int (pos 0)) ≡ false
    pub scroll_below : dlt (of_int (pos 100)) p.scroll_speed ≡ false
    pub sens_above : dle p.sensitivity (of_int (pos 0)) ≡ false
    pub sens_below : dlt (of_int (pos 10000)) p.sensitivity ≡ false
    pub lpf_above : p.has_lpf ≡ true → dlt p.lpf_alpha (of_int (pos 0)) ≡ false
    pub lpf_below : p.has_lpf ≡ true → dlt (of_int (pos 1)) p.lpf_alpha ≡ false
    pub known : All IsKnown p.map

  validate_map_ok :
      (p : Profile Double) → profile_validate fp p ≡ ok tt → validate_map p.name p.map ≡ ok tt
  unfolding profile_validate
  validate_map_ok p h = ground arith

  pub profile_validate-IsValid : (p : Profile Double) → profile_validate fp p ≡ ok tt → IsValid p
  unfolding profile_validate
  profile_validate-IsValid p h = record {
    named = ground arith;
    scroll_above = ground arith;
    scroll_below = ground arith;
    sens_above = ground arith;
    sens_below = ground arith;
    lpf_above = ground arith;
    lpf_below = ground arith;
    known = (validate_map_iff p.name p.map).0 (validate_map_ok p h);
  }

  pub IsValid-profile_validate : (p : Profile Double) → IsValid p → profile_validate fp p ≡ ok tt
  unfolding profile_validate
  IsValid-profile_validate p v =
      let map_ok = (validate_map_iff p.name p.map).1 v.known in ground arith

  -- The merge of a valid profile into a valid profile is valid, and its map sends each keycode
  -- where the source sends it, or else where the destination did, if the source maps none twice.
  pub profile_merge_lem :
      (dst src : Profile Double)
      → profile_validate fp dst ≡ ok tt
      → profile_validate fp src ≡ ok tt
      → IsDistinct src.map
      → (profile_validate fp (profile_merge fp dst src) ≡ ok tt)
        × ((code : ℕ)
            → mapped (profile_merge fp dst src).map code
              ≡ or_else (mapped src.map code) (mapped dst.map code))
  unfolding profile_merge
  profile_merge_lem dst src d s distinct =
      let v = profile_validate-IsValid dst d in
      let w = profile_validate-IsValid src s in
      (
        IsValid-profile_validate (profile_merge fp dst src) (record {
          named = v.named;
          scroll_above = ground arith;
          scroll_below = ground arith;
          sens_above = ground arith;
          sens_below = ground arith;
          lpf_above = ground arith;
          lpf_below = ground arith;
          known = merge_map-IsKnown dst.map src.map v.known w.known;
        }),
        λ code. mapped-merge_map dst.map src.map code distinct,
      )
