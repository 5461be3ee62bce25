-- ===== src/Pipeline/Configure.antt =====
-- `pipeline_configure` of tools/src/daemon_pipeline.c: what a change of the configuration does.
use Prim.Native.String.{String}
use lg_magic.Airmouse.{Calib, airmouse_init}
use lg_magic.DeviceConfig.{DeviceConfig}
use lg_magic.DeviceConfig.Reading.{IsWellFormed, HasDistinctMap}
use lg_magic.Pipeline.{
  Held, Pipeline, resolve, release_held, select_profile, resolve_profile, apply_profile,
  pipeline_configure,
}
use lg_magic.Pipeline.Keys.{Keys, replay, HasNoStray, replay-release_held}
use mathlib.Core.Option.{get_or}
use mathlib.Core.Path.{subst}
use lg_magic.Prelude.Text.{str_eq}
use lg_magic.Prelude.{
  ℕ, ◌≡◌, refl, Bool, true, false, Option, none, some, List, [], ◌∷◌, arith, All, Option-cases,
  Bool-cases, inl, inr,
}
use lg_magic.Prelude.Float.{Floats}
use lg_magic.Profile.{Profile, ButtonMapEntry, profile_init, profile_merge, find_profile, merge_map}
use lg_magic.Profile.Buttons.{mapped, mapped-merge_map}

released_up :
    (hs : List Held) (s : Keys) → HasNoStray s hs → (v : ℕ) → replay (release_held hs) s v ≡ false
released_up hs s ok v = elim (Bool-cases (replay (release_held hs) s v)) [
  | inr up ↦ up
  | inl down ↦
      let (was_down, not_held) = replay-release_held hs s v down in
      absurd (omega (arith, ok v was_down))
]

find_profile-HasDistinctMap :
    {D : Type 0} (ps : List (Profile D)) (name : String) (p : Profile D)
    → All HasDistinctMap ps
    → find_profile ps name ≡ some p
    → HasDistinctMap p
unfolding find_profile
find_profile-HasDistinctMap [] name p maps h = absurd (ground arith)
find_profile-HasDistinctMap (q ∷ ps) name p maps h = elim (Bool-cases (str_eq q.name name)) [
  | inl same ↦ subst HasDistinctMap {x = q} {y = p} (ground arith) maps.0
  | inr other ↦ find_profile-HasDistinctMap ps name p maps.1 (ground arith)
]

resolve-mapped : (es : List ButtonMapEntry) (k : ℕ) → resolve es k ≡ get_or (mapped es k) k
unfolding resolve mapped
resolve-mapped [] k = refl
resolve-mapped (e ∷ es) k = ground (arith, resolve-mapped es k)

-- Where a profile that may be missing sends a keycode.
abbrev pub resolve_in : {D : Type 0} → Option (Profile D) → ℕ → ℕ
resolve_in none code = code
resolve_in (some p) code = resolve p.map code

module _ (fp : Floats) (calib_load : String → Option (Calib fp.Double)) where
  open fp use {Double}

  -- A configuration with the virtual keyboard open leaves no key held and none of its keys down,
  -- also where the calibration cannot be loaded, if before it every key that was down was held.
  pub pipeline_configure_releases :
      (p : Pipeline Double) (dc : DeviceConfig Double) (path : Option String) (lpf : Double)
      (s : Keys)
      → HasNoStray s p.held
      → let (p', writes, _) = pipeline_configure fp calib_load p dc path lpf true in
        (p'.held ≡ []) × ((v : ℕ) → replay writes s v ≡ false)
  unfolding pipeline_configure apply_profile
  pipeline_configure_releases p dc path lpf s ok = (
    ground arith,
    λ v.
        let writes : (pipeline_configure fp calib_load p dc path lpf true).1 ≡ release_held p.held =
          ground arith in
        rw writes (released_up p.held s ok v),
  )

  -- Whatever filter weight the profile in force sets, a configuration that succeeds gives the air
  -- mouse the global one.
  pub pipeline_configure_alpha :
      (p : Pipeline Double) (dc : DeviceConfig Double) (path : Option String) (lpf : Double)
      (kbd : Bool)
      → let (p', _, done) = pipeline_configure fp calib_load p dc path lpf kbd in
        done ≡ true → p'.am.alpha ≡ lpf
  unfolding pipeline_configure apply_profile resolve_profile profile_merge profile_init
      airmouse_init
  pipeline_configure_alpha p dc path lpf kbd done = ground arith

  select_profile-HasDistinctMap :
      (dc : DeviceConfig Double) (src : Profile Double)
      → All HasDistinctMap dc.profiles
      → select_profile fp dc ≡ some src
      → HasDistinctMap src
  unfolding select_profile
  select_profile-HasDistinctMap dc src maps h =
      elim (Option-cases (find_profile dc.profiles dc.profile)) [
        | inr (p, found) ↦
            subst HasDistinctMap {x = p} {y = src} (ground arith)
              (find_profile-HasDistinctMap dc.profiles dc.profile p maps found)
        | inl missing ↦ find_profile-HasDistinctMap dc.profiles "default" src maps (ground arith)
      ]

  resolve_profile_map :
      (dc : DeviceConfig Double) (code : ℕ)
      → All HasDistinctMap dc.profiles
      → resolve (resolve_profile fp dc).map code ≡ resolve_in (select_profile fp dc) code
  unfolding resolve_profile profile_merge profile_init resolve mapped
  resolve_profile_map dc code maps = elim (Option-cases (select_profile fp dc)) [
    | inl missing ↦ rw (missing, resolve_profile) refl
    | inr (src, found) ↦
        rw (found, resolve_profile)
          (ground (
            arith,
            resolve-mapped (merge_map [] src.map) code,
            resolve-mapped src.map code,
            mapped-merge_map [] src.map code (select_profile-HasDistinctMap dc src maps found),
          ))
  ]

  -- After a configuration, whether or not the calibration could be loaded, a key goes where the
  -- profile in force sends it: the one that the configuration names, or else "default", or else
  -- nowhere but to itself. The configuration is one that the daemon reads from a file.
  pub pipeline_configure_map :
      (p : Pipeline Double) (dc : DeviceConfig Double) (path : Option String) (lpf : Double)
      (kbd : Bool) (code : ℕ)
      → IsWellFormed fp dc
      → let (p', _, _) = pipeline_configure fp calib_load p dc path lpf kbd in
        resolve p'.active.map code ≡ resolve_in (select_profile fp dc) code
  unfolding pipeline_configure apply_profile
  pipeline_configure_map p dc path lpf kbd code w =
      let active : (pipeline_configure fp calib_load p dc path lpf kbd).0.active
          ≡ resolve_profile fp dc =
        ground arith in
      rw active (resolve_profile_map dc code w.maps)
