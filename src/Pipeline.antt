-- ===== src/Pipeline.antt =====
-- tools/src/daemon_pipeline.c: what the daemon does with a frame of the keyboard and of the motion
-- sensor. A call of an emitter is a write to the virtual keyboard or mouse; whether the system
-- takes a write is the function `accepts`. Allocation does not fail.
pub mod Tracking
pub mod Refinement
pub mod Keys
pub mod Configure
mod Examples
use Prim.Native.String.{String}
use lg_magic.Airmouse.{
  Airmouse, Calib, airmouse_init, airmouse_process, calib_apply, calib_init_identity,
}
use lg_magic.DeviceConfig.{DeviceConfig}
use lg_magic.Prelude.{
  ℕ, zero, suc, ◌+◌, ◌*◌, Bool, true, false, not, ◌&&◌, ◌||◌, Option, none, some, List, [], ◌∷◌,
  ◌++◌, ◌==◌, ltb, if◌then◌else◌, length, get_or, set, all,
}
use lg_magic.Prelude.Float.{Floats}
use lg_magic.Prelude.Int.{ℤ, pos, is_zero_ℤ, ◌*ℤ◌}
use lg_magic.Prelude.Three.{Three}
use lg_magic.Profile.{Profile, ButtonMapEntry, find_profile, profile_init, profile_merge}
use lg_magic.Uinput.{Event, uinput_key, uinput_scroll, uinput_move}

-- A key that is down on the remote, and the virtual code that it was pressed as.
pub record Held : Type 0 where
  pub phys : ℕ
  pub virt : ℕ

-- The size of `held`.
abbrev pub held_size : ℕ
held_size = 32

-- `struct evdev_key_event`, and the parts of `struct evdev_frame` that the pipeline reads.
pub record KeyEvent : Type 0 where
  pub code : ℕ
  pub value : ℕ

pub record Frame : Type 0 where
  pub accel : Three ℤ
  pub gyro : Three ℤ
  pub keys : List KeyEvent
  pub wheel : ℤ

-- A write to the virtual keyboard or the virtual mouse.
pub data Write : Type 0 where
  keyboard mouse : List Event → Write

-- `struct pipeline`; `held` holds its first `nheld` entries.
pub record Pipeline (D : Type 0) : Type 0 where
  pub wheel_accum : D
  pub active : Profile D
  pub cal : Calib D
  pub have_cal : Bool
  pub airmouse_on : Bool
  pub am : Airmouse D
  pub held : List Held

-- The search for the last entry of a physical code: its index.
unfoldable pub held_index : List Held → ℕ → ℕ → Option ℕ → Option ℕ
held_index [] phys k idx = idx
held_index (h ∷ hs) phys k idx = held_index hs phys (suc k) (if h.phys == phys then some k else idx)

abbrev pub no_key : Held
no_key = record { phys = 0; virt = 0 }

-- `held[nheld - 1]`, and the array with one entry less.
unfoldable pub last_held : List Held → Held
last_held [] = no_key
last_held (h ∷ []) = h
last_held (h ∷ h' ∷ hs) = last_held (h' ∷ hs)

unfoldable pub drop_last : List Held → List Held
drop_last [] = []
drop_last (h ∷ []) = []
drop_last (h ∷ h' ∷ hs) = h ∷ drop_last (h' ∷ hs)

-- `held[idx] = held[nheld - 1]; nheld--;`
unfoldable pub swap_remove : List Held → ℕ → List Held
swap_remove held idx = drop_last (set held idx (last_held held))

-- The loops over the button map: the first entry for the code, or the code itself.
unfoldable pub resolve : List ButtonMapEntry → ℕ → ℕ
resolve [] phys = phys
resolve (e ∷ es) phys = if e.from == phys then e.to else resolve es phys

-- The body of the loop over the keys of a frame: the entries after it, and the code to emit.
unfoldable pub track_key : List ButtonMapEntry → List Held → ℕ → ℕ → List Held × ℕ
track_key map held phys val = elim (held_index held phys 0 none) [
  | some idx ↦ (if val == 0 then swap_remove held idx else held, (get_or held idx no_key).virt)
  | none ↦
      let to = resolve map phys in
      (
        if not (val == 0) && ltb (length held) held_size
            then held ++ record { phys = phys; virt = to } ∷ []
            else held,
        to,
      )
]

-- The loop over the keys of a frame.
unfoldable pub track_keys : List ButtonMapEntry → List Held → List KeyEvent → List Held × List Write
track_keys map held [] = (held, [])
track_keys map held (k ∷ ks) =
    let (held₁, to) = track_key map held k.code k.value in
    let (held₂, writes) = track_keys map held₁ ks in
    (held₂, keyboard (uinput_key to k.value) ∷ writes)

-- The loop of `pipeline_configure` that releases the held keys, the last first.
unfoldable pub release_held : List Held → List Write
release_held [] = []
release_held (h ∷ hs) = release_held hs ++ keyboard (uinput_key h.virt 0) ∷ []

module _ (fp : Floats) where
  open fp use {Double, of_int, to_int, dadd, dsub, dmul}

  unfoldable pub pipeline_init : Pipeline Double
  pipeline_init =
      let o = of_int (pos 0) in
      let zero3 : Three Double = record { at0 = o; at1 = o; at2 = o } in
      record {
        wheel_accum = o;
        active = profile_init fp "resolved";
        cal = calib_init_identity fp;
        have_cal = false;
        airmouse_on = false;
        am = record { alpha = o; scale = o; prev = zero3 };
        held = [];
      }

  -- The profile that is in force: the one that the configuration names, or else "default".
  unfoldable pub select_profile : DeviceConfig Double → Option (Profile Double)
  select_profile dc = elim (find_profile dc.profiles dc.profile) [
    | some p ↦ some p
    | none ↦ find_profile dc.profiles "default"
  ]

  -- `profile_init` and `profile_merge` on `p->active`.
  unfoldable pub resolve_profile : DeviceConfig Double → Profile Double
  resolve_profile dc = elim (select_profile dc) [
    | none ↦ profile_init fp "resolved"
    | some src ↦ profile_merge fp (profile_init fp "resolved") src
  ]

  -- The end of `pipeline_configure`.
  unfoldable pub apply_profile : Pipeline Double → DeviceConfig Double → Double → Pipeline Double
  apply_profile p dc global_lpf =
      let alpha = if p.active.has_lpf then p.active.lpf_alpha else global_lpf in
      record p { am = airmouse_init fp alpha p.active.sensitivity; airmouse_on = dc.airmouse }

  -- `pipeline_configure`: the pipeline, the writes and whether it succeeded. `calib_path` is `none`
  -- for NULL or ""; `kbd` says that the virtual keyboard is open; `calib_load` is `none` on an error.
  unfoldable pub pipeline_configure :
      (String → Option (Calib Double))
      → Pipeline Double
      → DeviceConfig Double
      → Option String
      → Double
      → Bool
      → Pipeline Double × List Write × Bool
  pipeline_configure calib_load p dc calib_path global_lpf kbd =
      let writes = if kbd then release_held p.held else [] in
      let held = if kbd then [] else p.held in
      let merged : Pipeline Double = record p { held = held; active = resolve_profile dc } in
      elim calib_path [
        | none ↦ (apply_profile (record merged { have_cal = false }) dc global_lpf, writes, true)
        | some path ↦ elim (calib_load path) [
          | none ↦ (merged, writes, false)
          | some cal ↦ (
            apply_profile (record merged { cal = cal; have_cal = true }) dc global_lpf,
            writes,
            true,
          )
        ]
      ]

  -- The wheel: the accumulator after the frame, and the writes.
  unfoldable pub turn_wheel : Double → Double → ℤ → Double × List Write
  turn_wheel accum scroll_speed wheel =
      if is_zero_ℤ wheel
      then (accum, [])
      else (let turned = dadd accum (dmul (of_int wheel) scroll_speed) in
          let clicks = to_int turned in
          (
            dsub turned (of_int clicks),
            (if is_zero_ℤ clicks
                then []
                else mouse (uinput_scroll clicks (clicks *ℤ pos 120)) ∷ []),
          ))

  -- `pipeline_keyboard`; its result is 0 exactly when every write was taken.
  unfoldable pub pipeline_keyboard :
      (Write → Bool) → Pipeline Double → Frame → Pipeline Double × List Write × Bool
  pipeline_keyboard accepts p f =
      let (held, keys) = track_keys p.active.map p.held f.keys in
      let (accum, clicks) = turn_wheel p.wheel_accum p.active.scroll_speed f.wheel in
      (record p { held = held; wheel_accum = accum }, keys ++ clicks, all accepts (keys ++ clicks))

  unfoldable pub pipeline_imu :
      (Write → Bool) → Pipeline Double → Frame → Pipeline Double × List Write × Bool
  pipeline_imu accepts p f =
      if not p.airmouse_on
      then (p, [], true)
      else (let g_raw : Three Double = record {
        at0 = of_int f.gyro.at0;
        at1 = of_int f.gyro.at1;
        at2 = of_int f.gyro.at2;
      } in
          let a_raw : Three Double = record {
            at0 = of_int f.accel.at0;
            at1 = of_int f.accel.at1;
            at2 = of_int f.accel.at2;
          } in
          let g_out = if p.have_cal then (calib_apply fp p.cal a_raw g_raw).1 else g_raw in
          let (am, m) = airmouse_process fp p.am g_out in
          let moves =
            if is_zero_ℤ m.dx && is_zero_ℤ m.dy then [] else mouse (uinput_move m.dx m.dy) ∷ [] in
          (record p { am = am }, moves, all accepts moves))
