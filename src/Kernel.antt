-- ===== src/Kernel.antt =====
-- kernel/lg_magic_main.c: the handler of the reports of the remote. The input core is the list of
-- events that the handler reports, in order.
pub mod Buttons
pub mod Airmouse
pub mod Keys
pub mod RawOnly
pub mod Imu
pub mod Probe
mod Examples
use Prim.Native.String.{String}
use lg_magic.Kernel.Airmouse.{Calib, Movement, calc_mouse}
use lg_magic.Kernel.Buttons.{code_wheel, lg_btn_map}
use lg_magic.Prelude.{
  ℕ, ◌+◌, ◌*◌, Bool, true, false, not, ◌&&◌, ◌||◌, Option, none, some, List, [], ◌∷◌, ◌++◌, ◌==◌,
  if◌then◌else◌, length, get_or,
}
use lg_magic.Prelude.Float.{Floats}
use lg_magic.Prelude.Int.{ℤ, pos, signed8, signed16, is_zero_ℤ, is_positive_ℤ}
use lg_magic.Prelude.Three.{Three}

-- The codes of relative and absolute axes that the handler uses.
pub data Rel : Type 0 where
  rel_x rel_y rel_wheel : Rel

pub data Axis : Type 0 where
  abs_x abs_y abs_z abs_rx abs_ry abs_rz : Axis

-- One call of the input core: `input_report_key`, `input_report_rel`, `input_event` with
-- MSC_SERIAL, `input_report_abs` and `input_sync`.
pub data InputEvent : Type 0 where
  key : ℕ → Bool → InputEvent
  rel : Rel → ℤ → InputEvent
  msc_serial : ℕ → InputEvent
  abs : Axis → ℤ → InputEvent
  sync : InputEvent

-- The input device that an event is reported on.
pub data Report : Type 0 where
  hid : InputEvent → Report
  imu : InputEvent → Report

-- The module's parameters.
pub record Params : Type 0 where
  pub raw_only : Bool
  pub airmouse : Bool
  pub airmouse_threshold : ℕ
  pub imu_evdev : Bool

-- `struct lgmagic_drvdata`; the two flags say that the device pointers are set, and `mode`, which
-- is only ever 0 or 1, is a truth value.
pub record Drvdata (F : Type 0) : Type 0 where
  pub input_hid : Bool
  pub input_imu : Bool
  pub last_keycode : ℕ
  pub last_btncode : ℕ
  pub gyro_acc : Three F
  pub mode : Bool
  pub calib : Calib F

-- The first row of `lg_btn_map` with the code.
unfoldable pub find_button : List (ℕ × String) → ℕ → Option (ℕ × String)
find_button [] btn_code = none
find_button ((c, k) ∷ rows) btn_code =
    if c == btn_code then some (c, k) else find_button rows btn_code

-- The fields of a report. The bytes are below 256, so that `|` is `+`.
abbrev pub report_word : List ℕ → ℕ → ℤ
report_word bytes i = signed16 (get_or bytes i 0 * 256 + get_or bytes (i + 1) 0)

abbrev pub report_btn_code : List ℕ → ℕ
report_btn_code bytes = get_or bytes 17 0 * 256 + get_or bytes 18 0

abbrev pub report_wheel_step : List ℕ → ℤ
report_wheel_step bytes = signed8 (get_or bytes 19 0)

abbrev pub report_counter : List ℕ → ℕ
report_counter bytes = get_or bytes 1 0 + get_or bytes 2 0 * 256

-- `imu[0]` to `imu[2]`, and `imu[3]` to `imu[5]`.
abbrev pub report_gyro : List ℕ → Three ℤ
report_gyro bytes = record {
  at0 = report_word bytes 5;
  at1 = report_word bytes 7;
  at2 = report_word bytes 9;
}

abbrev pub report_accel : List ℕ → Three ℤ
report_accel bytes = record {
  at0 = report_word bytes 11;
  at1 = report_word bytes 13;
  at2 = report_word bytes 15;
}

-- `keycode` gives the macros of <linux/input-event-codes.h> their values.
module _ (fp : Floats) (keycode : String → ℕ) where
  -- The body of the loop over `lg_btn_map` at the row that matches.
  unfoldable pub press_button :
      Params → Drvdata fp.Float → Option (ℕ × String) → Drvdata fp.Float × List Report
  press_button p d none = (d, [])
  press_button p d (some (code, name)) =
      if (code == code_wheel && d.mode) && not p.raw_only
      then (
        record d { last_keycode = keycode "BTN_LEFT" },
        hid (key (keycode "BTN_LEFT") true) ∷ [],
      )
      else (
        record d { last_keycode = keycode name; mode = false },
        hid (key (keycode name) true) ∷ [],
      )

  -- `if (btn_code != drvdata->last_btncode) { ... }`
  unfoldable pub report_button : Params → Drvdata fp.Float → ℕ → Drvdata fp.Float × List Report
  unfolding press_button find_button
  report_button p d btn_code =
      if btn_code == d.last_btncode
      then (d, [])
      else (let released : Drvdata fp.Float = record d {
        last_keycode = 0;
        last_btncode = btn_code;
      } in
          let (d', pressed) =
            press_button p released
              (if btn_code == 0 then none else find_button lg_btn_map btn_code) in
          (d', hid (key d.last_keycode false) ∷ pressed))

  -- `if (wheel != 0) { ... }`
  unfoldable pub report_wheel : Params → Drvdata fp.Float → ℤ → List Report
  report_wheel p d wheel =
      if is_zero_ℤ wheel
      then []
      else if p.raw_only || d.mode
      then hid (rel rel_wheel wheel) ∷ []
      else (let code = keycode (if is_positive_ℤ wheel then "KEY_UP" else "KEY_DOWN") in
          hid (key code true) ∷ hid (key code false) ∷ [])

  -- `if (airmouse && !raw_only) { ... }`; the pair is `mouse`, zero where the branch is not taken.
  unfoldable pub report_airmouse :
      Params → Drvdata fp.Float → Three ℤ → Drvdata fp.Float × List Report × (ℤ × ℤ)
  report_airmouse p d gyro =
      if p.airmouse && not p.raw_only
      then (let m = calc_mouse fp d.calib d.gyro_acc p.airmouse_threshold gyro in
          let mode = d.mode || m.bigmove in
          (
            record d { gyro_acc = m.gyro_acc; mode = mode },
            (if mode then hid (rel rel_x m.mouse_x) ∷ hid (rel rel_y m.mouse_y) ∷ [] else []),
            (m.mouse_x, m.mouse_y),
          ))
      else (d, [], (pos 0, pos 0))

  -- The IMU events, and the early return before them.
  unfoldable pub report_imu : Params → ℕ → Three ℤ → Three ℤ → List Report
  report_imu p counter gyro accel =
      if not p.imu_evdev && not p.raw_only
      then []
      else imu (msc_serial counter)
        ∷ imu (abs abs_x accel.at0)
        ∷ imu (abs abs_y accel.at1)
        ∷ imu (abs abs_z accel.at2)
        ∷ imu (abs abs_rx gyro.at0)
        ∷ imu (abs abs_ry gyro.at1)
        ∷ imu (abs abs_rz gyro.at2)
        ∷ imu sync
        ∷ []

  -- `reporting`, which ends in the `input_sync` of the HID device.
  unfoldable pub report_sync : Bool → ℤ → ℤ × ℤ → List Report
  report_sync changed wheel (mouse_x, mouse_y) =
      if changed || not (is_zero_ℤ wheel) || not (is_zero_ℤ mouse_x) || not (is_zero_ℤ mouse_y)
      then hid sync ∷ []
      else []

  -- `lgmagic_raw_event` behind its guards.
  unfoldable pub decode_report : Params → Drvdata fp.Float → List ℕ → Drvdata fp.Float × List Report
  decode_report p d bytes =
      let btn_code = report_btn_code bytes in
      let wheel = report_wheel_step bytes in
      let gyro = report_gyro bytes in
      let (d₁, buttons) = report_button p d btn_code in
      let (d₂, moves, mouse) = report_airmouse p d₁ gyro in
      (
        d₂,
        buttons
            ++ (report_wheel p d₁ wheel
                ++ (moves
                    ++ (report_sync (not (btn_code == d.last_btncode)) wheel mouse
                        ++ report_imu p (report_counter bytes) gyro (report_accel bytes)))),
      )

  -- `lgmagic_raw_event`; `none` is a NULL driver data pointer.
  unfoldable pub raw_event :
      Params → Option (Drvdata fp.Float) → List ℕ → Option (Drvdata fp.Float) × List Report
  raw_event p none bytes = (none, [])
  raw_event p (some d) bytes =
      if not d.input_hid || not d.input_imu
      then (some d, [])
      else if not (length bytes == 20) || not (get_or bytes 0 0 == 0xfd)
      then (some d, [])
      else (let (d', reports) = decode_report p d bytes in (some d', reports))
