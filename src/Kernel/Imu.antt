-- ===== src/Kernel/Imu.antt =====
-- The motion sensor in the reports of kernel/lg_magic_main.c: what a remote that lays its samples
-- out as the source documents gets onto the IMU device.
use Prim.Native.String.{String}
use lg_magic.Kernel.{
  Report, hid, imu, InputEvent, msc_serial, abs, sync, abs_x, abs_y, abs_z, abs_rx, abs_ry, abs_rz,
  Params, Drvdata, find_button, press_button, report_button, report_wheel, report_airmouse,
  report_imu, report_sync, decode_report, raw_event, report_gyro, report_counter, report_accel,
}
use lg_magic.Kernel.Buttons.{lg_btn_map}
use lg_magic.Prelude.{
  ℕ, ◌+◌, ◌-◌, ◌*◌, ◌/◌, ◌%◌, ◌^◌, ◌≡◌, ◌<◌, refl, Bool, true, Option, none, some, List, [], ◌∷◌,
  ◌++◌, arith, ◌==◌, if◌then◌else◌, Bool-cases, inl, inr, ◌||◌, length, get_or,
}
use lg_magic.Prelude.Float.{Floats}
use lg_magic.Prelude.Int.{ℤ, pos, negsuc, signed16}
use lg_magic.Prelude.Three.{Three}

-- A sample of the sensor, with a button code and the byte of the wheel beside it.
pub record Sample : Type 0 where
  pub counter : ℕ
  pub gyro : Three ℤ
  pub accel : Three ℤ
  pub btn_code : ℕ
  pub wheel : ℕ

-- A 16-bit two's complement word, and the range of its values.
unfoldable pub word_of : ℤ → ℕ
word_of (pos n) = n
word_of (negsuc n) = 2 ^ 16 - 1 - n

abbrev pub IsS16 : ℤ → Type 0
IsS16 (pos n) = n < 2 ^ 15
IsS16 (negsuc n) = n < 2 ^ 15

abbrev pub AreS16 : Three ℤ → Type 0
AreS16 v = IsS16 v.at0 × IsS16 v.at1 × IsS16 v.at2

-- The 20 bytes of a sample: the counter with its low byte first, the words with their high byte
-- first, and two bytes that the handler does not read.
unfoldable pub encode : Sample → List ℕ
unfolding word_of
encode s =
    let hi = λ (z : ℤ). word_of z / 256 in
    let lo = λ (z : ℤ). word_of z % 256 in
    0xfd
    ∷ (s.counter % 256)
    ∷ (s.counter / 256)
    ∷ 0
    ∷ 0
    ∷ hi s.gyro.at0
    ∷ lo s.gyro.at0
    ∷ hi s.gyro.at1
    ∷ lo s.gyro.at1
    ∷ hi s.gyro.at2
    ∷ lo s.gyro.at2
    ∷ hi s.accel.at0
    ∷ lo s.accel.at0
    ∷ hi s.accel.at1
    ∷ lo s.accel.at1
    ∷ hi s.accel.at2
    ∷ lo s.accel.at2
    ∷ (s.btn_code / 256)
    ∷ (s.btn_code % 256)
    ∷ s.wheel
    ∷ []

-- The events of a sample: its counter, the six axes and a SYN.
abbrev pub sample_events : Sample → List InputEvent
sample_events s =
    msc_serial s.counter
    ∷ abs abs_x s.accel.at0
    ∷ abs abs_y s.accel.at1
    ∷ abs abs_z s.accel.at2
    ∷ abs abs_rx s.gyro.at0
    ∷ abs abs_ry s.gyro.at1
    ∷ abs abs_rz s.gyro.at2
    ∷ sync
    ∷ []

-- The events on the IMU device.
unfoldable pub imu_events : List Report → List InputEvent
imu_events [] = []
imu_events (hid e ∷ rs) = imu_events rs
imu_events (imu e ∷ rs) = e ∷ imu_events rs

imu_events-append : (rs ts : List Report) → imu_events (rs ++ ts) ≡ imu_events rs ++ imu_events ts
unfolding imu_events
imu_events-append [] ts = refl
imu_events-append (hid e ∷ rs) ts = imu_events-append rs ts
imu_events-append (imu e ∷ rs) ts = rw (imu_events-append rs ts)

signed16-word_of : (z : ℤ) → IsS16 z → signed16 (word_of z / 256 * 256 + word_of z % 256) ≡ z
unfolding signed16 word_of
signed16-word_of (pos n) h = ground arith
signed16-word_of (negsuc n) h = ground arith

module _ (fp : Floats) (keycode : String → ℕ) (p : Params) where
  press_button_imu :
      (d : Drvdata fp.Float) (row : Option (ℕ × String))
      → imu_events (press_button fp keycode p d row).1 ≡ []
  unfolding press_button imu_events
  press_button_imu d none = refl
  press_button_imu d (some (c, n)) = ground arith

  report_button_imu :
      (d : Drvdata fp.Float) (btn : ℕ) → imu_events (report_button fp keycode p d btn).1 ≡ []
  unfolding report_button imu_events
  report_button_imu d btn = elim (Bool-cases (btn == d.last_btncode)) [
    | inl same ↦ rw same
    | inr changed ↦ rw changed (
        press_button_imu (record d { last_keycode = 0; last_btncode = btn })
          (if btn == 0 then none else find_button lg_btn_map btn))
  ]

  report_wheel_imu :
      (d : Drvdata fp.Float) (wheel : ℤ) → imu_events (report_wheel fp keycode p d wheel) ≡ []
  unfolding report_wheel imu_events
  report_wheel_imu d wheel = ground arith

  report_airmouse_imu :
      (d : Drvdata fp.Float) (gyro : Three ℤ)
      → imu_events (report_airmouse fp keycode p d gyro).1 ≡ []
  unfolding report_airmouse imu_events
  report_airmouse_imu d gyro = ground arith

  report_sync_imu :
      (changed : Bool) (wheel : ℤ) (mouse : ℤ × ℤ)
      → imu_events (report_sync fp keycode changed wheel mouse) ≡ []
  unfolding report_sync imu_events
  report_sync_imu changed wheel (x, y) = ground arith

  decode_report_imu :
      (d : Drvdata fp.Float) (bytes : List ℕ)
      → imu_events (decode_report fp keycode p d bytes).1
        ≡ imu_events (
            report_imu fp keycode p (report_counter bytes) (report_gyro bytes) (report_accel bytes))
  unfolding decode_report imu_events
  decode_report_imu d bytes =
      simp (
        imu_events-append, report_button_imu, report_wheel_imu, report_airmouse_imu,
        report_sync_imu,
      )

  encode_shape : (s : Sample) → (length (encode s) ≡ 20) × (get_or (encode s) 0 0 ≡ 0xfd)
  unfolding encode
  encode_shape s = (refl, refl)

  report_imu_lem :
      (s : Sample)
      → imu_events (report_imu fp keycode p s.counter s.gyro s.accel)
        ≡ (if p.imu_evdev || p.raw_only then sample_events s else [])
  unfolding report_imu imu_events
  report_imu_lem s = ground arith

  sample_fields :
      (s : Sample)
      → AreS16 s.gyro
      → AreS16 s.accel
      → (report_counter (encode s) ≡ s.counter)
        × (report_gyro (encode s) ≡ s.gyro)
        × (report_accel (encode s) ≡ s.accel)
  unfolding encode
  sample_fields s g a = (
    omega arith,
    simp (signed16-word_of _ g.0, signed16-word_of _ g.1, signed16-word_of _ g.2),
    simp (signed16-word_of _ a.0, signed16-word_of _ a.1, signed16-word_of _ a.2),
  )

  -- A sample that a remote lays out as the source describes arrives unchanged on the IMU device,
  -- counter and all six signed axes, if the module exposes that device (`imu_evdev` or `raw_only`),
  -- whatever the buttons and the wheel do; otherwise the device stays silent. The driver's devices
  -- are set up, and the axes are 16-bit values.
  pub raw_event-encode :
      (d : Drvdata fp.Float) (s : Sample)
      → d.input_hid ≡ true
      → d.input_imu ≡ true
      → AreS16 s.gyro
      → AreS16 s.accel
      → imu_events (raw_event fp keycode p (some d) (encode s)).1
        ≡ (if p.imu_evdev || p.raw_only then sample_events s else [])
  unfolding raw_event
  raw_event-encode d s hid_set imu_set g a =
      let (counter, gyro, accel) = sample_fields s g a in
      let (size, tag) = encode_shape s in
      rw (hid_set, imu_set, size, tag, decode_report_imu, counter, gyro, accel) (report_imu_lem s)
