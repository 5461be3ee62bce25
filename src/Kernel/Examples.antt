-- ===== src/Kernel/Examples.antt =====
-- Runs of the handler of kernel/lg_magic_main.c, and the theorems about it at concrete inputs.
use Prim.Native.String.{String}
use mathlib.Core.Option.{get_or as value_or}
use lg_magic.Kernel.{
  key, rel, rel_wheel, sync, Params, Drvdata, report_button, report_wheel, report_airmouse,
  report_imu, report_sync, decode_report, raw_event,
}
use lg_magic.Kernel.Airmouse.{Calib}
use lg_magic.Kernel.Imu.{Sample, encode, imu_events, sample_events, raw_event-encode}
use lg_magic.Kernel.Keys.{Keys, replay, IsBalancedFor, run, raw_event_release, run-IsBalanced}
use lg_magic.Kernel.Probe.{Firmware, codes, zero_calib, probe_calib, IsUsable, probe_calib-IsUsable}
use lg_magic.Kernel.RawOnly.{IsUapi, hid_events, expected_events, raw_event_raw_only}
use lg_magic.Keymap.{code_of, name_to_code}
use lg_magic.Prelude.{
  ℕ, ◌≡◌, refl, true, false, some, List, [], ◌∷◌, arith, if◌then◌else◌, ◌==◌, length,
}
use lg_magic.Prelude.Float.{whole}
use lg_magic.Prelude.Int.{pos, negsuc, signed8, signed16}

-- The macros, by the table of keymap.c.
abbrev keycode : String → ℕ
keycode n = value_or (name_to_code (some n)) 0

keycode-IsUapi : IsUapi keycode
keycode-IsUapi c n h = ground arith

abbrev raw : Params
raw = record { raw_only = true; airmouse = true; airmouse_threshold = 300; imu_evdev = false }

-- The driver while POWER (code 0x8000, KEY_POWER 116) is down.
abbrev driver : Drvdata whole.Float
driver = record {
  input_hid = true;
  input_imu = true;
  last_keycode = 116;
  last_btncode = 0x8000;
  gyro_acc = record { at0 = pos 0; at1 = pos 0; at2 = pos 0 };
  mode = false;
  calib = zero_calib whole;
}

abbrev sample : Sample
sample = record {
  counter = 0x1234;
  gyro = record { at0 = pos 5; at1 = negsuc 0; at2 = negsuc 32767 };
  accel = record { at0 = pos 32767; at1 = pos 0; at2 = negsuc 299 };
  btn_code = 0x8044;
  wheel = 0xff;
}

abbrev idle : Sample
idle = record sample { btn_code = 0; wheel = 0 }

-- Only POWER is down.
abbrev power_down : Keys
power_down k = if k == 116 then true else false

-- POWER is released, the wheel pressed (KEY_ENTER 28) and turned by one step.
wheel_events :
    hid_events (raw_event whole keycode raw (some driver) (encode sample)).1
    ≡ key 116 false ∷ key 28 true ∷ rel rel_wheel (negsuc 0) ∷ sync ∷ []
unfolding hid_events raw_event decode_report report_button report_wheel report_airmouse report_sync
    report_imu encode name_to_code code_of signed8 signed16
wheel_events = refl

raw_event_raw_only_example :
    hid_events (raw_event whole keycode raw (some driver) (encode sample)).1
    ≡ expected_events 116 0x8000 (encode sample)
unfolding encode
raw_event_raw_only_example =
    raw_event_raw_only whole keycode raw refl driver (encode sample) keycode-IsUapi refl refl refl
      refl

raw_event-encode_example :
    imu_events (raw_event whole keycode raw (some driver) (encode sample)).1 ≡ sample_events sample
raw_event-encode_example =
    raw_event-encode whole keycode raw driver sample refl refl (omega arith) (omega arith)

raw_event_release_example :
    replay (raw_event whole keycode raw (some driver) (encode idle)).1 power_down 116 ≡ false
unfolding encode
raw_event_release_example =
    raw_event_release whole keycode raw driver (encode idle) power_down (λ k h. ground arith) refl
      refl refl refl refl 116

run-IsBalanced_example :
    let (d, s) =
      run whole keycode ((raw, encode sample) ∷ (raw, encode idle) ∷ []) (some driver) power_down in
    IsBalancedFor d s
run-IsBalanced_example =
    run-IsBalanced whole keycode ((raw, encode sample) ∷ (raw, encode idle) ∷ []) (some driver)
      power_down (λ k h. ground arith)

-- A file of 31 bytes for the remote's own address, and a good generic file.
abbrev mac : List ℕ
mac = codes "a0:b1:c2:d3:e4:f5"

abbrev good : Calib whole.Float
good = record (zero_calib whole) { alpha = pos 1 }

abbrev files : Firmware whole.Float
files name = some (if length name == 36 then 31 else 32, good)

probe_calib-IsUsable_example : IsUsable whole (probe_calib whole files mac)
probe_calib-IsUsable_example = probe_calib-IsUsable whole files mac
