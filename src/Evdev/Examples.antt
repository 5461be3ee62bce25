-- ===== src/Evdev/Examples.antt =====
-- The theorems about tools/src/evdev.c at concrete inputs.
use lg_magic.Evdev.{
  EvdevEvent, ev_key, ev_wheel, ev_abs, ev_serial, ev_syn, event, frame_read, EvdevImu, keys_size,
  counter_delta, read_frame_ext,
}
use lg_magic.Evdev.Describe.{keys_of, wheel_of, counter_of, axis_of, place}
use lg_magic.Evdev.Collect.{read_frame_ext_lem}
use lg_magic.Evdev.Counter.{counter_delta_wrapped}
use lg_magic.Kernel.{Axis, abs_x}
use lg_magic.Prelude.{◌+◌, ◌%◌, ◌≡◌, refl, true, List, [], ◌∷◌, ◌++◌, map, take, arith}
use lg_magic.Prelude.Float.{whole}
use lg_magic.Prelude.Int.{ℤ, pos, negsuc}
use lg_magic.Prelude.Three.{Three}

abbrev zero3 : Three ℤ
zero3 = record { at0 = pos 0; at1 = pos 0; at2 = pos 0 }

abbrev device : EvdevImu
device = record { last_counter = 65535; have_frame = true; accel = zero3; gyro = zero3 }

-- UP is pressed, the wheel turns back, and one axis changes.
abbrev events : List EvdevEvent
events =
    ev_serial 2
    ∷ ev_key 103 1
    ∷ ev_wheel (negsuc 0)
    ∷ ev_abs abs_x (pos 7)
    ∷ ev_wheel (negsuc 1)
    ∷ []

read_frame_ext_lem_example :
    let (outcome, dev', frame, left) =
      read_frame_ext whole
        (pos 0)
        (pos 9)
        (map event events ++ event ev_syn ∷ event (ev_wheel (pos 1)) ∷ [])
        device in
    (outcome ≡ frame_read)
    × (left ≡ event (ev_wheel (pos 1)) ∷ [])
    × (frame.keys ≡ take keys_size (keys_of events))
    × (frame.wheel ≡ wheel_of events)
    × (frame.counter ≡ counter_of events 0)
    × ((a : Axis) → place a frame.accel frame.gyro ≡ axis_of a events (place a zero3 zero3))
    × ((dev'.accel ≡ frame.accel) × (dev'.gyro ≡ frame.gyro))
    × ((dev'.last_counter ≡ frame.counter) × (dev'.have_frame ≡ true))
read_frame_ext_lem_example =
    read_frame_ext_lem whole (pos 0) (pos 9) events (event (ev_wheel (pos 1)) ∷ []) device
      (refl, (refl, (refl, (refl, (refl, tt)))))

counter_delta_wrapped_example : counter_delta ((65535 + 3) % 65536) 65535 ≡ 3
counter_delta_wrapped_example = counter_delta_wrapped 65535 3 (omega arith) (omega arith)
