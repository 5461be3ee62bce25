-- ===== src/Evdev.antt =====
-- `evdev_read_frame_ext` and `evdev_read_frame` of tools/src/evdev.c: the events of an input device
-- up to a SYN, collected into a frame. What `read` returns is a list, one entry for each call; a
-- list that ends stands for a call that does not return. `int` does not overflow.
pub mod Describe
pub mod Collect
pub mod Counter
mod Examples
use lg_magic.Kernel.{Axis, abs_x, abs_y, abs_z, abs_rx, abs_ry, abs_rz}
use lg_magic.Pipeline.{KeyEvent}
use lg_magic.Prelude.{
  ℕ, ◌+◌, ◌-◌, ◌%◌, ◌^◌, Bool, true, false, List, [], ◌∷◌, ◌++◌, ltb, if◌then◌else◌, length,
}
use lg_magic.Prelude.Float.{Floats}
use lg_magic.Prelude.Int.{ℤ, pos, ◌+ℤ◌}
use lg_magic.Prelude.Three.{Three}

-- `struct input_event` of the types and codes that the source reads. The value of MSC_SERIAL is
-- given as `unsigned`.
pub data EvdevEvent : Type 0 where
  ev_key : ℕ → ℕ → EvdevEvent
  ev_wheel ev_hwheel : ℤ → EvdevEvent
  ev_abs : Axis → ℤ → EvdevEvent
  ev_serial : ℕ → EvdevEvent
  ev_other ev_syn : EvdevEvent

-- What a call of `read` gives: an event, EINTR with the value of `g_stop`, another error, the end
-- of the file, or a part of an event.
pub data ReadResult : Type 0 where
  event : EvdevEvent → ReadResult
  interrupted : Bool → ReadResult
  failed end_of_file partial : ReadResult

-- What `evdev_read_frame_ext` returns: 1, 0 and -1, or nothing.
pub data Outcome : Type 0 where
  frame_read no_more error waiting : Outcome

-- The parts of `struct evdev_imu` that change.
pub record EvdevImu : Type 0 where
  pub last_counter : ℕ
  pub have_frame : Bool
  pub accel : Three ℤ
  pub gyro : Three ℤ

-- `struct evdev_frame`; `keys` holds its first `nkeys` entries.
pub record EvdevFrame (D : Type 0) : Type 0 where
  pub counter : ℕ
  pub dt : D
  pub accel : Three ℤ
  pub gyro : Three ℤ
  pub keys : List KeyEvent
  pub wheel : ℤ
  pub hwheel : ℤ

-- The size of `keys`.
abbrev pub keys_size : ℕ
keys_size = 16

-- `delta`, of two 32-bit counters.
unfoldable pub counter_delta : ℕ → ℕ → ℕ
counter_delta counter last = (counter + 2 ^ 32 - last) % 2 ^ 32 % 65536

-- The switch over the axes.
unfoldable pub set_axis : EvdevImu → Axis → ℤ → EvdevImu
set_axis dev abs_x v = record dev { accel = record dev.accel { at0 = v } }
set_axis dev abs_y v = record dev { accel = record dev.accel { at1 = v } }
set_axis dev abs_z v = record dev { accel = record dev.accel { at2 = v } }
set_axis dev abs_rx v = record dev { gyro = record dev.gyro { at0 = v } }
set_axis dev abs_ry v = record dev { gyro = record dev.gyro { at1 = v } }
set_axis dev abs_rz v = record dev { gyro = record dev.gyro { at2 = v } }

unfoldable pub add_key : List KeyEvent → ℕ → ℕ → List KeyEvent
add_key keys code value =
    if ltb (length keys) keys_size then keys ++ record { code = code; value = value } ∷ [] else keys

-- `t_unit` is the 0.02 of T_UNIT, and `nan` is NAN.
module _ (fp : Floats) (t_unit nan : fp.Double) where
  open fp use {Double, of_int, ddiv, dmul}

  -- `(delta / COUNTS_PER_0P02) * T_UNIT`
  unfoldable pub frame_dt : ℕ → Double
  frame_dt delta = dmul (ddiv (of_int (pos delta)) (of_int (pos 256))) t_unit

  -- What `memset` leaves of the frame.
  unfoldable pub empty_frame : EvdevFrame Double
  empty_frame =
      let zero3 : Three ℤ = record { at0 = pos 0; at1 = pos 0; at2 = pos 0 } in
      record {
        counter = 0;
        dt = of_int (pos 0);
        accel = zero3;
        gyro = zero3;
        keys = [];
        wheel = pos 0;
        hwheel = pos 0;
      }

  -- The case of EV_SYN.
  unfoldable pub finish_frame : EvdevImu → EvdevFrame Double → EvdevImu × EvdevFrame Double
  finish_frame dev frame = (
    record dev { have_frame = true; last_counter = frame.counter },
    record frame {
      dt = if dev.have_frame then frame_dt (counter_delta frame.counter dev.last_counter) else nan;
      accel = dev.accel;
      gyro = dev.gyro;
    },
  )

  -- The loop: the outcome, the device, the frame, and what is left to read.
  unfoldable pub read_loop :
      List ReadResult
      → EvdevImu
      → EvdevFrame Double
      → Outcome × EvdevImu × EvdevFrame Double × List ReadResult
  read_loop [] dev frame = (waiting, dev, frame, [])
  read_loop (failed ∷ rs) dev frame = (error, dev, frame, rs)
  read_loop (end_of_file ∷ rs) dev frame = (no_more, dev, frame, rs)
  read_loop (partial ∷ rs) dev frame = read_loop rs dev frame
  read_loop (interrupted true ∷ rs) dev frame = (error, dev, frame, rs)
  read_loop (interrupted false ∷ rs) dev frame = read_loop rs dev frame
  read_loop (event (ev_key code value) ∷ rs) dev frame =
      read_loop rs dev (record frame { keys = add_key frame.keys code value })
  read_loop (event (ev_wheel v) ∷ rs) dev frame =
      read_loop rs dev (record frame { wheel = frame.wheel +ℤ v })
  read_loop (event (ev_hwheel v) ∷ rs) dev frame =
      read_loop rs dev (record frame { hwheel = frame.hwheel +ℤ v })
  read_loop (event (ev_abs axis v) ∷ rs) dev frame = read_loop rs (set_axis dev axis v) frame
  read_loop (event (ev_serial c) ∷ rs) dev frame = read_loop rs dev (record frame { counter = c })
  read_loop (event ev_other ∷ rs) dev frame = read_loop rs dev frame
  read_loop (event ev_syn ∷ rs) dev frame =
      let (dev', frame') = finish_frame dev frame in (frame_read, dev', frame', rs)

  unfoldable pub read_frame_ext :
      List ReadResult → EvdevImu → Outcome × EvdevImu × EvdevFrame Double × List ReadResult
  read_frame_ext rs dev = read_loop rs dev empty_frame
