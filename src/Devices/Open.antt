-- ===== src/Devices/Open.antt =====
-- How tools/src/daemon_devices.c opens a remote and frees one.
use Prim.Native.String.{String}
use lg_magic.Airmouse.{Calib}
use lg_magic.DeviceConfig.{DeviceConfig, device_config_init}
use lg_magic.Devices.{
  Call, create_keyboard, create_mouse, find_keyboard, find_imu, grab, close_fd, Log, World, Remote,
}
use lg_magic.Evdev.{EvdevImu}
use lg_magic.Pipeline.{pipeline_init, pipeline_configure}
use lg_magic.Prelude.{ℕ, Bool, true, false, Option, none, some, List, ◌∷◌, if◌then◌else◌}
use lg_magic.Prelude.Float.{Floats}
use lg_magic.Prelude.Int.{ℤ, pos}
use lg_magic.Prelude.Text.{str_eq}
use lg_magic.Prelude.Three.{Three}

-- Whether the call succeeded, the remote and the log after it.
pub record Opened (D : Type 0) : Type 0 where
  pub done : Bool
  pub remote : Remote D
  pub log : Log

-- `close`, where there is a descriptor: `evdev_close` and `uinput_close`.
unfoldable pub close_one : Option ℕ → Log → Log
close_one none log = log
close_one (some fd) log = record { call = close_fd fd; answer = none } ∷ log

-- The descriptors that `remote_free` closes.
unfoldable pub remote_free : {D : Type 0} → Remote D → Log → Log
remote_free r log =
    close_one r.mouse_uinput (close_one r.kbd_uinput (close_one r.imu (close_one r.kbd log)))

abbrev pub is_some : {A : Type 0} → Option A → Bool
is_some none = false
is_some (some a) = true

-- What `memset` leaves of `struct evdev_imu`.
abbrev pub no_dev : EvdevImu
no_dev =
    let z : Three ℤ = record { at0 = pos 0; at1 = pos 0; at2 = pos 0 } in
    record { last_counter = 0; have_frame = false; accel = z; gyro = z }

module _ (world : World) where
  -- A call, and its answer in the log.
  unfoldable pub ask : Call → Log → Log
  ask call log = record { call = call; answer = world log call } ∷ log

  -- `remote_uinput_open`
  unfoldable pub remote_uinput_open : {D : Type 0} → Bool → Remote D → Log → Opened D
  remote_uinput_open no_uinput r log =
      if no_uinput
      then record { done = true; remote = r; log = log }
      else elim (world log (create_keyboard r.identity)) [
        | none ↦ record { done = false; remote = r; log = ask (create_keyboard r.identity) log }
        | some k ↦ elim (world (ask (create_keyboard r.identity) log) (create_mouse r.identity)) [
          | none ↦ record {
            done = false;
            remote = r;
            log =
                close_one (some k)
                  (ask (create_mouse r.identity) (ask (create_keyboard r.identity) log));
          }
          | some m ↦ record {
            done = true;
            remote = record r { kbd_uinput = some k; mouse_uinput = some m };
            log = ask (create_mouse r.identity) (ask (create_keyboard r.identity) log);
          }
        ]
      ]

module _ (fp : Floats) where
  -- The remote of which `remote_open` starts.
  unfoldable pub blank_remote : List ℕ → String → String → Remote fp.Double
  blank_remote identity kbd_path imu_path = record {
    identity = identity;
    kbd_path = kbd_path;
    imu_path = imu_path;
    kbd = none;
    imu = none;
    kbd_dev = no_dev;
    imu_dev = no_dev;
    kbd_uinput = none;
    mouse_uinput = none;
    dc = device_config_init fp.Double;
    pl = pipeline_init fp;
  }

  -- `load` is `daemon_config_load_remote`, with what it leaves when it fails; `calib_path` is
  -- `daemon_config_calib_path`.
  module _ (load : List ℕ → DeviceConfig fp.Double)
      (calib_path : DeviceConfig fp.Double → List ℕ → Option String)
      (calib_load : String → Option (Calib fp.Double)) (global_lpf : fp.Double) where
    -- The end of `remote_open`: the configuration and the pipeline.
    unfoldable pub set_up : Remote fp.Double → Remote fp.Double
    set_up r =
        let dc = load r.identity in
        record r {
          dc = dc;
          pl =
              (pipeline_configure fp calib_load r.pl dc (calib_path dc r.identity) global_lpf
                (is_some r.kbd_uinput)).0;
        }

    module _ (world : World) where
      -- The motion sensor, which need not open.
      unfoldable pub open_imu : Remote fp.Double → Log → Opened fp.Double
      open_imu r log =
          if str_eq r.imu_path ""
          then record { done = true; remote = set_up r; log = log }
          else elim (world log (find_imu r.imu_path)) [
            | none ↦ record {
              done = true;
              remote = set_up (record r { imu = none; imu_path = "" });
              log = ask world (find_imu r.imu_path) log;
            }
            | some fd ↦ record {
              done = true;
              remote = set_up (record r { imu = some fd });
              log = ask world (find_imu r.imu_path) log;
            }
          ]

      -- The keyboard, its grab, and the motion sensor.
      unfoldable pub open_keyboard : Remote fp.Double → Log → Opened fp.Double
      open_keyboard r log = elim (world log (find_keyboard r.kbd_path)) [
        | none ↦ record {
          done = false;
          remote = r;
          log = remote_free r (ask world (find_keyboard r.kbd_path) log);
        }
        | some fd ↦
            open_imu (record r { kbd = some fd })
              (ask world (grab r.identity fd) (ask world (find_keyboard r.kbd_path) log))
      ]

      unfoldable pub remote_open : Bool → List ℕ → String → String → Log → Opened fp.Double
      remote_open no_uinput identity kbd_path imu_path log =
          let v =
            remote_uinput_open world no_uinput (blank_remote identity kbd_path imu_path) log in
          if v.done
          then open_keyboard v.remote v.log
          else record { done = false; remote = v.remote; log = remote_free v.remote v.log }
