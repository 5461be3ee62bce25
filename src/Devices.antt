-- ===== src/Devices.antt =====
-- tools/src/daemon_devices.c: the remotes that the daemon holds open. What the system answers to a
-- call is an argument, a function of the calls before it; the calls are a log, the last one first.
-- Times are milliseconds of the monotonic clock.
pub mod Open
pub mod Rescan
pub mod Handle
pub mod Lifecycle
pub mod Reload
pub mod Ready
pub mod Grabs
pub mod Freed
pub mod Kept
pub mod Layout
pub mod Timing
mod Examples
use Prim.Native.String.{String}
use lg_magic.DeviceConfig.{DeviceConfig, device_config_init}
use lg_magic.Evdev.{EvdevImu}
use lg_magic.Pipeline.{Pipeline, pipeline_init}
use lg_magic.Prelude.{
  ℕ, suc, ◌+◌, ◌-◌, ◌%◌, Bool, true, false, not, ◌&&◌, ◌||◌, Option, none, some, List, [], ◌∷◌,
  ◌==◌, leb, ltb, if◌then◌else◌, length,
}
use lg_magic.Prelude.Float.{Floats}
use lg_magic.Prelude.Int.{pos}
use lg_magic.Prelude.Text.{same_bytes}
use lg_magic.Prelude.Three.{Three}

-- The calls by which devices are opened and closed. The virtual devices carry the identity of their
-- remote; `grab` carries the identity of the remote for which the keyboard was opened.
pub data Call : Type 0 where
  create_keyboard create_mouse : List ℕ → Call
  find_keyboard find_imu : String → Call
  grab : List ℕ → ℕ → Call
  close_fd : ℕ → Call

-- A call, and the descriptor that it gave: `none` on an error. A grab that was taken gives 0.
pub record Entry : Type 0 where
  pub call : Call
  pub answer : Option ℕ

abbrev pub Log : Type 0
Log = List Entry

-- What the system answers, after the calls of the log.
abbrev pub World : Type 0
World = Log → Call → Option ℕ

-- `struct daemon_remote`; a descriptor is `none` for -1, and `kbd_dev` and `imu_dev` are the rest
-- of `kbd` and `imu`.
pub record Remote (D : Type 0) : Type 0 where
  pub identity : List ℕ
  pub kbd_path : String
  pub imu_path : String
  pub kbd : Option ℕ
  pub imu : Option ℕ
  pub kbd_dev : EvdevImu
  pub imu_dev : EvdevImu
  pub kbd_uinput : Option ℕ
  pub mouse_uinput : Option ℕ
  pub dc : DeviceConfig D
  pub pl : Pipeline D

-- `struct daemon_devices`. `rescan_due` is the time of a scheduled rescan, if `have_rescan`;
-- `watching` is whether `inotify_wd` is one.
pub record Devices (D : Type 0) : Type 0 where
  pub remotes : List (Remote D)
  pub kbd_override : Option String
  pub no_uinput : Bool
  pub inotify : Option ℕ
  pub watching : Bool
  pub rescan_due : Option ℕ
  pub last_rescan : ℕ

-- RESCAN_INTERVAL_MS and RESCAN_DEBOUNCE_MS.
abbrev pub rescan_interval : ℕ
rescan_interval = 2000

abbrev pub rescan_debounce : ℕ
rescan_debounce = 200

-- `isxdigit`
abbrev pub is_hex_digit : ℕ → Bool
is_hex_digit c = (leb 48 c && leb c 57) || ((leb 65 c && leb c 70) || (leb 97 c && leb c 102))

abbrev pub unknown_identity : List ℕ
unknown_identity = b'u' ∷ b'n' ∷ b'k' ∷ b'n' ∷ b'o' ∷ b'w' ∷ b'n' ∷ []

-- The loop of `daemon_identity_valid` from index `i` on.
unfoldable pub identity_bytes : ℕ → List ℕ → Bool
identity_bytes i [] = true
identity_bytes i (c ∷ cs) =
    (if i % 3 == 2 then c == b':' else is_hex_digit c) && identity_bytes (i + 1) cs

unfoldable pub daemon_identity_valid : Option (List ℕ) → Bool
daemon_identity_valid none = false
daemon_identity_valid (some s) =
    same_bytes s unknown_identity || (length s == 17 && identity_bytes 0 s)

-- The time until `at`, 0 where it is past.
unfoldable pub time_until : ℕ → ℕ → ℕ
time_until at now = if ltb at now then 0 else at - now

-- The delay, of the time of a scheduled scan and of the last one.
unfoldable pub delay_of : Option ℕ → ℕ → ℕ → ℕ
delay_of none last_rescan now = time_until (last_rescan + rescan_interval) now
delay_of (some at) last_rescan now =
    let due = time_until at now in
    let fallback = time_until (last_rescan + rescan_interval) now in
    if ltb fallback due then fallback else due

unfoldable pub rescan_delay_ms : {D : Type 0} → Devices D → ℕ → ℕ
rescan_delay_ms dd now = delay_of dd.rescan_due dd.last_rescan now

-- `schedule_rescan`
unfoldable pub schedule_rescan : {D : Type 0} → Devices D → ℕ → ℕ → Devices D
schedule_rescan dd now delay = record dd { rescan_due = some (now + delay) }
