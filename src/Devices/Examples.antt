-- ===== src/Devices/Examples.antt =====
-- Tests and examples of the devices of the daemon, with whole numbers in place of floating point
-- numbers.
use Prim.Native.String.{String}
use lg_magic.DeviceConfig.{DeviceConfig, device_config_init}
use lg_magic.Devices.{
  Log, World, Remote, Devices, unknown_identity, rescan_delay_ms, delay_of, time_until,
}
use lg_magic.Devices.Open.{blank_remote}
use lg_magic.Devices.Rescan.{RescanError, daemon_devices_rescan}
use lg_magic.Devices.Handle.{daemon_devices_pollfds, target, target_fd, to_list, remote_fds}
use lg_magic.Devices.Ready.{GrabsAreReady}
use lg_magic.Devices.Grabs.{daemon_devices_rescan-GrabsAreReady}
use lg_magic.Devices.Freed.{In, IsFreed}
use lg_magic.Devices.Kept.{daemon_devices_rescan_keeps}
use lg_magic.Devices.Layout.{IsOwned, target_lem}
use lg_magic.Devices.Timing.{deadline_of, deadline, Polls, rescan_delay_ms-deadline}
use lg_magic.Pairing.{InputDev}
use lg_magic.Prelude.{
  ℕ, ◌+◌, ◌<◌, ◌≤◌, ◌≡◌, refl, ◌⊎◌, true, false, Option, none, some, List, [], ◌∷◌, arith, length,
  get_elem?,
}
use lg_magic.Prelude.Float.{whole}
use lg_magic.Prelude.Int.{ℤ, pos}
use lg_magic.Prelude.Result.{Result, err}

-- Each descriptor is new: the number of calls before it.
abbrev fresh : World
fresh log call = some (length log)

abbrev keyboard_dev : InputDev
keyboard_dev = record {
  path = "event5";
  name = some "LG Magic Remote";
  uniq = some [];
  vendor = 15;
  product = 13330;
}

abbrev probe_any : String → Option InputDev
probe_any path = some keyboard_dev

abbrev default_config : List ℕ → DeviceConfig ℤ
default_config identity = device_config_init ℤ

abbrev no_calib_path : DeviceConfig ℤ → List ℕ → Option String
no_calib_path dc identity = none

abbrev old_remote : Remote ℤ
old_remote = record (blank_remote whole unknown_identity "event3" "") {
  kbd = some 7;
  kbd_uinput = some 5;
  mouse_uinput = some 6;
}

abbrev one_remote : Devices ℤ
one_remote = record {
  remotes = old_remote ∷ [];
  kbd_override = none;
  no_uinput = false;
  inotify = some 3;
  watching = true;
  rescan_due = some 1500;
  last_rescan = 1000;
}

abbrev rescanned : Result RescanError (Unit {0}) × Devices ℤ × Log
rescanned =
    daemon_devices_rescan whole default_config no_calib_path (λ path. none) (pos 0) fresh probe_any
      (some ("event5" ∷ [])) false 1500 one_remote []

daemon_devices_rescan-GrabsAreReady_example : GrabsAreReady rescanned.2
daemon_devices_rescan-GrabsAreReady_example =
    daemon_devices_rescan-GrabsAreReady whole default_config no_calib_path (λ path. none) (pos 0)
      fresh probe_any (some ("event5" ∷ [])) false 1500 one_remote [] refl
      (unfold GrabsAreReady in tt)

daemon_devices_rescan_keeps_example :
    ((e : Remote ℤ) → In e one_remote.remotes → In e rescanned.1.remotes ⊎ IsFreed e rescanned.2)
    × ((why : RescanError)
        → rescanned.0 ≡ err why
        → (rescanned.1.remotes ≡ one_remote.remotes) × (rescanned.2 ≡ []))
daemon_devices_rescan_keeps_example =
    daemon_devices_rescan_keeps whole default_config no_calib_path (λ path. none) (pos 0) fresh
      probe_any (some ("event5" ∷ [])) false 1500 one_remote

filled : 1 < length (daemon_devices_pollfds one_remote 8)
unfolding daemon_devices_pollfds to_list remote_fds
filled = omega arith

target_lem_example :
    (target_fd (target one_remote 1) ≡ get_elem? (daemon_devices_pollfds one_remote 8) 1)
    × IsOwned 0 one_remote.remotes (target one_remote 1)
target_lem_example = target_lem one_remote 8 1 filled

-- A poll of 300 ms that a key ends.
polled : Polls one_remote 1200 1500
unfolding rescan_delay_ms delay_of time_until
polled = Polls.poll 1200 300 1500 (omega arith) (Polls.done 1500)

waiting : 1200 ≤ deadline one_remote
unfolding deadline deadline_of
waiting = omega arith

rescan_delay_ms-deadline_example :
    (1500 ≤ deadline one_remote)
    × (1500 + rescan_delay_ms one_remote 1500 ≡ deadline one_remote)
    × ((after : ℕ) → deadline one_remote ≤ after → rescan_delay_ms one_remote after ≡ 0)
    × ((before : ℕ) → rescan_delay_ms one_remote before ≡ 0 → deadline one_remote ≤ before)
rescan_delay_ms-deadline_example = rescan_delay_ms-deadline one_remote 1200 1500 waiting polled
