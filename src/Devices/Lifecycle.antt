-- ===== src/Devices/Lifecycle.antt =====
-- `daemon_devices_init` and `daemon_devices_free` of tools/src/daemon_devices.c.
use Prim.Native.String.{String}
use lg_magic.Devices.{Remote, Devices, Log}
use lg_magic.Devices.Open.{close_one, remote_free}
use lg_magic.Prelude.{ℕ, Bool, false, Option, none, some, List, [], ◌∷◌, if◌then◌else◌}

-- The watch, where inotify gives a descriptor and the directory can be watched: otherwise the
-- descriptor is closed, and the daemon scans without it.
unfoldable pub daemon_devices_init :
    {D : Type 0} → Option String → Bool → Option ℕ → Bool → Log → Devices D × Log
daemon_devices_init kbd_override no_uinput inotify watch log = (
  record {
    remotes = [];
    kbd_override = kbd_override;
    no_uinput = no_uinput;
    inotify = if watch then inotify else none;
    watching = elim inotify [ none ↦ false | some fd ↦ watch ];
    rescan_due = none;
    last_rescan = 0;
  },
  if watch then log else close_one inotify log,
)

unfoldable pub free_all : {D : Type 0} → List (Remote D) → Log → Log
free_all [] log = log
free_all (r ∷ rs) log = free_all rs (remote_free r log)

unfoldable pub daemon_devices_free : {D : Type 0} → Devices D → Log → Log
daemon_devices_free dd log = close_one dd.inotify (free_all dd.remotes log)
