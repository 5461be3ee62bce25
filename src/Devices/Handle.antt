-- ===== src/Devices/Handle.antt =====
-- How the main loop of the daemon polls the devices of tools/src/daemon_devices.c and handles one
-- that is ready. `read` is what the calls of `read` on a descriptor give, `accepts` whether a write
-- to a virtual device is taken, and `stop` is `g_stop`.
use lg_magic.Devices.{Remote, Devices, schedule_rescan, rescan_debounce}
use lg_magic.Evdev.{EvdevFrame, ReadResult, frame_read, no_more, error, waiting, read_frame_ext}
use lg_magic.Pipeline.{Frame, Write, pipeline_keyboard, pipeline_imu}
use lg_magic.Prelude.{
  ℕ, suc, ◌+◌, Bool, false, Option, none, some, List, [], ◌∷◌, ◌++◌, ◌==◌, if◌then◌else◌, take, set,
  get_elem?,
}
use lg_magic.Prelude.Float.{Floats}

unfoldable pub to_list : Option ℕ → List ℕ
to_list none = []
to_list (some fd) = fd ∷ []

unfoldable pub remote_fds : {D : Type 0} → List (Remote D) → List ℕ
remote_fds [] = []
remote_fds (r ∷ rs) = to_list r.kbd ++ (to_list r.imu ++ remote_fds rs)

-- The descriptors that `daemon_devices_pollfds` writes to its array of `nfds`.
unfoldable pub daemon_devices_pollfds : {D : Type 0} → Devices D → ℕ → List ℕ
daemon_devices_pollfds dd nfds = take nfds (to_list dd.inotify ++ remote_fds dd.remotes)

-- What a handler did to a remote: the writes, the 1, 0 or -1 that it returns, and whether it
-- schedules a rescan.
pub data Return : Type 0 where
  handled nothing lost : Return

pub record Handled (D : Type 0) : Type 0 where
  pub remote : Remote D
  pub writes : List Write
  pub closed : List ℕ
  pub return : Return

abbrev pub frame_of : {D : Type 0} → EvdevFrame D → Frame
frame_of f = record { accel = f.accel; gyro = f.gyro; keys = f.keys; wheel = f.wheel }

module _ (fp : Floats) (t_unit nan : fp.Double) (read : ℕ → List ReadResult)
    (accepts : Write → Bool) (stop : Bool) where
  -- What follows a frame that `evdev_read_frame_ext` did not give: `fd` is closed.
  unfoldable pub give_up : ℕ → Remote fp.Double → Remote fp.Double → Handled fp.Double
  give_up fd r closed_r =
      if stop
      then record { remote = r; writes = []; closed = []; return = nothing }
      else record { remote = closed_r; writes = []; closed = fd ∷ []; return = lost }

  -- `handle_kbd` of a keyboard that is open at `fd`.
  unfoldable pub handle_kbd : Remote fp.Double → ℕ → Handled fp.Double
  handle_kbd r fd =
      let (rv, dev, f, left) = read_frame_ext fp t_unit nan (read fd) r.kbd_dev in
      let (pl, writes, taken) = pipeline_keyboard fp accepts r.pl (frame_of f) in
      let r' : Remote fp.Double = record r { kbd_dev = dev } in
      elim rv [
        | frame_read ↦ record {
          remote = record r' { pl = pl };
          writes = writes;
          closed = [];
          return = handled;
        }
        | no_more ↦ give_up fd r' (record r' { kbd = none })
        | error ↦ give_up fd r' (record r' { kbd = none })
        | waiting ↦ record { remote = r'; writes = []; closed = []; return = nothing }
      ]

  -- `handle_imu` of a motion sensor that is open at `fd`.
  unfoldable pub handle_imu : Remote fp.Double → ℕ → Handled fp.Double
  handle_imu r fd =
      let (rv, dev, f, left) = read_frame_ext fp t_unit nan (read fd) r.imu_dev in
      let (pl, writes, taken) = pipeline_imu fp accepts r.pl (frame_of f) in
      let r' : Remote fp.Double = record r { imu_dev = dev } in
      elim rv [
        | frame_read ↦ record {
          remote = record r' { pl = pl };
          writes = writes;
          closed = [];
          return = handled;
        }
        | no_more ↦ give_up fd r' (record r' { imu = none })
        | error ↦ give_up fd r' (record r' { imu = none })
        | waiting ↦ record { remote = r'; writes = []; closed = []; return = nothing }
      ]

-- The entry of the array that an index means.
pub data Target : Type 0 where
  drained : ℕ → Target
  keyboard_of motion_of : ℕ → ℕ → Target
  no_target : Target

-- The loop of `daemon_devices_handle` over the remotes, from number `i` and place `n` on: the
-- handler, the number of the remote and the descriptor.
unfoldable pub target_in : {D : Type 0} → List (Remote D) → ℕ → ℕ → ℕ → Target
target_in [] i n idx = no_target
target_in (r ∷ rs) i n idx = elim r.kbd [
  | some k ↦ if idx == n then keyboard_of i k else elim r.imu [
    | some m ↦ if idx == n + 1 then motion_of i m else target_in rs (suc i) (n + 2) idx
    | none ↦ target_in rs (suc i) (n + 1) idx
  ]
  | none ↦ elim r.imu [
    | some m ↦ if idx == n then motion_of i m else target_in rs (suc i) (n + 1) idx
    | none ↦ target_in rs (suc i) n idx
  ]
]

unfoldable pub target : {D : Type 0} → Devices D → ℕ → Target
target dd idx = elim dd.inotify [
  | some fd ↦ if idx == 0 then drained fd else target_in dd.remotes 0 1 idx
  | none ↦ target_in dd.remotes 0 0 idx
]

-- The descriptor that a target is read from.
unfoldable pub target_fd : Target → Option ℕ
target_fd (drained fd) = some fd
target_fd (keyboard_of i fd) = some fd
target_fd (motion_of i fd) = some fd
target_fd no_target = none

-- `drain_inotify`; `again` is whether the last read found nothing more, rather than an error.
unfoldable pub drain_inotify : {D : Type 0} → Devices D → Bool → ℕ → Devices D
drain_inotify dd again now =
    schedule_rescan (record dd { watching = if again then dd.watching else false }) now
      rescan_debounce

-- The remote with the number `i` is as the handler left it, and a lost device is searched for at
-- once.
unfoldable pub put_back : {D : Type 0} → Devices D → ℕ → ℕ → Handled D → Devices D
put_back dd i now h =
    let dd' = record dd { remotes = set dd.remotes i h.remote } in
    elim h.return [ lost ↦ schedule_rescan dd' now 0 | _ ↦ dd' ]

module _ (fp : Floats) (t_unit nan : fp.Double) (read : ℕ → List ReadResult)
    (accepts : Write → Bool) (stop again : Bool) (now : ℕ) where
  -- The devices, what the handler did, where there was one.
  unfoldable pub daemon_devices_handle :
      Devices fp.Double → ℕ → Devices fp.Double × Option (Handled fp.Double)
  daemon_devices_handle dd idx = elim (target dd idx) [
    | drained fd ↦ (drain_inotify dd again now, none)
    | keyboard_of i fd ↦ elim (get_elem? dd.remotes i) [
      | none ↦ (dd, none)
      | some r ↦
          let h = handle_kbd fp t_unit nan read accepts stop r fd in (put_back dd i now h, some h)
    ]
    | motion_of i fd ↦ elim (get_elem? dd.remotes i) [
      | none ↦ (dd, none)
      | some r ↦
          let h = handle_imu fp t_unit nan read accepts stop r fd in (put_back dd i now h, some h)
    ]
    | no_target ↦ (dd, none)
  ]
