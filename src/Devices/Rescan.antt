-- ===== src/Devices/Rescan.antt =====
-- `daemon_devices_rescan` of tools/src/daemon_devices.c, and the scan of /dev/input.
use Prim.Native.String.{String}
use lg_magic.Airmouse.{Calib}
use lg_magic.DeviceConfig.{DeviceConfig}
use lg_magic.Devices.{Log, World, Remote, Devices, daemon_identity_valid, unknown_identity}
use lg_magic.Devices.Open.{is_some, remote_free, remote_open}
use lg_magic.Pairing.{InputDev, PairedRemote, pairing_match}
use lg_magic.Pairing
use lg_magic.Prelude.{
  ℕ, Bool, false, not, ◌&&◌, ◌||◌, Option, none, some, List, [], ◌∷◌, ◌++◌, if◌then◌else◌, length,
  get_elem?,
}
use lg_magic.Prelude.Float.{Floats}
use lg_magic.Prelude.Result.{Result, ok, err}
use lg_magic.Prelude.Text.{str_eq, same_bytes}

-- The causes of -1.
pub data RescanError : Type 0 where
  cannot_scan : RescanError
  ambiguous : lg_magic.Pairing.Error → RescanError

-- `probe` is `evdev_probe` with `evdev_read_uniq`: what there is at a path, or `none`.
module _ (probe : String → Option InputDev) where
  unfoldable pub scan_add : List InputDev → String → List InputDev
  scan_add entries path = elim (probe path) [
    | none ↦ entries
    | some dev ↦ entries ++ record dev { path = path } ∷ []
  ]

  unfoldable pub scan_all : List InputDev → List String → List InputDev
  scan_all entries [] = entries
  scan_all entries (path ∷ paths) = scan_all (scan_add entries path) paths

  unfoldable pub has_path : List InputDev → String → Bool
  has_path [] path = false
  has_path (d ∷ ds) path = str_eq d.path path || has_path ds path

  -- `listing` has the paths of the entries of /dev/input whose names start with "event", or is
  -- `none` where the directory does not open.
  unfoldable pub scan_inputs : Option (List String) → Option String → Option (List InputDev)
  scan_inputs none none = none
  scan_inputs none (some kbd) = some []
  scan_inputs (some paths) none = some (scan_all [] paths)
  scan_inputs (some paths) (some kbd) =
      let entries = scan_all [] paths in
      some (if has_path entries kbd then entries else scan_add entries kbd)

-- The pairing of the scanned devices, of which there may be none.
unfoldable pub pair_devices : List InputDev → Result RescanError (List PairedRemote)
pair_devices [] = ok []
pair_devices (d ∷ ds) = elim (pairing_match (d ∷ ds) (length (d ∷ ds))) [
  | ok paired ↦ ok paired
  | err why ↦ err (ambiguous why)
]

-- The identity, and the paths of the keyboard and of the motion sensor, "" where there is none.
pub record Wanted : Type 0 where
  pub identity : List ℕ
  pub kbd_path : String
  pub imu_path : String

unfoldable pub path_at : List InputDev → ℕ → String
path_at devs i = elim (get_elem? devs i) [ none ↦ "" | some d ↦ d.path ]

unfoldable pub wanted : List InputDev → PairedRemote → Wanted
wanted devs pr = record {
  identity = if daemon_identity_valid (some pr.uniq) then pr.uniq else unknown_identity;
  kbd_path = path_at devs pr.keyboard;
  imu_path = elim pr.imu [ none ↦ "" | some i ↦ path_at devs i ];
}

-- Whether only another keyboard is to be taken over.
unfoldable pub passed_over : Option String → Wanted → Bool
passed_over none w = false
passed_over (some kbd) w = not (str_eq w.kbd_path kbd)

unfoldable pub is_same : {D : Type 0} → Remote D → Wanted → Bool
is_same e w =
    same_bytes e.identity w.identity
    && (str_eq e.kbd_path w.kbd_path && str_eq e.imu_path w.imu_path)

-- The remotes of before: `none` for one that was taken over, which `memset` leaves without an
-- identity.
abbrev pub Slots : Type 0 → Type 0
Slots D = List (Option (Remote D))

-- The search for the remote, with the slots after it.
unfoldable pub steal : {D : Type 0} → Slots D → Wanted → Option (Remote D) × Slots D
steal [] w = (none, [])
steal (none ∷ es) w = let (found, rest) = steal es w in (found, none ∷ rest)
steal (some e ∷ es) w =
    let (found, rest) = steal es w in
    if is_same e w then (some e, none ∷ es) else (found, some e ∷ rest)

-- What the loop over the pairs changes.
pub record Progress (D : Type 0) : Type 0 where
  pub old : Slots D
  pub new : List (Remote D)
  pub log : Log

-- The loop at the end, which frees the remotes that are still there. The source passes over one with
-- an empty identity; there is none, since an identity is a MAC or `unknown`.
unfoldable pub free_rest : {D : Type 0} → Slots D → Log → Log
free_rest [] log = log
free_rest (none ∷ es) log = free_rest es log
free_rest (some e ∷ es) log = free_rest es (remote_free e log)

module _ (fp : Floats) (load : List ℕ → DeviceConfig fp.Double)
    (calib_path : DeviceConfig fp.Double → List ℕ → Option String)
    (calib_load : String → Option (Calib fp.Double)) (global_lpf : fp.Double) (world : World) where
  -- A remote that was not there before. One that does not open is freed again.
  unfoldable pub open_new : Bool → Wanted → Progress fp.Double → Progress fp.Double
  open_new no_uinput w p =
      let o =
        remote_open fp load calib_path calib_load global_lpf world no_uinput w.identity w.kbd_path
          w.imu_path p.log in
      if o.done
      then record { old = p.old; new = p.new ++ o.remote ∷ []; log = o.log }
      else record { old = p.old; new = p.new; log = remote_free o.remote o.log }

  -- The body of the loop over the pairs.
  unfoldable pub rebuild_one :
      Option String → Bool → Wanted → Progress fp.Double → Progress fp.Double
  rebuild_one kbd_override no_uinput w p =
      if passed_over kbd_override w
      then p
      else (let (found, rest) = steal p.old w in
          elim found [
            | some e ↦ record { old = rest; new = p.new ++ e ∷ []; log = p.log }
            | none ↦ open_new no_uinput w p
          ])

  unfoldable pub rebuild :
      Option String → Bool → List Wanted → Progress fp.Double → Progress fp.Double
  rebuild kbd_override no_uinput [] p = p
  rebuild kbd_override no_uinput (w ∷ ws) p =
      rebuild kbd_override no_uinput ws (rebuild_one kbd_override no_uinput w p)

  unfoldable pub all_wanted : List InputDev → List PairedRemote → List Wanted
  all_wanted devs [] = []
  all_wanted devs (pr ∷ prs) = wanted devs pr ∷ all_wanted devs prs

  unfoldable pub slots : List (Remote fp.Double) → Slots fp.Double
  slots [] = []
  slots (r ∷ rs) = some r ∷ slots rs

  -- Behind the pairing.
  unfoldable pub replace :
      Devices fp.Double → List InputDev → List PairedRemote → Log → Devices fp.Double × Log
  replace dd devs paired log =
      let p =
        rebuild dd.kbd_override dd.no_uinput (all_wanted devs paired)
          (record { old = slots dd.remotes; new = []; log = log }) in
      (record dd { remotes = p.new }, free_rest p.old p.log)

  -- Behind the scan: an ambiguous set of devices leaves the remotes as they are.
  unfoldable pub after_pairing :
      Devices fp.Double
      → List InputDev
      → Result RescanError (List PairedRemote)
      → Log
      → Result RescanError (Unit {0}) × Devices fp.Double × Log
  after_pairing dd devs (err why) log = (err why, dd, log)
  after_pairing dd devs (ok paired) log =
      let (done, log') = replace dd devs paired log in (ok tt, done, log')

  unfoldable pub after_scan :
      Devices fp.Double
      → Option (List InputDev)
      → Log
      → Result RescanError (Unit {0}) × Devices fp.Double × Log
  after_scan dd none log = (err cannot_scan, dd, log)
  after_scan dd (some devs) log = after_pairing dd devs (pair_devices devs) log

  -- The start of a rescan; `watch` is whether the watch can be added now.
  unfoldable pub start_rescan : Bool → ℕ → Devices fp.Double → Devices fp.Double
  start_rescan watch now dd = record dd {
    last_rescan = now;
    rescan_due = none;
    watching = if is_some dd.inotify && not dd.watching then watch else dd.watching;
  }

  unfoldable pub daemon_devices_rescan :
      (String → Option InputDev)
      → Option (List String)
      → Bool
      → ℕ
      → Devices fp.Double
      → Log
      → Result RescanError (Unit {0}) × Devices fp.Double × Log
  daemon_devices_rescan probe listing watch now dd log =
      after_scan (start_rescan watch now dd) (scan_inputs probe listing dd.kbd_override) log
