-- ===== src/Devices/Grabs.antt =====
-- The order in which tools/src/daemon_devices.c opens the devices of a remote.
use Prim.Native.String.{String}
use lg_magic.Airmouse.{Calib}
use lg_magic.DeviceConfig.{DeviceConfig}
use lg_magic.Devices.{Log, World, Devices}
use lg_magic.Devices.Open.{remote_open}
use lg_magic.Devices.Rescan.{
  scan_inputs, pair_devices, Wanted, passed_over, steal, Progress, open_new, rebuild_one, rebuild,
  replace, after_scan, after_pairing, start_rescan, daemon_devices_rescan,
}
use lg_magic.Pairing.{InputDev, PairedRemote}
use lg_magic.Prelude.{
  ℕ, ◌≡◌, inl, inr, Bool, false, Bool-cases, Option, none, some, Option-cases, List, [], ◌∷◌,
}
use lg_magic.Prelude.Float.{Floats}
use lg_magic.Prelude.Result.{Result-cases}
use lg_magic.Devices.Ready.{
  GrabsAreReady, remote_free-GrabsAreReady, free_rest-GrabsAreReady, remote_open-GrabsAreReady,
}

module _ (fp : Floats) (load : List ℕ → DeviceConfig fp.Double)
    (calib_path : DeviceConfig fp.Double → List ℕ → Option String)
    (calib_load : String → Option (Calib fp.Double)) (global_lpf : fp.Double) (world : World) where
  open_new-GrabsAreReady :
      (w : Wanted) (p : Progress fp.Double)
      → GrabsAreReady p.log
      → GrabsAreReady (open_new fp load calib_path calib_load global_lpf world false w p).log
  unfolding open_new
  open_new-GrabsAreReady w p ready =
      let o =
        remote_open fp load calib_path calib_load global_lpf world false w.identity w.kbd_path
          w.imu_path p.log in
      let opened =
        remote_open-GrabsAreReady fp load calib_path calib_load global_lpf world w.identity
          w.kbd_path w.imu_path p.log ready in
      elim (Bool-cases o.done) [
        | inl done ↦ rw done opened
        | inr failed ↦ rw failed (remote_free-GrabsAreReady o.remote o.log opened)
      ]

  rebuild_one-GrabsAreReady :
      (kbd_override : Option String) (w : Wanted) (p : Progress fp.Double)
      → GrabsAreReady p.log
      → GrabsAreReady
          (rebuild_one fp load calib_path calib_load global_lpf world kbd_override false w p).log
  unfolding rebuild_one
  rebuild_one-GrabsAreReady kbd_override w p ready =
      elim (Bool-cases (passed_over kbd_override w)) [
        | inl passed ↦ rw passed ready
        | inr taken ↦ elim (Option-cases (steal p.old w).0) [
          | inl missing ↦ rw (taken, missing) (open_new-GrabsAreReady w p ready)
          | inr (e, found) ↦ rw (taken, found) ready
        ]
      ]

  rebuild-GrabsAreReady :
      (kbd_override : Option String) (ws : List Wanted) (p : Progress fp.Double)
      → GrabsAreReady p.log
      → GrabsAreReady
          (rebuild fp load calib_path calib_load global_lpf world kbd_override false ws p).log
  unfolding rebuild
  rebuild-GrabsAreReady kbd_override [] p ready = ready
  rebuild-GrabsAreReady kbd_override (w ∷ ws) p ready =
      rebuild-GrabsAreReady kbd_override ws _ (rebuild_one-GrabsAreReady kbd_override w p ready)

  replace-GrabsAreReady :
      (dd : Devices fp.Double) (devs : List InputDev) (paired : List PairedRemote) (log : Log)
      → dd.no_uinput ≡ false
      → GrabsAreReady log
      → GrabsAreReady (replace fp load calib_path calib_load global_lpf world dd devs paired log).1
  unfolding replace
  replace-GrabsAreReady dd devs paired log virtual ready = free_rest-GrabsAreReady _ _ (
      rw virtual
        (rebuild-GrabsAreReady dd.kbd_override _ (record { old = _; new = []; log = log }) ready))

  after_scan-GrabsAreReady :
      (dd : Devices fp.Double) (scanned : Option (List InputDev)) (log : Log)
      → dd.no_uinput ≡ false
      → GrabsAreReady log
      → GrabsAreReady (after_scan fp load calib_path calib_load global_lpf world dd scanned log).2
  unfolding after_scan after_pairing
  after_scan-GrabsAreReady dd none log virtual ready = ready
  after_scan-GrabsAreReady dd (some devs) log virtual ready =
      elim (Result-cases (pair_devices devs)) [
        | inl (why, failed) ↦ rw failed ready
        | inr (paired, done) ↦ rw done (replace-GrabsAreReady dd devs paired log virtual ready)
      ]

  -- Whatever the system answers: when the daemon makes virtual devices, and each grab of the log so
  -- far came right after a keyboard was found and, before that, the mouse and the keyboard of the
  -- same remote were created, then a rescan adds only grabs of this kind.
  pub daemon_devices_rescan-GrabsAreReady :
      (probe : String → Option InputDev) (listing : Option (List String)) (watch : Bool) (now : ℕ)
      (dd : Devices fp.Double) (log : Log)
      → dd.no_uinput ≡ false
      → GrabsAreReady log
      → GrabsAreReady
          (daemon_devices_rescan fp load calib_path calib_load global_lpf world probe listing watch
            now dd log).2
  unfolding daemon_devices_rescan start_rescan
  daemon_devices_rescan-GrabsAreReady probe listing watch now dd log virtual ready =
      after_scan-GrabsAreReady
        (start_rescan fp load calib_path calib_load global_lpf world watch now dd)
        (scan_inputs probe listing dd.kbd_override) log virtual ready
