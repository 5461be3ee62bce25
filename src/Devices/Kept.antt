-- ===== src/Devices/Kept.antt =====
-- What a rescan of tools/src/daemon_devices.c does with the remotes of before.
use Prim.Native.String.{String}
use lg_magic.Airmouse.{Calib}
use lg_magic.DeviceConfig.{DeviceConfig}
use lg_magic.Devices.{Log, World, Remote, Devices}
use lg_magic.Devices.Open.{remote_open}
use lg_magic.Devices.Rescan.{
  RescanError, scan_inputs, pair_devices, Wanted, passed_over, steal, Progress, open_new,
  rebuild_one, rebuild, replace, slots, after_scan, after_pairing, start_rescan,
  daemon_devices_rescan,
}
use lg_magic.Pairing.{InputDev, PairedRemote}
use lg_magic.Prelude.{
  ℕ, ◌≡◌, refl, ap, sym, ◌∙◌, ◌⊎◌, inl, inr, Bool, Bool-cases, Option, none, some, Option-cases,
  List, [], ◌∷◌,
}
use lg_magic.Prelude.Float.{Floats}
use lg_magic.Prelude.Result.{Result, ok, err, Result-cases}
use lg_magic.Devices.Freed.{In, IsFreed, In-++, In-last, free_rest_frees, steal-In}

-- During the loop over the pairs, a remote of before is among the new ones, or still in its place.
unfoldable IsHeld : {D : Type 0} → Remote D → Progress D → Type 0
IsHeld e p = In e p.new ⊎ In (some e) p.old

module _ (fp : Floats) (load : List ℕ → DeviceConfig fp.Double)
    (calib_path : DeviceConfig fp.Double → List ℕ → Option String)
    (calib_load : String → Option (Calib fp.Double)) (global_lpf : fp.Double) (world : World) where
  open_new-IsHeld :
      (no_uinput : Bool) (e : Remote fp.Double) (w : Wanted) (p : Progress fp.Double)
      → IsHeld e p
      → IsHeld e (open_new fp load calib_path calib_load global_lpf world no_uinput w p)
  unfolding open_new IsHeld
  open_new-IsHeld no_uinput e w p held =
      let o =
        remote_open fp load calib_path calib_load global_lpf world no_uinput w.identity w.kbd_path
          w.imu_path p.log in
      elim (Bool-cases o.done) [
        | inr failed ↦ rw failed held
        | inl done ↦ elim held [
          | inl new ↦ rw done (inl (In-++ e p.new _ new))
          | inr old ↦ rw done (inr old)
        ]
      ]

  rebuild_one-IsHeld :
      (kbd_override : Option String) (no_uinput : Bool) (e : Remote fp.Double) (w : Wanted)
      (p : Progress fp.Double)
      → IsHeld e p
      → IsHeld e
          (rebuild_one fp load calib_path calib_load global_lpf world kbd_override no_uinput w p)
  unfolding rebuild_one
  rebuild_one-IsHeld kbd_override no_uinput e w p held =
      elim (Bool-cases (passed_over kbd_override w)) [
        | inl passed ↦ rw passed held
        | inr taken ↦ elim (Option-cases (steal p.old w).0) [
          | inl missing ↦ rw (taken, missing) (open_new-IsHeld no_uinput e w p held)
          | inr (x, found) ↦
              unfold IsHeld in
              (elim held [
                | inl new ↦ rw (taken, found) (inl (In-++ e p.new (x ∷ []) new))
                | inr old ↦ elim (steal-In e p.old w old) [
                  | inl same ↦
                      let alike : x ≡ e = cc in rw (taken, found, alike) (inl (In-last e p.new))
                  | inr there ↦ rw (taken, found) (inr there)
                ]
              ])
        ]
      ]

  rebuild-IsHeld :
      (kbd_override : Option String) (no_uinput : Bool) (e : Remote fp.Double) (ws : List Wanted)
      (p : Progress fp.Double)
      → IsHeld e p
      → IsHeld e
          (rebuild fp load calib_path calib_load global_lpf world kbd_override no_uinput ws p)
  unfolding rebuild
  rebuild-IsHeld kbd_override no_uinput e [] p held = held
  rebuild-IsHeld kbd_override no_uinput e (w ∷ ws) p held =
      rebuild-IsHeld kbd_override no_uinput e ws _
        (rebuild_one-IsHeld kbd_override no_uinput e w p held)

  slots-In :
      (e : Remote fp.Double) (rs : List (Remote fp.Double))
      → In e rs
      → In (some e) (slots fp load calib_path calib_load global_lpf world rs)
  unfolding slots In
  slots-In e [] h = absurd h
  slots-In e (r ∷ rs) (inl h) = inl (ap some h)
  slots-In e (r ∷ rs) (inr h) = inr (slots-In e rs h)

  replace_keeps :
      (dd : Devices fp.Double) (devs : List InputDev) (paired : List PairedRemote) (log : Log)
      (e : Remote fp.Double)
      → In e dd.remotes
      → In e (replace fp load calib_path calib_load global_lpf world dd devs paired log).0.remotes
        ⊎ IsFreed e (replace fp load calib_path calib_load global_lpf world dd devs paired log).1
  unfolding replace IsHeld
  replace_keeps dd devs paired log e h =
      elim (rebuild-IsHeld dd.kbd_override dd.no_uinput e _
        (record {
          old = slots fp load calib_path calib_load global_lpf world dd.remotes;
          new = [];
          log = log;
        })
        (inr (slots-In e dd.remotes h))) [
          | inl new ↦ inl new
          | inr old ↦ inr (free_rest_frees e _ _ old)
        ]

  after_scan_keeps :
      (dd : Devices fp.Double) (scanned : Option (List InputDev)) (log : Log) (e : Remote fp.Double)
      → In e dd.remotes
      → In e (after_scan fp load calib_path calib_load global_lpf world dd scanned log).1.remotes
        ⊎ IsFreed e (after_scan fp load calib_path calib_load global_lpf world dd scanned log).2
  unfolding after_scan after_pairing
  after_scan_keeps dd none log e h = inl h
  after_scan_keeps dd (some devs) log e h = elim (Result-cases (pair_devices devs)) [
    | inl (why, failed) ↦ rw failed (inl h)
    | inr (paired, done) ↦ rw done (replace_keeps dd devs paired log e h)
  ]

  after_scan_error :
      (dd : Devices fp.Double) (scanned : Option (List InputDev)) (log : Log) (why : RescanError)
      → (after_scan fp load calib_path calib_load global_lpf world dd scanned log).0 ≡ err why
      → ((after_scan fp load calib_path calib_load global_lpf world dd scanned log).1 ≡ dd)
        × ((after_scan fp load calib_path calib_load global_lpf world dd scanned log).2 ≡ log)
  unfolding after_scan after_pairing
  after_scan_error dd none log why h = (refl, refl)
  after_scan_error dd (some devs) log why h = elim (Result-cases (pair_devices devs)) [
    | inl (other, failed) ↦ rw failed (refl, refl)
    | inr (paired, done) ↦
        let impossible : ◌≡◌ {A = Result RescanError (Unit {0})} (ok tt) (err why) =
          ap (λ r. (after_pairing fp load calib_path calib_load global_lpf world dd devs r log).0)
            (sym done)
          ∙ h in
        absurd (cc)
  ]

  -- Whatever the scan and the system give: a rescan either keeps a remote of before as it was, or
  -- closes each of its open descriptors in the calls that it makes; and a rescan that fails leaves
  -- the remotes as they are and makes no call.
  pub daemon_devices_rescan_keeps :
      (probe : String → Option InputDev) (listing : Option (List String)) (watch : Bool) (now : ℕ)
      (dd : Devices fp.Double)
      → let after =
          daemon_devices_rescan fp load calib_path calib_load global_lpf world probe listing watch
            now dd [] in
        ((e : Remote fp.Double) → In e dd.remotes → In e after.1.remotes ⊎ IsFreed e after.2)
        × ((why : RescanError)
            → after.0 ≡ err why
            → (after.1.remotes ≡ dd.remotes) × (after.2 ≡ []))
  unfolding daemon_devices_rescan start_rescan
  daemon_devices_rescan_keeps probe listing watch now dd =
      let started : Devices fp.Double =
        start_rescan fp load calib_path calib_load global_lpf world watch now dd in
      let scanned = scan_inputs probe listing dd.kbd_override in
      (
        λ e h. after_scan_keeps started scanned [] e h,
        λ why h.
            let (same, quiet) = after_scan_error started scanned [] why h in
            (ap (λ (d : Devices fp.Double). d.remotes) {x = _} {y = started} same, quiet),
      )
