-- ===== src/Devices/Reload.antt =====
-- `daemon_devices_reload` of tools/src/daemon_devices.c, which loads the configuration of each
-- remote anew. `load` is `daemon_config_load_remote`.
use Prim.Native.String.{String}
use lg_magic.Airmouse.{Calib}
use lg_magic.DaemonConfig.{DaemonConfig, File, daemon_config_load_remote}
use lg_magic.DeviceConfig.{DeviceConfig}
use lg_magic.Devices.{Remote, Devices}
use lg_magic.Devices.Open.{is_some}
use lg_magic.Pipeline.{Write, pipeline_configure}
use lg_magic.Prelude.{ℕ, Option, none, some, List, [], ◌∷◌}
use lg_magic.Prelude.Float.{Floats}
use lg_magic.Prelude.Result.{ok, err}
use lg_magic.Toml.{Toml}

module _ (fp : Floats) (load : List ℕ → Option (DeviceConfig fp.Double))
    (calib_path : DeviceConfig fp.Double → List ℕ → Option String)
    (calib_load : String → Option (Calib fp.Double)) (global_lpf : fp.Double) where
  -- The body of the loop: the remote, and the writes to its virtual devices.
  unfoldable pub reload_one : Remote fp.Double → Remote fp.Double × List Write
  reload_one r = elim (load r.identity) [
    | none ↦ (r, [])
    | some dc ↦
        let (pl, writes, fine) =
          pipeline_configure fp calib_load r.pl dc (calib_path dc r.identity) global_lpf
            (is_some r.kbd_uinput) in
        (record r { pl = pl; dc = dc }, writes)
  ]

  unfoldable pub reload_all : List (Remote fp.Double) → List (Remote fp.Double) × List (List Write)
  reload_all [] = ([], [])
  reload_all (r ∷ rs) =
      let (r', writes) = reload_one r in
      let (rs', more) = reload_all rs in (r' ∷ rs', writes ∷ more)

  unfoldable pub daemon_devices_reload : Devices fp.Double → Devices fp.Double × List (List Write)
  daemon_devices_reload dd =
      let (remotes, writes) = reload_all dd.remotes in (record dd { remotes = remotes }, writes)

-- The `load` of a daemon whose files are given; `text` is an identity as the text that the state
-- file has for it.
unfoldable pub load_from :
    (fp : Floats)
    → DaemonConfig
    → (List ℕ → File fp.Double)
    → (List ℕ → Option (Toml fp.Double))
    → (List ℕ → String)
    → List ℕ
    → Option (DeviceConfig fp.Double)
load_from fp dc device_file state_file text identity =
    elim (daemon_config_load_remote fp dc device_file state_file (text identity)) [
      | err why ↦ none
      | ok read ↦ some read
    ]
