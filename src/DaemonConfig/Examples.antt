-- ===== src/DaemonConfig/Examples.antt =====
-- An example of the state file of tools/src/daemon_config.c.
use Prim.Native.String.{String}
use mathlib.Core.Option
use lg_magic.DaemonConfig.{DaemonConfig, overlay, opened, document, daemon_config_save_profile}
use lg_magic.DaemonConfig.Saving.{save_profile_lem}
use lg_magic.DaemonConfig.Tables.{IsTable, IsState}
use lg_magic.DeviceConfig.{device_config_init}
use lg_magic.Kernel.Probe.{codes}
use lg_magic.Prelude.{ℕ, ◌≡◌, ◌≤◌, inl, inr, Bool-cases, false, Option, some, List, ◌++◌, arith}
use lg_magic.Prelude.Int.{ℤ, pos}
use lg_magic.Prelude.Result.{ok}
use lg_magic.Prelude.Text.{str_eq}
use lg_magic.Toml.Depth.{depth, larger}
use lg_magic.Toml.{Entries, str, int, table, nil, entry, lookup}

abbrev known : Entries ℤ
known = entry "unknown" (table (entry "profile" (str "tv") nil)) nil

abbrev state_file : Option (Entries ℤ)
state_file = some (entry "version" (int (pos 2)) (entry "devices" (table known) nil))

known_are_tables : (j : String) → IsTable (lookup known j)
unfolding lookup IsTable
known_are_tables j = elim (Bool-cases (str_eq "unknown" j)) [
  | inl here ↦ rw here tt
  | inr other ↦ rw other tt
]

state_file-IsState : IsState (opened state_file)
unfolding IsState opened lookup IsTable
state_file-IsState = (tt, known_are_tables)

-- The version is the only number of the state file.
abbrev number : ℤ → List ℕ
number n = codes "2"

abbrev daemon : DaemonConfig
daemon = record { config_root = codes "/etc/lg-magic"; state_dir = codes "/var/lib/lg-magic" }

within : depth (opened state_file) ≤ 63
unfolding opened depth larger
within = omega arith

save_profile_lem_example :
    (root : Entries ℤ) × (text : List ℕ) × (daemon_config_save_profile number number daemon
        (λ path. state_file)
        "unknown"
        "pc"
      ≡ ok (daemon.state_dir ++ codes "/state.toml", text))
    × (document number number (table root) ≡ some text)
    × IsState root
    × (depth root ≤ 63)
    × (overlay (some (table root)) "unknown" (device_config_init ℤ)
        ≡ record (device_config_init ℤ) { profile = "pc" })
    × ((other : String)
        → str_eq "unknown" other ≡ false
        → overlay (some (table root)) other (device_config_init ℤ)
          ≡ overlay (Option.map table state_file) other (device_config_init ℤ))
save_profile_lem_example =
    save_profile_lem number number daemon (λ path. state_file) "unknown" "pc" (device_config_init ℤ)
      (omega arith) state_file-IsState within
