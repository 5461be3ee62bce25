-- ===== src/DaemonConfig.antt =====
-- tools/src/daemon_config.c: the configuration of a remote, read from its file and from the state
-- file, and the saving of its profile. Paths are lists of bytes; what a file holds is an argument.
-- Allocation, the making of directories and the writing of files do not fail.
pub mod Tables
pub mod State
pub mod Saving
mod Examples
use Prim.Native.String.{String}
use lg_magic.DeviceConfig.{DeviceConfig, device_config_init, device_config_from_toml}
use lg_magic.Profile.{Error}
use lg_magic.DeviceConfig.Writing.{device_config_to_toml}
use lg_magic.Kernel.Probe.{codes}
use lg_magic.Prelude.{
  ℕ, ◌+◌, Bool, true, false, Option, none, some, List, [], ◌∷◌, ◌++◌, ltb, if◌then◌else◌, length,
}
use lg_magic.Prelude.Float.{Floats}
use lg_magic.Prelude.Int.{ℤ, pos}
use lg_magic.Prelude.Result.{Result, ok, err}
use lg_magic.Prelude.Text.{str_eq}
use lg_magic.Toml.Writer.{toml_dumps}
use lg_magic.Toml.{
  Toml, Entries, str, int, float, bool, arr, table, nil, entry, lookup, table_get_short,
}

-- The paths of `struct daemon_config`.
pub record DaemonConfig : Type 0 where
  pub config_root : List ℕ
  pub state_dir : List ℕ

-- The size of the buffers for paths.
abbrev pub path_size : ℕ
path_size = 4096

-- `path_join`; `none` where the path is too long.
unfoldable pub path_join : ℕ → List ℕ → List ℕ → Option (List ℕ)
path_join outsz a b = if ltb outsz (length a + length b + 1) then none else some (a ++ b)

-- A path joined of three parts and more, as far as it fits.
unfoldable pub path_then : Option (List ℕ) → List ℕ → Option (List ℕ)
path_then none b = none
path_then (some a) b = path_join path_size a b

unfoldable pub device_path : DaemonConfig → String → Option (List ℕ)
device_path dc identity =
    path_then
      (path_then (path_join path_size dc.config_root (codes "/devices.d/")) (codes identity))
      (codes ".toml")

unfoldable pub state_path : DaemonConfig → Option (List ℕ)
state_path dc = path_join path_size dc.state_dir (codes "/state.toml")

-- `daemon_config_calib_path`; the empty path where it is too long.
unfoldable pub daemon_config_calib_path :
    {D : Type 0} → DaemonConfig → DeviceConfig D → String → List ℕ
daemon_config_calib_path dc d identity =
    let path : Option (List ℕ) = elim d.calib [
      | some calib ↦ path_join path_size (codes calib) []
      | none ↦
          path_then (path_then (path_join path_size dc.state_dir (codes "/")) (codes identity))
            (codes "/calibration.json")
    ] in
    elim path [ none ↦ [] | some p ↦ p ]

-- What there is at a path for `device_config_load_file`.
pub data File (D : Type 0) : Type 0 where
  absent : File D
  unreadable : File D
  parsed : Toml D → File D

pub data ConfigError : Type 0 where
  path_too_long : ConfigError
  cannot_read : ConfigError
  bad_config : Error → ConfigError

-- `toml_table_get_str` behind the lookup: the text of a value that is one.
unfoldable pub text_of : {D : Type 0} → Option (Toml D) → Option String
text_of (some (str s)) = some s
text_of o = none

-- The profile of the entry of a device.
unfoldable pub device_profile : {D : Type 0} → Option (Toml D) → Option String
device_profile none = none
device_profile (some dev) = text_of (table_get_short dev "profile")

-- The profile that the state file has for the device.
unfoldable pub state_profile : {D : Type 0} → Toml D → String → Option String
state_profile root identity = elim (table_get_short root "devices") [
  | some (table devs) ↦ device_profile (lookup devs identity)
  | _ ↦ none
]

unfoldable pub with_profile : {D : Type 0} → Option String → DeviceConfig D → DeviceConfig D
with_profile none dc = dc
with_profile (some profile) dc = record dc { profile = profile }

-- The state file laid over the configuration; `none` where it is absent or does not parse.
unfoldable pub overlay : {D : Type 0} → Option (Toml D) → String → DeviceConfig D → DeviceConfig D
overlay none identity dc = dc
overlay (some root) identity dc = with_profile (state_profile root identity) dc

module _ (fp : Floats) where
  open fp use {Double}

  -- `device_config_load_file` of tools/src/profiles.c.
  unfoldable pub load_file :
      File Double → DeviceConfig Double → Result ConfigError (DeviceConfig Double)
  load_file absent dc = ok dc
  load_file unreadable dc = err cannot_read
  load_file (parsed root) dc = elim (device_config_from_toml fp (some root) dc) [
    | err why ↦ err (bad_config why)
    | ok read ↦ ok read
  ]

  unfoldable pub daemon_config_load_remote :
      DaemonConfig
      → (List ℕ → File Double)
      → (List ℕ → Option (Toml Double))
      → String
      → Result ConfigError (DeviceConfig Double)
  daemon_config_load_remote dc device_file state_file identity = elim (device_path dc identity) [
    | none ↦ err path_too_long
    | some path ↦ elim (load_file (device_file path) (device_config_init Double)) [
      | err why ↦ err why
      | ok read ↦ elim (state_path dc) [
        | none ↦ err path_too_long
        | some state ↦ ok (overlay (state_file state) identity read)
      ]
    ]
  ]

-- The loop of `table_set_str`, and the other replacements of a value of a table in place: the value
-- of the key, or a new entry at the end.
unfoldable pub put : {D : Type 0} → Entries D → String → Toml D → Entries D
put nil key v = entry key v nil
put (entry k w rest) key v = if str_eq k key then entry k v rest else entry k w (put rest key v)

-- The table at the key, a new one where there is none; `none` where `toml_table_add` refuses the
-- key, which is there with another type.
unfoldable pub sub_table : {D : Type 0} → Entries D → String → Option (Entries D)
sub_table es key = elim (lookup es key) [
  | none ↦ some nil
  | some (table inner) ↦ some inner
  | some _ ↦ none
]

-- The state for which there is no file yet.
unfoldable pub new_state : {D : Type 0} → Entries D
new_state = entry "version" (int (pos 2)) nil

-- The state that is read, or the new one.
unfoldable pub opened : {D : Type 0} → Option (Entries D) → Entries D
opened none = new_state
opened (some es) = es

-- The tree that `daemon_config_save_profile` makes of the one that it reads.
unfoldable pub saved_tree : {D : Type 0} → Option (Entries D) → String → String → Option (Entries D)
saved_tree file identity profile = elim (sub_table (opened file) "devices") [
  | none ↦ none
  | some devs ↦ elim (sub_table devs identity) [
    | none ↦ none
    | some dev ↦ some (
        put (opened file) "devices"
          (table (put devs identity (table (put dev "profile" (str profile))))))
  ]
]

-- The causes of -1 of `daemon_config_save_profile` and of `daemon_config_save_device`.
pub data SaveError : Type 0 where
  state_path_too_long device_path_too_long tmp_path_too_long not_written : SaveError

-- The start of `atomic_write_file`: the path, the text that is written to it, and the check of the
-- path of the file that is written first.
unfoldable pub atomic_write_file : List ℕ → List ℕ → Result SaveError (List ℕ × List ℕ)
atomic_write_file path text = elim (path_join path_size path (codes ".tmp")) [
  | none ↦ err tmp_path_too_long
  | some tmp ↦ ok (path, text)
]

-- What `fprintf` writes for %lld, and `snprintf` for %.15g.
module _ {D : Type 0} (text_lld : ℤ → List ℕ) (text_g : D → List ℕ) where
  -- `toml_dumps` of the tree.
  unfoldable pub document : Toml D → Option (List ℕ)
  document root = toml_dumps codes text_lld text_g root

  -- `daemon_config_save_profile`: the path of the file and its text. The argument is what
  -- `toml_load_file` makes of the file at a path.
  unfoldable pub daemon_config_save_profile :
      DaemonConfig
      → (List ℕ → Option (Entries D))
      → String
      → String
      → Result SaveError (List ℕ × List ℕ)
  daemon_config_save_profile dc load identity profile = elim (state_path dc) [
    | none ↦ err state_path_too_long
    | some path ↦ elim (saved_tree (load path) identity profile) [
      | none ↦ err not_written
      | some root ↦ elim (document (table root)) [
        | none ↦ err not_written
        | some text ↦ atomic_write_file path text
      ]
    ]
  ]

  -- `daemon_config_save_device`: the path of the file and its text.
  unfoldable pub daemon_config_save_device :
      DaemonConfig → DeviceConfig D → String → Result SaveError (List ℕ × List ℕ)
  daemon_config_save_device dc d identity = elim (device_path dc identity) [
    | none ↦ err device_path_too_long
    | some path ↦ elim (device_config_to_toml d) [
      | none ↦ err not_written
      | some root ↦ elim (document root) [
        | none ↦ err not_written
        | some text ↦ elim (path_join path_size dc.config_root (codes "/devices.d")) [
          | none ↦ err device_path_too_long
          | some dir ↦ atomic_write_file path text
        ]
      ]
    ]
  ]
