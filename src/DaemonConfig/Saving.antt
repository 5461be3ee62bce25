-- ===== src/DaemonConfig/Saving.antt =====
-- The saving of a profile in tools/src/daemon_config.c: the path and the text that are written.
use Prim.Native.String.{String}
use mathlib.Core.Option
use lg_magic.DaemonConfig.State.{
  saved, saved_tree-saved, saved-IsState, state_profile-saved, state_profile-saved_ne, overlaid,
}
use lg_magic.DaemonConfig.Tables.{entries_of, IsState}
use lg_magic.DaemonConfig.{
  DaemonConfig, path_size, path_join, state_path, overlay, with_profile, put, opened,
  atomic_write_file, document, daemon_config_save_profile,
}
use lg_magic.DeviceConfig.{DeviceConfig}
use lg_magic.Kernel.Probe.{codes}
use lg_magic.Prelude.Int.{ℤ}
use lg_magic.Prelude.Result.{ok}
use lg_magic.Prelude.Text.{str_eq}
use lg_magic.Prelude.{
  ℕ, suc, ◌+◌, ◌≤◌, ◌≡◌, refl, ap, false, Bool-cases, Option, some, List, ◌++◌, ltb, length,
  length-append, arith, inl, inr,
}
use lg_magic.Toml.Depth.{
  depth, value_depth, depth-entry_within, value_depth_within, rest_depth_within, toml_dumps_within,
}
use lg_magic.Toml.{Toml, Entries, str, int, float, bool, arr, table, nil, entry, lookup}

module _ {D : Type 0} where
  put_within :
      (es : Entries D) (key : String) (v : Toml D) (k : ℕ)
      → value_depth v ≤ k
      → depth es ≤ k
      → depth (put es key v) ≤ k
  unfolding put
  put_within nil key v k inside within = depth-entry_within key v nil k inside within
  put_within (entry j w rest) key v k inside within =
      let others = rest_depth_within j w rest k within in
      elim (Bool-cases (str_eq j key)) [
        | inl same ↦ rw same (depth-entry_within j v rest k inside others)
        | inr differs ↦ rw differs (
            depth-entry_within j w (put rest key v) k (value_depth_within j w rest k within)
              (put_within rest key v k inside others))
      ]

  table_within :
      (v : Toml D) (k : ℕ) → value_depth v ≤ k → 1 ≤ k → suc (depth (entries_of (some v))) ≤ k
  unfolding value_depth
  table_within (table es) k within some_room = within
  table_within (str s) k within some_room = unfold depth in some_room
  table_within (int n) k within some_room = unfold depth in some_room
  table_within (float d) k within some_room = unfold depth in some_room
  table_within (bool b) k within some_room = unfold depth in some_room
  table_within (arr xs) k within some_room = unfold depth in some_room

  lookup_within :
      (es : Entries D) (key : String) (k : ℕ)
      → depth es ≤ k
      → 1 ≤ k
      → suc (depth (entries_of (lookup es key))) ≤ k
  unfolding lookup
  lookup_within nil key k within some_room = unfold depth in some_room
  lookup_within (entry j w rest) key k within some_room = elim (Bool-cases (str_eq j key)) [
    | inl same ↦ rw same (table_within w k (value_depth_within j w rest k within) some_room)
    | inr differs ↦
        rw differs (lookup_within rest key k (rest_depth_within j w rest k within) some_room)
  ]

  saved_within :
      (root : Entries D) (identity profile : String)
      → depth root ≤ 63
      → depth (saved root identity profile) ≤ 63
  unfolding saved value_depth
  saved_within root identity profile within =
      let devs = entries_of (lookup root "devices") in
      let dev = entries_of (lookup devs identity) in
      let devs_within : suc (depth devs) ≤ 63 =
        lookup_within root "devices" 63 within (omega arith) in
      let dev_within : suc (depth dev) ≤ 62 =
        lookup_within devs identity 62 (omega (arith, devs_within)) (omega arith) in
      let new_dev = put_within dev "profile" (str profile) 61 (omega arith) (omega arith) in
      let new_devs =
        put_within devs identity (table (put dev "profile" (str profile))) 62 (omega arith)
          (omega arith) in
      put_within root "devices"
        (table (put devs identity (table (put dev "profile" (str profile))))) 63 (omega arith)
        within

path_join_fits :
    (a b : List ℕ) → length a + length b + 1 ≤ 4096 → path_join path_size a b ≡ some (a ++ b)
unfolding path_join
path_join_fits a b fits =
    let short : ltb 4096 (length a + length b + 1) ≡ false = ground (arith, fits) in rw short refl

-- The path of the state file, and that of the file that is written first.
state_path_fits :
    (dc : DaemonConfig)
    → length dc.state_dir ≤ 4080
    → state_path dc ≡ some (dc.state_dir ++ codes "/state.toml")
unfolding state_path
state_path_fits dc fits = path_join_fits dc.state_dir (codes "/state.toml") (omega (arith, fits))

tmp_path_fits :
    (dc : DaemonConfig) (text : List ℕ)
    → length dc.state_dir ≤ 4080
    → atomic_write_file (dc.state_dir ++ codes "/state.toml") text
      ≡ ok (dc.state_dir ++ codes "/state.toml", text)
unfolding atomic_write_file
tmp_path_fits dc text fits =
    let path = dc.state_dir ++ codes "/state.toml" in
    rw
      (
        path_join_fits path (codes ".tmp")
            (omega (arith, fits, length-append dc.state_dir (codes "/state.toml"))),
        atomic_write_file,
      )
      refl

-- Where the path of the state directory has at most 4080 bytes, and the state file is absent or a
-- tree of no more than 63 tables in one another whose devices are tables,
-- `daemon_config_save_profile` succeeds: it writes to the state file the document of such a tree, in
-- which the overlay of `daemon_config_load_remote` finds for the device the profile that was saved,
-- and for every other device what it found in the state before.
pub save_profile_lem :
    {D : Type 0} (text_lld : ℤ → List ℕ) (text_g : D → List ℕ) (dc : DaemonConfig)
    (load : List ℕ → Option (Entries D)) (identity profile : String) (d : DeviceConfig D)
    → length dc.state_dir ≤ 4080
    → let path = dc.state_dir ++ codes "/state.toml" in
      IsState (opened (load path))
      → depth (opened (load path)) ≤ 63
      → (root : Entries D) × (text : List ℕ) × (daemon_config_save_profile text_lld text_g dc load
            identity profile
          ≡ ok (path, text))
        × (document text_lld text_g (table root) ≡ some text)
        × IsState root
        × (depth root ≤ 63)
        × (overlay (some (table root)) identity d ≡ record d { profile = profile })
        × ((other : String)
            → str_eq identity other ≡ false
            → overlay (some (table root)) other d ≡ overlay (Option.map table (load path)) other d)
unfolding document daemon_config_save_profile
save_profile_lem text_lld text_g dc load identity profile d fits state within =
    let path = dc.state_dir ++ codes "/state.toml" in
    let file = load path in
    let root = saved (opened file) identity profile in
    let root_within = saved_within (opened file) identity profile within in
    let (text, written) = toml_dumps_within codes text_lld text_g root root_within in
    (
      root,
      text,
      rw
          (
            state_path_fits dc fits,
            saved_tree-saved file identity profile state,
            written,
            tmp_path_fits dc text fits,
            daemon_config_save_profile,
          )
          refl,
      written,
      saved-IsState (opened file) identity profile state,
      root_within,
      (unfold overlay with_profile in
          ap (λ o. with_profile o d) (state_profile-saved (opened file) identity profile)),
      (λ other ne.
          overlaid file d other root
            (state_profile-saved_ne (opened file) identity profile other state ne)),
    )
