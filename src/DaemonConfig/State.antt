-- ===== src/DaemonConfig/State.antt =====
-- The state of tools/src/daemon_config.c before and after a profile is put into it.
use Prim.Native.String.{String}
use mathlib.Core.Option
use lg_magic.DaemonConfig.{
  device_profile, state_profile, overlay, with_profile, text_of, opened, put, new_state, saved_tree,
}
use lg_magic.DeviceConfig.{DeviceConfig}
use lg_magic.Prelude.{◌≡◌, refl, ap, sym, ◌∙◌, inl, inr, false, Bool-cases, Option, none, some}
use lg_magic.Prelude.Text.{str_eq, str_eq_iff}
use lg_magic.Toml.{Entries, str, table, lookup, table_get_short}
use lg_magic.DaemonConfig.Tables.{
  lookup-put, lookup-put_ne, IsTable, entries_of, IsState, sub_table-IsTable, state_profile-entries,
}

module _ {D : Type 0} where
  -- The state that `saved_tree` makes of one whose devices are tables.
  unfoldable pub saved : Entries D → String → String → Entries D
  saved root identity profile =
      let devs = entries_of (lookup root "devices") in
      put root "devices" (
        table (
          put devs identity
            (table (put (entries_of (lookup devs identity)) "profile" (str profile)))))

  pub saved_tree-saved :
      (file : Option (Entries D)) (identity profile : String)
      → IsState (opened file)
      → saved_tree file identity profile ≡ some (saved (opened file) identity profile)
  unfolding saved_tree saved IsState
  saved_tree-saved file identity profile (devs, each) =
      rw
        (
          sub_table-IsTable (opened file) "devices" devs,
          sub_table-IsTable _ identity (each identity),
          saved_tree,
        )
        refl

  devices-saved :
      (root : Entries D) (identity profile : String)
      → lookup (saved root identity profile) "devices"
        ≡ some (
            table (
              put (entries_of (lookup root "devices")) identity (
                table (
                  put
                    (entries_of (lookup (entries_of (lookup root "devices")) identity))
                    "profile"
                    (str profile)))))
  unfolding saved
  devices-saved root identity profile = lookup-put root "devices" _

  pub saved-IsState :
      (root : Entries D) (identity profile : String)
      → IsState root
      → IsState (saved root identity profile)
  unfolding IsState
  saved-IsState root identity profile (devs, each) =
      rw (devices-saved root identity profile) (unfold IsTable in tt, one)
    where
      one :
          (j : String)
          → IsTable (
              lookup
                (put (entries_of (lookup root "devices")) identity (
                  table (
                    put
                      (entries_of (lookup (entries_of (lookup root "devices")) identity))
                      "profile"
                      (str profile))))
                j)
      one j = elim (Bool-cases (str_eq identity j)) [
        | inl same ↦
            rw (sym ((str_eq_iff identity j).0 same), lookup-put _ identity _)
              (unfold IsTable in tt)
        | inr differs ↦ rw (lookup-put_ne _ identity j _ differs) (each j)
      ]

  pub state_profile-saved :
      (root : Entries D) (identity profile : String)
      → state_profile (table (saved root identity profile)) identity ≡ some profile
  state_profile-saved root identity profile =
      state_profile-entries (saved root identity profile) identity
        (rw (devices-saved root identity profile) (unfold IsTable in tt))
      ∙ rw
          (
            devices-saved root identity profile,
            lookup-put (entries_of (lookup root "devices")) identity _,
          )
          (profile_put (entries_of (lookup (entries_of (lookup root "devices")) identity)))
    where
      profile_put :
          (es : Entries D)
          → device_profile (some (table (put es "profile" (str profile)))) ≡ some profile
      profile_put es =
          unfold device_profile table_get_short text_of in
          ap text_of (lookup-put es "profile" (str profile))

  pub state_profile-saved_ne :
      (root : Entries D) (identity profile other : String)
      → IsState root
      → str_eq identity other ≡ false
      → state_profile (table (saved root identity profile)) other ≡ state_profile (table root) other
  unfolding IsState
  state_profile-saved_ne root identity profile other (devs, each) ne =
      state_profile-entries (saved root identity profile) other
        (rw (devices-saved root identity profile) (unfold IsTable in tt))
      ∙ rw
          (
            devices-saved root identity profile,
            lookup-put_ne (entries_of (lookup root "devices")) identity other _ ne,
          )
          refl
      ∙ sym (state_profile-entries root other devs)

-- What is laid over a configuration where the profile stays.
pub overlaid :
    {D : Type 0} (file : Option (Entries D)) (dc : DeviceConfig D) (other : String)
    (root : Entries D)
    → state_profile (table root) other ≡ state_profile (table (opened file)) other
    → overlay (some (table root)) other dc ≡ overlay (Option.map table file) other dc
unfolding overlay opened
overlaid none dc other root same =
    ap (λ o. with_profile o dc) same
    ∙ (unfold new_state state_profile table_get_short lookup with_profile in refl)
overlaid (some es) dc other root same = ap (λ o. with_profile o dc) same
