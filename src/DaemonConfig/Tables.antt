-- ===== src/DaemonConfig/Tables.antt =====
-- The tables of a state file of tools/src/daemon_config.c.
use Prim.Native.String.{String}
use lg_magic.DaemonConfig.{device_profile, state_profile, put, sub_table}
use lg_magic.Prelude.{◌≡◌, refl, ap, ◌∙◌, inl, inr, false, Bool-cases, Option, none, some}
use lg_magic.Prelude.Text.{str_eq, str_eq_refl, str_eq_iff}
use lg_magic.Toml.{
  Toml, Entries, str, int, float, bool, arr, table, nil, entry, lookup, table_get_short,
}

module _ {D : Type 0} where
  pub lookup-put : (es : Entries D) (k : String) (v : Toml D) → lookup (put es k v) k ≡ some v
  unfolding lookup put
  lookup-put nil k v = rw (str_eq_refl k) refl
  lookup-put (entry j w es) k v = elim (Bool-cases (str_eq j k)) [
    | inl same ↦ rw (same, lookup) (rw same refl)
    | inr differs ↦ rw (differs, lookup) (rw differs (lookup-put es k v))
  ]

  pub lookup-put_ne :
      (es : Entries D) (k j : String) (v : Toml D)
      → str_eq k j ≡ false
      → lookup (put es k v) j ≡ lookup es j
  unfolding lookup put
  lookup-put_ne nil k j v ne = rw ne refl
  lookup-put_ne (entry i w es) k j v ne = elim (Bool-cases (str_eq i k)) [
    | inl same ↦
        let other : str_eq i j ≡ false = ap (λ s. str_eq s j) ((str_eq_iff i k).0 same) ∙ ne in
        rw (same, other, lookup) refl
    | inr differs ↦ elim (Bool-cases (str_eq i j)) [
      | inl here ↦ rw (differs, here, lookup) refl
      | inr later ↦ rw (differs, later, lookup) (lookup-put_ne es k j v ne)
    ]
  ]

  -- A value that is missing or a table.
  unfoldable pub IsTable : Option (Toml D) → Type 0
  IsTable none = Unit
  IsTable (some (table es)) = Unit
  IsTable (some (str s)) = ⊥
  IsTable (some (int n)) = ⊥
  IsTable (some (float d)) = ⊥
  IsTable (some (bool b)) = ⊥
  IsTable (some (arr xs)) = ⊥

  -- The entries of a table, none of a missing one.
  abbrev pub entries_of : Option (Toml D) → Entries D
  entries_of (some (table es)) = es
  entries_of none = nil
  entries_of (some (str s)) = nil
  entries_of (some (int n)) = nil
  entries_of (some (float d)) = nil
  entries_of (some (bool b)) = nil
  entries_of (some (arr xs)) = nil

  -- A state whose devices are tables.
  unfoldable pub IsState : Entries D → Type 0
  IsState root =
      IsTable (lookup root "devices")
      × ((j : String) → IsTable (lookup (entries_of (lookup root "devices")) j))

  pub sub_table-IsTable :
      (es : Entries D) (key : String)
      → IsTable (lookup es key)
      → sub_table es key ≡ some (entries_of (lookup es key))
  unfolding sub_table IsTable
  sub_table-IsTable es key h = opens (lookup es key) h
    where
      opens :
          (o : Option (Toml D))
          → IsTable o
          → (elim o as (λ x. Option (Entries D)) [
            | none ↦ some nil
            | some (table inner) ↦ some inner
            | some _ ↦ none
          ])
            ≡ some (entries_of o)
      opens none h = refl
      opens (some (table es)) h = refl
      opens (some (str s)) h = absurd h
      opens (some (int n)) h = absurd h
      opens (some (float d)) h = absurd h
      opens (some (bool b)) h = absurd h
      opens (some (arr xs)) h = absurd h

  pub state_profile-entries :
      (root : Entries D) (identity : String)
      → IsTable (lookup root "devices")
      → state_profile (table root) identity
        ≡ device_profile (lookup (entries_of (lookup root "devices")) identity)
  unfolding state_profile table_get_short IsTable
  state_profile-entries root identity h = reads (lookup root "devices") h
    where
      reads :
          (o : Option (Toml D))
          → IsTable o
          → (elim o as (λ x. Option String) [
            | some (table devs) ↦ device_profile (lookup devs identity)
            | _ ↦ none
          ])
            ≡ device_profile (lookup (entries_of o) identity)
      reads none h = unfold lookup device_profile in refl
      reads (some (table es)) h = refl
      reads (some (str s)) h = absurd h
      reads (some (int n)) h = absurd h
      reads (some (float d)) h = absurd h
      reads (some (bool b)) h = absurd h
      reads (some (arr xs)) h = absurd h
