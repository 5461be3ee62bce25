-- ===== src/Toml.antt =====
-- The value tree of tools/src/toml.c. Allocation does not fail.
pub mod Laws
pub mod Lexer
pub mod Scan
pub mod Parser
pub mod Writer
pub mod Depth
pub mod Strings
pub mod Values
pub mod Keys
pub mod Lines
pub mod Document
pub mod Examples
use Prim.Native.String.{String}
use mathlib.Core.Option
use lg_magic.Prelude.{Option, none, some, List, Bool, true, false, if◌then◌else◌}
use lg_magic.Prelude.Int.{ℤ}
use lg_magic.Prelude.Text.{str_eq}

-- `struct toml_value`, over the type of doubles. An array holds strings only; `keys` and `items` of
-- a table are one list of entries.
mutual
  pub data Toml (D : Type 0) : Type 0 where
    str : String → Toml D
    int : ℤ → Toml D
    float : D → Toml D
    bool : Bool → Toml D
    arr : List String → Toml D
    table : Entries D → Toml D

  pub data Entries (D : Type 0) : Type 0 where
    nil : Entries D
    entry : String → Toml D → Entries D → Entries D

-- The loop of `toml_table_get_short`.
unfoldable pub lookup : {D : Type 0} → Entries D → String → Option (Toml D)
lookup nil key = none
lookup (entry k v rest) key = if str_eq k key then some v else lookup rest key

-- `toml_table_get_short`; the table is not NULL.
unfoldable pub table_get_short : {D : Type 0} → Toml D → String → Option (Toml D)
unfolding lookup
table_get_short (table es) key = lookup es key
table_get_short (str s) key = none
table_get_short (int n) key = none
table_get_short (float d) key = none
table_get_short (bool b) key = none
table_get_short (arr xs) key = none

-- The new entry of `toml_table_add` behind the others; `none` is a key that is there already.
unfoldable pub add : {D : Type 0} → Entries D → String → Toml D → Option (Entries D)
add nil key v = some (entry key v nil)
add (entry k w rest) key v = if str_eq k key then none else Option.map (entry k w) (add rest key v)
