-- ===== src/Toml/Writer.antt =====
-- The writer of tools/src/toml.c. Parameters: the bytes of a text of the tree, and what `fprintf`
-- writes for %lld and `snprintf` for %.15g.
use Prim.Native.String.{String}
use mathlib.Core.Option
use lg_magic.Prelude.Int.{ℤ}
use lg_magic.Prelude.{
  ℕ, ◌+◌, ◌/◌, ◌%◌, Bool, true, false, ◌||◌, ◌&&◌, Option, none, some, List, [], ◌∷◌, ◌++◌, ◌==◌,
  ltb, leb, if◌then◌else◌, length, map,
}
use lg_magic.Toml.Lexer.{is_bare}
use lg_magic.Toml.{Toml, Entries, str, int, float, bool, arr, table, nil, entry}

-- A digit of %04X.
unfoldable pub upper_digit : ℕ → ℕ
upper_digit d = if ltb d 10 then d + 48 else d + 55

-- One byte in `dump_string`.
unfoldable pub dump_byte : ℕ → List ℕ
dump_byte c =
    if c == b'"'
    then 92 ∷ b'"' ∷ []
    else if c == 92
    then 92 ∷ 92 ∷ []
    else if c == 10
    then 92 ∷ b'n' ∷ []
    else if c == 9
    then 92 ∷ b't' ∷ []
    else if c == 13
    then 92 ∷ b'r' ∷ []
    else if c == 8
    then 92 ∷ b'b' ∷ []
    else if c == 12
    then 92 ∷ b'f' ∷ []
    else if ltb c 32
    then 92 ∷ b'u' ∷ b'0' ∷ b'0' ∷ upper_digit (c / 16) ∷ upper_digit (c % 16) ∷ []
    else c ∷ []

unfoldable pub dump_bytes : List ℕ → List ℕ
dump_bytes [] = []
dump_bytes (c ∷ cs) = dump_byte c ++ dump_bytes cs

-- `dump_string`
unfoldable pub dump_string : List ℕ → List ℕ
dump_string s = b'"' ∷ (dump_bytes s ++ b'"' ∷ [])

-- The loop of `bare_safe_key`.
unfoldable pub bare_bytes : List ℕ → Bool
bare_bytes [] = true
bare_bytes (c ∷ cs) = is_bare c && bare_bytes cs

-- `bare_safe_key`
unfoldable pub bare_safe_key : List ℕ → Bool
bare_safe_key [] = false
bare_safe_key (c ∷ cs) = bare_bytes (c ∷ cs)

-- `dump_path_key`
unfoldable pub dump_path_key : List ℕ → List ℕ
dump_path_key s = if bare_safe_key s then s else dump_string s

-- The segments of a table header, with points between them.
unfoldable pub dump_path : List (List ℕ) → List ℕ
dump_path [] = []
dump_path (s ∷ []) = dump_path_key s
dump_path (s ∷ t ∷ ts) = dump_path_key s ++ b'.' ∷ dump_path (t ∷ ts)

-- The strings of an array, from the second one on.
unfoldable pub dump_more : List (List ℕ) → List ℕ
dump_more [] = b']' ∷ []
dump_more (s ∷ ss) = b',' ∷ 32 ∷ (dump_string s ++ dump_more ss)

unfoldable pub dump_array : List (List ℕ) → List ℕ
dump_array [] = b'[' ∷ b']' ∷ []
dump_array (s ∷ ss) = b'[' ∷ (dump_string s ++ dump_more ss)

-- `strpbrk(num, ".eEn")`
unfoldable pub has_fraction : List ℕ → Bool
has_fraction [] = false
has_fraction (c ∷ cs) = c == b'.' || (c == b'e' || (c == b'E' || (c == b'n' || has_fraction cs)))

-- `need_nl` behind the first loop.
unfoldable pub has_scalars : {D : Type 0} → Entries D → Bool
has_scalars nil = false
has_scalars (entry k (table sub) rest) = has_scalars rest
has_scalars (entry k (str s) rest) = true
has_scalars (entry k (int n) rest) = true
has_scalars (entry k (float d) rest) = true
has_scalars (entry k (bool b) rest) = true
has_scalars (entry k (arr xs) rest) = true

-- The line of a table header.
unfoldable pub dump_header : Bool → List (List ℕ) → List ℕ
dump_header need_nl segs =
    (if need_nl then 10 ∷ [] else []) ++ b'[' ∷ (dump_path segs ++ b']' ∷ 10 ∷ [])

module _ {D : Type 0} (bytes_of : String → List ℕ) (text_lld : ℤ → List ℕ)
    (text_g : D → List ℕ) where
  -- `dump_value`
  unfoldable pub dump_value : Toml D → List ℕ
  dump_value (str s) = dump_string (bytes_of s)
  dump_value (int n) = text_lld n
  dump_value (float d) = if has_fraction (text_g d) then text_g d else text_g d ++ b'.' ∷ b'0' ∷ []
  dump_value (bool true) = b't' ∷ b'r' ∷ b'u' ∷ b'e' ∷ []
  dump_value (bool false) = b'f' ∷ b'a' ∷ b'l' ∷ b's' ∷ b'e' ∷ []
  dump_value (arr xs) = dump_array (map bytes_of xs)
  dump_value (table es) = b'{' ∷ b'}' ∷ []

  -- The line of an entry that is no table.
  unfoldable pub dump_line : String → Toml D → List ℕ
  dump_line k v = dump_path_key (bytes_of k) ++ 32 ∷ b'=' ∷ 32 ∷ (dump_value v ++ 10 ∷ [])

  -- The first loop of `dump_table`.
  unfoldable pub dump_scalars : Entries D → List ℕ
  dump_scalars nil = []
  dump_scalars (entry k (table sub) rest) = dump_scalars rest
  dump_scalars (entry k (str s) rest) = dump_line k (str s) ++ dump_scalars rest
  dump_scalars (entry k (int n) rest) = dump_line k (int n) ++ dump_scalars rest
  dump_scalars (entry k (float d) rest) = dump_line k (float d) ++ dump_scalars rest
  dump_scalars (entry k (bool b) rest) = dump_line k (bool b) ++ dump_scalars rest
  dump_scalars (entry k (arr xs) rest) = dump_line k (arr xs) ++ dump_scalars rest

  -- A nested table, with what stands behind it.
  unfoldable pub dump_nested :
      Bool → List (List ℕ) → Entries D → Option (List ℕ) → Option (List ℕ) → Option (List ℕ)
  dump_nested need_nl path sub none later = none
  dump_nested need_nl path sub (some nested) later =
      Option.map (λ behind. dump_header need_nl path ++ (dump_scalars sub ++ (nested ++ behind)))
        later

  -- The second loop of `dump_table`; 63 is TOML_MAX_DEPTH less 1. `none` is -1.
  unfoldable pub dump_tables : Bool → Entries D → List (List ℕ) → Option (List ℕ)
  dump_tables need_nl nil segs = some []
  dump_tables need_nl (entry k (table sub) rest) segs =
      let path = segs ++ bytes_of k ∷ [] in
      let nested = dump_tables (has_scalars sub) sub path in
      let later = dump_tables true rest segs in
      if leb 63 (length segs) then none else dump_nested need_nl path sub nested later
  dump_tables need_nl (entry k (str s) rest) segs = dump_tables need_nl rest segs
  dump_tables need_nl (entry k (int n) rest) segs = dump_tables need_nl rest segs
  dump_tables need_nl (entry k (float d) rest) segs = dump_tables need_nl rest segs
  dump_tables need_nl (entry k (bool b) rest) segs = dump_tables need_nl rest segs
  dump_tables need_nl (entry k (arr xs) rest) segs = dump_tables need_nl rest segs

  -- `toml_dumps`; `none` is NULL.
  unfoldable pub toml_dumps : Toml D → Option (List ℕ)
  toml_dumps (table es) =
      Option.map (λ nested. dump_scalars es ++ nested) (dump_tables (has_scalars es) es [])
  toml_dumps (str s) = none
  toml_dumps (int n) = none
  toml_dumps (float d) = none
  toml_dumps (bool b) = none
  toml_dumps (arr xs) = none
