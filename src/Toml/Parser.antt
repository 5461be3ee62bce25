-- ===== src/Toml/Parser.antt =====
-- The parser of tools/src/toml.c behind its lexical part. `strtod` and `strtoll` are parameters: the
-- number of a token that they read to its end, without ERANGE for `strtoll`. So is the text that the
-- tree holds for a list of bytes.
use Prim.Native.String.{String}
use mathlib.Core.Option
use lg_magic.Kernel.Probe.{codes}
use lg_magic.Prelude.Int.{ℤ}
use lg_magic.Prelude.Result.{Result, ok, err, ◌>>=◌}
use lg_magic.Prelude.{
  ℕ, zero, suc, true, false, ◌||◌, not, Option, none, some, List, [], ◌∷◌, ◌++◌, map, ◌==◌,
  if◌then◌else◌, length, take,
}
use lg_magic.Prelude.Text.{str_eq}
use lg_magic.Toml.Scan.{Scan, scan_token, word}
use lg_magic.Toml.Lexer.{
  Place, TomlError, TomlMessage, Lexed, toml_fail, skip_ws, skip_line_end, parse_string,
  parse_key_path, no_fuel, missing_value, unterminated_array, strings_only, expected_comma,
  invalid_value, invalid_float, invalid_integer, invalid_header, expected_bracket,
  text_after_header, expected_key, expected_equals, crosses_value, duplicate_key, text_after_value,
}
use lg_magic.Toml.{Toml, Entries, str, int, float, bool, arr, table, nil, entry, lookup, add}

-- The table of that key with other entries.
unfoldable pub replace_table : {D : Type 0} → Entries D → String → Entries D → Entries D
replace_table nil key sub = nil
replace_table (entry k v rest) key sub =
    let later = replace_table rest key sub in
    if str_eq k key then entry k (table sub) rest else entry k v later

unfoldable pub add_last : {D : Type 0} → Entries D → String → Toml D → Entries D
add_last nil key v = entry key v nil
add_last (entry k w rest) key v = entry k w (add_last rest key v)

-- `enter`: the tables of a path are made where they are missing, and the last one is changed;
-- `none` is a path that crosses another value, or a change that fails.
unfoldable pub enter :
    {D : Type 0} → List String → (Entries D → Option (Entries D)) → Entries D → Option (Entries D)
enter [] change es = change es
enter (seg ∷ segs) change es = elim (lookup es seg) [
  | none ↦ Option.map (λ sub. add_last es seg (table sub)) (enter segs change nil)
  | some (table sub) ↦ Option.map (replace_table es seg) (enter segs change sub)
  | some other ↦ none
]

-- The loop of `parse_value` over an array, in at most `fuel` rounds; each takes up two bytes or
-- more.
unfoldable pub parse_items : ℕ → Place → Lexed (List (List ℕ))
parse_items zero ps = toml_fail no_fuel ps.line
parse_items (suc fuel) ps =
    let start = skip_ws ps in
    elim start.rest [
      | [] ↦ toml_fail unterminated_array start.line
      | c ∷ cs ↦
          let here : Place = record { rest = cs; line = start.line } in
          if c == b']'
          then ok ([], here)
          else if not (c == b'"' || c == b'\'')
          then toml_fail strings_only start.line
          else (parse_string c here >>= λ (s, after).
              let next = skip_ws after in
              elim next.rest [
                | [] ↦ toml_fail expected_comma next.line
                | d ∷ ds ↦
                    let behind : Place = record { rest = ds; line = next.line } in
                    let more = parse_items fuel behind in
                    if d == b','
                    then (more >>= λ (items, end). ok (s ∷ items, end))
                    else if d == b']'
                    then ok (s ∷ [], behind)
                    else toml_fail expected_comma next.line
              ])
    ]

-- `peek` and the step over the byte.
unfoldable pub take_byte : ℕ → TomlMessage → Place → Result TomlError Place
take_byte c message ps = elim ps.rest [
  | [] ↦ err (record { message = message; at = ps.line })
  | b ∷ bs ↦
      if b == c
      then ok (record { rest = bs; line = ps.line })
      else err (record { message = message; at = ps.line })
]

-- All segments but the last, and the last.
unfoldable pub split_last : List String → Option (List String × String)
split_last [] = none
split_last (s ∷ []) = some ([], s)
split_last (s ∷ t ∷ ts) = Option.map (λ (front, last). (s ∷ front, last)) (split_last (t ∷ ts))

unfoldable pub split_or :
    ℕ → Option (List String × String) → Result TomlError (List String × String)
split_or line none = err (record { message = expected_key; at = line })
split_or line (some key) = ok key

-- The root, the table of the next keys as its path, and the place.
abbrev pub State : Type 0 → Type 0
State D = Entries D × List String × Place

module _ {D : Type 0} (text_of : List ℕ → String) (strtod : List ℕ → Option D)
    (strtoll : List ℕ → Option ℤ) where
  -- The number of a token, of which 63 bytes are kept.
  unfoldable pub number_of : Scan → ℕ → Lexed (Toml D)
  number_of s line =
      let behind : Place = record { rest = s.behind; line = line } in
      if not s.has_digits
      then toml_fail invalid_value line
      else if s.is_float
      then elim (strtod (take 63 s.token)) [
        | none ↦ toml_fail invalid_float line
        | some d ↦ ok (float d, behind)
      ]
      else elim (strtoll (take 63 s.token)) [
        | none ↦ toml_fail invalid_integer line
        | some n ↦ ok (int n, behind)
      ]

  -- true, false, or a number.
  unfoldable pub parse_scalar : Place → Lexed (Toml D)
  parse_scalar ps = elim (word (codes "true") ps.rest) [
    | some rest ↦ ok (bool true, record { rest = rest; line = ps.line })
    | none ↦ elim (word (codes "false") ps.rest) [
      | some rest ↦ ok (bool false, record { rest = rest; line = ps.line })
      | none ↦ number_of (scan_token false true ps.rest) ps.line
    ]
  ]

  -- `parse_value`
  unfoldable pub parse_value : Place → Lexed (Toml D)
  parse_value ps = elim ps.rest [
    | [] ↦ toml_fail missing_value ps.line
    | c ∷ cs ↦
        let here : Place = record { rest = cs; line = ps.line } in
        if c == b'"' || c == b'\''
        then (parse_string c here >>= λ (s, after). ok (str (text_of s), after))
        else if c == b'['
        then (parse_items (suc (length cs)) here >>= λ (items, after).
            ok (arr (map text_of items), after))
        else parse_scalar ps
  ]

  unfoldable pub changed : TomlMessage → ℕ → Option (Entries D) → Result TomlError (Entries D)
  changed message line none = err (record { message = message; at = line })
  changed message line (some es) = ok es

  -- A table header, behind its bracket.
  unfoldable pub parse_header : Entries D → Place → Result TomlError (State D)
  parse_header root ps =
      parse_key_path (suc (length ps.rest)) invalid_header ps >>= λ (segs, after).
      take_byte b']' expected_bracket after >>= λ closed.
      skip_line_end text_after_header closed >>= λ end.
      changed crosses_value end.line (enter (map text_of segs) some root) >>= λ es.
      ok (es, map text_of segs, end)

  -- The value of the key `last` in the table at `path`. After a key that is there already the code
  -- goes on, and then fails with this error.
  unfoldable pub parse_entry_value :
      Entries D → List String → List String × String → Place → Result TomlError (Entries D × Place)
  parse_entry_value root path (front, last) start =
      changed crosses_value start.line (enter (path ++ front) some root) >>= λ entered.
      parse_value start >>= λ (value, behind).
      changed duplicate_key behind.line (enter (path ++ front) (λ es. add es last value) entered)
      >>= λ es. skip_line_end text_after_value behind >>= λ end. ok (es, end)

  -- What stands behind a key.
  unfoldable pub parse_entry_behind :
      Entries D → List String → List String → Place → Result TomlError (State D)
  parse_entry_behind root path segs after =
      take_byte b'=' expected_equals (skip_ws after) >>= λ equals.
      split_or after.line (split_last segs) >>= λ key.
      parse_entry_value root path key (skip_ws equals) >>= λ (es, end). ok (es, path, end)

  -- A key with its value in the table at `path`.
  unfoldable pub parse_entry : Entries D → List String → Place → Result TomlError (State D)
  parse_entry root path ps =
      parse_key_path (suc (length ps.rest)) expected_key ps >>= λ (segs, after).
      parse_entry_behind root path (map text_of segs) after

  -- One round of the loop of `toml_parse`, behind `skip_ws`; `none` is the end of the document.
  unfoldable pub parse_line : Entries D → List String → Place → Result TomlError (Option (State D))
  parse_line root path start = elim start.rest [
    | [] ↦ ok none
    | c ∷ cs ↦
        if c == b'['
        then (parse_header root (record { rest = cs; line = start.line }) >>= λ state.
            ok (some state))
        else (parse_entry root path start >>= λ state. ok (some state))
  ]

  -- The loop of `toml_parse`, in at most `fuel` rounds; each takes up a byte or more.
  unfoldable pub parse_lines : ℕ → Entries D → List String → Place → Result TomlError (Entries D)
  parse_lines zero root path ps = err (record { message = no_fuel; at = ps.line })
  parse_lines (suc fuel) root path ps = parse_line root path (skip_ws ps) >>= λ round. elim round [
    | none ↦ ok root
    | some (es, segs, end) ↦ parse_lines fuel es segs end
  ]

  -- `toml_parse`
  unfoldable pub toml_parse : List ℕ → Result TomlError (Toml D)
  toml_parse text =
      parse_lines (suc (length text)) nil [] (record { rest = text; line = 1 }) >>= λ es.
      ok (table es)

  -- `toml_load_file`; `none` is a file that cannot be read.
  unfoldable pub toml_load_file : Option (List ℕ) → Option (Result TomlError (Toml D))
  toml_load_file none = none
  toml_load_file (some text) = some (toml_parse text)
