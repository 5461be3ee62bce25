-- ===== src/Toml/Lexer.antt =====
-- The lexical part of the parser of tools/src/toml.c: spaces, texts in quotes and keys. The first
-- error ends the parsing; its line is kept with it.
use lg_magic.Json.Parser.{is_digit}
use lg_magic.Prelude.Text.{c_text}
use lg_magic.Prelude.Result.{Result, ok, err, ◌>>=◌}
use lg_magic.Prelude.{
  ℕ, zero, suc, ◌+◌, ◌*◌, ◌-◌, ◌/◌, ◌%◌, Bool, true, false, ◌||◌, ◌&&◌, not, Option, none, some,
  List, [], ◌∷◌, ◌++◌, ◌==◌, ltb, leb, if◌then◌else◌,
}

-- `p` and `line` of `struct parser`: the bytes from `p` to `end`, and the line of the first.
pub record Place : Type 0 where
  pub rest : List ℕ
  pub line : ℕ

-- The messages of `parse_error`.
pub data TomlMessage : Type 0 where
  unterminated_string newline_in_literal control_in_literal control_in_basic : TomlMessage
  unterminated_escape short_escape bad_escape unknown_escape : TomlMessage
  missing_value unterminated_array strings_only expected_comma : TomlMessage
  invalid_value invalid_float invalid_integer : TomlMessage
  invalid_header expected_bracket text_after_header : TomlMessage
  expected_key expected_equals crosses_value duplicate_key text_after_value : TomlMessage
  -- A loop of this model without fuel.
  no_fuel : TomlMessage

-- `err` and `err_line` of `struct parser`.
pub record TomlError : Type 0 where
  pub message : TomlMessage
  pub at : ℕ

abbrev pub Lexed : Type 0 → Type 0
Lexed A = Result TomlError (A × Place)

abbrev pub toml_fail : {A : Type 0} → TomlMessage → ℕ → Lexed A
toml_fail message line = err (record { message = message; at = line })

-- `peek`
unfoldable pub peek : Place → ℕ → Bool
peek ps c = elim ps.rest [ [] ↦ false | b ∷ bs ↦ b == c ]

abbrev pub is_blank : ℕ → Bool
is_blank c = c == 32 || (c == 9 || c == 13)

-- The loops of `skip_ws`, outside of a comment and in one.
unfoldable pub skip_from : Bool → List ℕ → ℕ → Place
skip_from comment [] line = record { rest = []; line = line }
skip_from comment (c ∷ cs) line =
    let on = skip_from comment cs line in
    let in_comment = skip_from true cs line in
    let next_line = skip_from false cs (suc line) in
    if c == 10
    then next_line
    else if comment || is_blank c
    then on
    else if c == b'#'
    then in_comment
    else record { rest = c ∷ cs; line = line }

-- `skip_ws`
unfoldable pub skip_ws : Place → Place
skip_ws ps = skip_from false ps.rest ps.line

-- `skip_line_end`: what is left, or nothing where other text stands there.
unfoldable pub line_end_from : Bool → List ℕ → Option (List ℕ)
line_end_from comment [] = some []
line_end_from comment (c ∷ cs) =
    let on = line_end_from comment cs in
    let in_comment = line_end_from true cs in
    if c == 10
    then some (c ∷ cs)
    else if comment || is_blank c
    then on
    else if c == b'#'
    then in_comment
    else none

unfoldable pub skip_line_end : TomlMessage → Place → Result TomlError Place
skip_line_end message ps = elim (line_end_from false ps.rest) [
  | none ↦ err (record { message = message; at = ps.line })
  | some rest ↦ ok (record { rest = rest; line = ps.line })
]

-- A digit of a \u escape.
unfoldable pub hex_value : ℕ → Option ℕ
hex_value c =
    if is_digit c
    then some (c - 48)
    else if leb 97 c && leb c 102
    then some (c - 87)
    else if leb 65 c && leb c 70
    then some (c - 55)
    else none

-- The bytes of a \u escape in UTF-8.
unfoldable pub utf8 : ℕ → List ℕ
utf8 v =
    if ltb v 128
    then v ∷ []
    else if ltb v 2048
    then (192 + v / 64) ∷ (128 + v % 64) ∷ []
    else (224 + v / 4096) ∷ (128 + v / 64 % 64) ∷ (128 + v % 64) ∷ []

-- The characters behind a backslash, but for u.
unfoldable pub escaped : ℕ → Option ℕ
escaped c =
    if c == b'n'
    then some 10
    else if c == b't'
    then some 9
    else if c == b'r'
    then some 13
    else if c == b'b'
    then some 8
    else if c == b'f'
    then some 12
    else if c == b'"'
    then some b'"'
    else if c == 92
    then some 92
    else none

-- Bytes put in front of a text.
unfoldable pub push_bytes : List ℕ → Lexed (List ℕ) → Lexed (List ℕ)
push_bytes bytes (err e) = err e
push_bytes bytes (ok (s, after)) = ok (bytes ++ s, after)

-- What a byte is in a text with that quote.
pub data TextByte : Type 0 where
  closing backslash new_line plain control : TextByte

unfoldable pub text_byte : ℕ → ℕ → TextByte
text_byte quote c =
    if c == quote
    then closing
    else if c == 10
    then new_line
    else if c == 92 && quote == b'"'
    then backslash
    else if ltb c 32 && not (quote == b'"' && c == 9)
    then control
    else plain

-- The mode of the loop of `parse_string`: text, behind a backslash, and in a \u escape with the
-- value so far and the digits that are missing.
pub data Mode : Type 0 where
  in_text behind_backslash : Mode
  in_unicode : ℕ → ℕ → Mode

-- One byte of text, with what follows it: on this line, on the next one, and behind a backslash.
unfoldable pub text_char :
    TextByte
    → ℕ
    → ℕ
    → List ℕ
    → ℕ
    → Lexed (List ℕ)
    → Lexed (List ℕ)
    → Lexed (List ℕ)
    → Lexed (List ℕ)
text_char closing c quote cs line on below escape = ok ([], record { rest = cs; line = line })
text_char backslash c quote cs line on below escape = escape
text_char new_line c quote cs line on below escape =
    if quote == b'\'' then toml_fail newline_in_literal (suc line) else push_bytes (c ∷ []) below
text_char plain c quote cs line on below escape = push_bytes (c ∷ []) on
text_char control c quote cs line on below escape =
    if quote == b'\'' then toml_fail control_in_literal line else toml_fail control_in_basic line

unfoldable pub escape_char : Option ℕ → ℕ → Lexed (List ℕ) → Lexed (List ℕ)
escape_char none line on = toml_fail unknown_escape line
escape_char (some c) line on = push_bytes (c ∷ []) on

-- The loop of `parse_string`; `start` is the line of the opening quote.
unfoldable pub chars_from : Mode → ℕ → ℕ → List ℕ → ℕ → Lexed (List ℕ)
chars_from in_text quote start [] line = toml_fail unterminated_string start
chars_from behind_backslash quote start [] line = toml_fail unterminated_escape line
chars_from (in_unicode v missing) quote start [] line = toml_fail short_escape line
chars_from in_text quote start (c ∷ cs) line =
    text_char (text_byte quote c) c quote cs line (chars_from in_text quote start cs line)
      (chars_from in_text quote start cs (suc line))
      (chars_from behind_backslash quote start cs line)
chars_from behind_backslash quote start (c ∷ cs) line =
    let unicode = chars_from (in_unicode 0 4) quote start cs line in
    let on = chars_from in_text quote start cs line in
    if c == b'u' then unicode else escape_char (escaped c) line on
chars_from (in_unicode v missing) quote start (c ∷ cs) line = elim (hex_value c) [
  | none ↦ toml_fail bad_escape line
  | some d ↦
      let last = push_bytes (utf8 (16 * v + d)) (chars_from in_text quote start cs line) in
      let next = chars_from (in_unicode (16 * v + d) (missing - 1)) quote start cs line in
      if ltb 1 missing then next else last
]

-- The text as a C string: a NUL, which \u0000 stands for, ends it.
unfoldable pub cut_text : Lexed (List ℕ) → Lexed (List ℕ)
cut_text (err e) = err e
cut_text (ok (s, after)) = ok (c_text s, after)

-- `parse_string`, behind the opening quote.
unfoldable pub parse_string : ℕ → Place → Lexed (List ℕ)
parse_string quote ps = cut_text (chars_from in_text quote ps.line ps.rest ps.line)

-- The bytes of a bare key.
unfoldable pub is_bare : ℕ → Bool
is_bare c =
    is_digit c || ((leb 65 c && leb c 90) || ((leb 97 c && leb c 122) || (c == b'_' || c == b'-')))

-- `parse_bare_key`: the key, and what is behind it.
unfoldable pub bare_from : List ℕ → List ℕ × List ℕ
bare_from [] = ([], [])
bare_from (c ∷ cs) =
    let (key, rest) = bare_from cs in if is_bare c then (c ∷ key, rest) else ([], c ∷ cs)

-- `parse_key_segment`; the error of the caller is the message where there is no key.
unfoldable pub parse_key_segment : TomlMessage → Place → Lexed (List ℕ)
parse_key_segment message ps = elim ps.rest [
  | [] ↦ toml_fail message ps.line
  | c ∷ cs ↦
      if c == b'"' || c == b'\''
      then parse_string c (record { rest = cs; line = ps.line })
      else if is_bare c
      then (let (key, rest) = bare_from (c ∷ cs) in
          ok (key, record { rest = rest; line = ps.line }))
      else toml_fail message ps.line
]

-- The loop of `parse_key_path`, in at most `fuel` rounds; each takes up a byte or more.
unfoldable pub parse_key_path : ℕ → TomlMessage → Place → Lexed (List (List ℕ))
parse_key_path zero message ps = toml_fail no_fuel ps.line
parse_key_path (suc fuel) message ps = parse_key_segment message ps >>= λ (seg, after).
    elim after.rest [
      | [] ↦ ok (seg ∷ [], after)
      | c ∷ cs ↦
          let more = parse_key_path fuel message (record { rest = cs; line = after.line }) in
          if c == b'.' then (more >>= λ (segs, end). ok (seg ∷ segs, end)) else ok (seg ∷ [], after)
    ]
