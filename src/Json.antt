-- ===== src/Json.antt =====
-- tools/src/json.c: the tree of a JSON document and its parser. A text is the list of its bytes; the
-- parser holds what is left of it, from which the offset of an error is computed. Allocation does
-- not fail. Each call of the parser costs a unit of fuel.
mod Examples
pub mod Parser
pub mod Writer
pub mod Access
pub mod Fuel
pub mod Loops
pub mod Termination
pub mod Strings
pub mod Writable
pub mod Steps
pub mod Nesting
pub mod RoundTrip
use lg_magic.Prelude.{
  ℕ, zero, suc, ◌+◌, ◌*◌, ◌-◌, Bool, true, false, not, ◌&&◌, ◌||◌, Option, none, some, List, [],
  ◌∷◌, ◌==◌, leb, ltb, if◌then◌else◌, length,
}
use lg_magic.Prelude.Result.{Result, ok, err, ◌>>=◌}

-- `struct json_value`; `keys` and `items` of an object are one list.
mutual
  pub data Json (D : Type 0) : Type 0 where
    null : Json D
    bool : Bool → Json D
    num : D → Json D
    str : List ℕ → Json D
    arr : Items D → Json D
    obj : Members D → Json D

  pub data Items (D : Type 0) : Type 0 where
    no_items : Items D
    item : Json D → Items D → Items D

  pub data Members (D : Type 0) : Type 0 where
    no_members : Members D
    member : List ℕ → Json D → Members D → Members D

-- The messages of `perr`; the source has none for the last.
pub data Cause : Type 0 where
  expected_string unterminated_string control_character : Cause
  unterminated_escape unicode_escape invalid_escape : Cause
  invalid_number nesting_too_deep : Cause
  unterminated_array expected_comma_or_bracket : Cause
  expected_colon unterminated_object expected_comma_or_brace : Cause
  unexpected_end expected_value trailing_data : Cause
  out_of_fuel : Cause

-- A cause, and what is left of the text where it was found.
pub record Failure : Type 0 where
  pub cause : Cause
  pub left : List ℕ

abbrev pub Parsed : Type 0 → Type 0
Parsed A = Result Failure (A × List ℕ)

abbrev pub fail : {A : Type 0} → Cause → List ℕ → Parsed A
fail cause left = err (record { cause = cause; left = left })

-- JSON_MAX_DEPTH
abbrev pub max_depth : ℕ
max_depth = 32

abbrev pub is_space : ℕ → Bool
is_space c = (c == b' ' || c == 9) || (c == 10 || c == 13)

unfoldable pub skip_ws : List ℕ → List ℕ
skip_ws [] = []
skip_ws (c ∷ cs) = if is_space c then skip_ws cs else c ∷ cs

-- What a byte is inside a string.
pub data StringByte : Type 0 where
  quote control backslash plain : StringByte

unfoldable pub string_byte : ℕ → StringByte
string_byte c =
    if c == b'"' then quote else if ltb c 32 then control else if c == 92 then backslash else plain

-- The byte that an escape stands for; \u and the escapes that there are not give their messages.
unfoldable pub unescape : ℕ → Result Cause ℕ
unescape c =
    if c == b'"'
    then ok b'"'
    else if c == 92
    then ok 92
    else if c == b'/'
    then ok b'/'
    else if c == b'b'
    then ok 8
    else if c == b'f'
    then ok 12
    else if c == b'n'
    then ok 10
    else if c == b'r'
    then ok 13
    else if c == b't'
    then ok 9
    else if c == b'u'
    then err unicode_escape
    else err invalid_escape

abbrev pub push : ℕ → Parsed (List ℕ) → Parsed (List ℕ)
push c p = p >>= λ (s, rest). ok (c ∷ s, rest)

unfoldable mutual
  -- The loop of `parse_string`, behind the opening quote.
  pub parse_chars : List ℕ → Parsed (List ℕ)
  parse_chars [] = fail unterminated_string []
  parse_chars (c ∷ cs) = elim (string_byte c) [
    | quote ↦ ok ([], cs)
    | control ↦ fail control_character (c ∷ cs)
    | plain ↦ push c (parse_chars cs)
    | backslash ↦ parse_escape cs
  ]

  -- The loop behind a backslash.
  pub parse_escape : List ℕ → Parsed (List ℕ)
  parse_escape [] = fail unterminated_escape []
  parse_escape (e ∷ es) = elim (unescape e) [
    | err cause ↦ fail cause (e ∷ es)
    | ok b ↦ push b (parse_chars es)
  ]

unfoldable pub parse_string : List ℕ → Parsed (List ℕ)
parse_string [] = fail expected_string []
parse_string (c ∷ cs) = if c == b'"' then parse_chars cs else fail expected_string (c ∷ cs)
