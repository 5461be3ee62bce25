-- ===== src/Json/Parser.antt =====
-- The recursive part of the parser of tools/src/json.c. `strtod` is a parameter: the number at the
-- start of a text, how many bytes it takes up, and whether it sets ERANGE.
use lg_magic.Json.{
  Json, Items, Members, null, bool, num, str, arr, obj, no_items, item, no_members, member, Failure,
  Parsed, fail, max_depth, skip_ws, parse_string, invalid_number, nesting_too_deep,
  unterminated_array, expected_comma_or_bracket, expected_colon, unterminated_object,
  expected_comma_or_brace, unexpected_end, expected_value, trailing_data, out_of_fuel,
}
use lg_magic.Prelude.{
  ℕ, zero, suc, ◌+◌, ◌*◌, ◌-◌, Bool, true, false, not, ◌&&◌, ◌||◌, Option, none, some, List, [],
  ◌∷◌, ◌==◌, leb, ltb, if◌then◌else◌, length,
}
use lg_magic.Prelude.Result.{Result, ok, err, ◌>>=◌}

abbrev pub is_digit : ℕ → Bool
is_digit c = leb 48 c && leb c 57

-- The bytes that the scan of `parse_number` runs over.
unfoldable pub is_number_byte : ℕ → Bool
is_number_byte c =
    is_digit c || ((c == b'-' || c == b'+') || (c == b'.' || (c == b'e' || c == b'E')))

-- The token, and what follows it.
unfoldable pub scan_number : List ℕ → List ℕ × List ℕ
scan_number [] = ([], [])
scan_number (c ∷ cs) =
    let (token, rest) = scan_number cs in
    if is_number_byte c then (c ∷ token, rest) else ([], c ∷ cs)

unfoldable pub has_digit : List ℕ → Bool
has_digit [] = false
has_digit (c ∷ cs) = is_digit c || has_digit cs

-- `strncmp(p->s + p->pos, word, strlen(word)) == 0`: what follows the word.
unfoldable pub strip : List ℕ → List ℕ → Option (List ℕ)
strip [] text = some text
strip (w ∷ ws) [] = none
strip (w ∷ ws) (c ∷ cs) = if w == c then strip ws cs else none

-- The cases of `parse_value`.
pub data Start : Type 0 where
  brace bracket quotes letter_t letter_f letter_n number_start other : Start

unfoldable pub start_of : ℕ → Start
start_of c =
    if c == b'{'
    then brace
    else if c == b'['
    then bracket
    else if c == b'"'
    then quotes
    else if c == b't'
    then letter_t
    else if c == b'f'
    then letter_f
    else if c == b'n'
    then letter_n
    else if c == b'-' || is_digit c
    then number_start
    else other

-- What stands behind an item or a member.
pub data Separator : Type 0 where
  comma closing unknown : Separator

unfoldable pub separator : ℕ → ℕ → Separator
separator close c = if c == b',' then comma else if c == close then closing else unknown

module _ {D : Type 0} (strtod : List ℕ → D × ℕ × Bool) where
  unfoldable pub parse_number : List ℕ → Parsed (Json D)
  parse_number text =
      let (token, rest) = scan_number text in
      let (d, taken, erange) = strtod text in
      if not (has_digit token)
      then fail invalid_number rest
      else if erange || not (taken == length token)
      then fail invalid_number rest
      else ok (num d, rest)

  -- One of the words true, false and null.
  unfoldable pub parse_word : List ℕ → Json D → List ℕ → Parsed (Json D)
  parse_word word v text = elim (strip word text) [
    | none ↦ fail expected_value text
    | some rest ↦ ok (v, rest)
  ]

  -- `parse_array` behind the bracket, with its loop.
  unfoldable pub parse_array : (List ℕ → Parsed (Items D)) → ℕ → List ℕ → Parsed (Json D)
  parse_array loop depth text = elim (ltb max_depth (depth + 1)) [
    | true ↦ fail nesting_too_deep text
    | false ↦ elim (strip (b']' ∷ []) (skip_ws text)) [
      | some rest ↦ ok (arr no_items, rest)
      | none ↦ loop (skip_ws text) >>= λ (xs, rest). ok (arr xs, rest)
    ]
  ]

  -- `parse_object` behind the brace, with its loop.
  unfoldable pub parse_object : (List ℕ → Parsed (Members D)) → ℕ → List ℕ → Parsed (Json D)
  parse_object loop depth text = elim (ltb max_depth (depth + 1)) [
    | true ↦ fail nesting_too_deep text
    | false ↦ elim (strip (b'}' ∷ []) (skip_ws text)) [
      | some rest ↦ ok (obj no_members, rest)
      | none ↦ loop (skip_ws text) >>= λ (ms, rest). ok (obj ms, rest)
    ]
  ]

  -- What follows an item: the end, or a comma and more items.
  unfoldable pub next_items : (List ℕ → Parsed (Items D)) → Json D → List ℕ → Parsed (Items D)
  next_items loop v [] = fail unterminated_array []
  next_items loop v (c ∷ cs) = elim (separator b']' c) [
    | comma ↦ loop (skip_ws cs) >>= λ (xs, rest). ok (item v xs, rest)
    | closing ↦ ok (item v no_items, cs)
    | unknown ↦ fail expected_comma_or_bracket (c ∷ cs)
  ]

  unfoldable pub next_members :
      (List ℕ → Parsed (Members D)) → List ℕ → Json D → List ℕ → Parsed (Members D)
  next_members loop key v [] = fail unterminated_object []
  next_members loop key v (c ∷ cs) = elim (separator b'}' c) [
    | comma ↦ loop (skip_ws cs) >>= λ (ms, rest). ok (member key v ms, rest)
    | closing ↦ ok (member key v no_members, cs)
    | unknown ↦ fail expected_comma_or_brace (c ∷ cs)
  ]

  -- The colon behind a key.
  unfoldable pub parse_colon : List ℕ → Parsed (Unit {0})
  parse_colon text = elim (strip (b':' ∷ []) text) [
    | none ↦ fail expected_colon text
    | some rest ↦ ok (tt, rest)
  ]

  -- `parse_value` inside `depth` arrays and objects, and the loops of `parse_array` and
  -- `parse_object`.
  unfoldable mutual
    pub parse_value : ℕ → ℕ → List ℕ → Parsed (Json D)
    parse_value zero depth text = fail out_of_fuel text
    parse_value (suc f) depth text = elim (skip_ws text) [
      | [] ↦ fail unexpected_end []
      | c ∷ cs ↦ elim (start_of c) [
        | brace ↦ parse_object (parse_members f (depth + 1)) depth cs
        | bracket ↦ parse_array (parse_items f (depth + 1)) depth cs
        | quotes ↦ parse_string (c ∷ cs) >>= λ (s, rest). ok (str s, rest)
        | letter_t ↦ parse_word (b't' ∷ b'r' ∷ b'u' ∷ b'e' ∷ []) (bool true) (c ∷ cs)
        | letter_f ↦ parse_word (b'f' ∷ b'a' ∷ b'l' ∷ b's' ∷ b'e' ∷ []) (bool false) (c ∷ cs)
        | letter_n ↦ parse_word (b'n' ∷ b'u' ∷ b'l' ∷ b'l' ∷ []) null (c ∷ cs)
        | number_start ↦ parse_number (c ∷ cs)
        | other ↦ fail expected_value (c ∷ cs)
      ]
    ]

    pub parse_items : ℕ → ℕ → List ℕ → Parsed (Items D)
    parse_items zero depth text = fail out_of_fuel text
    parse_items (suc f) depth text =
        parse_value f depth text >>= λ (v, rest). next_items (parse_items f depth) v (skip_ws rest)

    pub parse_members : ℕ → ℕ → List ℕ → Parsed (Members D)
    parse_members zero depth text = fail out_of_fuel text
    parse_members (suc f) depth text = parse_string text >>= λ (key, rest).
        parse_colon (skip_ws rest) >>= λ (_, behind).
        parse_value f depth (skip_ws behind) >>= λ (v, left).
        next_members (parse_members f depth) key v (skip_ws left)

  unfoldable pub finish : Json D → List ℕ → Result Failure (Json D)
  finish v [] = ok v
  finish v (c ∷ cs) = err (record { cause = trailing_data; left = c ∷ cs })

  unfoldable pub json_parse : List ℕ → Result Failure (Json D)
  json_parse text =
      parse_value (2 * length text + 2) 0 text >>= λ (v, rest). finish v (skip_ws rest)

-- `err_off`, the offset of a failure in the text.
unfoldable pub err_off : List ℕ → Failure → ℕ
err_off text failure = length text - length failure.left
