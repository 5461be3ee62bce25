-- ===== src/Toml/Scan.antt =====
-- The tokens of numbers and words of tools/src/toml.c.
use lg_magic.Json.Parser.{is_digit, strip}
use lg_magic.Prelude.{
  ℕ, Bool, true, false, ◌||◌, ◌&&◌, not, Option, none, some, List, [], ◌∷◌, ◌==◌, if◌then◌else◌,
}
use lg_magic.Toml.Lexer.{is_bare}

-- What the scan of a number finds: the token without separators, whether it is a float, whether it
-- has a digit, and what is behind it.
pub record Scan : Type 0 where
  pub token : List ℕ
  pub is_float : Bool
  pub has_digits : Bool
  pub behind : List ℕ

abbrev push_char : ℕ → Bool → Bool → Scan → Scan
push_char c floats counts s = record {
  token = c ∷ s.token;
  is_float = floats || s.is_float;
  has_digits = counts || s.has_digits;
  behind = s.behind;
}

-- `isdigit` of the next byte, where there is one.
unfoldable pub starts_digit : List ℕ → Bool
starts_digit [] = false
starts_digit (c ∷ cs) = is_digit c

abbrev is_sign : ℕ → Bool
is_sign c = c == b'+' || c == b'-'

-- The loop over a number; `seen` is that a digit was there, `sign` that a sign may stand here.
unfoldable pub scan_token : Bool → Bool → List ℕ → Scan
scan_token seen sign [] = record { token = []; is_float = false; has_digits = false; behind = [] }
scan_token seen sign (c ∷ cs) =
    let after_digit = scan_token true false cs in
    let after = scan_token seen false cs in
    let after_exponent = scan_token seen true cs in
    if sign && is_sign c
    then push_char c false false after
    else if is_digit c
    then push_char c false true after_digit
    else if c == b'_' && (seen && starts_digit cs)
    then after
    else if c == b'.'
    then push_char c true false after
    else if (c == b'e' || c == b'E') && seen
    then push_char c true false after_exponent
    else record { token = []; is_float = false; has_digits = false; behind = c ∷ cs }

-- A word that no letter, digit or _ follows.
unfoldable pub ends_word : List ℕ → Bool
ends_word [] = true
ends_word (c ∷ cs) = c == b'-' || not (is_bare c)

unfoldable pub word : List ℕ → List ℕ → Option (List ℕ)
word letters text = elim (strip letters text) [
  | none ↦ none
  | some rest ↦ if ends_word rest then some rest else none
]
