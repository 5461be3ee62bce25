-- ===== src/Json/Strings.antt =====
-- Reading the strings and the line breaks that tools/src/json.c writes.
use lg_magic.Json.{skip_ws, string_byte, unescape, push, parse_chars, parse_string}
use lg_magic.Json.Writer.{spaces, escape_byte, escape_bytes, escape_string, new_line}
use lg_magic.Prelude.{
  ℕ, zero, suc, ◌*◌, ◌≡◌, refl, ap, ◌∙◌, Bool, true, ◌||◌, List, [], ◌∷◌, ◌++◌, ◌==◌, leb, arith,
  All,
}
use mathlib.Core.List.{append_assoc}
use lg_magic.Prelude.Result.{ok}

-- A byte that the writer does not write as \u: no control character, or one with an escape.
abbrev pub is_writable : ℕ → Bool
is_writable c = leb 32 c || (c == 8 || (c == 12 || (c == 10 || (c == 13 || c == 9))))

parse_chars-escape_byte :
    (c : ℕ) (rest : List ℕ)
    → is_writable c ≡ true
    → parse_chars (escape_byte c ++ rest) ≡ push c (parse_chars rest)
unfolding parse_chars escape_byte string_byte unescape
parse_chars-escape_byte c rest writable = ground arith

parse_chars-escape_bytes :
    (s rest : List ℕ)
    → All (λ c. is_writable c ≡ true) s
    → parse_chars (escape_bytes s ++ b'"' ∷ rest) ≡ ok (s, rest)
unfolding escape_bytes
parse_chars-escape_bytes [] rest writable = unfold parse_chars string_byte in refl
parse_chars-escape_bytes (c ∷ cs) rest (writable, more) =
    ap parse_chars (append_assoc (escape_byte c) (escape_bytes cs) (b'"' ∷ rest))
    ∙ parse_chars-escape_byte c (escape_bytes cs ++ b'"' ∷ rest) writable
    ∙ ap (push c) (parse_chars-escape_bytes cs rest more)

pub parse_string-escape_string :
    (s rest : List ℕ)
    → All (λ c. is_writable c ≡ true) s
    → parse_string (escape_string s ++ rest) ≡ ok (s, rest)
unfolding parse_string escape_string
parse_string-escape_string s rest writable =
    ap parse_chars (append_assoc (escape_bytes s) (b'"' ∷ []) rest)
    ∙ parse_chars-escape_bytes s rest writable

-- The line breaks and spaces of the writer are skipped.
skip_ws-spaces : (n : ℕ) (text : List ℕ) → skip_ws (spaces n ++ text) ≡ skip_ws text
unfolding skip_ws spaces
skip_ws-spaces zero text = refl
skip_ws-spaces (suc n) text = skip_ws-spaces n text

pub skip_ws-new_line : (level : ℕ) (text : List ℕ) → skip_ws (new_line level ++ text) ≡ skip_ws text
unfolding skip_ws new_line
skip_ws-new_line level text = skip_ws-spaces (4 * level) text
