-- ===== src/Toml/Strings.antt =====
-- The texts, keys and arrays that tools/src/toml.c writes, and their reading.
use lg_magic.Prelude.Result.{ok}
use lg_magic.Prelude.Text.{c_text}
use lg_magic.Prelude.{
  ℕ, zero, suc, ◌<◌, ◌≢◌, ◌≡◌, refl, ap, ◌∙◌, List, [], ◌∷◌, ◌++◌, ◌==◌, length, All, arith,
  Bool-cases, ==_iff, inl, inr,
}
use lg_magic.Toml.Lexer.{
  in_text, text_byte, text_char, escaped, escape_char, hex_value, utf8, push_bytes, chars_from,
  cut_text, parse_string, skip_ws, skip_from,
}
use lg_magic.Toml.Parser.{parse_items}
use lg_magic.Toml.Writer.{upper_digit, dump_byte, dump_bytes, dump_string, dump_more}
use mathlib.Core.List.{append_assoc}

-- A byte of a text: no NUL, and no byte of 256 or more.
abbrev pub IsByte : ℕ → Type 0
IsByte c = (c ≢ 0) × (c < 256)

chars_from-dump_byte :
    (c start line : ℕ) (rest : List ℕ)
    → IsByte c
    → chars_from in_text b'"' start (dump_byte c ++ rest) line
      ≡ push_bytes (c ∷ []) (chars_from in_text b'"' start rest line)
unfolding chars_from dump_byte text_byte text_char escaped escape_char hex_value utf8 upper_digit
chars_from-dump_byte c start line rest (not_nul, small) = ground arith

chars_from-dump_bytes :
    (s rest : List ℕ) (start line : ℕ)
    → All IsByte s
    → chars_from in_text b'"' start (dump_bytes s ++ b'"' ∷ rest) line
      ≡ ok (s, record { rest = rest; line = line })
unfolding dump_bytes
chars_from-dump_bytes [] rest start line clean = unfold chars_from text_byte text_char in refl
chars_from-dump_bytes (c ∷ cs) rest start line (is_byte, clean) =
    ap (λ text. chars_from in_text b'"' start text line)
      (append_assoc (dump_byte c) (dump_bytes cs) (b'"' ∷ rest))
    ∙ (chars_from-dump_byte c start line (dump_bytes cs ++ b'"' ∷ rest) is_byte
        ∙ ap (push_bytes (c ∷ [])) (chars_from-dump_bytes cs rest start line clean)
        ∙ unfold push_bytes in refl)

c_text_same : (s : List ℕ) → All IsByte s → c_text s ≡ s
unfolding c_text
c_text_same [] clean = refl
c_text_same (b ∷ bs) ((differs, small), clean) = elim (Bool-cases (b == 0)) [
  | inl zero_byte ↦ absurd (differs ((==_iff b 0).0 zero_byte))
  | inr other ↦ rw (other, c_text_same bs clean) refl
]

-- A text is read back behind its opening quote.
pub parse_string-dump_bytes :
    (s rest : List ℕ) (line : ℕ)
    → All IsByte s
    → parse_string b'"' (record { rest = (dump_bytes s ++ b'"' ∷ []) ++ rest; line = line })
      ≡ ok (s, record { rest = rest; line = line })
unfolding parse_string cut_text
parse_string-dump_bytes s rest line clean =
    ap (λ text. cut_text (chars_from in_text b'"' line text line))
      (append_assoc (dump_bytes s) (b'"' ∷ []) rest)
    ∙ ap cut_text (chars_from-dump_bytes s rest line line clean)
    ∙ ap (λ t. ok (t, record { rest = rest; line = line })) (c_text_same s clean)

-- A space in front of an item is skipped.
parse_items-space :
    (fuel line : ℕ) (text : List ℕ)
    → parse_items fuel (record { rest = 32 ∷ text; line = line })
      ≡ parse_items fuel (record { rest = text; line = line })
unfolding parse_items skip_ws skip_from
parse_items-space zero line text = refl
parse_items-space (suc fuel) line text = refl

-- The strings of an array, with what stands behind the first.
pub items_read :
    (fuel : ℕ) (s : List ℕ) (ss : List (List ℕ)) (tail : List ℕ) (line : ℕ)
    → length ss < fuel
    → All IsByte s
    → All (λ t. All IsByte t) ss
    → parse_items fuel (record { rest = dump_string s ++ (dump_more ss ++ tail); line = line })
      ≡ ok (s ∷ ss, record { rest = tail; line = line })
unfolding parse_items dump_string dump_more skip_ws skip_from
items_read zero s ss tail line enough clean cleans = absurd (omega arith)
items_read (suc fuel) s [] tail line enough clean cleans =
    rw (parse_string-dump_bytes s (b']' ∷ tail) line clean) refl
items_read (suc fuel) s (t ∷ ts) tail line enough clean (next, cleans) =
    rw
      (
        append_assoc (dump_string t) (dump_more ts) tail,
        parse_string-dump_bytes s (b',' ∷ 32 ∷ (dump_string t ++ (dump_more ts ++ tail))) line
            clean,
        parse_items-space fuel line (dump_string t ++ (dump_more ts ++ tail)),
        items_read fuel t ts tail line (omega arith) next cleans,
      )
      refl
