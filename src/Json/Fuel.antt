-- ===== src/Json/Fuel.antt =====
-- How many bytes the lexical parts of the parser of tools/src/json.c take up: skip_ws, strings,
-- numbers and words.
use lg_magic.Json.{
  StringByte, fail, control_character, Json, Cause, Parsed, out_of_fuel, skip_ws, string_byte,
  quote, control, backslash, plain, unescape, push, parse_chars, parse_escape, parse_string,
}
use lg_magic.Json.Parser.{scan_number, has_digit, strip, parse_number, parse_word}
use lg_magic.Prelude.{
  ℕ, suc, ◌+◌, ◌≤◌, ◌<◌, ◌≡◌, ◌≢◌, refl, Bool, true, some, List, [], ◌∷◌, arith, length, not, ◌||◌,
  ◌==◌, Bool-cases, Option-cases, inl, inr,
}
use lg_magic.Prelude.Result.{Result, ok, err, ◌>>=◌}

-- A success leaves fewer than `n` bytes, and a failure is one of the source's.
abbrev pub Fits : {A : Type 0} → ℕ → Parsed A → Type 0
Fits n (ok (a, rest)) = length rest < n
Fits n (err failure) = failure.cause ≢ out_of_fuel

pub Fits-bind :
    {A B : Type 0} (n m : ℕ) (p : Parsed A) (f : A × List ℕ → Parsed B)
    → Fits n p
    → ((a : A) (rest : List ℕ) → length rest < n → Fits m (f (a, rest)))
    → Fits m (p >>= f)
Fits-bind n m (ok (a, rest)) f fits next = next a rest fits
Fits-bind n m (err failure) f fits next = fits

pub Fits-le : {A : Type 0} {n m : ℕ} (p : Parsed A) → n ≤ m → Fits n p → Fits m p
Fits-le (ok (a, rest)) le fits = omega (arith, fits, le)
Fits-le (err failure) le fits = fits

pub length-skip_ws : (text : List ℕ) → length (skip_ws text) ≤ length text
unfolding skip_ws
length-skip_ws [] = omega arith
length-skip_ws (c ∷ cs) = ground (arith, length-skip_ws cs)

pub length-strip :
    (word text rest : List ℕ)
    → strip word text ≡ some rest
    → length rest + length word ≡ length text
unfolding strip
length-strip [] text rest h = ground arith
length-strip (w ∷ ws) [] rest h = absurd (ground arith)
length-strip (w ∷ ws) (c ∷ cs) rest h = ground (arith, length-strip ws cs rest)

unescape_cause : (c : ℕ) (cause : Cause) → unescape c ≡ err cause → cause ≢ out_of_fuel
unfolding unescape
unescape_cause c cause h e = ground arith

Fits-push : (c n : ℕ) (p : Parsed (List ℕ)) → Fits n p → Fits (suc n) (push c p)
Fits-push c n (ok (s, rest)) fits = omega (arith, fits)
Fits-push c n (err failure) fits = fits

-- The cases of `parse_chars` and of `parse_escape`, at what the calls in them give.
module _ (c : ℕ) (cs : List ℕ) (later escaped : Parsed (List ℕ)) where
  chars_case : StringByte → Parsed (List ℕ)
  chars_case quote = ok ([], cs)
  chars_case control = fail control_character (c ∷ cs)
  chars_case plain = push c later
  chars_case backslash = escaped

  chars_case-Fits :
      (k : StringByte)
      → Fits (length cs) later
      → Fits (length cs) escaped
      → Fits (suc (length cs)) (chars_case k)
  unfolding chars_case
  chars_case-Fits quote later_fits escaped_fits = omega arith
  chars_case-Fits control later_fits escaped_fits = λ e. ground arith
  chars_case-Fits plain later_fits escaped_fits = Fits-push c (length cs) later later_fits
  chars_case-Fits backslash later_fits escaped_fits = Fits-le escaped (omega arith) escaped_fits

escape_case-Fits :
    (c : ℕ) (cs : List ℕ) (later : Parsed (List ℕ)) (r : Result Cause ℕ)
    → unescape c ≡ r
    → Fits (length cs) later
    → Fits
        (suc (length cs))
        (elim r as (λ r. Parsed (List ℕ)) [ err cause ↦ fail cause (c ∷ cs) | ok b ↦ push b later ])
escape_case-Fits c cs later (err cause) h fits = unescape_cause c cause h
escape_case-Fits c cs later (ok b) h fits = Fits-push b (length cs) later fits

mutual
  unfolding parse_chars chars_case

  parse_chars-Fits : (text : List ℕ) → Fits (length text) (parse_chars text)
  parse_chars-Fits [] = λ e. ground arith
  parse_chars-Fits (c ∷ cs) =
      chars_case-Fits c cs (parse_chars cs) (parse_escape cs) (string_byte c) (parse_chars-Fits cs)
        (parse_escape-Fits cs)

  parse_escape-Fits : (text : List ℕ) → Fits (length text) (parse_escape text)
  parse_escape-Fits [] = λ e. ground arith
  parse_escape-Fits (e ∷ es) =
      escape_case-Fits e es (parse_chars es) (unescape e) refl (parse_chars-Fits es)

pub parse_string-Fits : (text : List ℕ) → Fits (length text) (parse_string text)
unfolding parse_string
parse_string-Fits [] = λ e. ground arith
parse_string-Fits (c ∷ cs) = elim (Bool-cases (c == b'"')) [
  | inl quoted ↦ rw quoted (Fits-le (parse_chars cs) (omega arith) (parse_chars-Fits cs))
  | inr bare ↦ rw bare (λ e. ground arith)
]

length-scan_number :
    (text : List ℕ) → length (scan_number text).0 + length (scan_number text).1 ≡ length text
unfolding scan_number
length-scan_number [] = refl
length-scan_number (c ∷ cs) = ground (arith, length-scan_number cs)

has_digit_nonempty : (token : List ℕ) → has_digit token ≡ true → 0 < length token
unfolding has_digit
has_digit_nonempty [] h = absurd (ground arith)
has_digit_nonempty (c ∷ cs) h = omega arith

module _ {D : Type 0} (strtod : List ℕ → D × ℕ × Bool) where
  pub parse_number-Fits : (text : List ℕ) → Fits (length text) (parse_number strtod text)
  unfolding parse_number
  parse_number-Fits text =
      let (token, rest) = scan_number text in
      elim (Bool-cases (has_digit token)) [
        | inr none_there ↦ rw none_there (λ e. ground arith)
        | inl digit ↦ elim (Bool-cases ((strtod text).2 || not ((strtod text).1 == length token))) [
          | inl bad ↦ rw (digit, bad) (λ e. ground arith)
          | inr good ↦
              rw (digit, good)
                (omega (arith, length-scan_number text, has_digit_nonempty token digit))
        ]
      ]

  pub parse_word-Fits :
      (w : ℕ) (ws : List ℕ) (v : Json D) (text : List ℕ)
      → Fits (length text) (parse_word strtod (w ∷ ws) v text)
  unfolding parse_word
  parse_word-Fits w ws v text = elim (Option-cases (strip (w ∷ ws) text)) [
    | inl missing ↦ rw (missing, Fits) (λ e. ground arith)
    | inr (rest, found) ↦ rw (found, Fits) (omega (arith, length-strip (w ∷ ws) text rest found))
  ]
