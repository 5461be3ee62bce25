-- ===== src/Toml/Values.antt =====
-- The values that tools/src/toml.c writes on a line, and their reading.
use Prim.Native.String.{String}
use lg_magic.Json.Parser.{strip}
use lg_magic.Prelude.Int.{ℤ}
use lg_magic.Prelude.Result.{ok}
use lg_magic.Prelude.{
  ℕ, suc, ◌≤◌, ◌<◌, ◌≡◌, refl, ap, ◌∙◌, true, false, Option, List, [], ◌∷◌, ◌++◌, map, length, All,
  arith, length-append,
}
use lg_magic.Toml.Lexer.{skip_ws, skip_from, is_bare}
use lg_magic.Toml.Parser.{parse_items, parse_value, parse_scalar}
use lg_magic.Toml.Scan.{word, ends_word}
use lg_magic.Toml.Strings.{IsByte, parse_string-dump_bytes, items_read}
use lg_magic.Toml.Writer.{dump_bytes, dump_string, dump_more, dump_array, dump_value}
use mathlib.Core.List.{append_assoc}
use lg_magic.Toml.{Toml, str, int, float, bool, arr, table}

length-dump_more : (ss : List (List ℕ)) → length ss ≤ length (dump_more ss)
unfolding dump_more dump_string
length-dump_more [] = omega arith
length-dump_more (s ∷ ss) =
    omega (arith, length-append (dump_bytes s ++ b'"' ∷ []) (dump_more ss), length-dump_more ss)

module _ {D : Type 0} (text_of : List ℕ → String) (strtod : List ℕ → Option D)
    (strtoll : List ℕ → Option ℤ) (bytes_of : String → List ℕ) (text_lld : ℤ → List ℕ)
    (text_g : D → List ℕ) where
  -- A text of the tree that its bytes stand for.
  unfoldable pub IsKept : String → Type 0
  IsKept s = (text_of (bytes_of s) ≡ s) × All IsByte (bytes_of s)

  -- A truth value, a text, or an array of texts.
  unfoldable pub IsWord : Toml D → Type 0
  IsWord (str s) = IsKept s
  IsWord (arr xs) = All IsKept xs
  IsWord (bool b) = Unit
  IsWord (int n) = ⊥
  IsWord (float d) = ⊥
  IsWord (table es) = ⊥

  kept_texts : (xs : List String) → All IsKept xs → map text_of (map bytes_of xs) ≡ xs
  unfolding IsKept
  kept_texts [] kept = refl
  kept_texts (x ∷ xs) ((same, clean), kept) = rw (same, kept_texts xs kept) refl

  kept_bytes : (xs : List String) → All IsKept xs → All (λ t. All IsByte t) (map bytes_of xs)
  unfolding IsKept
  kept_bytes [] kept = tt
  kept_bytes (x ∷ xs) ((same, clean), kept) = (clean, kept_bytes xs kept)

  -- A truth value, a text or an array of texts that the writer puts on a line is read back, at the
  -- end of that line, where the texts are those that their bytes stand for.
  pub parse_value-dump_value :
      (v : Toml D) (tail : List ℕ) (line : ℕ)
      → IsWord v
      → parse_value text_of strtod strtoll
          (record { rest = dump_value bytes_of text_lld text_g v ++ 10 ∷ tail; line = line })
        ≡ ok (v, record { rest = 10 ∷ tail; line = line })
  unfolding IsWord IsKept dump_value is_bare
  parse_value-dump_value (str s) tail line (same, clean) =
      unfold parse_value dump_string in
      rw (parse_string-dump_bytes (bytes_of s) (10 ∷ tail) line clean, same) refl
  parse_value-dump_value (arr []) tail line kept =
      unfold parse_value dump_array parse_items skip_ws skip_from in refl
  parse_value-dump_value (arr (x ∷ xs)) tail line kept =
      let (clean, cleans) = kept_bytes (x ∷ xs) kept in
      let texts = map bytes_of xs in
      let behind = dump_string (bytes_of x) ++ dump_more texts in
      let fuel = suc (length (behind ++ 10 ∷ tail)) in
      let enough : length texts < fuel = omega (
        arith,
        length-append behind (10 ∷ tail),
        length-append (dump_string (bytes_of x)) (dump_more texts),
        length-dump_more texts,
      ) in
      let read =
        ap (λ text. parse_items fuel (record { rest = text; line = line }))
          (append_assoc (dump_string (bytes_of x)) (dump_more texts) (10 ∷ tail))
        ∙ items_read fuel (bytes_of x) texts (10 ∷ tail) line enough clean cleans in
      unfold parse_value dump_array in rw (read, kept_texts (x ∷ xs) kept) refl
  parse_value-dump_value (bool true) tail line kept =
      unfold parse_value parse_scalar word strip ends_word in refl
  parse_value-dump_value (bool false) tail line kept =
      unfold parse_value parse_scalar word strip ends_word in refl
  parse_value-dump_value (int n) tail line kept = absurd kept
  parse_value-dump_value (float d) tail line kept = absurd kept
  parse_value-dump_value (table es) tail line kept = absurd kept
