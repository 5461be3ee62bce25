-- ===== src/Toml/Lines.antt =====
-- The lines of a table that tools/src/toml.c writes, and their reading.
use Prim.Native.String.{String}
use lg_magic.Prelude.Int.{ℤ}
use lg_magic.Prelude.Result.{ok}
use lg_magic.Prelude.{
  ℕ, suc, ◌≡◌, refl, ap, ◌∙◌, Bool, true, false, ◌||◌, Option, none, List, [], ◌∷◌, ◌++◌, ◌==◌,
  length, Bool-cases, &&_true, arith, inl, inr,
}
use lg_magic.Toml.Keys.{parse_key_path-dump_path}
use lg_magic.Toml.Laws.{snoc, add-fresh}
use lg_magic.Toml.Lexer.{
  is_bare, skip_ws, skip_from, skip_line_end, line_end_from, parse_key_path, expected_key,
  expected_equals,
}
use lg_magic.Toml.Parser.{
  enter, split_last, take_byte, changed, parse_entry, parse_entry_behind, parse_entry_value,
  split_or,
}
use lg_magic.Toml.Values.{IsKept, IsWord, parse_value-dump_value}
use lg_magic.Toml.Writer.{
  bare_bytes, dump_string, dump_array, dump_path, dump_path_key, bare_safe_key, dump_value,
  dump_line,
}
use lg_magic.Toml.{Toml, Entries, str, int, float, bool, arr, table, lookup}
use mathlib.Core.List.{append_assoc}

-- A text whose first byte starts a key.
unfoldable pub starts_key : List ℕ → Bool
starts_key [] = false
starts_key (c ∷ cs) = is_bare c || c == b'"'

pub starts_key-dump_path_key : (s rest : List ℕ) → starts_key (dump_path_key s ++ rest) ≡ true
unfolding starts_key dump_path_key dump_string bare_safe_key
starts_key-dump_path_key [] rest = unfold is_bare in refl
starts_key-dump_path_key (b ∷ bs) rest = elim (Bool-cases (bare_bytes (b ∷ bs))) [
  | inl safe ↦ rw safe (rw (&&_true (is_bare b) (bare_bytes bs) (unfold bare_bytes in safe)).0 refl)
  | inr unsafe ↦ rw unsafe (unfold is_bare in refl)
]

pub key_byte :
    (c : ℕ)
    → (is_bare c || c == b'"') ≡ true
    → ((c == 10) ≡ false)
      × ((c == 32 || (c == 9 || c == 13)) ≡ false)
      × ((c == b'#') ≡ false)
      × ((c == b'[') ≡ false)
unfolding is_bare
key_byte c starts = ground (arith, starts)

pub skip_ws-key :
    (text : List ℕ) (line : ℕ)
    → starts_key text ≡ true
    → skip_ws (record { rest = text; line = line }) ≡ record { rest = text; line = line }
unfolding skip_ws skip_from starts_key
skip_ws-key [] line starts = absurd cc
skip_ws-key (c ∷ cs) line starts =
    let (no_line, no_blank, no_comment, no_bracket) = key_byte c starts in
    rw (no_line, no_blank, no_comment) refl

equals_taken :
    (rest : List ℕ) (line : ℕ)
    → take_byte b'=' expected_equals (skip_ws (record { rest = 32 ∷ b'=' ∷ rest; line = line }))
      ≡ ok (record { rest = rest; line = line })
unfolding take_byte skip_ws skip_from
equals_taken rest line = refl

module _ {D : Type 0} (text_of : List ℕ → String) (strtod : List ℕ → Option D)
    (strtoll : List ℕ → Option ℤ) (bytes_of : String → List ℕ) (text_lld : ℤ → List ℕ)
    (text_g : D → List ℕ) where
  abbrev pub line_of : String → Toml D → List ℕ
  line_of = dump_line bytes_of text_lld text_g

  abbrev value_of : Toml D → List ℕ
  value_of = dump_value bytes_of text_lld text_g

  -- The space in front of a value is skipped, and the value is not.
  skip_ws-value :
      (v : Toml D) (tail : List ℕ) (line : ℕ)
      → IsWord text_of strtod strtoll bytes_of text_lld text_g v
      → skip_ws (record { rest = 32 ∷ (value_of v ++ tail); line = line })
        ≡ record { rest = value_of v ++ tail; line = line }
  unfolding IsWord dump_value skip_ws skip_from dump_string dump_array
  skip_ws-value (str s) tail line word = refl
  skip_ws-value (arr []) tail line word = refl
  skip_ws-value (arr (x ∷ xs)) tail line word = refl
  skip_ws-value (bool true) tail line word = refl
  skip_ws-value (bool false) tail line word = refl
  skip_ws-value (int n) tail line word = absurd word
  skip_ws-value (float d) tail line word = absurd word
  skip_ws-value (table es) tail line word = absurd word

  value_read :
      (root : Entries D) (k : String) (v : Toml D) (tail : List ℕ) (line : ℕ)
      → lookup root k ≡ none
      → IsWord text_of strtod strtoll bytes_of text_lld text_g v
      → parse_entry_value text_of strtod strtoll root []
          ([], k)
          (record { rest = value_of v ++ 10 ∷ tail; line = line })
        ≡ ok (snoc root k v, record { rest = 10 ∷ tail; line = line })
  unfolding parse_entry_value enter changed
  value_read root k v tail line fresh word =
      rw
        (
          parse_value-dump_value text_of strtod strtoll bytes_of text_lld text_g v tail line word,
          add-fresh root k v fresh,
        )
        (unfold skip_line_end line_end_from in refl)

  entry_behind :
      (root : Entries D) (k : String) (v : Toml D) (tail : List ℕ) (line : ℕ)
      → lookup root k ≡ none
      → IsWord text_of strtod strtoll bytes_of text_lld text_g v
      → parse_entry_behind text_of strtod strtoll root []
          (k ∷ [])
          (record { rest = 32 ∷ b'=' ∷ 32 ∷ (value_of v ++ 10 ∷ tail); line = line })
        ≡ ok (snoc root k v, [], record { rest = 10 ∷ tail; line = line })
  entry_behind root k v tail line fresh word =
      unfold parse_entry_behind split_last split_or in
      rw
        (
          equals_taken (32 ∷ (value_of v ++ 10 ∷ tail)) line,
          skip_ws-value v (10 ∷ tail) line word,
          value_read root k v tail line fresh word,
        )
        refl

  -- A line that is written is read as its entry.
  pub parse_entry-dump_line :
      (root : Entries D) (k : String) (v : Toml D) (tail : List ℕ) (line : ℕ)
      → lookup root k ≡ none
      → IsKept text_of strtod strtoll bytes_of text_lld text_g k
      → IsWord text_of strtod strtoll bytes_of text_lld text_g v
      → parse_entry text_of strtod strtoll root []
          (record { rest = line_of k v ++ tail; line = line })
        ≡ ok (snoc root k v, [], record { rest = 10 ∷ tail; line = line })
  unfolding IsKept dump_line
  parse_entry-dump_line root k v tail line fresh (same, clean) word =
      let key = dump_path_key (bytes_of k) in
      let value = value_of v in
      let text = key ++ 32 ∷ b'=' ∷ 32 ∷ (value ++ 10 ∷ tail) in
      let as_text : line_of k v ++ tail ≡ text =
        append_assoc key (32 ∷ b'=' ∷ 32 ∷ (value ++ 10 ∷ [])) tail
        ∙ ap (λ x. key ++ 32 ∷ b'=' ∷ 32 ∷ x) (append_assoc value (10 ∷ []) tail) in
      let key_read : parse_key_path (suc (length text)) expected_key
            (record { rest = text; line = line })
          ≡ ok (
            bytes_of k ∷ [],
            record { rest = 32 ∷ b'=' ∷ 32 ∷ (value ++ 10 ∷ tail); line = line },
          ) =
        unfold dump_path in
        parse_key_path-dump_path (suc (length text)) expected_key (bytes_of k) [] 32
          (b'=' ∷ 32 ∷ (value ++ 10 ∷ tail)) line (omega arith) clean tt (unfold is_bare in refl)
          refl in
      ap (λ x. parse_entry text_of strtod strtoll root [] (record { rest = x; line = line }))
        as_text
      ∙ (unfold parse_entry in rw (key_read, same) (entry_behind root k v tail line fresh word))
