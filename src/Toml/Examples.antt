-- ===== src/Toml/Examples.antt =====
-- A document and a key path of tools/src/toml.c.
use Prim.Native.String.{String}
use lg_magic.Kernel.Probe.{codes}
use lg_magic.Prelude.Result.{ok}
use lg_magic.Prelude.Text.{same_bytes}
use lg_magic.Prelude.{
  ℕ, ◌≡◌, refl, Option, none, some, List, [], ◌∷◌, ◌++◌, if◌then◌else◌, true, arith,
}
use lg_magic.Toml.Document.{IsFlat, toml_parse-toml_dumps}
use lg_magic.Toml.Keys.{parse_key_path-dump_path}
use lg_magic.Toml.Lexer.{invalid_header, is_bare, parse_key_path}
use lg_magic.Toml.Parser.{toml_parse}
use lg_magic.Toml.Values.{IsKept, IsWord}
use lg_magic.Toml.Writer.{dump_path, toml_dumps}
use lg_magic.Toml.{Entries, bool, arr, table, nil, entry, lookup}

-- The three texts of the document below.
example_text : List ℕ → String
unfolding same_bytes
example_text bytes =
    if same_bytes bytes (codes "on")
    then "on"
    else if same_bytes bytes (codes "k")
    then "k"
    else "a b"

no_number : {A : Type 0} → List ℕ → Option A
no_number token = none

no_text : {A : Type 0} → A → List ℕ
no_text n = []

-- on = true
-- k = ["a b", "on"]
abbrev two_entries : Entries ℕ
two_entries = entry "on" (bool true) (entry "k" (arr ("a b" ∷ "on" ∷ [])) nil)

two_entries-IsFlat : IsFlat example_text no_number no_number codes no_text no_text nil two_entries
unfolding IsFlat IsKept IsWord lookup example_text same_bytes
two_entries-IsFlat = (
  refl,
  (refl, ((omega arith, omega arith), ((omega arith, omega arith), tt))),
  tt,
  (
    refl,
    (refl, ((omega arith, omega arith), tt)),
    (
      (
        refl,
        (
          (omega arith, omega arith),
          ((omega arith, omega arith), ((omega arith, omega arith), tt)),
        ),
      ),
      ((refl, ((omega arith, omega arith), ((omega arith, omega arith), tt))), tt),
    ),
    tt,
  ),
)

toml_parse-toml_dumps_example :
    (text : List ℕ) × (toml_dumps codes no_text no_text (table two_entries) ≡ some text)
    × (toml_parse example_text no_number no_number text ≡ ok (table two_entries))
toml_parse-toml_dumps_example =
    toml_parse-toml_dumps example_text no_number no_number codes no_text no_text two_entries
      two_entries-IsFlat

-- The path a."b c" in a table header.
parse_key_path-dump_path_example :
    parse_key_path 2 invalid_header
      (record { rest = dump_path (codes "a" ∷ codes "b c" ∷ []) ++ b']' ∷ 10 ∷ []; line = 3 })
    ≡ ok (codes "a" ∷ codes "b c" ∷ [], record { rest = b']' ∷ 10 ∷ []; line = 3 })
unfolding is_bare
parse_key_path-dump_path_example =
    parse_key_path-dump_path 2 invalid_header (codes "a") (codes "b c" ∷ []) b']' (10 ∷ []) 3
      (omega arith) ((omega arith, omega arith), tt)
      (
        (
          (omega arith, omega arith),
          ((omega arith, omega arith), ((omega arith, omega arith), tt)),
        ),
        tt,
      )
      refl refl
