-- ===== src/Toml/Document.antt =====
-- A document of one table that tools/src/toml.c writes, and its reading.
use Prim.Native.String.{String}
use lg_magic.Prelude.Int.{ℤ}
use lg_magic.Prelude.Result.{Result, ok, ◌>>=◌}
use lg_magic.Prelude.{
  ℕ, zero, suc, ◌<◌, ◌≤◌, ◌≡◌, refl, sym, ap, ◌∙◌, Bool, true, Option, none, some, List, [], ◌∷◌,
  ◌++◌, length, arith, length-append,
}
use lg_magic.Toml.Laws.{append, snoc, append-snoc, append-nil}
use lg_magic.Toml.Lexer.{Place, TomlError, skip_ws, skip_from}
use lg_magic.Toml.Lines.{
  starts_key, starts_key-dump_path_key, key_byte, skip_ws-key, line_of, parse_entry-dump_line,
}
use lg_magic.Toml.Parser.{State, parse_entry, parse_line, parse_lines, toml_parse}
use lg_magic.Toml.Values.{IsKept, IsWord}
use lg_magic.Toml.Writer.{
  dump_path_key, dump_line, dump_scalars, dump_tables, has_scalars, toml_dumps,
}
use lg_magic.Toml.{Toml, Entries, str, int, float, bool, arr, table, nil, entry, lookup}
use mathlib.Core.List.{append_assoc, append-nil as append_nil_list}

module _ {D : Type 0} (text_of : List ℕ → String) (strtod : List ℕ → Option D)
    (strtoll : List ℕ → Option ℤ) (bytes_of : String → List ℕ) (text_lld : ℤ → List ℕ)
    (text_g : D → List ℕ) where
  -- Entries behind those of `root`, each with a new key and a truth value, a text or an array of
  -- texts.
  unfoldable pub IsFlat : Entries D → Entries D → Type 0
  IsFlat root nil = Unit
  IsFlat root (entry k v rest) =
      (lookup root k ≡ none)
      × IsKept text_of strtod strtoll bytes_of text_lld text_g k
      × IsWord text_of strtod strtoll bytes_of text_lld text_g v
      × IsFlat (snoc root k v) rest

  abbrev lines_of : Entries D → List ℕ
  lines_of = dump_scalars bytes_of text_lld text_g

  dump_scalars-entry :
      (k : String) (v : Toml D) (rest : Entries D)
      → IsWord text_of strtod strtoll bytes_of text_lld text_g v
      → lines_of (entry k v rest)
        ≡ line_of text_of strtod strtoll bytes_of text_lld text_g k v ++ lines_of rest
  unfolding dump_scalars IsWord
  dump_scalars-entry k (str s) rest word = refl
  dump_scalars-entry k (arr xs) rest word = refl
  dump_scalars-entry k (bool b) rest word = refl
  dump_scalars-entry k (int n) rest word = absurd word
  dump_scalars-entry k (float d) rest word = absurd word
  dump_scalars-entry k (table es) rest word = absurd word

  starts_key-line :
      (k : String) (v : Toml D) (tail : List ℕ)
      → starts_key (dump_line bytes_of text_lld text_g k v ++ tail) ≡ true
  unfolding dump_line
  starts_key-line k v tail =
      ap starts_key (append_assoc (dump_path_key (bytes_of k)) _ tail)
      ∙ starts_key-dump_path_key (bytes_of k) _

  skip_ws-lines :
      (root es : Entries D) (line : ℕ)
      → IsFlat root es
      → skip_ws (record { rest = lines_of es; line = line })
        ≡ record { rest = lines_of es; line = line }
  unfolding IsFlat
  skip_ws-lines root nil line flat = unfold dump_scalars skip_ws skip_from in refl
  skip_ws-lines root (entry k v rest) line (fresh, kept, word, flat) =
      rw (dump_scalars-entry k v rest word)
        (skip_ws-key _ line (starts_key-line k v (lines_of rest)))

  line_is_long : (k : String) (v : Toml D) → 0 < length (dump_line bytes_of text_lld text_g k v)
  unfolding dump_line
  line_is_long k v = omega (arith, length-append (dump_path_key (bytes_of k)) _)

  count_entries : Entries D → ℕ
  count_entries nil = 0
  count_entries (entry k v rest) = suc (count_entries rest)

  lines_are_long : (root es : Entries D) → IsFlat root es → count_entries es ≤ length (lines_of es)
  unfolding IsFlat count_entries
  lines_are_long root nil flat = omega arith
  lines_are_long root (entry k v rest) (fresh, kept, word, flat) =
      rw (dump_scalars-entry k v rest word) (
        omega (
          arith,
          length-append (dump_line bytes_of text_lld text_g k v) (lines_of rest),
          line_is_long k v,
          lines_are_long (snoc root k v) rest flat,
        ))

  -- What the loop does behind one round.
  go_on : ℕ → Entries D → Result TomlError (Option (State D)) → Result TomlError (Entries D)
  go_on fuel root r = r >>= λ round. elim round [
    | none ↦ ok root
    | some (es, segs, end) ↦ parse_lines text_of strtod strtoll fuel es segs end
  ]

  -- A round of the loop at a key.
  parse_line_at_key :
      (root : Entries D) (text : List ℕ) (line : ℕ)
      → starts_key text ≡ true
      → parse_line text_of strtod strtoll root [] (record { rest = text; line = line }) ≡ (
          parse_entry text_of strtod strtoll root [] (record { rest = text; line = line })
          >>= λ state. ok (some state))
  unfolding starts_key
  parse_line_at_key root [] line starts = absurd cc
  parse_line_at_key root (c ∷ cs) line starts = unfold parse_line in rw (key_byte c starts).3 refl

  lines_read :
      (fuel : ℕ) (root es : Entries D) (ps : Place) (line : ℕ)
      → skip_ws ps ≡ record { rest = lines_of es; line = line }
      → count_entries es < fuel
      → IsFlat root es
      → parse_lines text_of strtod strtoll fuel root [] ps ≡ ok (append root es)
  unfolding count_entries IsFlat go_on parse_lines
  lines_read zero root es ps line skipped enough flat = absurd (omega arith)
  lines_read (suc fuel) root nil ps line skipped enough flat =
      ap (λ start. go_on fuel root (parse_line text_of strtod strtoll root [] start)) skipped
      ∙ (unfold parse_line dump_scalars in ap ok (sym (append-nil root)))
  lines_read (suc fuel) root (entry k v rest) ps line skipped enough (fresh, kept, word, flat) =
      let text = line_of text_of strtod strtoll bytes_of text_lld text_g k v ++ lines_of rest in
      let behind : Place = record { rest = 10 ∷ lines_of rest; line = line } in
      let line_read =
        parse_line_at_key root text line (starts_key-line k v (lines_of rest))
        ∙ ap (λ r. r >>= λ state. ok (some state))
            (parse_entry-dump_line text_of strtod strtoll bytes_of text_lld text_g root k v
              (lines_of rest) line fresh kept word) in
      ap (λ start. go_on fuel root (parse_line text_of strtod strtoll root [] start))
        (skipped ∙ ap (λ x. record { rest = x; line = line }) (dump_scalars-entry k v rest word))
      ∙ ap (go_on fuel root) line_read
      ∙ lines_read fuel (snoc root k v) rest behind (suc line)
          (unfold skip_ws skip_from in skip_ws-lines (snoc root k v) rest (suc line) flat)
          (omega (arith, enough)) flat
      ∙ ap ok (append-snoc root rest k v)

  dump_tables_flat :
      (root es : Entries D) (need_nl : Bool)
      → IsFlat root es
      → dump_tables bytes_of text_lld text_g need_nl es [] ≡ some []
  unfolding dump_tables IsFlat IsWord
  dump_tables_flat root nil need_nl flat = refl
  dump_tables_flat root (entry k (str s) rest) need_nl (fresh, kept, word, flat) =
      dump_tables_flat (snoc root k (str s)) rest need_nl flat
  dump_tables_flat root (entry k (arr xs) rest) need_nl (fresh, kept, word, flat) =
      dump_tables_flat (snoc root k (arr xs)) rest need_nl flat
  dump_tables_flat root (entry k (bool b) rest) need_nl (fresh, kept, word, flat) =
      dump_tables_flat (snoc root k (bool b)) rest need_nl flat
  dump_tables_flat root (entry k (int n) rest) need_nl (fresh, kept, word, flat) = absurd word
  dump_tables_flat root (entry k (float d) rest) need_nl (fresh, kept, word, flat) = absurd word
  dump_tables_flat root (entry k (table es) rest) need_nl (fresh, kept, word, flat) = absurd word

  -- A table of truth values, texts and arrays of texts, with different keys, is written as a
  -- document, and the document is read as that table.
  pub toml_parse-toml_dumps :
      (es : Entries D)
      → IsFlat nil es
      → (text : List ℕ) × (toml_dumps bytes_of text_lld text_g (table es) ≡ some text)
        × (toml_parse text_of strtod strtoll text ≡ ok (table es))
  unfolding toml_dumps toml_parse
  toml_parse-toml_dumps es flat = (
    lines_of es,
    rw (dump_tables_flat nil es (has_scalars es) flat) (ap some (append_nil_list (lines_of es))),
    ap (λ r. r >>= λ all. ok (table all))
        (lines_read (suc (length (lines_of es))) nil es (record { rest = lines_of es; line = 1 }) 1
          (skip_ws-lines nil es 1 flat) (omega (arith, lines_are_long nil es flat)) flat),
  )
