-- ===== src/Toml/Keys.antt =====
-- The keys that tools/src/toml.c writes, in table headers and in front of values, and their reading.
use lg_magic.Prelude.Result.{ok}
use lg_magic.Prelude.{
  ℕ, zero, suc, ◌<◌, ◌≡◌, refl, true, false, ◌||◌, List, [], ◌∷◌, ◌++◌, ◌==◌, length, All,
  Bool-cases, &&_true, arith, inl, inr,
}
use lg_magic.Toml.Lexer.{TomlMessage, is_bare, bare_from, parse_key_segment, parse_key_path}
use lg_magic.Toml.Strings.{IsByte, parse_string-dump_bytes}
use lg_magic.Toml.Writer.{bare_bytes, dump_string, bare_safe_key, dump_path_key, dump_path}
use mathlib.Core.List.{append_assoc}

bare_from-append :
    (s : List ℕ) (c : ℕ) (rest : List ℕ)
    → bare_bytes s ≡ true
    → is_bare c ≡ false
    → bare_from (s ++ c ∷ rest) ≡ (s, c ∷ rest)
unfolding bare_from bare_bytes
bare_from-append [] c rest bare stops = rw stops refl
bare_from-append (b ∷ bs) c rest bare stops =
    let (first, others) = &&_true (is_bare b) (bare_bytes bs) bare in
    rw (first, bare_from-append bs c rest others stops) refl

bare_is_no_quote : (b : ℕ) → is_bare b ≡ true → (b == b'"' || b == b'\'') ≡ false
unfolding is_bare
bare_is_no_quote b bare = ground (arith, bare)

bare_key_read :
    (message : TomlMessage) (s : List ℕ) (c : ℕ) (rest : List ℕ) (line : ℕ)
    → bare_safe_key s ≡ true
    → is_bare c ≡ false
    → parse_key_segment message (record { rest = s ++ c ∷ rest; line = line })
      ≡ ok (s, record { rest = c ∷ rest; line = line })
unfolding bare_safe_key parse_key_segment bare_bytes
bare_key_read message [] c rest line safe stops = absurd (cc)
bare_key_read message (b ∷ bs) c rest line safe stops =
    let (first, others) = &&_true (is_bare b) (bare_bytes bs) safe in
    rw (bare_is_no_quote b first, first, bare_from-append (b ∷ bs) c rest safe stops) refl

-- A key is read back, with a byte behind it that ends a bare key.
pub parse_key_segment-dump_path_key :
    (message : TomlMessage) (s : List ℕ) (c : ℕ) (rest : List ℕ) (line : ℕ)
    → All IsByte s
    → is_bare c ≡ false
    → parse_key_segment message (record { rest = dump_path_key s ++ c ∷ rest; line = line })
      ≡ ok (s, record { rest = c ∷ rest; line = line })
unfolding dump_path_key
parse_key_segment-dump_path_key message s c rest line clean stops =
    elim (Bool-cases (bare_safe_key s)) [
      | inl safe ↦ rw safe (bare_key_read message s c rest line safe stops)
      | inr unsafe ↦
          rw unsafe (
            unfold parse_key_segment dump_string in parse_string-dump_bytes s (c ∷ rest) line clean)
    ]

-- The path of a table header, of one key or more, is read back up to the byte behind it, where that
-- byte is no point and ends a bare key, and the path has fewer keys than there are rounds.
pub parse_key_path-dump_path :
    (fuel : ℕ) (message : TomlMessage) (s : List ℕ) (segs : List (List ℕ)) (c : ℕ) (rest : List ℕ)
    (line : ℕ)
    → length segs < fuel
    → All IsByte s
    → All (λ t. All IsByte t) segs
    → is_bare c ≡ false
    → (c == b'.') ≡ false
    → parse_key_path fuel message (record { rest = dump_path (s ∷ segs) ++ c ∷ rest; line = line })
      ≡ ok (s ∷ segs, record { rest = c ∷ rest; line = line })
unfolding parse_key_path dump_path
parse_key_path-dump_path zero message s segs c rest line enough clean cleans stops ends =
    absurd (omega arith)
parse_key_path-dump_path (suc fuel) message s [] c rest line enough clean cleans stops ends =
    rw (parse_key_segment-dump_path_key message s c rest line clean stops, ends) refl
parse_key_path-dump_path (suc fuel) message s (t ∷ ts) c rest line enough clean (next, cleans) stops
      ends =
    rw
      (
        append_assoc (dump_path_key s) (b'.' ∷ dump_path (t ∷ ts)) (c ∷ rest),
        parse_key_segment-dump_path_key message s b'.' (dump_path (t ∷ ts) ++ c ∷ rest) line clean
            (unfold is_bare in refl),
        parse_key_path-dump_path fuel message t ts c rest line (omega arith) next cleans stops ends,
      )
      refl
