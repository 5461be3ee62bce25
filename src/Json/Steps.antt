-- ===== src/Json/Steps.antt =====
-- Single steps of the parser of tools/src/json.c on texts whose parts it reads.
use lg_magic.Json.{
  Json, Items, Members, num, arr, obj, no_items, item, no_members, member, Parsed, max_depth,
  skip_ws, is_space, parse_string,
}
use lg_magic.Json.Parser.{
  start_of, is_number_byte, has_digit, scan_number, strip, separator, parse_number, parse_array,
  parse_object, next_items, next_members, parse_colon, parse_value, parse_items, parse_members,
}
use lg_magic.Json.Writable.{is_end, StartsNumber}
use lg_magic.Prelude.{
  ℕ, suc, ◌+◌, ◌<◌, ◌≡◌, refl, ap, ◌∙◌, Bool, true, false, none, List, [], ◌∷◌, ◌++◌, arith, length,
  ltb, not, ◌&&◌, ◌==◌, All,
}
use mathlib.Core.List.{append_assoc}
use lg_magic.Prelude.Result.{ok}

-- A text that starts with neither a space nor the end of an array.
unfoldable pub begins : List ℕ → Bool
begins [] = false
begins (c ∷ cs) = not (is_space c) && not (c == b']')

pub skip_ws-begins : (t : List ℕ) → begins t ≡ true → skip_ws t ≡ t
unfolding begins skip_ws
skip_ws-begins [] h = refl
skip_ws-begins (c ∷ cs) h = ground arith

pub skip_ws-comma : (t : List ℕ) → skip_ws (b',' ∷ t) ≡ b',' ∷ t
unfolding skip_ws
skip_ws-comma t = refl

pub strip-begins : (t : List ℕ) → begins t ≡ true → strip (b']' ∷ []) t ≡ none
unfolding begins strip
strip-begins [] h = refl
strip-begins (c ∷ cs) h = ground arith

pub begins-StartsNumber : (t rest : List ℕ) → StartsNumber t → begins (t ++ rest) ≡ true
unfolding begins StartsNumber start_of
begins-StartsNumber [] rest h = absurd h
begins-StartsNumber (c ∷ cs) rest h = ground arith

scan_number_end : (rest : List ℕ) → is_end rest ≡ true → scan_number rest ≡ ([], rest)
unfolding is_end scan_number is_number_byte
scan_number_end [] h = refl
scan_number_end (c ∷ cs) h = ground arith

scan_number-All :
    (t rest : List ℕ)
    → All (λ c. is_number_byte c ≡ true) t
    → is_end rest ≡ true
    → scan_number (t ++ rest) ≡ (t, rest)
unfolding scan_number
scan_number-All [] rest all end = scan_number_end rest end
scan_number-All (c ∷ cs) rest (here, all) end = rw (here, scan_number-All cs rest all end) refl

pub length-++ : (xs ys : List ℕ) → length (xs ++ ys) ≡ length xs + length ys
length-++ [] ys = omega arith
length-++ (x ∷ xs) ys = ground (arith, length-++ xs ys)

-- A line break and what follows it, in the nesting that the parser meets.
pub nest3 : (a b c rest : List ℕ) → (a ++ (b ++ c)) ++ rest ≡ a ++ (b ++ (c ++ rest))
nest3 a b c rest = append_assoc a (b ++ c) rest ∙ ap (λ t. a ++ t) (append_assoc b c rest)

module _ {D : Type 0} (strtod : List ℕ → D × ℕ × Bool) where
  pub parse_array-items :
      (loop : List ℕ → Parsed (Items D)) (depth : ℕ) (text behind : List ℕ) (xs : Items D)
      (rest : List ℕ)
      → depth < max_depth
      → skip_ws text ≡ behind
      → strip (b']' ∷ []) behind ≡ none
      → loop behind ≡ ok (xs, rest)
      → parse_array strtod loop depth text ≡ ok (arr xs, rest)
  unfolding parse_array
  parse_array-items loop depth text behind xs rest shallow skipped open_ read =
      let fine : ltb max_depth (depth + 1) ≡ false = ground arith in
      rw (fine, ap (strip (b']' ∷ [])) skipped ∙ open_, ap loop skipped ∙ read, parse_array) refl

  pub parse_object-members :
      (loop : List ℕ → Parsed (Members D)) (depth : ℕ) (text behind : List ℕ) (xs : Members D)
      (rest : List ℕ)
      → depth < max_depth
      → skip_ws text ≡ behind
      → strip (b'}' ∷ []) behind ≡ none
      → loop behind ≡ ok (xs, rest)
      → parse_object strtod loop depth text ≡ ok (obj xs, rest)
  unfolding parse_object
  parse_object-members loop depth text behind xs rest shallow skipped open_ read =
      let fine : ltb max_depth (depth + 1) ≡ false = ground arith in
      rw (fine, ap (strip (b'}' ∷ [])) skipped ∙ open_, ap loop skipped ∙ read, parse_object) refl

  pub next_items-closing :
      (loop : List ℕ → Parsed (Items D)) (v : Json D) (rest : List ℕ)
      → next_items strtod loop v (b']' ∷ rest) ≡ ok (item v no_items, rest)
  unfolding next_items separator
  next_items-closing loop v rest = refl

  pub next_items-comma :
      (loop : List ℕ → Parsed (Items D)) (v : Json D) (text behind : List ℕ) (xs : Items D)
      (rest : List ℕ)
      → skip_ws text ≡ behind
      → loop behind ≡ ok (xs, rest)
      → next_items strtod loop v (b',' ∷ text) ≡ ok (item v xs, rest)
  unfolding next_items separator
  next_items-comma loop v text behind xs rest skipped read = rw (skipped, read) refl

  pub next_members-closing :
      (loop : List ℕ → Parsed (Members D)) (key : List ℕ) (v : Json D) (rest : List ℕ)
      → next_members strtod loop key v (b'}' ∷ rest) ≡ ok (member key v no_members, rest)
  unfolding next_members separator
  next_members-closing loop key v rest = refl

  pub next_members-comma :
      (loop : List ℕ → Parsed (Members D)) (key : List ℕ) (v : Json D) (text behind : List ℕ)
      (xs : Members D) (rest : List ℕ)
      → skip_ws text ≡ behind
      → loop behind ≡ ok (xs, rest)
      → next_members strtod loop key v (b',' ∷ text) ≡ ok (member key v xs, rest)
  unfolding next_members separator
  next_members-comma loop key v text behind xs rest skipped read = rw (skipped, read) refl

  pub parse_items-next :
      (f depth : ℕ) (text behind : List ℕ) (v : Json D) (r : Parsed (Items D))
      → parse_value strtod f depth text ≡ ok (v, behind)
      → next_items strtod (parse_items strtod f depth) v (skip_ws behind) ≡ r
      → parse_items strtod (suc f) depth text ≡ r
  unfolding parse_items
  parse_items-next f depth text behind v r read next = rw read next

  pub parse_members-next :
      (f depth : ℕ) (text value_text behind : List ℕ) (key : List ℕ) (v : Json D)
      (r : Parsed (Members D))
      → parse_string text ≡ ok (key, b':' ∷ b' ' ∷ value_text)
      → skip_ws value_text ≡ value_text
      → parse_value strtod f depth value_text ≡ ok (v, behind)
      → next_members strtod (parse_members strtod f depth) key v (skip_ws behind) ≡ r
      → parse_members strtod (suc f) depth text ≡ r
  unfolding parse_members parse_colon strip skip_ws
  parse_members-next f depth text value_text behind key v r named skipped read next =
      rw (named, skipped, read) next

  pub parse_number-readable :
      (t rest : List ℕ) (d : D)
      → All (λ c. is_number_byte c ≡ true) t
      → has_digit t ≡ true
      → is_end rest ≡ true
      → strtod (t ++ rest) ≡ (d, length t, false)
      → parse_number strtod (t ++ rest) ≡ ok (num d, rest)
  unfolding parse_number
  parse_number-readable t rest d all digit end read =
      rw (scan_number-All t rest all end, read, digit) (ground arith)

  -- A text that starts like a number is read as one.
  pub parse_value-StartsNumber :
      (f depth : ℕ) (t rest : List ℕ)
      → StartsNumber t
      → parse_value strtod (suc f) depth (t ++ rest) ≡ parse_number strtod (t ++ rest)
  unfolding parse_value StartsNumber
  parse_value-StartsNumber f depth [] rest h = absurd h
  parse_value-StartsNumber f depth (c ∷ cs) rest h =
      rw (skip_ws-begins (c ∷ (cs ++ rest)) (begins-StartsNumber (c ∷ cs) rest h), h, parse_value)
        refl

  pub parse_array-no_items :
      (loop : List ℕ → Parsed (Items D)) (depth : ℕ) (rest : List ℕ)
      → depth < max_depth
      → parse_array strtod loop depth (b']' ∷ rest) ≡ ok (arr no_items, rest)
  unfolding parse_array skip_ws strip
  parse_array-no_items loop depth rest shallow =
      let fine : ltb max_depth (depth + 1) ≡ false = ground arith in rw (fine, parse_array) refl

  pub parse_object-no_members :
      (loop : List ℕ → Parsed (Members D)) (depth : ℕ) (rest : List ℕ)
      → depth < max_depth
      → parse_object strtod loop depth (b'}' ∷ rest) ≡ ok (obj no_members, rest)
  unfolding parse_object skip_ws strip
  parse_object-no_members loop depth rest shallow =
      let fine : ltb max_depth (depth + 1) ≡ false = ground arith in rw (fine, parse_object) refl
