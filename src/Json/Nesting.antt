-- ===== src/Json/Nesting.antt =====
-- Single values of the parser of tools/src/json.c, when the calls behind their first bytes read their
-- parts.
use lg_magic.Json.{
  Items, Members, null, bool, str, arr, obj, no_items, no_members, max_depth, skip_ws,
}
use lg_magic.Json.Parser.{start_of, strip, parse_word, parse_value, parse_items, parse_members}
use lg_magic.Json.Writer.{spaces, escape_string, new_line}
use lg_magic.Json.Strings.{is_writable, parse_string-escape_string, skip_ws-new_line}
use lg_magic.Prelude.{
  ℕ, suc, ◌+◌, ◌*◌, ◌≤◌, ◌<◌, ◌≡◌, refl, ap, ◌∙◌, Bool, true, false, List, ◌∷◌, ◌++◌, arith, length,
  All,
}
use mathlib.Core.List.{append_assoc}
use lg_magic.Prelude.Result.{ok}
use lg_magic.Json.Steps.{
  begins, skip_ws-begins, strip-begins, length-++, nest3, parse_array-no_items,
  parse_object-no_members, parse_array-items, parse_object-members,
}

pub length-nest :
    (c level : ℕ) (a b : List ℕ)
    → 2 + (length a + length b) ≤ length (c ∷ (new_line level ++ (a ++ b)))
unfolding new_line
length-nest c level a b = omega (arith, length-++ (spaces (4 * level)) (a ++ b), length-++ a b)

pub length-nest_member :
    (c d e level : ℕ) (key a b : List ℕ)
    → 2 + (length a + length b) ≤ length (c ∷ (new_line level ++ (key ++ d ∷ e ∷ (a ++ b))))
length-nest_member c d e level key a b =
    omega (arith, length-nest c level key (d ∷ e ∷ (a ++ b)), length-++ a b)

pub nest_member :
    (line key a b rest : List ℕ) (d e : ℕ)
    → (line ++ (key ++ d ∷ e ∷ (a ++ b))) ++ rest ≡ line ++ (key ++ d ∷ e ∷ (a ++ (b ++ rest)))
nest_member line key a b rest d e =
    nest3 line key (d ∷ e ∷ (a ++ b)) rest
    ∙ ap (λ t. line ++ (key ++ d ∷ e ∷ t)) (append_assoc a b rest)

pub skip_ws-escape_string :
    (s rest : List ℕ) → skip_ws (escape_string s ++ rest) ≡ escape_string s ++ rest
unfolding escape_string skip_ws
skip_ws-escape_string s rest = refl

-- Each value behind its first byte, when the calls read its parts.
module _ {D : Type 0} (strtod : List ℕ → D × ℕ × Bool) where
  pub parse_value-null :
      (f depth : ℕ) (rest : List ℕ)
      → parse_value strtod (suc f) depth (b'n' ∷ b'u' ∷ b'l' ∷ b'l' ∷ rest) ≡ ok (null, rest)
  unfolding parse_value skip_ws parse_word strip start_of
  parse_value-null f depth rest = refl

  pub parse_value-true :
      (f depth : ℕ) (rest : List ℕ)
      → parse_value strtod (suc f) depth (b't' ∷ b'r' ∷ b'u' ∷ b'e' ∷ rest) ≡ ok (bool true, rest)
  unfolding parse_value skip_ws parse_word strip start_of
  parse_value-true f depth rest = refl

  pub parse_value-false :
      (f depth : ℕ) (rest : List ℕ)
      → parse_value strtod (suc f) depth (b'f' ∷ b'a' ∷ b'l' ∷ b's' ∷ b'e' ∷ rest)
        ≡ ok (bool false, rest)
  unfolding parse_value skip_ws parse_word strip start_of
  parse_value-false f depth rest = refl

  pub parse_value-str :
      (f depth : ℕ) (s rest : List ℕ)
      → All (λ c. is_writable c ≡ true) s
      → parse_value strtod (suc f) depth (escape_string s ++ rest) ≡ ok (str s, rest)
  unfolding parse_value escape_string skip_ws start_of
  parse_value-str f depth s rest w = rw (parse_string-escape_string s rest w) refl

  pub parse_value-no_items :
      (f depth : ℕ) (rest : List ℕ)
      → depth < max_depth
      → parse_value strtod (suc f) depth (b'[' ∷ b']' ∷ rest) ≡ ok (arr no_items, rest)
  unfolding parse_value skip_ws start_of
  parse_value-no_items f depth rest shallow =
      parse_array-no_items strtod (parse_items strtod f (depth + 1)) depth rest shallow

  pub parse_value-no_members :
      (f depth : ℕ) (rest : List ℕ)
      → depth < max_depth
      → parse_value strtod (suc f) depth (b'{' ∷ b'}' ∷ rest) ≡ ok (obj no_members, rest)
  unfolding parse_value skip_ws start_of
  parse_value-no_members f depth rest shallow =
      parse_object-no_members strtod (parse_members strtod f (depth + 1)) depth rest shallow

  pub parse_value-items :
      (f depth level : ℕ) (a b rest : List ℕ) (xs : Items D)
      → depth < max_depth
      → begins (a ++ (b ++ rest)) ≡ true
      → parse_items strtod f (depth + 1) (a ++ (b ++ rest)) ≡ ok (xs, rest)
      → parse_value strtod (suc f) depth (b'[' ∷ ((new_line level ++ (a ++ b)) ++ rest))
        ≡ ok (arr xs, rest)
  unfolding parse_value skip_ws start_of
  parse_value-items f depth level a b rest xs shallow start read =
      parse_array-items strtod (parse_items strtod f (depth + 1)) depth
        ((new_line level ++ (a ++ b)) ++ rest) (a ++ (b ++ rest)) xs rest shallow
        (ap skip_ws (nest3 (new_line level) a b rest)
          ∙ skip_ws-new_line level (a ++ (b ++ rest))
          ∙ skip_ws-begins (a ++ (b ++ rest)) start)
        (strip-begins (a ++ (b ++ rest)) start) read

  pub parse_value-members :
      (f depth level : ℕ) (key a b rest : List ℕ) (ms : Members D)
      → depth < max_depth
      → parse_members strtod f (depth + 1) (escape_string key ++ b':' ∷ b' ' ∷ (a ++ (b ++ rest)))
        ≡ ok (ms, rest)
      → parse_value strtod
          (suc f)
          depth
          (b'{' ∷ ((new_line level ++ (escape_string key ++ b':' ∷ b' ' ∷ (a ++ b))) ++ rest))
        ≡ ok (obj ms, rest)
  unfolding parse_value skip_ws strip escape_string start_of
  parse_value-members f depth level key a b rest ms shallow read =
      parse_object-members strtod (parse_members strtod f (depth + 1)) depth
        ((new_line level ++ (escape_string key ++ b':' ∷ b' ' ∷ (a ++ b))) ++ rest)
        (escape_string key ++ b':' ∷ b' ' ∷ (a ++ (b ++ rest))) ms rest shallow
        (ap skip_ws (nest_member (new_line level) (escape_string key) a b rest b':' b' ')
          ∙ skip_ws-new_line level (escape_string key ++ b':' ∷ b' ' ∷ (a ++ (b ++ rest))))
        refl read
