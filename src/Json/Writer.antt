-- ===== src/Json/Writer.antt =====
-- The writer of tools/src/json.c. The texts of numbers are parameters: `isnan` or `isinf` of a
-- number, the test for the numbers that are written with %g (`is_scientific` for doubles), and what
-- `snprintf` writes for %g and for %.6f.
use lg_magic.Json.{
  Json, Items, Members, null, bool, num, str, arr, obj, no_items, item, no_members, member,
}
use lg_magic.Prelude.Float.{Floats}
use lg_magic.Prelude.Int.{pos}
use lg_magic.Prelude.{
  not, ◌&&◌, ◌||◌, ℕ, zero, suc, ◌+◌, ◌*◌, ◌/◌, ◌%◌, Bool, true, false, List, [], ◌∷◌, ◌++◌, ◌==◌,
  ltb, if◌then◌else◌,
}

-- `sb_putspaces`.
unfoldable pub spaces : ℕ → List ℕ
spaces zero = []
spaces (suc n) = b' ' ∷ spaces n

-- The digits of a byte below 32 in %04x.
unfoldable pub hex_digit : ℕ → ℕ
hex_digit d = if ltb d 10 then d + 48 else d + 87

-- The text of one byte in `escape_string`.
unfoldable pub escape_byte : ℕ → List ℕ
escape_byte c =
    if c == b'"'
    then 92 ∷ b'"' ∷ []
    else if c == 92
    then 92 ∷ 92 ∷ []
    else if c == 8
    then 92 ∷ b'b' ∷ []
    else if c == 12
    then 92 ∷ b'f' ∷ []
    else if c == 10
    then 92 ∷ b'n' ∷ []
    else if c == 13
    then 92 ∷ b'r' ∷ []
    else if c == 9
    then 92 ∷ b't' ∷ []
    else if ltb c 32
    then 92 ∷ b'u' ∷ b'0' ∷ b'0' ∷ hex_digit (c / 16) ∷ hex_digit (c % 16) ∷ []
    else c ∷ []

-- The loop of `escape_string`.
unfoldable pub escape_bytes : List ℕ → List ℕ
escape_bytes [] = []
escape_bytes (c ∷ cs) = escape_byte c ++ escape_bytes cs

unfoldable pub escape_string : List ℕ → List ℕ
escape_string s = b'"' ∷ (escape_bytes s ++ b'"' ∷ [])

-- The start of a line of level `level`.
unfoldable pub new_line : ℕ → List ℕ
new_line level = 10 ∷ spaces (4 * level)

-- `strchr(buf, '.')`
unfoldable pub has_point : List ℕ → Bool
has_point [] = false
has_point (c ∷ cs) = if c == b'.' then true else has_point cs

-- The zeros at the end taken away, but for the first byte.
unfoldable pub trim_tail : List ℕ → List ℕ
trim_tail [] = []
trim_tail (c ∷ cs) = elim (trim_tail cs) [
  | [] ↦ if c == b'0' then [] else c ∷ []
  | d ∷ ds ↦ c ∷ d ∷ ds
]

unfoldable pub trim_zeros : List ℕ → List ℕ
trim_zeros [] = []
trim_zeros (c ∷ cs) = c ∷ trim_tail cs

-- A zero behind a point at the end.
unfoldable pub close_point : List ℕ → List ℕ
close_point [] = []
close_point (c ∷ []) = if c == b'.' then c ∷ b'0' ∷ [] else c ∷ []
close_point (c ∷ d ∷ ds) = c ∷ close_point (d ∷ ds)

-- `d != 0.0 && (fabs(d) < 5e-7 || fabs(d) >= 1e16)`, the test for the numbers that are written
-- with %g; `small` and `large` are the two literals.
unfoldable pub is_scientific :
    (fp : Floats) → (fp.Double → fp.Double) → fp.Double → fp.Double → fp.Double → Bool
is_scientific fp fabs small large d =
    let zero = fp.of_int (pos 0) in
    not (fp.dle d zero && fp.dle zero d) && (fp.dlt (fabs d) small || fp.dle large (fabs d))

module _ {D : Type 0} (not_finite scientific : D → Bool) (text_g text_f6 : D → List ℕ) where
  unfoldable pub fmt_number : D → List ℕ
  fmt_number d =
      if not_finite d
      then b'n' ∷ b'u' ∷ b'l' ∷ b'l' ∷ []
      else if scientific d
      then text_g d
      else if has_point (text_f6 d)
      then close_point (trim_zeros (text_f6 d))
      else text_f6 d

  unfoldable mutual
    -- `dump_value`.
    pub dump_value : Json D → ℕ → List ℕ
    dump_value null level = b'n' ∷ b'u' ∷ b'l' ∷ b'l' ∷ []
    dump_value (bool true) level = b't' ∷ b'r' ∷ b'u' ∷ b'e' ∷ []
    dump_value (bool false) level = b'f' ∷ b'a' ∷ b'l' ∷ b's' ∷ b'e' ∷ []
    dump_value (num d) level = fmt_number d
    dump_value (str s) level = escape_string s
    dump_value (arr no_items) level = b'[' ∷ b']' ∷ []
    dump_value (arr (item v vs)) level =
        b'[' ∷ (new_line (level + 1) ++ (dump_value v (level + 1) ++ dump_items vs level))
    dump_value (obj no_members) level = b'{' ∷ b'}' ∷ []
    dump_value (obj (member k v ms)) level =
        b'{'
        ∷ (new_line (level + 1)
            ++ (escape_string k
                ++ b':' ∷ b' ' ∷ (dump_value v (level + 1) ++ dump_members ms level)))

    -- What the loop over the items writes behind an item, and the end of the array.
    pub dump_items : Items D → ℕ → List ℕ
    dump_items no_items level = new_line level ++ b']' ∷ []
    dump_items (item v vs) level =
        b',' ∷ (new_line (level + 1) ++ (dump_value v (level + 1) ++ dump_items vs level))

    pub dump_members : Members D → ℕ → List ℕ
    dump_members no_members level = new_line level ++ b'}' ∷ []
    dump_members (member k v ms) level =
        b','
        ∷ (new_line (level + 1)
            ++ (escape_string k
                ++ b':' ∷ b' ' ∷ (dump_value v (level + 1) ++ dump_members ms level)))

  unfoldable pub json_dumps : Json D → List ℕ
  json_dumps v = dump_value v 0
