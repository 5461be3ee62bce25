-- ===== src/Json/Examples.antt =====
-- Tests and examples of the parser and the writer of tools/src/json.c. The numbers are digits:
-- `digit_strtod` reads one with its point and zero.
use lg_magic.Json.{
  Json, Items, Members, null, bool, num, str, arr, obj, no_items, item, no_members, member, Cause,
  Failure, skip_ws, is_space, control_character, out_of_fuel, unicode_escape, string_byte, unescape,
  parse_chars, parse_string, unterminated_array,
}
use lg_magic.Json.Parser.{
  is_number_byte, scan_number, has_digit, strip, start_of, parse_number, parse_array, next_items,
  parse_value, json_parse,
}
use lg_magic.Json.RoundTrip.{json_parse-json_dumps}
use lg_magic.Json.Termination.{json_parse_ends}
use lg_magic.Json.Writable.{StartsNumber, IsReadable, IsWritable, AreWritable, MembersAreWritable}
use lg_magic.Json.Writer.{
  spaces, escape_byte, escape_bytes, escape_string, new_line, has_point, trim_tail, trim_zeros,
  close_point, fmt_number, dump_value, json_dumps,
}
use lg_magic.Prelude.{ℕ, ◌-◌, ◌+◌, ◌≡◌, ◌≢◌, refl, Bool, false, List, [], ◌∷◌, arith}
use lg_magic.Prelude.Result.{ok, err}

abbrev digit_strtod : List ℕ → ℕ × ℕ × Bool
digit_strtod [] = (0, 0, false)
digit_strtod (c ∷ cs) = (c - 48, 3, false)

abbrev digit_text : ℕ → List ℕ
digit_text d = (48 + d) ∷ b'.' ∷ b'0' ∷ b'0' ∷ b'0' ∷ b'0' ∷ b'0' ∷ b'0' ∷ []

abbrev never : ℕ → Bool
never d = false

abbrev small_tree : Json ℕ
small_tree = obj (
    member (b'k' ∷ 10 ∷ []) (arr (item (num 7) (item null no_items)))
      (member [] (str (b'"' ∷ [])) no_members))

seven-IsReadable : IsReadable digit_strtod never never digit_text digit_text 7
unfolding StartsNumber fmt_number has_point trim_zeros trim_tail close_point start_of is_number_byte
    has_digit
seven-IsReadable = record {
  starts = refl;
  number_bytes = (refl, (refl, (refl, tt)));
  digit = refl;
  read_back = λ rest end. refl;
}

small_tree-IsWritable : IsWritable digit_strtod never never digit_text digit_text 0 small_tree
unfolding IsWritable AreWritable MembersAreWritable
small_tree-IsWritable = (
  omega arith,
  ((refl, (refl, tt)), (omega arith, (seven-IsReadable, (tt, tt))), (tt, (refl, tt), tt)),
)

json_parse-json_dumps_example :
    json_parse digit_strtod (json_dumps never never digit_text digit_text small_tree)
    ≡ ok small_tree
json_parse-json_dumps_example =
    json_parse-json_dumps digit_strtod never never digit_text digit_text small_tree
      small_tree-IsWritable

abbrev open_array : List ℕ
open_array = b'[' ∷ b' ' ∷ b'7' ∷ b'.' ∷ b'0' ∷ []

abbrev open_array_failure : Failure
open_array_failure = record { cause = unterminated_array; left = [] }

open_array_fails : json_parse digit_strtod open_array ≡ err open_array_failure
unfolding json_parse parse_value skip_ws start_of parse_array strip parse_number scan_number
    is_number_byte has_digit next_items
open_array_fails = refl

json_parse_ends_example : open_array_failure.cause ≢ out_of_fuel
json_parse_ends_example =
    json_parse_ends digit_strtod open_array open_array_failure open_array_fails

-- The writer gives \u for a control character that has no escape of its own, which the parser does
-- not read.
written_control :
    json_dumps never never digit_text digit_text (str (1 ∷ []))
    ≡ b'"' ∷ 92 ∷ b'u' ∷ b'0' ∷ b'0' ∷ b'0' ∷ b'1' ∷ b'"' ∷ []
unfolding json_dumps dump_value escape_string escape_bytes escape_byte
    lg_magic.Json.Writer.hex_digit
written_control = refl

unread_escape :
    json_parse digit_strtod (b'"' ∷ 92 ∷ b'u' ∷ b'0' ∷ b'0' ∷ b'0' ∷ b'1' ∷ b'"' ∷ [])
    ≡ err (record { cause = unicode_escape; left = b'u' ∷ b'0' ∷ b'0' ∷ b'0' ∷ b'1' ∷ b'"' ∷ [] })
unfolding json_parse parse_value skip_ws start_of parse_string parse_chars string_byte unescape
unread_escape = refl
