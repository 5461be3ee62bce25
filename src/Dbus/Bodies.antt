-- ===== src/Dbus/Bodies.antt =====
-- The bodies of replies of tools/src/dbus_client.c, in the format of D-Bus, and their reading.
use lg_magic.Dbus.Padding.{at_off, rd_u32-u32_bytes, skip_pad_aligned}
use lg_magic.Dbus.Reader.{
  rd_u8, rd_pad, rd_value, rd_string, rd_array, rd_variant, rd_str, rd_items, skip_pad,
}
use lg_magic.Dbus.Values.{
  IsText, AreTexts, text_bytes, strings_at, rd_str-text, rd_items-strings_at, take-append,
  drop-append,
}
use lg_magic.Dbus.Writer.{u32_bytes, pad_bytes}
use lg_magic.Dbus.{DbusValue, value_empty, value_string, value_string_array, value_variant}
use lg_magic.Prelude.Result.{ok}
use lg_magic.Prelude.Text.{c_text, same_bytes}
use lg_magic.Prelude.{
  ℕ, suc, ◌+◌, ◌≤◌, ◌<◌, ◌≡◌, refl, sym, ap, ◌∙◌, false, List, [], ◌∷◌, ◌++◌, ltb, length, take,
  drop, length-append, arith,
}
use mathlib.Core.List.{append-nil}

-- The format of the values that `rd_value` can read, from the start of a body on: the texts of an
-- array stand behind their length in bytes, and a variant names its type first.
unfoldable pub value_bytes : DbusValue → List ℕ
value_bytes value_empty = []
value_bytes (value_string s) = text_bytes s
value_bytes (value_string_array items) =
    u32_bytes (length (strings_at 0 items)) ++ strings_at 0 items
value_bytes (value_variant sig value_empty) = []
value_bytes (value_variant sig (value_string s)) = 1 ∷ b's' ∷ 0 ∷ 0 ∷ text_bytes s
value_bytes (value_variant sig (value_string_array items)) = []
value_bytes (value_variant sig (value_variant inner v)) = []

unfoldable pub signature_of : DbusValue → List ℕ
signature_of value_empty = []
signature_of (value_string s) = b's' ∷ []
signature_of (value_string_array items) = b'a' ∷ b's' ∷ []
signature_of (value_variant sig v) = b'v' ∷ []

-- The values of the interface: texts without a NUL, of a length that 32 bits can hold, and a
-- variant with the type s.
unfoldable pub IsReply : DbusValue → Type 0
IsReply value_empty = ⊥
IsReply (value_string s) = IsText s × (length s < 4294967296)
IsReply (value_string_array items) = AreTexts items × (length (strings_at 0 items) < 4294967296)
IsReply (value_variant sig value_empty) = ⊥
IsReply (value_variant sig (value_string s)) =
    (sig ≡ b's' ∷ []) × IsText s × (length s < 4294967296)
IsReply (value_variant sig (value_string_array items)) = ⊥
IsReply (value_variant sig (value_variant inner v)) = ⊥

length-strings_at : (n : ℕ) (items : List (List ℕ)) → length items ≤ length (strings_at n items)
unfolding strings_at
length-strings_at n [] = omega arith
length-strings_at n (s ∷ more) =
    let padding = pad_bytes 4 4 n in
    let behind = strings_at (n + length padding + (5 + length s)) more in
    omega (
      arith,
      length-append padding (text_bytes s ++ behind),
      length-append (s ++ 0 ∷ []) behind,
      length-strings_at (n + length padding + (5 + length s)) more,
    )

rd_str-whole :
    (s : List ℕ) (off : ℕ)
    → IsText s
    → length s < 4294967296
    → rd_str (at_off (text_bytes s) off) ≡ ok (s, at_off [] (off + (5 + length s)))
unfolding rd_pad skip_pad
rd_str-whole s off clean fits =
    ap (λ bytes. rd_str (at_off (u32_bytes (length s) ++ bytes) off))
      (sym (append-nil (s ++ 0 ∷ [])))
    ∙ rd_str-text s [] off clean fits

length-text_bytes : (s : List ℕ) → length (text_bytes s) ≡ 5 + length s
length-text_bytes s = omega (arith, length-append s (0 ∷ []))

rd_string_lem :
    (s : List ℕ)
    → IsText s
    → length s < 4294967296
    → rd_string (at_off (text_bytes s) 0) ≡ ok (value_string s, at_off [] (length (text_bytes s)))
unfolding rd_string rd_pad skip_pad
rd_string_lem s clean fits =
    rw (rd_str-whole s 0 clean fits)
      (ap (λ n. ok (value_string s, at_off [] n)) (omega (arith, length-text_bytes s)))

take_whole : (xs : List ℕ) (n : ℕ) → n ≡ length xs → take n xs ≡ xs
take_whole xs n whole =
    ap (λ k. take k xs) whole ∙ (ap (take (length xs)) (sym (append-nil xs)) ∙ take-append xs [])

drop_whole : (xs : List ℕ) (n : ℕ) → n ≡ length xs → drop n xs ≡ []
drop_whole xs n whole =
    ap (λ k. drop k xs) whole ∙ (ap (drop (length xs)) (sym (append-nil xs)) ∙ drop-append xs [])

-- The first position of an array is a multiple of 4.
rd_pad_start : (left : List ℕ) → rd_pad (at_off left 0) 4 ≡ at_off left 0
unfolding rd_pad
rd_pad_start left = skip_pad_aligned 4 left 0 refl

rd_items_whole :
    (items : List (List ℕ)) (n : ℕ)
    → AreTexts items
    → n ≡ length (strings_at 0 items)
    → rd_items (suc n) (at_off (strings_at 0 items) 0) ≡ ok items
rd_items_whole items n are whole =
    ap (rd_items (suc n)) (sym (rd_pad_start (strings_at 0 items)))
    ∙ rd_items-strings_at (suc n) 0 items are (omega (arith, whole, length-strings_at 0 items))

array_fits :
    (items : List (List ℕ)) (n : ℕ)
    → n ≡ length (strings_at 0 items)
    → ltb (length (strings_at 0 items)) n ≡ false
array_fits items n whole = ground arith

rd_array_lem :
    (items : List (List ℕ)) (n : ℕ)
    → AreTexts items
    → n ≡ length (strings_at 0 items)
    → n < 4294967296
    → rd_array (at_off (u32_bytes n ++ strings_at 0 items) 0)
      ≡ ok (value_string_array items, at_off [] (4 + n))
unfolding rd_array
rd_array_lem items n are whole fits =
    rw
      (
        rd_pad_start (u32_bytes n ++ strings_at 0 items),
        rd_u32-u32_bytes n (strings_at 0 items) 0 fits,
        array_fits items n whole,
        take_whole (strings_at 0 items) n whole,
        rd_items_whole items n are whole,
        drop_whole (strings_at 0 items) n whole,
      )
      refl

variant_fits : (s : List ℕ) → ltb (length (b's' ∷ 0 ∷ 0 ∷ text_bytes s)) 2 ≡ false
variant_fits s = ground arith

rd_variant_lem :
    (s : List ℕ)
    → IsText s
    → length s < 4294967296
    → rd_variant (at_off (1 ∷ b's' ∷ 0 ∷ 0 ∷ text_bytes s) 0)
      ≡ ok (value_variant (b's' ∷ []) (value_string s), at_off [] (4 + length (text_bytes s)))
unfolding rd_variant rd_u8 rd_pad skip_pad c_text same_bytes
rd_variant_lem s clean fits =
    rw (variant_fits s, rd_str-whole s 4 clean fits)
      (ap (λ n. ok (value_variant (b's' ∷ []) (value_string s), at_off [] n))
        (omega (arith, length-text_bytes s)))

-- Each value of the interface is read back from its bytes, with its signature, to the end of the
-- bytes.
pub rd_value-value_bytes :
    (v : DbusValue)
    → IsReply v
    → rd_value (at_off (value_bytes v) 0) (signature_of v)
      ≡ ok (v, at_off [] (length (value_bytes v)))
unfolding IsReply value_bytes signature_of rd_value same_bytes
rd_value-value_bytes value_empty is = absurd is
rd_value-value_bytes (value_string s) (clean, fits) = rd_string_lem s clean fits
rd_value-value_bytes (value_string_array items) (are, fits) =
    rd_array_lem items (length (strings_at 0 items)) are refl fits
    ∙ ap (λ n. ok (value_string_array items, at_off [] n)) (omega arith)
rd_value-value_bytes (value_variant sig value_empty) is = absurd is
rd_value-value_bytes (value_variant sig (value_string s)) (sig_is, clean, fits) =
    rd_variant_lem s clean fits
    ∙ ap (λ x. ok (value_variant x (value_string s), at_off [] (4 + length (text_bytes s))))
        (sym sig_is)
    ∙ ap (λ n. ok (value_variant sig (value_string s), at_off [] n)) (omega arith)
rd_value-value_bytes (value_variant sig (value_string_array items)) is = absurd is
rd_value-value_bytes (value_variant sig (value_variant inner v)) is = absurd is
