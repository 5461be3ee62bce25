-- ===== src/Dbus/FieldList.antt =====
-- Header fields in the format of D-Bus, and what `parse_header_fields` of tools/src/dbus_client.c
-- makes of them.
use lg_magic.Dbus.FieldReading.{
  rd_pad_behind4, fields_from-head, IsTextField, fields_from-text_field, fields_from-padded_field,
  fields_from-signature,
}
use lg_magic.Dbus.Fields.{
  Found, nothing_found, keep_text, keep_serial, number_field, field_value, fields_from,
  parse_header_fields,
}
use lg_magic.Dbus.Header.{
  field_head, aligned_head, bare_field, text_field_bytes, signature_field_bytes,
}
use lg_magic.Dbus.Padding.{at_off, rd_u32-u32_bytes}
use lg_magic.Dbus.Reader.{rd_pad, skip_pad}
use lg_magic.Dbus.Values.{IsText, text_bytes}
use lg_magic.Dbus.Writer.{pad_bytes, u32_bytes}
use lg_magic.Prelude.Result.{ok}
use lg_magic.Prelude.{
  ℕ, zero, suc, ◌+◌, ◌%◌, ◌≤◌, ◌<◌, ◌≡◌, refl, sym, ap, ◌∙◌, false, List, [], ◌∷◌, ◌++◌, ltb,
  length, length-append, arith,
}
use mathlib.Core.List.{append_assoc, append-nil}

-- A field of type s or o with its code and type, one of type u with its code, and the signature.
pub data HeaderField : Type 0 where
  text_header : ℕ → ℕ → List ℕ → HeaderField
  number_header : ℕ → ℕ → HeaderField
  signature_header : List ℕ → HeaderField

unfoldable pub IsField : HeaderField → Type 0
IsField (text_header code sig s) = IsTextField code sig × IsText s × (length s < 4294967296)
IsField (number_header code v) = (code % 256 ≡ code) × (v < 4294967296)
IsField (signature_header s) = IsText s × (length s ≤ 255)

unfoldable pub AreFields : List HeaderField → Type 0
AreFields [] = Unit
AreFields (f ∷ fs) = IsField f × AreFields fs

abbrev pub number_bytes : ℕ → ℕ → ℕ → List ℕ
number_bytes n code v = aligned_head n code b'u' ++ u32_bytes v

-- The bytes of a field from position `n` of the message on, the last one, and one that another
-- follows.
unfoldable pub last_bytes : ℕ → HeaderField → List ℕ
last_bytes n (text_header code sig s) = bare_field n code sig s
last_bytes n (number_header code v) = number_bytes n code v
last_bytes n (signature_header s) = signature_field_bytes n 8 b'g' s

unfoldable pub field_bytes : ℕ → HeaderField → List ℕ
field_bytes n (text_header code sig s) = text_field_bytes n code sig s
field_bytes n (number_header code v) = number_bytes n code v
field_bytes n (signature_header s) = signature_field_bytes n 8 b'g' s

unfoldable pub fields_bytes : ℕ → List HeaderField → List ℕ
fields_bytes n [] = []
fields_bytes n (f ∷ []) = last_bytes n f
fields_bytes n (f ∷ g ∷ fs) =
    field_bytes n f ++ fields_bytes (n + length (field_bytes n f)) (g ∷ fs)

-- What fields tell behind others.
unfoldable pub keep : HeaderField → Found → Found
keep (text_header code sig s) found = keep_text code s found
keep (number_header code v) found = keep_serial code v found
keep (signature_header s) found = keep_text 8 s found

unfoldable pub told_from : Found → List HeaderField → Found
told_from found [] = found
told_from found (f ∷ fs) = told_from (keep f found) fs

unfoldable pub told : List HeaderField → Found
told fs = told_from nothing_found fs

number_field-u32 :
    (code v : ℕ) (found : Found) (m : ℕ) (tail : List ℕ)
    → v < 4294967296
    → number_field code found (at_off (pad_bytes 4 4 m ++ (u32_bytes v ++ tail)) m)
      ≡ ok (
        keep_serial code v found,
        at_off tail (suc (suc (suc (suc (m + length (pad_bytes 4 4 m)))))),
      )
unfolding number_field
number_field-u32 code v found m tail fits =
    rw
      (
        rd_pad_behind4 m (u32_bytes v ++ tail),
        rd_u32-u32_bytes v tail (m + length (pad_bytes 4 4 m)) fits,
      )
      refl

fields_from-number :
    (fuel : ℕ) (found : Found) (n code v : ℕ) (tail : List ℕ)
    → code % 256 ≡ code
    → v < 4294967296
    → fields_from (suc fuel) found (at_off (number_bytes n code v ++ tail) n)
      ≡ fields_from fuel
          (keep_serial code v found)
          (at_off tail (n + length (number_bytes n code v)))
unfolding field_value
fields_from-number fuel found n code v tail small_code fits =
    let head = field_head n code b'u' in
    let m = n + length head in
    let padding = pad_bytes 4 4 m in
    let there : suc (suc (suc (suc (m + length padding)))) ≡ n + length (number_bytes n code v) =
      omega (arith, length-append (head ++ padding) (u32_bytes v), length-append head padding) in
    rw
      (
        append_assoc (head ++ padding) (u32_bytes v) tail,
        append_assoc head padding (u32_bytes v ++ tail),
        fields_from-head fuel found n code b'u' (padding ++ (u32_bytes v ++ tail)) small_code refl,
        number_field-u32 code v found m tail fits,
        there,
      )
      refl

-- The round of a field that another follows.
field_read :
    (fuel : ℕ) (found : Found) (n : ℕ) (f : HeaderField) (tail : List ℕ)
    → IsField f
    → fields_from (suc fuel) found (at_off (field_bytes n f ++ tail) n)
      ≡ fields_from fuel (keep f found) (at_off tail (n + length (field_bytes n f)))
unfolding IsField field_bytes keep
field_read fuel found n (text_header code sig s) tail (is_text, clean, fits) =
    fields_from-padded_field fuel found n code sig s tail is_text clean fits
field_read fuel found n (number_header code v) tail (small_code, fits) =
    fields_from-number fuel found n code v tail small_code fits
field_read fuel found n (signature_header s) tail (clean, short) =
    fields_from-signature fuel found n s tail clean short

-- The rounds of the last field.
last_read :
    (fuel : ℕ) (found : Found) (n : ℕ) (f : HeaderField)
    → IsField f
    → fields_from (suc (suc fuel)) found (at_off (last_bytes n f) n)
      ≡ ok (keep f found, at_off [] (n + length (last_bytes n f)))
unfolding IsField last_bytes keep fields_from rd_pad skip_pad
last_read fuel found n (text_header code sig s) (is_text, clean, fits) =
    let bare = bare_field n code sig s in
    ap (λ bytes. fields_from (suc (suc fuel)) found (at_off bytes n)) (sym (append-nil bare))
    ∙ fields_from-text_field (suc fuel) found n code sig s [] is_text clean fits
last_read fuel found n (number_header code v) (small_code, fits) =
    let bytes = number_bytes n code v in
    ap (λ b. fields_from (suc (suc fuel)) found (at_off b n)) (sym (append-nil bytes))
    ∙ fields_from-number (suc fuel) found n code v [] small_code fits
last_read fuel found n (signature_header s) (clean, short) =
    let bytes = signature_field_bytes n 8 b'g' s in
    ap (λ b. fields_from (suc (suc fuel)) found (at_off b n)) (sym (append-nil bytes))
    ∙ fields_from-signature (suc fuel) found n s [] clean short

all_read :
    (fuel : ℕ) (found : Found) (n : ℕ) (fs : List HeaderField)
    → length fs < fuel
    → AreFields fs
    → fields_from fuel found (at_off (fields_bytes n fs) n)
      ≡ ok (told_from found fs, at_off [] (n + length (fields_bytes n fs)))
unfolding AreFields fields_bytes told_from
all_read zero found n fs enough are = absurd (omega arith)
all_read (suc fuel) found n [] enough are =
    unfold fields_from in ap (λ m. ok (found, at_off [] m)) (omega arith)
all_read (suc zero) found n (f ∷ []) enough are = absurd (omega arith)
all_read (suc (suc fuel)) found n (f ∷ []) enough (is, are) = last_read fuel found n f is
all_read (suc fuel) found n (f ∷ g ∷ fs) enough (is, are) =
    let front = field_bytes n f in
    let back = fields_bytes (n + length front) (g ∷ fs) in
    let there : n + length front + length back ≡ n + length (front ++ back) =
      omega (arith, length-append front back) in
    field_read fuel found n f back is
    ∙ all_read fuel (keep f found) (n + length front) (g ∷ fs) (omega arith) are
    ∙ ap (λ m. ok (told_from found (f ∷ g ∷ fs), at_off [] m)) there

head_is_long : (n code sig : ℕ) → 4 ≤ length (field_head n code sig)
head_is_long n code sig =
    omega (arith, length-append (pad_bytes 8 8 n) (code % 256 ∷ 1 ∷ sig % 256 ∷ 0 ∷ []))

aligned_is_long : (n code sig : ℕ) → 4 ≤ length (aligned_head n code sig)
aligned_is_long n code sig =
    let head = field_head n code sig in
    omega (arith, head_is_long n code sig, length-append head (pad_bytes 4 4 (n + length head)))

last_is_long : (n : ℕ) (f : HeaderField) → 4 ≤ length (last_bytes n f)
unfolding last_bytes
last_is_long n (text_header code sig s) =
    omega
      (arith, aligned_is_long n code sig, length-append (aligned_head n code sig) (text_bytes s))
last_is_long n (number_header code v) =
    omega
      (arith, aligned_is_long n code b'u', length-append (aligned_head n code b'u') (u32_bytes v))
last_is_long n (signature_header s) = omega (
  arith,
  head_is_long n 8 b'g',
  length-append (field_head n 8 b'g') (length s % 256 ∷ (s ++ 0 ∷ [])),
)

field_is_long : (n : ℕ) (f : HeaderField) → 4 ≤ length (field_bytes n f)
unfolding field_bytes
field_is_long n (text_header code sig s) =
    omega (arith, aligned_is_long n code sig, length-append (aligned_head n code sig) _)
field_is_long n (number_header code v) = unfold last_bytes in last_is_long n (number_header code v)
field_is_long n (signature_header s) = unfold last_bytes in last_is_long n (signature_header s)

fields_are_long : (n : ℕ) (fs : List HeaderField) → length fs ≤ length (fields_bytes n fs)
unfolding fields_bytes
fields_are_long n [] = omega arith
fields_are_long n (f ∷ []) = omega (arith, last_is_long n f)
fields_are_long n (f ∷ g ∷ fs) =
    let front = field_bytes n f in
    let back = fields_bytes (n + length front) (g ∷ fs) in
    omega (
      arith,
      length-append front back,
      field_is_long n f,
      fields_are_long (n + length front) (g ∷ fs),
    )

-- Fields in the format are read, with any length of the message that holds them.
pub parse_header_fields-fields_bytes :
    (size : ℕ) (fs : List HeaderField)
    → AreFields fs
    → 16 + length (fields_bytes 16 fs) ≤ size
    → parse_header_fields size (fields_bytes 16 fs) ≡ ok (told fs)
unfolding parse_header_fields told
parse_header_fields-fields_bytes size fs are inside =
    let within : ltb size (16 + length (fields_bytes 16 fs)) ≡ false = ground (arith, inside) in
    rw
      (
        all_read (suc (length (fields_bytes 16 fs))) nothing_found 16 fs
            (omega (arith, fields_are_long 16 fs)) are,
        within,
      )
      refl
