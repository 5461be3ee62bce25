-- ===== src/Dbus/FieldReading.antt =====
-- The reading of the header fields of tools/src/dbus_client.c, one after the other.
use lg_magic.Dbus.Fields.{
  Found, keep_text, keep_signature, text_field, signature_field, field_value, field_at, fields_from,
}
use lg_magic.Dbus.Header.{
  field_head, bare_field, text_field_bytes, text_field_as_bare, signature_bytes,
  signature_field_bytes,
}
use lg_magic.Dbus.Padding.{at_off, pad_bytes_aligned4, pad_bytes_aligned8, skip_pad-pad_bytes}
use lg_magic.Dbus.Reader.{Rd, rd_u8, rd_u32, rd_str, rd_pad, text_at}
use lg_magic.Dbus.Values.{
  IsText, text_bytes, rd_str-text, take-append, c_text-IsText, drop-behind, has_nul,
}
use lg_magic.Dbus.Writer.{pad_bytes}
use lg_magic.Prelude.Result.{ok, ◌>>=◌, Result-cases}
use lg_magic.Prelude.{
  ℕ, suc, ◌+◌, ◌%◌, ◌≤◌, ◌<◌, ◌≡◌, refl, ◌∙◌, true, ◌||◌, List, [], ◌∷◌, ◌++◌, ◌==◌, length,
  length-append, arith, inl, inr,
}
use mathlib.Core.List.{append_assoc}

-- `rd_pad` behind bytes that were padded from there.
pub rd_pad_behind4 :
    (n : ℕ) (rest : List ℕ)
    → rd_pad (at_off (pad_bytes 4 4 n ++ rest) n) 4 ≡ at_off rest (n + length (pad_bytes 4 4 n))
unfolding rd_pad
rd_pad_behind4 n rest = skip_pad-pad_bytes 4 4 n rest (pad_bytes_aligned4 4 n (inr (omega arith)))

rd_pad_behind8 :
    (n : ℕ) (rest : List ℕ)
    → rd_pad (at_off (pad_bytes 8 8 n ++ rest) n) 8 ≡ at_off rest (n + length (pad_bytes 8 8 n))
unfolding rd_pad
rd_pad_behind8 n rest = skip_pad-pad_bytes 8 8 n rest (pad_bytes_aligned8 8 n (inr (omega arith)))

-- The value of a text field is a text behind padding.
text_field_as :
    (code : ℕ) (found : Found) (r : Rd)
    → text_field code found r
      ≡ (rd_str (rd_pad r 4) >>= λ (s, after). ok (keep_text code s found, after))
unfolding text_field rd_str
text_field_as code found r = elim (Result-cases (rd_u32 (rd_pad r 4))) [
  | inl (e, failed) ↦ rw failed refl
  | inr ((len, start), counted) ↦ rw counted (elim (Result-cases (text_at len start)) [
    | inl (e, failed) ↦ rw failed refl
    | inr ((s, after), read) ↦ rw read refl
  ])
]

text_field-text :
    (code : ℕ) (found : Found) (n : ℕ) (s tail : List ℕ)
    → IsText s
    → length s < 4294967296
    → text_field code found (at_off (pad_bytes 4 4 n ++ (text_bytes s ++ tail)) n)
      ≡ ok (
        keep_text code s found,
        rd_pad (at_off tail (n + length (pad_bytes 4 4 n) + (5 + length s))) 4,
      )
text_field-text code found n s tail clean fits =
    text_field_as code found _
    ∙ rw
        (
          rd_pad_behind4 n (text_bytes s ++ tail),
          rd_str-text s tail (n + length (pad_bytes 4 4 n)) clean fits,
        )
        refl

signature_field-text :
    (found : Found) (n : ℕ) (s tail : List ℕ)
    → IsText s
    → length s ≤ 255
    → signature_field 8 found (at_off (signature_bytes s ++ tail) n)
      ≡ ok (keep_text 8 s found, at_off tail (suc n + suc (length s)))
unfolding signature_field rd_u8 keep_signature
signature_field-text found n s tail clean short =
    let as_counted : length s % 256 ≡ length s = omega (arith, short) in
    rw
      (
        as_counted,
        append_assoc s (0 ∷ []) tail,
        has_nul s 0 tail,
        take-append s (0 ∷ tail),
        c_text-IsText s clean,
        drop-behind s 0 tail,
      )
      refl

-- The start of a field, with a code and a type of one byte.
field_at-head :
    (found : Found) (code sig m : ℕ) (value : List ℕ)
    → code % 256 ≡ code
    → sig % 256 ≡ sig
    → field_at found (at_off (code % 256 ∷ 1 ∷ sig % 256 ∷ 0 ∷ value) m)
      ≡ field_value code sig found (at_off value (suc (suc (suc (suc m)))))
unfolding field_at rd_u8
field_at-head found code sig m value small_code small_sig = rw (small_code, small_sig) refl

-- A round of the loop, where bytes are left.
pub fields_from-more :
    (fuel : ℕ) (found : Found) (left : List ℕ) (off : ℕ)
    → 0 < length left
    → fields_from (suc fuel) found (at_off left off) ≡ (
        field_at found (rd_pad (at_off left off) 8) >>= λ (more, after).
        fields_from fuel more after)
unfolding fields_from
fields_from-more fuel found [] off some_left = absurd (omega arith)
fields_from-more fuel found (b ∷ bs) off some_left = refl

-- A round where a field starts behind its padding.
pub fields_from-head :
    (fuel : ℕ) (found : Found) (n code sig : ℕ) (value : List ℕ)
    → code % 256 ≡ code
    → sig % 256 ≡ sig
    → fields_from (suc fuel) found (at_off (field_head n code sig ++ value) n) ≡ (
        field_value code sig found (at_off value (n + length (field_head n code sig)))
        >>= λ (more, after). fields_from fuel more after)
fields_from-head fuel found n code sig value small_code small_sig =
    let padding = pad_bytes 8 8 n in
    let head : List ℕ = code % 256 ∷ 1 ∷ sig % 256 ∷ 0 ∷ [] in
    let there : suc (suc (suc (suc (n + length padding)))) ≡ n + length (padding ++ head) =
      omega (arith, length-append padding head) in
    fields_from-more fuel found (field_head n code sig ++ value) n
      (omega (arith, length-append (padding ++ head) value, length-append padding head))
    ∙ rw
        (
          append_assoc padding head value,
          rd_pad_behind8 n (head ++ value),
          field_at-head found code sig (n + length padding) value small_code small_sig,
          there,
        )
        refl

-- The codes and types of the fields of type o and s.
unfoldable pub IsTextField : ℕ → ℕ → Type 0
IsTextField code sig =
    (code % 256 ≡ code) × (sig % 256 ≡ sig) × ((sig == b's' || sig == b'o') ≡ true)

-- The round of a text field, and what stands behind it.
pub fields_from-text_field :
    (fuel : ℕ) (found : Found) (n code sig : ℕ) (s tail : List ℕ)
    → IsTextField code sig
    → IsText s
    → length s < 4294967296
    → fields_from (suc fuel) found (at_off (bare_field n code sig s ++ tail) n)
      ≡ fields_from fuel
          (keep_text code s found)
          (rd_pad (at_off tail (n + length (bare_field n code sig s))) 4)
unfolding IsTextField field_value
fields_from-text_field fuel found n code sig s tail (small_code, small_sig, is_text) clean fits =
    let head = field_head n code sig in
    let m = n + length head in
    let padding = pad_bytes 4 4 m in
    let there : m + length padding + (5 + length s) ≡ n + length (bare_field n code sig s) = omega (
      arith,
      length-append (head ++ padding) (text_bytes s),
      length-append head padding,
      length-append s (0 ∷ []),
    ) in
    rw
      (
        append_assoc (head ++ padding) (text_bytes s) tail,
        append_assoc head padding (text_bytes s ++ tail),
        fields_from-head fuel found n code sig (padding ++ (text_bytes s ++ tail)) small_code
            small_sig,
        is_text,
        text_field-text code found m s tail clean fits,
        there,
      )
      refl

-- The same with the padding of the text, where another field follows.
pub fields_from-padded_field :
    (fuel : ℕ) (found : Found) (n code sig : ℕ) (s tail : List ℕ)
    → IsTextField code sig
    → IsText s
    → length s < 4294967296
    → fields_from (suc fuel) found (at_off (text_field_bytes n code sig s ++ tail) n)
      ≡ fields_from fuel
          (keep_text code s found)
          (at_off tail (n + length (text_field_bytes n code sig s)))
fields_from-padded_field fuel found n code sig s tail is_text clean fits =
    let bare = bare_field n code sig s in
    let padding = pad_bytes 4 4 (n + length bare) in
    let there : n + length bare + length padding ≡ n + length (bare ++ padding) =
      omega (arith, length-append bare padding) in
    rw
      (
        text_field_as_bare n code sig s,
        append_assoc bare padding tail,
        fields_from-text_field fuel found n code sig s (padding ++ tail) is_text clean fits,
        rd_pad_behind4 (n + length bare) tail,
        there,
      )
      refl

pub fields_from-signature :
    (fuel : ℕ) (found : Found) (n : ℕ) (s tail : List ℕ)
    → IsText s
    → length s ≤ 255
    → fields_from (suc fuel) found (at_off (signature_field_bytes n 8 b'g' s ++ tail) n)
      ≡ fields_from fuel
          (keep_text 8 s found)
          (at_off tail (n + length (signature_field_bytes n 8 b'g' s)))
unfolding field_value
fields_from-signature fuel found n s tail clean short =
    let head = field_head n 8 b'g' in
    let there : suc (n + length head) + suc (length s) ≡ n + length (head ++ signature_bytes s) =
      omega (arith, length-append head (signature_bytes s), length-append s (0 ∷ [])) in
    rw
      (
        append_assoc head (signature_bytes s) tail,
        fields_from-head fuel found n 8 b'g' (signature_bytes s ++ tail) refl refl,
        signature_field-text found (n + length head) s tail clean short,
        there,
      )
      refl
