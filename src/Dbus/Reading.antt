-- ===== src/Dbus/Reading.antt =====
-- The reading of the header of a method call of tools/src/dbus_client.c.
use lg_magic.Dbus.FieldReading.{
  IsTextField, fields_from-text_field, fields_from-padded_field, fields_from-signature,
}
use lg_magic.Dbus.Fields.{Found, nothing_found, keep_text, fields_from, parse_header_fields}
use lg_magic.Dbus.Header.{aligned_head, bare_field, text_field_bytes, signature_field_bytes}
use lg_magic.Dbus.Layout.{
  path_bytes, iface_bytes, member_bytes, three_fields, dest_at, counted_fields,
}
use lg_magic.Dbus.Padding.{at_off}
use lg_magic.Dbus.Reader.{rd_pad, skip_pad}
use lg_magic.Dbus.Values.{IsText, text_bytes}
use lg_magic.Dbus.Writer.{pad_bytes}
use lg_magic.Dbus.{malformed}
use lg_magic.Prelude.Result.{ok, ◌>>=◌, ◌>>◌, fail_if}
use lg_magic.Prelude.{
  ℕ, suc, ◌+◌, ◌-◌, ◌≤◌, ◌<◌, ◌≡◌, refl, sym, ap, ◌∙◌, false, none, some, List, [], ◌∷◌, ◌++◌, ltb,
  length, length-append, arith,
}
use mathlib.Core.List.{append_assoc, append-nil}

-- A text that the format can hold.
unfoldable pub IsWritable : List ℕ → Type 0
IsWritable s = IsText s × (length s < 4294967296)

-- What the header of a call with that signature tells.
unfoldable pub call_found : List ℕ → Found
call_found [] = nothing_found
call_found (c ∷ sig) = record { error_name = none; signature = some (c ∷ sig); reply_serial = 0 }

module _ (path iface member dest : List ℕ) (path_is : IsWritable path) (iface_is : IsWritable iface)
    (member_is : IsWritable member) (dest_is : IsWritable dest) where
  three_read :
      (fuel : ℕ) (tail : List ℕ)
      → fields_from
          (suc (suc (suc fuel)))
          nothing_found
          (at_off (three_fields path iface member dest ++ tail) 16)
        ≡ fields_from fuel nothing_found (at_off tail (dest_at path iface member dest))
  unfolding IsTextField keep_text IsWritable
  three_read fuel tail =
      let p = path_bytes path iface member dest in
      let i = iface_bytes path iface member dest in
      let m = member_bytes path iface member dest in
      let there : 16 + length p + length i + length m ≡ 16 + length (p ++ (i ++ m)) =
        omega (arith, length-append p (i ++ m), length-append i m) in
      ap (λ bytes. fields_from (suc (suc (suc fuel))) nothing_found (at_off bytes 16))
        (append_assoc p (i ++ m) tail ∙ ap (λ bytes. p ++ bytes) (append_assoc i m tail))
      ∙ fields_from-padded_field (suc (suc fuel)) nothing_found 16 1 b'o' path (i ++ (m ++ tail))
          (refl, refl, refl) path_is.0 path_is.1
      ∙ fields_from-padded_field (suc fuel) nothing_found (16 + length p) 2 b's' iface (m ++ tail)
          (refl, refl, refl) iface_is.0 iface_is.1
      ∙ fields_from-padded_field fuel nothing_found (16 + length p + length i) 3 b's' member tail
          (refl, refl, refl) member_is.0 member_is.1
      ∙ ap (λ n. fields_from fuel nothing_found (at_off tail n)) there

  fields_read :
      (fuel : ℕ) (sig : List ℕ)
      → IsText sig
      → length sig ≤ 255
      → fields_from
          (suc (suc (suc (suc (suc (suc fuel))))))
          nothing_found
          (at_off (counted_fields path iface member dest sig) 16)
        ≡ ok (call_found sig, at_off [] (16 + length (counted_fields path iface member dest sig)))
  unfolding counted_fields call_found IsTextField IsWritable keep_text rd_pad skip_pad fields_from
  fields_read fuel [] clean short =
      let at = dest_at path iface member dest in
      let three = three_fields path iface member dest in
      let bare = bare_field at 6 b's' dest in
      let there : at + length bare ≡ 16 + length (three ++ bare) =
        omega (arith, length-append three bare) in
      three_read (suc (suc (suc fuel))) bare
      ∙ ap (λ bytes. fields_from (suc (suc (suc fuel))) nothing_found (at_off bytes at))
          (sym (append-nil bare))
      ∙ fields_from-text_field (suc (suc fuel)) nothing_found at 6 b's' dest [] (refl, refl, refl)
          dest_is.0 dest_is.1
      ∙ ap (λ n. ok (nothing_found, at_off [] n)) there
  fields_read fuel (c ∷ sig) clean short =
      let at = dest_at path iface member dest in
      let three = three_fields path iface member dest in
      let dest_bytes = text_field_bytes at 6 b's' dest in
      let sig_bytes = signature_field_bytes (at + length dest_bytes) 8 b'g' (c ∷ sig) in
      let there : at + length dest_bytes + length sig_bytes
          ≡ 16 + length (three ++ (dest_bytes ++ sig_bytes)) =
        omega (
          arith,
          length-append three (dest_bytes ++ sig_bytes),
          length-append dest_bytes sig_bytes,
        ) in
      three_read (suc (suc (suc fuel))) (dest_bytes ++ sig_bytes)
      ∙ fields_from-padded_field (suc (suc fuel)) nothing_found at 6 b's' dest sig_bytes
          (refl, refl, refl) dest_is.0 dest_is.1
      ∙ ap
          (λ bytes.
            fields_from (suc (suc fuel)) nothing_found (at_off bytes (at + length dest_bytes)))
          (sym (append-nil sig_bytes))
      ∙ fields_from-signature (suc fuel) nothing_found (at + length dest_bytes) (c ∷ sig) [] clean
          short
      ∙ ap (λ n. ok (call_found (c ∷ sig), at_off [] n)) there

  long_three : (tail : List ℕ) → 5 ≤ length (three_fields path iface member dest ++ tail)
  long_three tail =
      let p = path_bytes path iface member dest in
      let i = iface_bytes path iface member dest in
      let m = member_bytes path iface member dest in
      omega (
        arith,
        length-append (p ++ (i ++ m)) tail,
        length-append p (i ++ m),
        length-append (aligned_head 16 1 b'o') (
            text_bytes path
            ++ pad_bytes 4 4 (16 + length (aligned_head 16 1 b'o') + length (text_bytes path))),
        length-append (path ++ 0 ∷ [])
            (pad_bytes 4 4 (16 + length (aligned_head 16 1 b'o') + length (text_bytes path))),
        length-append path (0 ∷ []),
      )

  long_counted : (sig : List ℕ) → 5 ≤ length (counted_fields path iface member dest sig)
  unfolding counted_fields
  long_counted [] = long_three _
  long_counted (c ∷ sig) = long_three _

  -- The fields of a call are read with any length of the message that holds them.
  pub parse_header_fields-counted_fields :
      (sig : List ℕ) (size : ℕ)
      → IsText sig
      → length sig ≤ 255
      → 16 + length (counted_fields path iface member dest sig) ≤ size
      → parse_header_fields size (counted_fields path iface member dest sig) ≡ ok (call_found sig)
  unfolding parse_header_fields
  parse_header_fields-counted_fields sig size clean short inside =
      let fields = counted_fields path iface member dest sig in
      let long : length fields ≡ suc (suc (suc (suc (suc (length fields - 5))))) =
        omega (arith, long_counted sig) in
      let within : ltb size (16 + length fields) ≡ false = ground (arith, inside) in
      ap
        (λ k. fields_from (suc k) nothing_found (at_off fields 16) >>= λ (found, after).
          fail_if (ltb size after.off) malformed >> ok found)
        long
      ∙ rw (fields_read (length fields - 5) sig clean short, within) refl
