-- ===== src/Dbus/Layout.antt =====
-- The layout of the header of a method call of tools/src/dbus_client.c: the fields one behind the
-- other, from byte 16 on.
use lg_magic.Dbus.Growth.{Grows, Grows-trans, Ends, Ends-trans, Ends-moved, Ends-at, Grows-moved}
use lg_magic.Dbus.Header.{
  bare_field, text_field_bytes, text_field_as_bare, signature_field_bytes, text_field-Grows,
  text_field-Ends, signature_field-Grows, signature_field-Ends,
}
use lg_magic.Dbus.Writer.{Wb, call_fields, hdr_field, wb_str, pad_bytes}
use lg_magic.Prelude.{
  ℕ, ◌+◌, ◌≡◌, refl, sym, ap, ◌∙◌, List, [], ◌∷◌, ◌++◌, length, length-append, arith,
}
use mathlib.Core.List.{append_assoc, append-nil}

module _ (path iface member dest : List ℕ) where
  -- The first three fields, where they end, and the fourth.
  abbrev pub path_bytes : List ℕ
  path_bytes = text_field_bytes 16 1 b'o' path

  abbrev pub iface_bytes : List ℕ
  iface_bytes = text_field_bytes (16 + length path_bytes) 2 b's' iface

  abbrev pub member_at : ℕ
  member_at = 16 + length path_bytes + length iface_bytes

  abbrev pub member_bytes : List ℕ
  member_bytes = text_field_bytes member_at 3 b's' member

  abbrev pub three_fields : List ℕ
  three_fields = path_bytes ++ (iface_bytes ++ member_bytes)

  abbrev three_written : Wb → Wb
  three_written w =
      hdr_field (hdr_field (hdr_field w 1 b'o' wb_str path) 2 b's' wb_str iface) 3 b's' wb_str
        member

  three-Grows : (w : Wb) → Grows 16 three_fields w (three_written w)
  three-Grows w =
      Grows-trans 16 path_bytes (iface_bytes ++ member_bytes)
        (text_field-Grows 16 1 b'o' w path refl)
        (Grows-trans (16 + length path_bytes) iface_bytes member_bytes
          (text_field-Grows _ 2 b's' _ iface refl) (text_field-Grows _ 3 b's' _ member refl))

  -- The position of the fourth.
  abbrev pub dest_at : ℕ
  dest_at = 16 + length three_fields

  -- The fields that count, for a signature, and the padding behind them.
  unfoldable pub counted_fields : List ℕ → List ℕ
  counted_fields [] = three_fields ++ bare_field dest_at 6 b's' dest
  counted_fields (c ∷ sig) =
      let dest_bytes = text_field_bytes dest_at 6 b's' dest in
      three_fields
      ++ (dest_bytes ++ signature_field_bytes (dest_at + length dest_bytes) 8 b'g' (c ∷ sig))

  unfoldable pub field_padding : List ℕ → List ℕ
  field_padding [] = pad_bytes 4 4 (16 + length (counted_fields []))
  field_padding (c ∷ sig) = []

  bare_padded :
      three_fields ++ text_field_bytes dest_at 6 b's' dest ≡ counted_fields [] ++ field_padding []
  unfolding counted_fields field_padding
  bare_padded =
      let bare = bare_field dest_at 6 b's' dest in
      let there : dest_at + length bare ≡ 16 + length (three_fields ++ bare) =
        omega (arith, length-append three_fields bare) in
      ap (λ bytes. three_fields ++ bytes) (text_field_as_bare dest_at 6 b's' dest)
      ∙ (ap (λ m. three_fields ++ (bare ++ pad_bytes 4 4 m)) there
          ∙ sym
              (append_assoc three_fields bare (pad_bytes 4 4 (16 + length (three_fields ++ bare)))))

  pub call_fields-Grows :
      (sig : List ℕ) (w : Wb)
      → Grows 16
          (counted_fields sig ++ field_padding sig)
          w
          (call_fields w dest path iface member sig)
  unfolding call_fields counted_fields field_padding
  call_fields-Grows [] w = Grows-moved 16 bare_padded (
      Grows-trans 16 three_fields (text_field_bytes dest_at 6 b's' dest) (three-Grows w)
        (text_field-Grows dest_at 6 b's' _ dest refl))
  call_fields-Grows (c ∷ sig) w =
      let dest_bytes = text_field_bytes dest_at 6 b's' dest in
      let sig_bytes = signature_field_bytes (dest_at + length dest_bytes) 8 b'g' (c ∷ sig) in
      Grows-moved 16 (sym (append-nil (three_fields ++ (dest_bytes ++ sig_bytes)))) (
        Grows-trans 16 three_fields (dest_bytes ++ sig_bytes) (three-Grows w) (
          Grows-trans dest_at dest_bytes sig_bytes (text_field-Grows dest_at 6 b's' _ dest refl)
            (signature_field-Grows _ 8 b'g' _ (c ∷ sig) refl)))

  pub call_fields-Ends :
      (sig : List ℕ) (w : Wb)
      → Ends 16 (length (counted_fields sig)) w (call_fields w dest path iface member sig)
  unfolding call_fields counted_fields field_padding
  call_fields-Ends [] w =
      let bare = bare_field dest_at 6 b's' dest in
      Ends-moved 16 _ _ (sym (length-append three_fields bare)) (
        Ends-trans 16 three_fields (length bare) (three-Grows w)
          (λ fine. (text_field-Grows dest_at 6 b's' _ dest refl).before fine)
          (text_field-Ends dest_at 6 b's' _ dest refl))
  call_fields-Ends (c ∷ sig) w =
      let dest_bytes = text_field_bytes dest_at 6 b's' dest in
      let sig_bytes = signature_field_bytes (dest_at + length dest_bytes) 8 b'g' (c ∷ sig) in
      let whole : length (three_fields ++ dest_bytes) + length sig_bytes
          ≡ length (three_fields ++ (dest_bytes ++ sig_bytes)) =
        omega (
          arith,
          length-append three_fields dest_bytes,
          length-append three_fields (dest_bytes ++ sig_bytes),
          length-append dest_bytes sig_bytes,
        ) in
      let there : dest_at + length dest_bytes ≡ 16 + length (three_fields ++ dest_bytes) =
        omega (arith, length-append three_fields dest_bytes) in
      let four = hdr_field (three_written w) 6 b's' wb_str dest in
      Ends-moved 16 _ _ whole (
        Ends-trans 16 (three_fields ++ dest_bytes) (length sig_bytes)
          (Grows-trans 16 three_fields dest_bytes (three-Grows w)
            (text_field-Grows dest_at 6 b's' _ dest refl))
          (λ fine. (signature_field-Grows 0 8 b'g' four (c ∷ sig) refl).before fine)
          (Ends-at there (signature_field-Ends _ 8 b'g' four (c ∷ sig) refl)))
