-- ===== src/Dbus/Header.antt =====
-- The header fields of tools/src/dbus_client.c as `hdr_field` writes them.
use lg_magic.Dbus.Growth.{
  Grows, Grows-trans, wb_put-Grows, wb_pad-Grows, wb_str-Grows, out_of_memory-Grows, Ends,
  Ends-trans, Ends-moved, wb_str-Ends, unpadded_Ends, wb_put_unpadded,
}
use lg_magic.Dbus.Values.{text_bytes}
use lg_magic.Dbus.Writer.{Wb, wb_u8, wb_pad, wb_str, wb_sig, pad_bytes, hdr_field}
use lg_magic.Prelude.{
  ℕ, ◌+◌, ◌%◌, ◌≡◌, sym, ap, ◌∙◌, Bool, true, false, ◌||◌, List, [], ◌∷◌, ◌++◌, ◌==◌, ltb, length,
  length-append, Bool-cases, arith, inl, inr,
}
use mathlib.Core.List.{append_assoc}

-- The four bytes at the start of a field, behind their padding, and the padding of its value.
abbrev pub field_head : ℕ → ℕ → ℕ → List ℕ
field_head n code sig = pad_bytes 8 8 n ++ (code % 256 ∷ 1 ∷ sig % 256 ∷ 0 ∷ [])

abbrev pub aligned_head : ℕ → ℕ → ℕ → List ℕ
aligned_head n code sig =
    field_head n code sig ++ pad_bytes 4 4 (n + length (field_head n code sig))

-- A field of type o or s from position `n` on, without and with the padding at its end.
abbrev pub bare_field : ℕ → ℕ → ℕ → List ℕ → List ℕ
bare_field n code sig s = aligned_head n code sig ++ text_bytes s

abbrev pub text_field_bytes : ℕ → ℕ → ℕ → List ℕ → List ℕ
text_field_bytes n code sig s =
    let head = aligned_head n code sig in
    head ++ (text_bytes s ++ pad_bytes 4 4 (n + length head + length (text_bytes s)))

pub text_field_as_bare :
    (n code sig : ℕ) (s : List ℕ)
    → text_field_bytes n code sig s
      ≡ bare_field n code sig s ++ pad_bytes 4 4 (n + length (bare_field n code sig s))
text_field_as_bare n code sig s =
    let head = aligned_head n code sig in
    let there : n + length head + length (text_bytes s) ≡ n + length (head ++ text_bytes s) =
      omega (arith, length-append head (text_bytes s)) in
    ap (λ m. head ++ (text_bytes s ++ pad_bytes 4 4 m)) there
    ∙ sym (append_assoc head (text_bytes s) (pad_bytes 4 4 (n + length (head ++ text_bytes s))))

-- A field of type g.
abbrev pub signature_bytes : List ℕ → List ℕ
signature_bytes s = length s % 256 ∷ (s ++ 0 ∷ [])

abbrev pub signature_field_bytes : ℕ → ℕ → ℕ → List ℕ → List ℕ
signature_field_bytes n code sig s = field_head n code sig ++ signature_bytes s

head_Grows :
    (n code sig : ℕ) (w : Wb)
    → Grows n (field_head n code sig) w (wb_u8 (wb_u8 (wb_u8 (wb_u8 (wb_pad w 8) code) 1) sig) 0)
unfolding wb_u8
head_Grows n code sig w =
    let m = n + length (pad_bytes 8 8 n) in
    Grows-trans n (pad_bytes 8 8 n) (code % 256 ∷ 1 ∷ sig % 256 ∷ 0 ∷ []) (wb_pad-Grows n 8 w) (
      Grows-trans m (code % 256 ∷ []) (1 ∷ sig % 256 ∷ 0 ∷ []) (wb_put-Grows m _ _) (
        Grows-trans (m + 1) (1 ∷ []) (sig % 256 ∷ 0 ∷ []) (wb_put-Grows _ _ _) (
          Grows-trans (m + 1 + 1) (sig % 256 ∷ []) (0 ∷ []) (wb_put-Grows _ _ _)
            (wb_put-Grows _ _ _))))

aligned_Grows :
    (n code sig : ℕ) (w : Wb)
    → Grows n
        (aligned_head n code sig)
        w
        (wb_pad (wb_u8 (wb_u8 (wb_u8 (wb_u8 (wb_pad w 8) code) 1) sig) 0) 4)
aligned_Grows n code sig w =
    let head = field_head n code sig in
    Grows-trans n head (pad_bytes 4 4 (n + length head)) (head_Grows n code sig w)
      (wb_pad-Grows (n + length head) 4 _)

-- The types whose values are padded to 4.
abbrev pub is_padded : ℕ → Bool
is_padded sig = sig == b'o' || (sig == b's' || sig == b'u')

pub text_field-Grows :
    (n code sig : ℕ) (w : Wb) (s : List ℕ)
    → is_padded sig ≡ true
    → Grows n (text_field_bytes n code sig s) w (hdr_field w code sig wb_str s)
unfolding hdr_field
text_field-Grows n code sig w s padded =
    let m = n + length (aligned_head n code sig) in
    rw padded (
      Grows-trans n (aligned_head n code sig)
        (text_bytes s ++ pad_bytes 4 4 (m + length (text_bytes s))) (aligned_Grows n code sig w)
        (wb_str-Grows m _ s))

signature-Grows : (n : ℕ) (w : Wb) (s : List ℕ) → Grows n (signature_bytes s) w (wb_sig w s)
unfolding wb_sig wb_u8
signature-Grows n w s = elim (Bool-cases (ltb 255 (length s))) [
  | inl long ↦ rw long (out_of_memory-Grows n _ w)
  | inr short ↦ rw short (
      Grows-trans n (length s % 256 ∷ []) (s ++ 0 ∷ []) (wb_put-Grows n w _)
        (Grows-trans (n + 1) s (0 ∷ []) (wb_put-Grows _ _ s) (wb_put-Grows _ _ _)))
]

pub signature_field-Grows :
    (n code sig : ℕ) (w : Wb) (s : List ℕ)
    → is_padded sig ≡ false
    → Grows n (signature_field_bytes n code sig s) w (hdr_field w code sig wb_sig s)
unfolding hdr_field
signature_field-Grows n code sig w s unpadded = rw unpadded (
    Grows-trans n (field_head n code sig) (signature_bytes s) (head_Grows n code sig w)
      (signature-Grows (n + length (field_head n code sig)) _ s))

pub text_field-Ends :
    (n code sig : ℕ) (w : Wb) (s : List ℕ)
    → is_padded sig ≡ true
    → Ends n (length (bare_field n code sig s)) w (hdr_field w code sig wb_str s)
unfolding hdr_field
text_field-Ends n code sig w s padded =
    let head = aligned_head n code sig in
    let m = n + length head in
    rw padded (
      Ends-moved n (length head + length (text_bytes s)) (length (bare_field n code sig s))
        (sym (length-append head (text_bytes s)))
        (Ends-trans n head (length (text_bytes s)) (aligned_Grows n code sig w)
          (λ fine. (wb_str-Grows m _ s).before fine) (wb_str-Ends m _ s)))

wb_sig_unpadded :
    (w : Wb) (s : List ℕ) → (wb_sig w s).oom ≡ false → (wb_sig w s).nodepad ≡ length (wb_sig w s).b
unfolding wb_sig wb_u8
wb_sig_unpadded w s = elim (Bool-cases (ltb 255 (length s))) [
  | inl long ↦ rw long (λ fine. absurd cc)
  | inr short ↦ rw short (wb_put_unpadded _ (0 ∷ []))
]

pub signature_field-Ends :
    (n code sig : ℕ) (w : Wb) (s : List ℕ)
    → is_padded sig ≡ false
    → Ends n (length (signature_field_bytes n code sig s)) w (hdr_field w code sig wb_sig s)
unfolding hdr_field
signature_field-Ends n code sig w s unpadded =
    unpadded_Ends n (signature_field_bytes n code sig s)
      (signature_field-Grows n code sig w s unpadded) (wb_sig_unpadded _ s)
