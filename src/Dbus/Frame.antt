-- ===== src/Dbus/Frame.antt =====
-- The reading of one message from the stream of tools/src/dbus_client.c.
use lg_magic.Dbus.Call.{u32_at, header_pad, check_fixed, receive, received, read_rest, read_message}
use lg_magic.Dbus.Padding.{u32_of-u32_bytes}
use lg_magic.Dbus.Stream.{Arrival, readn}
use lg_magic.Dbus.Values.{take-append, drop-append}
use lg_magic.Dbus.Writer.{u32_bytes}
use lg_magic.Prelude.Result.{ok, ◌>>=◌}
use lg_magic.Prelude.{
  ℕ, ◌+◌, ◌≤◌, ◌<◌, ◌≡◌, refl, sym, ap, ◌∙◌, true, false, List, ◌∷◌, ◌++◌, ltb, leb, length, take,
  drop, length-append, arith,
}
use mathlib.Core.List.{append_assoc}

-- The fixed header of a message of that type with those lengths and that serial.
abbrev pub fixed_bytes : ℕ → ℕ → ℕ → ℕ → List ℕ
fixed_bytes type body_len serial fields_len =
    b'l' ∷ type ∷ 0 ∷ 1 ∷ (u32_bytes body_len ++ (u32_bytes serial ++ u32_bytes fields_len))

-- The reading of bytes that are in the buffer.
readn-append :
    (front more : List ℕ) (coming : List Arrival) (n : ℕ)
    → n ≡ length front
    → readn n (record { rbuf = front ++ more; coming = coming })
      ≡ ok (front, record { rbuf = more; coming = coming })
unfolding readn
readn-append front more coming n whole =
    let inside : leb n (length (front ++ more)) ≡ true = ground (arith, length-append front more) in
    rw
      (
        inside,
        ap (λ k. take k (front ++ more)) whole ∙ take-append front more,
        ap (λ k. drop k (front ++ more)) whole ∙ drop-append front more,
      )
      refl

pub receive-append :
    (front more : List ℕ) (coming : List Arrival) (n : ℕ)
    → n ≡ length front
    → receive n (record { rbuf = front ++ more; coming = coming })
      ≡ ok (front, record { rbuf = more; coming = coming })
unfolding receive received
receive-append front more coming n whole = ap received (readn-append front more coming n whole)

-- The two lengths in the header.
pub body_len_at :
    (type body_len serial fields_len : ℕ)
    → body_len < 4294967296
    → u32_at (fixed_bytes type body_len serial fields_len) 4 ≡ body_len
unfolding u32_at
body_len_at type body_len serial fields_len fits = u32_of-u32_bytes body_len fits

pub fields_len_at :
    (type body_len serial fields_len : ℕ)
    → fields_len < 4294967296
    → u32_at (fixed_bytes type body_len serial fields_len) 12 ≡ fields_len
unfolding u32_at
fields_len_at type body_len serial fields_len fits = u32_of-u32_bytes fields_len fits

pub check_fixed-fixed_bytes :
    (type body_len serial fields_len : ℕ)
    → 16 + fields_len + body_len ≤ 1048576
    → check_fixed (fixed_bytes type body_len serial fields_len) ≡ ok tt
unfolding check_fixed
check_fixed-fixed_bytes type body_len serial fields_len small =
    let fields_fit : ltb 1048576 fields_len ≡ false = ground (arith, small) in
    let body_fits : ltb 1048576 body_len ≡ false = ground (arith, small) in
    let all_fit : ltb 1048576 (16 + fields_len + body_len) ≡ false = ground (arith, small) in
    rw
      (
        fields_len_at type body_len serial fields_len (omega (arith, small)),
        body_len_at type body_len serial fields_len (omega (arith, small)),
        fields_fit,
        body_fits,
        all_fit,
      )
      refl

-- A message in the stream is read, and the bytes behind it stay.
pub read_message-fixed_bytes :
    (type serial : ℕ) (fields pads body more : List ℕ) (coming : List Arrival)
    → length pads ≡ header_pad (length fields)
    → 16 + length fields + length body ≤ 1048576
    → read_message (record {
      rbuf =
          fixed_bytes type (length body) serial (length fields)
          ++ ((fields ++ (pads ++ body)) ++ more);
      coming = coming;
    })
      ≡ ok (
        record {
          type = type;
          fields = fields;
          body = body;
          size = 16 + length (fields ++ (pads ++ body));
        },
        record { rbuf = more; coming = coming },
      )
unfolding read_message read_rest
read_message-fixed_bytes type serial fields pads body more coming padded small =
    let k = length fields in
    let rest = fields ++ (pads ++ body) in
    let fixed = fixed_bytes type (length body) serial k in
    let whole : k + header_pad k + length body ≡ length rest =
      omega (arith, padded, length-append fields (pads ++ body), length-append pads body) in
    let behind : k + header_pad k ≡ length (fields ++ pads) =
      omega (arith, padded, length-append fields pads) in
    ap (λ r. r >>= λ (fixed, after). read_rest fixed after)
      (receive-append fixed (rest ++ more) coming 16 refl)
    ∙ rw
        (
          check_fixed-fixed_bytes type (length body) serial k small,
          fields_len_at type (length body) serial k (omega (arith, small)),
          body_len_at type (length body) serial k (omega (arith, small)),
          receive-append rest more coming _ whole,
          take-append fields (pads ++ body),
          behind,
          sym (append_assoc fields pads body),
          drop-append (fields ++ pads) body,
        )
        refl
