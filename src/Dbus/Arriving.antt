-- ===== src/Dbus/Arriving.antt =====
-- The reading of one message by tools/src/dbus_client.c from bytes of which some are in the buffer
-- and the others still arrive.
use lg_magic.Dbus.Call.{header_pad, received, receive, read_rest, read_message}
use lg_magic.Dbus.Chunks.{ReadsFirst, readn-ReadsFirst}
use lg_magic.Dbus.Frame.{fixed_bytes, body_len_at, fields_len_at, check_fixed-fixed_bytes}
use lg_magic.Dbus.Stream.{Stream, ending, all_bytes}
use lg_magic.Dbus.Values.{take-append, drop-append}
use lg_magic.Prelude.Result.{ok, ◌>>=◌}
use lg_magic.Prelude.{
  ℕ, ◌+◌, ◌≤◌, ◌≡◌, refl, sym, ap, ◌∙◌, List, ◌++◌, length, take, drop, length-append, arith,
}
use mathlib.Core.List.{append_assoc}

pub receive_arriving :
    (front more : List ℕ) (s : Stream) (n : ℕ)
    → n ≡ length front
    → all_bytes s ≡ front ++ more
    → (after : Stream) × (receive n s ≡ ok (front, after))
      × (all_bytes after ≡ more)
      × (ending after.coming ≡ ending s.coming)
unfolding receive received ReadsFirst
receive_arriving front more s n whole bytes =
    let (after, read, left, end) =
      (readn-ReadsFirst n s).0 (omega (arith, whole, ap length bytes, length-append front more)) in
    (
      after,
      ap received read
          ∙ ap (λ b. ok (b, after))
              (ap (take n) bytes ∙ ap (λ k. take k (front ++ more)) whole ∙ take-append front more),
      left ∙ ap (drop n) bytes ∙ ap (λ k. drop k (front ++ more)) whole ∙ drop-append front more,
      end,
    )

-- A message that is the first of the bytes is read, and the bytes behind it are left.
pub read_message_arriving :
    (type serial : ℕ) (fields pads body more : List ℕ) (s : Stream)
    → length pads ≡ header_pad (length fields)
    → 16 + length fields + length body ≤ 1048576
    → all_bytes s
      ≡ fixed_bytes type (length body) serial (length fields)
        ++ ((fields ++ (pads ++ body)) ++ more)
    → (after : Stream) × (read_message s
        ≡ ok (
          record {
            type = type;
            fields = fields;
            body = body;
            size = 16 + length (fields ++ (pads ++ body));
          },
          after,
        ))
      × (all_bytes after ≡ more)
      × (ending after.coming ≡ ending s.coming)
unfolding read_message read_rest
read_message_arriving type serial fields pads body more s padded small bytes =
    let k = length fields in
    let rest = fields ++ (pads ++ body) in
    let fixed = fixed_bytes type (length body) serial k in
    let whole : k + header_pad k + length body ≡ length rest =
      omega (arith, padded, length-append fields (pads ++ body), length-append pads body) in
    let behind : k + header_pad k ≡ length (fields ++ pads) =
      omega (arith, padded, length-append fields pads) in
    let (headed, head_read, head_left, head_end) =
      receive_arriving fixed (rest ++ more) s 16 refl bytes in
    let (after, rest_read, left, end) = receive_arriving rest more headed _ whole head_left in
    (
      after,
      ap (λ r. r >>= λ (fixed, after). read_rest fixed after) head_read
          ∙ rw
              (
                check_fixed-fixed_bytes type (length body) serial k small,
                fields_len_at type (length body) serial k (omega (arith, small)),
                body_len_at type (length body) serial k (omega (arith, small)),
                rest_read,
                take-append fields (pads ++ body),
                behind,
                sym (append_assoc fields pads body),
                drop-append (fields ++ pads) body,
              )
              refl,
      left,
      end ∙ head_end,
    )
