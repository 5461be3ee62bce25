-- ===== src/Dbus/RoundTrip.antt =====
-- The messages of method calls of tools/src/dbus_client.c, and what the code that reads replies
-- makes of them.
use lg_magic.Dbus.Call.{Message, header_pad, read_message}
use lg_magic.Dbus.Fields.{parse_header_fields}
use lg_magic.Dbus.Frame.{fixed_bytes, read_message-fixed_bytes}
use lg_magic.Dbus.Growth.{wb_pad-Grows}
use lg_magic.Dbus.Inside.{add_args-IsInside, length-take}
use lg_magic.Dbus.Layout.{counted_fields, field_padding, call_fields-Grows, call_fields-Ends}
use lg_magic.Dbus.Padding.{length-pad_bytes4, length-pad_bytes8}
use lg_magic.Dbus.Reading.{IsWritable, call_found, parse_header_fields-counted_fields}
use lg_magic.Dbus.Stream.{Arrival}
use lg_magic.Dbus.Values.{IsText}
use lg_magic.Dbus.Writer.{
  Wb, wb_empty, wb_put, wb_u8, wb_u32, pad_bytes, add_args, call_with, fixed_header, call_fields,
  patch, patch_fields, join_message, build_call,
}
use lg_magic.Dbus.{DbusArg}
use lg_magic.Prelude.Result.{ok}
use lg_magic.Prelude.{
  ℕ, ◌+◌, ◌-◌, ◌≤◌, ◌≡◌, refl, sym, ap, ◌∙◌, false, some, List, [], ◌∷◌, ◌++◌, length, take,
  length-append, Option-cases, arith, inl, inr,
}
use mathlib.Core.Option.{none-ne-some}
use mathlib.Core.List.{append_assoc}

-- The padding behind the fields and that to the body are one padding to 8.
field_padding-header_pad :
    (path iface member dest sig : List ℕ)
    → let fields = counted_fields path iface member dest sig in
      let padding = field_padding path iface member dest sig in
      length (padding ++ pad_bytes 8 8 (16 + length fields + length padding))
      ≡ header_pad (length fields)
unfolding field_padding header_pad
field_padding-header_pad path iface member dest [] =
    let n = 16 + length (counted_fields path iface member dest []) in
    let padding = pad_bytes 4 4 n in
    omega (
      arith,
      length-append padding (pad_bytes 8 8 (n + length padding)),
      length-pad_bytes4 4 n (inr (omega arith)),
      length-pad_bytes8 8 (n + length padding) (inr (omega arith)),
    )
field_padding-header_pad path iface member dest (c ∷ sig) =
    let n = 16 + length (counted_fields path iface member dest (c ∷ sig)) in
    omega (arith, length-pad_bytes8 8 (n + 0) (inr (omega arith)))

-- What a joined message is made of.
join_message-some :
    (hdr body : Wb) (msg : List ℕ)
    → join_message hdr body ≡ some msg
    → (hdr.oom ≡ false)
      × (length hdr.b + body.nodepad ≤ 1048576)
      × (msg ≡ hdr.b ++ take body.nodepad body.b)
unfolding join_message
join_message-some hdr body msg joined = ground (arith, joined)

-- The fixed header with the length of the fields written over its last four bytes.
patch-fixed_bytes :
    (body_len serial fields_len : ℕ) (rest : List ℕ)
    → patch (fixed_bytes 1 body_len serial 0 ++ rest) 12 fields_len
      ≡ fixed_bytes 1 body_len serial fields_len ++ rest
unfolding patch
patch-fixed_bytes body_len serial fields_len rest = refl

fixed_header_lem :
    (body_len serial : ℕ)
    → ((fixed_header body_len serial).b ≡ fixed_bytes 1 body_len serial 0)
      × ((fixed_header body_len serial).oom ≡ false)
unfolding fixed_header wb_u8 wb_u32 wb_put
fixed_header_lem body_len serial = (refl, refl)

module _ (body_len serial : ℕ) (dest path iface member sig : List ℕ) where
  abbrev fields : List ℕ
  fields = counted_fields path iface member dest sig

  abbrev padding : List ℕ
  padding = field_padding path iface member dest sig

  abbrev written : Wb
  written = call_fields (fixed_header body_len serial) dest path iface member sig

  abbrev pads : List ℕ
  pads = padding ++ pad_bytes 8 8 (16 + length fields + length padding)

  -- The fields behind the fixed header, and the length that is patched in.
  written_lem :
      written.oom ≡ false
      → (written.b ≡ fixed_bytes 1 body_len serial 0 ++ (fields ++ padding))
        × (written.nodepad - 12 - 4 ≡ length fields)
  written_lem fine =
      let fixed = fixed_header_lem body_len serial in
      let starts : length (fixed_header body_len serial).b ≡ 16 = ap length fixed.0 in
      (
        ((call_fields-Grows path iface member dest sig (fixed_header body_len serial)).grown fine
              starts
            ∙ ap (λ b. b ++ (fields ++ padding)) fixed.0),
        omega (
          arith,
          (call_fields-Ends path iface member dest sig (fixed_header body_len serial)).ended fine
              starts,
        ),
      )

  patch_fields_lem :
      (patch_fields written).oom ≡ false
      → (patch_fields written).b ≡ fixed_bytes 1 body_len serial (length fields) ++ (fields ++ pads)
  unfolding patch_fields
  patch_fields_lem fine =
      let n = 16 + length fields + length padding in
      let patched : Wb = record {
        b = patch written.b 12 (written.nodepad - 12 - 4);
        nodepad = written.nodepad;
        oom = written.oom;
      } in
      let grows = wb_pad-Grows n 8 patched in
      let (written_is, counted) = written_lem (grows.before fine) in
      let head = fixed_bytes 1 body_len serial (length fields) in
      let patched_is : patched.b ≡ head ++ (fields ++ padding) =
        ap (λ b. patch b 12 (written.nodepad - 12 - 4)) written_is
        ∙ (ap (patch (fixed_bytes 1 body_len serial 0 ++ (fields ++ padding)) 12) counted
            ∙ patch-fixed_bytes body_len serial (length fields) (fields ++ padding)) in
      let starts : length patched.b ≡ n =
        ap length patched_is ∙ omega (arith, length-append fields padding) in
      grows.grown fine starts
      ∙ (ap (λ b. b ++ pad_bytes 8 8 n) patched_is
          ∙ ap (λ b. head ++ b) (append_assoc fields padding (pad_bytes 8 8 n)))

-- What the code that reads messages makes of one.
unfoldable pub Reads : List ℕ → List ℕ → List ℕ → Type 0
Reads msg sig body =
    (m : Message) × ((more : List ℕ) (coming : List Arrival)
      → read_message (record { rbuf = msg ++ more; coming = coming })
        ≡ ok (m, record { rbuf = more; coming = coming }))
    × (m.type ≡ 1)
    × (parse_header_fields m.size m.fields ≡ ok (call_found sig))
    × (m.body ≡ body)

joined_is_read :
    (serial : ℕ) (dest path iface member sig : List ℕ)
    → IsWritable dest
    → IsWritable path
    → IsWritable iface
    → IsWritable member
    → IsText sig
    → length sig ≤ 255
    → (body : Wb) (msg : List ℕ) → body.nodepad ≤ length body.b
    → join_message (patch_fields (written body.nodepad serial dest path iface member sig)) body
      ≡ some msg
    → Reads msg sig (take body.nodepad body.b)
unfolding Reads
joined_is_read serial dest path iface member sig dest_is path_is iface_is member_is clean short body
      msg inside joined =
    let (fine, small, whole) = join_message-some _ body msg joined in
    let all_fields = fields body.nodepad serial dest path iface member sig in
    let all_pads = pads body.nodepad serial dest path iface member sig in
    let counted = take body.nodepad body.b in
    let counts : length counted ≡ body.nodepad = length-take body.nodepad body.b inside in
    let header_is = patch_fields_lem body.nodepad serial dest path iface member sig fine in
    let head = fixed_bytes 1 body.nodepad serial (length all_fields) in
    let as_frame : msg
        ≡ fixed_bytes 1 (length counted) serial (length all_fields)
          ++ (all_fields ++ (all_pads ++ counted)) =
      whole
      ∙ (ap (λ b. b ++ counted) header_is
          ∙ (ap (λ b. head ++ b) (append_assoc all_fields all_pads counted)
              ∙ ap
                  (λ n.
                    fixed_bytes 1 n serial (length all_fields)
                    ++ (all_fields ++ (all_pads ++ counted)))
                  (sym counts))) in
    let size = 16 + length (all_fields ++ (all_pads ++ counted)) in
    (
      record { type = 1; fields = all_fields; body = counted; size = size },
      (λ more coming.
          ap (λ b. read_message (record { rbuf = b ++ more; coming = coming })) as_frame
          ∙ read_message-fixed_bytes 1 serial all_fields all_pads counted more coming
              (field_padding-header_pad path iface member dest sig)
              (omega
                (arith, small, ap length header_is, length-append all_fields all_pads, counts))),
      refl,
      parse_header_fields-counted_fields path iface member dest path_is iface_is member_is dest_is
          sig size clean short (omega (arith, length-append all_fields (all_pads ++ counted))),
      refl,
    )

-- A call that `build_call` makes of texts that the format can hold is one message: it is read with
-- its fields, which tell its signature, and its body, which is what the arguments come to, and the
-- bytes behind it stay.
pub read_message-build_call :
    (serial : ℕ) (dest path iface member sig : List ℕ) (args : List DbusArg) (msg : List ℕ)
    → IsWritable dest
    → IsWritable path
    → IsWritable iface
    → IsWritable member
    → IsText sig
    → length sig ≤ 255
    → build_call serial dest path iface member sig args ≡ some msg
    → (body : Wb) × (add_args wb_empty sig args ≡ some body)
      × Reads msg sig (take body.nodepad body.b)
unfolding build_call call_with
read_message-build_call serial dest path iface member sig args msg dest_is path_is iface_is
      member_is clean short built =
    elim (Option-cases (add_args wb_empty sig args)) [
      | inl missing ↦ absurd (
          none-ne-some msg (ap (call_with serial dest path iface member sig) (sym missing) ∙ built))
      | inr (body, added) ↦ (
        body,
        added,
        joined_is_read serial dest path iface member sig dest_is path_is iface_is member_is clean
            short body msg (add_args-IsInside wb_empty sig args body (omega arith) added)
            (ap (call_with serial dest path iface member sig) (sym added) ∙ built),
      )
    ]
