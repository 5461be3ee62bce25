-- ===== src/Dbus/Call.antt =====
-- The method calls of tools/src/dbus_client.c: the reading of a message, and what a reply means.
use lg_magic.Dbus.Fields.{Found, parse_header_fields}
use lg_magic.Dbus.Reader.{Rd, rd_pad, rd_str, rd_value, u32_of}
use lg_magic.Dbus.Stream.{ReadError, Stream, readn}
use lg_magic.Dbus.{DbusValue, value_empty, Fault, malformed, outside}
use lg_magic.Prelude.Result.{Result, ok, err, ◌>>=◌, ◌>>◌, fail_if}
use lg_magic.Prelude.{
  ℕ, zero, suc, ◌+◌, ◌-◌, ◌%◌, ◌||◌, not, Option, none, some, List, [], ◌∷◌, ◌==◌, ltb,
  if◌then◌else◌, length, take, drop, get_or,
}

-- The messages of `bus_call` with which it returns -1.
pub data CallError : Type 0 where
  not_connected unsupported_input needs_arguments cannot_marshal cannot_write : CallError
  cannot_read : ReadError → CallError
  bad_endian_byte reply_too_large malformed_header malformed_error_body : CallError
  unexpected_type serial_mismatch : ℕ → CallError
  cannot_parse_body : List ℕ → CallError
  -- The code reads behind the end of the fields or of the body.
  reads_outside : CallError

-- A message: its type, the bytes of the header fields, those of the body, and how many bytes it
-- has.
pub record Message : Type 0 where
  pub type : ℕ
  pub fields : List ℕ
  pub body : List ℕ
  pub size : ℕ

-- The number at byte `at`.
unfoldable pub u32_at : List ℕ → ℕ → ℕ
u32_at b at =
    u32_of (get_or b at 0) (get_or b (at + 1) 0) (get_or b (at + 2) 0) (get_or b (at + 3) 0)

-- `hdr_pad`
unfoldable pub header_pad : ℕ → ℕ
header_pad fields_len = (8 - (16 + fields_len) % 8) % 8

-- The checks of the fixed header; 1048576 is MAX_MESSAGE.
unfoldable pub check_fixed : List ℕ → Result CallError (Unit {0})
check_fixed fixed =
    let fields_len = u32_at fixed 12 in
    let body_len = u32_at fixed 4 in
    fail_if (not (get_or fixed 0 0 == b'l')) bad_endian_byte
    >> fail_if
        (ltb 1048576 fields_len
          || (ltb 1048576 body_len || ltb 1048576 (16 + fields_len + body_len)))
        reply_too_large

-- What `readn` gives, with the errors of this module.
unfoldable pub received : Result ReadError (List ℕ × Stream) → Result CallError (List ℕ × Stream)
received (err e) = err (cannot_read e)
received (ok got) = ok got

unfoldable pub receive : ℕ → Stream → Result CallError (List ℕ × Stream)
receive n s = received (readn n s)

-- The rest of a message, behind its fixed header.
unfoldable pub read_rest : List ℕ → Stream → Result CallError (Message × Stream)
read_rest fixed s =
    let fields_len = u32_at fixed 12 in
    let pad = header_pad fields_len in
    check_fixed fixed
    >> (receive (fields_len + pad + u32_at fixed 4) s >>= λ (rest, after). ok (
      record {
        type = get_or fixed 1 0;
        fields = take fields_len rest;
        body = drop (fields_len + pad) rest;
        size = 16 + length rest;
      },
      after,
    ))

-- The first part of the loop of `bus_call`: one message.
unfoldable pub read_message : Stream → Result CallError (Message × Stream)
read_message s = receive 16 s >>= λ (fixed, after). read_rest fixed after

-- What `bus_call` returns: 0 with a value, or 1 with the name and the message of an error.
pub data Reply : Type 0 where
  returned : DbusValue → Reply
  error_reply : List ℕ → List ℕ → Reply

-- A fault, with the error that the code has for bytes that are not as they must be.
unfoldable pub fault_as : CallError → Fault → CallError
fault_as e malformed = e
fault_as e outside = reads_outside

unfoldable pub with_error : {A : Type 0} → CallError → Result Fault A → Result CallError A
with_error e (err fault) = err (fault_as e fault)
with_error e (ok a) = ok a

-- `org.lgmagic.Error.Failed`, where the reply does not name its error.
unfoldable pub error_name_or : Option (List ℕ) → List ℕ → List ℕ
error_name_or none failed = failed
error_name_or (some name) failed = name

-- A body that is read to its end.
unfoldable pub whole_body : {A : Type 0} → CallError → Result Fault (A × Rd) → Result CallError A
whole_body e read = with_error e read >>= λ (a, r). fail_if (ltb 0 (length r.left)) e >> ok a

-- The body of an error.
unfoldable pub error_body : List ℕ → Result CallError (List ℕ)
error_body body =
    whole_body malformed_error_body (rd_str (rd_pad (record { left = body; off = 0 }) 4))

-- The body of a return; there is none without a signature.
unfoldable pub return_body : List ℕ → Option (List ℕ) → Result CallError DbusValue
return_body body none = ok value_empty
return_body body (some []) = ok value_empty
return_body body (some (c ∷ cs)) =
    whole_body (cannot_parse_body (c ∷ cs)) (rd_value (record { left = body; off = 0 }) (c ∷ cs))

-- What a message means that is no signal; `failed` is the name of an error without one.
unfoldable pub interpret : List ℕ → ℕ → Message → Found → Result CallError Reply
interpret failed serial m found =
    if m.type == 3
    then (error_body m.body >>= λ text.
        ok (error_reply (error_name_or found.error_name failed) text))
    else if not (m.type == 2)
    then err (unexpected_type m.type)
    else if not (found.reply_serial == serial)
    then err (serial_mismatch found.reply_serial)
    else (return_body m.body found.signature >>= λ value. ok (returned value))

-- One round of the loop of `bus_call`: the end, or a signal that is passed over.
pub data Step : Type 0 where
  answered : Result CallError (Reply × Stream) → Step
  signal_passed : Stream → Step

unfoldable pub found_step : List ℕ → ℕ → Message → Stream → Result CallError Found → Step
found_step failed serial m after (err e) = answered (err e)
found_step failed serial m after (ok found) =
    if m.type == 4
    then signal_passed after
    else answered (interpret failed serial m found >>= λ reply. ok (reply, after))

unfoldable pub message_step : List ℕ → ℕ → Result CallError (Message × Stream) → Step
message_step failed serial (err e) = answered (err e)
message_step failed serial (ok (m, after)) =
    found_step failed serial m after
      (with_error malformed_header (parse_header_fields m.size m.fields))

-- The loop of `bus_call`, in at most `fuel` rounds.
unfoldable pub await : List ℕ → ℕ → ℕ → Stream → Option (Result CallError (Reply × Stream))
await failed zero serial s = none
await failed (suc fuel) serial s = elim (message_step failed serial (read_message s)) [
  | answered result ↦ some result
  | signal_passed after ↦ await failed fuel serial after
]
