-- ===== src/Dbus/Fields.antt =====
-- `parse_header_fields` of tools/src/dbus_client.c. A position counts from the start of the
-- message; the fields start at byte 16.
use lg_magic.Dbus.Reader.{Rd, Read, rd_u8, rd_u32, rd_pad, text_at}
use lg_magic.Dbus.{Fault, malformed}
use lg_magic.Prelude.Result.{Result, ok, err, ◌>>=◌, ◌>>◌, fail_if}
use lg_magic.Prelude.Text.{c_text}
use lg_magic.Prelude.{
  ℕ, zero, suc, ◌+◌, ◌||◌, not, Option, none, some, List, [], ◌∷◌, ◌==◌, ltb, if◌then◌else◌, length,
  take, drop,
}

-- What the fields are searched for: `error_name`, `sig_out` and `reply_serial`.
pub record Found : Type 0 where
  pub error_name : Option (List ℕ)
  pub signature : Option (List ℕ)
  pub reply_serial : ℕ

abbrev pub nothing_found : Found
nothing_found = record { error_name = none; signature = none; reply_serial = 0 }

-- A text is kept for FIELD_ERROR_NAME and FIELD_SIGNATURE, a number for FIELD_REPLY_SERIAL.
unfoldable pub keep_text : ℕ → List ℕ → Found → Found
keep_text code s found =
    if code == 4
    then record {
      error_name = some s;
      signature = found.signature;
      reply_serial = found.reply_serial;
    }
    else if code == 8
    then record {
      error_name = found.error_name;
      signature = some s;
      reply_serial = found.reply_serial;
    }
    else found

unfoldable pub keep_signature : ℕ → List ℕ → Found → Found
keep_signature code s found = if code == 8 then keep_text 8 s found else found

unfoldable pub keep_serial : ℕ → ℕ → Found → Found
keep_serial code n found =
    if code == 5
    then record { error_name = found.error_name; signature = found.signature; reply_serial = n }
    else found

-- The value of a field of type s or o, u, and g. The NUL behind a signature is not looked at.
unfoldable pub text_field : ℕ → Found → Rd → Read Found
text_field code found r = rd_u32 (rd_pad r 4) >>= λ (len, start).
    text_at len start >>= λ (s, after). ok (keep_text code s found, rd_pad after 4)

unfoldable pub number_field : ℕ → Found → Rd → Read Found
number_field code found r =
    rd_u32 (rd_pad r 4) >>= λ (n, after). ok (keep_serial code n found, after)

unfoldable pub signature_field : ℕ → Found → Rd → Read Found
signature_field code found r = rd_u8 r >>= λ (len, start).
    fail_if (ltb (length start.left) (suc len)) malformed
    >> ok (
      keep_signature code (c_text (take len start.left)) found,
      record { left = drop (suc len) start.left; off = start.off + suc len },
    )

unfoldable pub field_value : ℕ → ℕ → Found → Rd → Read Found
field_value code fsig found r =
    if fsig == b's' || fsig == b'o'
    then text_field code found r
    else if fsig == b'u'
    then number_field code found r
    else if fsig == b'g'
    then signature_field code found r
    else err malformed

-- One round of the loop; the reader is at the code of the field. Where fewer than four bytes are
-- left, one of the reads fails.
unfoldable pub field_at : Found → Rd → Read Found
field_at found r = rd_u8 r >>= λ (code, r0). rd_u8 r0 >>= λ (slen, r1). rd_u8 r1 >>= λ (fsig, r2).
    rd_u8 r2 >>= λ (nul, r3).
    fail_if (not (slen == 1) || not (nul == 0)) malformed >> field_value code fsig found r3

-- The loop. Each round takes up four bytes or more.
unfoldable pub fields_from : ℕ → Found → Rd → Read Found
fields_from zero found r = ok (found, r)
fields_from (suc fuel) found r = elim r.left [
  | [] ↦ ok (found, r)
  | b ∷ bs ↦ field_at found (rd_pad r 8) >>= λ (more, after). fields_from fuel more after
]

-- `parse_header_fields`, of a message of `msglen` bytes with those fields.
unfoldable pub parse_header_fields : ℕ → List ℕ → Result Fault Found
parse_header_fields msglen fields =
    fields_from (suc (length fields)) nothing_found (record { left = fields; off = 16 })
    >>= λ (found, after). fail_if (ltb msglen after.off) malformed >> ok found
