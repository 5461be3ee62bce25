-- ===== src/Dbus/Examples.antt =====
-- Concrete messages of tools/src/dbus_client.c.
use lg_magic.Dbus.Bodies.{value_bytes, signature_of, IsReply, rd_value-value_bytes}
use lg_magic.Dbus.Call.{CallError, Reply, await}
use lg_magic.Dbus.Chunks.{seen, first_bytes, readn-first_bytes}
use lg_magic.Dbus.Connect.{auth_line, pick_unix_socket}
use lg_magic.Dbus.Ending.{await_ends}
use lg_magic.Dbus.Handshake.{IsName, unhex, auth_line_lem, pick_unix_socket_abstract}
use lg_magic.Dbus.Padding.{at_off}
use lg_magic.Dbus.Reader.{rd_value}
use lg_magic.Dbus.Reading.{IsWritable}
use lg_magic.Dbus.FieldList.{text_header, number_header, signature_header}
use lg_magic.Dbus.Replies.{Frame, frame_bytes, frames_bytes}
use lg_magic.Dbus.RoundTrip.{Reads, read_message-build_call}
use lg_magic.Dbus.Stream.{Stream, arrived, interrupted, arriving, all_bytes, ending, readn}
use lg_magic.Dbus.Values.{IsText, AreTexts, strings_at}
use lg_magic.Dbus.Writer.{
  Wb, wb_empty, add_args, build_call, call_with, body_add_arg, join_message, patch_fields, wb_pad,
  wb_put, call_fields, hdr_field, wb_sig, wb_u8, wb_str, wb_u32, fixed_header, patch, pad_bytes,
}
use lg_magic.Dbus.{DbusArg, DbusValue, value_string_array}
use lg_magic.Kernel.Probe.{codes}
use lg_magic.Prelude.Result.{Result, ok}
use lg_magic.Prelude.{
  List, ℕ, ◌*◌, ◌≡◌, refl, some, [], ◌∷◌, ◌++◌, length, take, drop, get_or, arith, true,
}

abbrev argument : DbusArg
argument = record { type = b's'; s = codes "hi"; d = 0; u = 0 }

-- The call of m with "hi", of the interface b at the path / of a.
abbrev call_bytes : List ℕ
call_bytes =
    108 ∷ 1 ∷ 0 ∷ 1 ∷ 7 ∷ 0 ∷ 0 ∷ 0 ∷ 1 ∷ 0 ∷ 0 ∷ 0 ∷ 71 ∷ 0 ∷ 0 ∷ 0 ∷ 1 ∷ 1 ∷ 111 ∷ 0 ∷ 1 ∷ 0 ∷ 0
    ∷ 0 ∷ 47 ∷ 0 ∷ 0 ∷ 0 ∷ 0 ∷ 0 ∷ 0 ∷ 0 ∷ 2 ∷ 1 ∷ 115 ∷ 0 ∷ 1 ∷ 0 ∷ 0 ∷ 0 ∷ 98 ∷ 0 ∷ 0 ∷ 0 ∷ 0 ∷ 0
    ∷ 0 ∷ 0 ∷ 3 ∷ 1 ∷ 115 ∷ 0 ∷ 1 ∷ 0 ∷ 0 ∷ 0 ∷ 109 ∷ 0 ∷ 0 ∷ 0 ∷ 0 ∷ 0 ∷ 0 ∷ 0 ∷ 6 ∷ 1 ∷ 115 ∷ 0
    ∷ 1 ∷ 0 ∷ 0 ∷ 0 ∷ 97 ∷ 0 ∷ 0 ∷ 0 ∷ 0 ∷ 0 ∷ 0 ∷ 0 ∷ 8 ∷ 1 ∷ 103 ∷ 0 ∷ 1 ∷ 115 ∷ 0 ∷ 0 ∷ 2 ∷ 0 ∷ 0
    ∷ 0 ∷ 104 ∷ 105 ∷ 0 ∷ []

a_is : IsWritable (codes "a")
unfolding IsWritable IsText
a_is = ((omega arith, tt), omega arith)

path_is : IsWritable (codes "/")
unfolding IsWritable IsText
path_is = ((omega arith, tt), omega arith)

b_is : IsWritable (codes "b")
unfolding IsWritable IsText
b_is = ((omega arith, tt), omega arith)

m_is : IsWritable (codes "m")
unfolding IsWritable IsText
m_is = ((omega arith, tt), omega arith)

s_is : IsText (codes "s")
unfolding IsText
s_is = (omega arith, tt)

call_built :
    build_call 1 (codes "a") (codes "/") (codes "b") (codes "m") (codes "s") (argument ∷ [])
    ≡ some call_bytes
unfolding build_call call_with add_args body_add_arg join_message patch_fields wb_pad wb_put
    call_fields hdr_field wb_sig wb_u8 wb_str wb_u32 fixed_header patch pad_bytes
call_built = refl

read_message-build_call_example :
    (body : Wb) × (add_args wb_empty (codes "s") (argument ∷ []) ≡ some body)
    × Reads call_bytes (codes "s") (take body.nodepad body.b)
read_message-build_call_example =
    read_message-build_call 1 (codes "a") (codes "/") (codes "b") (codes "m") (codes "s")
      (argument ∷ []) call_bytes a_is path_is b_is m_is s_is (omega arith) call_built

abbrev two_texts : DbusValue
two_texts = value_string_array (codes "hello" ∷ codes "" ∷ [])

two_texts-IsReply : IsReply two_texts
unfolding IsReply AreTexts IsText strings_at pad_bytes
two_texts-IsReply = (
  (
    ((omega arith, (omega arith, (omega arith, (omega arith, (omega arith, tt))))), omega arith),
    ((tt, omega arith), tt),
  ),
  omega arith,
)

rd_value-value_bytes_example :
    rd_value (at_off (value_bytes two_texts) 0) (signature_of two_texts)
    ≡ ok (two_texts, at_off [] (length (value_bytes two_texts)))
rd_value-value_bytes_example = rd_value-value_bytes two_texts two_texts-IsReply

-- A signal, and a reply to the call of serial 1 with the text "hi".
abbrev signal : Frame
signal = record { type = 4; serial = 9; fields = text_header 3 b's' (codes "ab") ∷ []; body = [] }

abbrev reply : Frame
reply = record {
  type = 2;
  serial = 5;
  fields = number_header 5 1 ∷ text_header 6 b's' (codes ":1") ∷ signature_header (codes "s") ∷ [];
  body = 2 ∷ 0 ∷ 0 ∷ 0 ∷ b'h' ∷ b'i' ∷ 0 ∷ [];
}

-- The first bytes are in the buffer, the others arrive in two pieces, around a `read` that is
-- interrupted.
abbrev split_stream : Stream
split_stream =
    let bytes = frames_bytes (signal ∷ []) ++ (frame_bytes reply ++ []) in
    record {
      rbuf = take 7 bytes;
      coming =
          arrived (get_or bytes 7 0) (take 30 (drop 8 bytes))
          ∷ interrupted
          ∷ arrived (get_or bytes 38 0) (drop 39 bytes)
          ∷ [];
    }

-- Six bytes in two pieces.
abbrev pieces : Stream
pieces = record { rbuf = 1 ∷ 2 ∷ []; coming = arrived 3 (4 ∷ 5 ∷ []) ∷ arrived 6 [] ∷ [] }

readn-first_bytes_example :
    seen (readn 4 pieces) ≡ first_bytes 4 (all_bytes pieces) (ending pieces.coming)
readn-first_bytes_example = readn-first_bytes 4 pieces

await_ends_example :
    (result : Result CallError (Reply × Stream)) × (await [] 7 1 pieces ≡ some result)
unfolding all_bytes arriving
await_ends_example = await_ends [] 7 1 pieces (omega arith)

auth_line_lem_example :
    (hex : List ℕ) × (auth_line (codes "1000")
      ≡ some (0 ∷ (codes "AUTH EXTERNAL " ++ (hex ++ 13 ∷ 10 ∷ []))))
    × (unhex hex ≡ codes "1000")
    × (length hex ≡ 2 * length (codes "1000"))
auth_line_lem_example =
    auth_line_lem (codes "1000") (omega arith, (omega arith, (omega arith, (omega arith, tt))))
      (omega arith)

bus-IsName : IsName (codes "/bus")
unfolding IsName
bus-IsName = (
  (omega arith, omega arith),
  ((omega arith, omega arith), ((omega arith, omega arith), ((omega arith, omega arith), tt))),
)

pick_unix_socket_abstract_example :
    pick_unix_socket (codes "unix:abstract=" ++ codes "/bus") ≡ some (true, b'=' ∷ codes "/bus")
pick_unix_socket_abstract_example = pick_unix_socket_abstract (codes "/bus") bus-IsName
