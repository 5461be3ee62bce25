-- ===== src/Dbus/Replies.antt =====
-- The messages that arrive behind a call of tools/src/dbus_client.c: signals, and the reply,
-- in the buffer or still to come.
use lg_magic.Dbus.Call.{CallError, Message, Reply, Step, answered, signal_passed, await}
use lg_magic.Dbus.FieldList.{HeaderField, AreFields, fields_bytes, told}
use lg_magic.Dbus.Frame.{fixed_bytes}
use lg_magic.Dbus.Stream.{Stream, all_bytes, ending}
use lg_magic.Dbus.Writer.{pad_bytes}
use lg_magic.Prelude.Result.{Result}
use lg_magic.Prelude.{ℕ, ◌+◌, ◌≤◌, ◌≡◌, Option, some, List, [], ◌∷◌, ◌++◌, length}

-- A message in the format of D-Bus.
pub record Frame : Type 0 where
  pub type : ℕ
  pub serial : ℕ
  pub fields : List HeaderField
  pub body : List ℕ

-- Its header fields, which start at byte 16, and the padding behind them.
abbrev pub header_of : Frame → List ℕ
header_of f = fields_bytes 16 f.fields

abbrev pub pads_of : Frame → List ℕ
pads_of f = pad_bytes 8 8 (16 + length (header_of f))

unfoldable pub frame_bytes : Frame → List ℕ
frame_bytes f =
    fixed_bytes f.type (length f.body) f.serial (length (header_of f))
    ++ (header_of f ++ (pads_of f ++ f.body))

unfoldable pub frame_size : Frame → ℕ
frame_size f = 16 + length (header_of f ++ (pads_of f ++ f.body))

-- A frame within MAX_MESSAGE whose fields the format can hold.
unfoldable pub IsFrame : Frame → Type 0
IsFrame f = AreFields f.fields × (16 + length (header_of f) + length f.body ≤ 1048576)

unfoldable pub frames_bytes : List Frame → List ℕ
frames_bytes [] = []
frames_bytes (f ∷ fs) = frame_bytes f ++ frames_bytes fs

unfoldable pub AreSignals : List Frame → Type 0
AreSignals [] = Unit
AreSignals (f ∷ fs) = (f.type ≡ 4) × IsFrame f × AreSignals fs

-- The fields of the return to the call of that serial, with a value of that signature.
unfoldable pub Answers : Frame → ℕ → List ℕ → Type 0
Answers f serial sig =
    (f.type ≡ 2) × ((told f.fields).reply_serial ≡ serial) × ((told f.fields).signature ≡ some sig)

message_of : Frame → Message
message_of f = record { type = f.type; fields = header_of f; body = f.body; size = frame_size f }

-- A stream whose bytes are those, and that ends as another does.
unfoldable pub Has : List ℕ → Stream → Stream → Type 0
Has more s after = (all_bytes after ≡ more) × (ending after.coming ≡ ending s.coming)

-- The loop of `bus_call`, behind the reading of a message.
await_on : List ℕ → ℕ → ℕ → Step → Option (Result CallError (Reply × Stream))
await_on failed fuel serial step = elim step [
  | answered result ↦ some result
  | signal_passed after ↦ await failed fuel serial after
]
