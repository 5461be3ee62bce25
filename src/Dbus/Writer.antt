-- ===== src/Dbus/Writer.antt =====
-- The writer of bytes of tools/src/dbus_client.c, and the messages of method calls.
use lg_magic.Dbus.{DbusArg}
use lg_magic.Prelude.{
  ℕ, zero, suc, ◌+◌, ◌-◌, ◌/◌, ◌%◌, Bool, true, false, ◌||◌, Option, none, some, List, [], ◌∷◌,
  ◌++◌, ◌==◌, ltb, if◌then◌else◌, length, take, set,
}

-- `struct wb`: the bytes written, and how many they were before the last padding. The length of
-- `b` is the field `n`.
pub record Wb : Type 0 where
  pub b : List ℕ
  pub nodepad : ℕ
  pub oom : Bool

-- `struct wb w = { 0 };`
abbrev pub wb_empty : Wb
wb_empty = record { b = []; nodepad = 0; oom = false }

unfoldable pub wb_put : Wb → List ℕ → Wb
wb_put w p = if w.oom then w else record { b = w.b ++ p; nodepad = length (w.b ++ p); oom = false }

unfoldable pub wb_u8 : Wb → ℕ → Wb
wb_u8 w v = wb_put w (v % 256 ∷ [])

-- The four bytes of `wb_u32`, and the eight of `wb_u64`.
abbrev pub u32_bytes : ℕ → List ℕ
u32_bytes v = v % 256 ∷ v / 256 % 256 ∷ v / 65536 % 256 ∷ v / 16777216 % 256 ∷ []

unfoldable pub wb_u32 : Wb → ℕ → Wb
wb_u32 w v = wb_put w (u32_bytes v)

abbrev pub u64_bytes : ℕ → List ℕ
u64_bytes v = u32_bytes v ++ u32_bytes (v / 4294967296)

unfoldable pub wb_u64 : Wb → ℕ → Wb
wb_u64 w v = wb_put w (u64_bytes v)

-- The zeros that the loop of `wb_pad` puts behind `n` bytes, in at most `fuel` rounds.
unfoldable pub pad_bytes : ℕ → ℕ → ℕ → List ℕ
pad_bytes zero align n = []
pad_bytes (suc fuel) align n =
    let rest = pad_bytes fuel align (suc n) in if n % align == 0 then [] else 0 ∷ rest

-- `wb_pad`. The remainder passes 0 within `align` rounds. With `oom` set no byte is put, and where
-- bytes are missing the loop of the code does not end; here the writer then stays as it is.
unfoldable pub wb_pad : Wb → ℕ → Wb
wb_pad w align =
    let padded = wb_put w (pad_bytes align align (length w.b)) in
    record { b = padded.b; nodepad = length w.b; oom = padded.oom }

abbrev pub out_of_memory : Wb → Wb
out_of_memory w = record { b = w.b; nodepad = w.nodepad; oom = true }

-- `wb_str`; 268435455 is 0x0fffffff.
unfoldable pub wb_str : Wb → List ℕ → Wb
wb_str w s =
    if ltb 268435455 (length s)
    then out_of_memory w
    else wb_pad (wb_u8 (wb_put (wb_u32 w (length s)) s) 0) 4

unfoldable pub wb_sig : Wb → List ℕ → Wb
wb_sig w sig =
    if ltb 255 (length sig) then out_of_memory w else wb_u8 (wb_put (wb_u8 w (length sig)) sig) 0

-- `body_add_arg`; `none` is -1.
unfoldable pub body_add_arg : Wb → DbusArg → Option Wb
body_add_arg w a =
    if a.type == b's'
    then some (wb_str (wb_pad w 4) a.s)
    else if a.type == b'd'
    then some (wb_u64 (wb_pad w 8) a.d)
    else if a.type == b'u'
    then some (wb_u32 (wb_pad w 4) a.u)
    else none

-- `hdr_field`.
unfoldable pub hdr_field : Wb → ℕ → ℕ → (Wb → List ℕ → Wb) → List ℕ → Wb
hdr_field w code sig val text =
    let start = wb_u8 (wb_u8 (wb_u8 (wb_u8 (wb_pad w 8) code) 1) sig) 0 in
    let aligned = if sig == b'o' || (sig == b's' || sig == b'u') then wb_pad start 4 else start in
    val aligned text

-- The loop of `build_call` over the signature. There is an argument for each character; where one
-- is missing, the code reads outside of `args`.
unfoldable pub add_args : Wb → List ℕ → List DbusArg → Option Wb
add_args body [] args = some body
add_args body (c ∷ sig) [] = none
add_args body (c ∷ sig) (a ∷ args) = elim (body_add_arg body a) [
  | none ↦ none
  | some more ↦ add_args more sig args
]

-- The fixed part of the header, with 0 for the length of the fields.
unfoldable pub fixed_header : ℕ → ℕ → Wb
fixed_header body_len serial =
    let start = wb_u8 (wb_u8 (wb_u8 (wb_u8 wb_empty b'l') 1) 0) 1 in
    wb_u32 (wb_u32 (wb_u32 start body_len) serial) 0

-- The header fields of `build_call`, with those codes and types.
unfoldable pub call_fields : Wb → List ℕ → List ℕ → List ℕ → List ℕ → List ℕ → Wb
call_fields hdr dest path iface member sig =
    let to_path = hdr_field hdr 1 b'o' wb_str path in
    let to_iface = hdr_field to_path 2 b's' wb_str iface in
    let to_member = hdr_field to_iface 3 b's' wb_str member in
    let to_dest = hdr_field to_member 6 b's' wb_str dest in
    elim sig [ [] ↦ to_dest | c ∷ cs ↦ hdr_field to_dest 8 b'g' wb_sig (c ∷ cs) ]

-- The four bytes of the length of the fields, written over those at `at`.
unfoldable pub patch : List ℕ → ℕ → ℕ → List ℕ
patch b at v =
    set (set (set (set b at (v % 256)) (at + 1) (v / 256 % 256)) (at + 2) (v / 65536 % 256))
      (at + 3) (v / 16777216 % 256)

-- The header with its fields, patched and padded; the length of the fields stands at byte 12.
unfoldable pub patch_fields : Wb → Wb
patch_fields hdr =
    wb_pad
      (record { b = patch hdr.b 12 (hdr.nodepad - 12 - 4); nodepad = hdr.nodepad; oom = hdr.oom }) 8

-- The end of `build_call`; 1048576 is MAX_MESSAGE.
unfoldable pub join_message : Wb → Wb → Option (List ℕ)
join_message hdr body =
    if hdr.oom || (body.oom || ltb 1048576 (length hdr.b + body.nodepad))
    then none
    else some (hdr.b ++ take body.nodepad body.b)

-- `build_call` behind its loop.
unfoldable pub call_with :
    ℕ → List ℕ → List ℕ → List ℕ → List ℕ → List ℕ → Option Wb → Option (List ℕ)
call_with serial dest path iface member sig none = none
call_with serial dest path iface member sig (some body) =
    join_message
      (patch_fields (call_fields (fixed_header body.nodepad serial) dest path iface member sig))
      body

-- `build_call`; `none` is -1, or no return where `oom` is set before a padding.
unfoldable pub build_call :
    ℕ → List ℕ → List ℕ → List ℕ → List ℕ → List ℕ → List DbusArg → Option (List ℕ)
build_call serial dest path iface member sig args =
    call_with serial dest path iface member sig (add_args wb_empty sig args)
