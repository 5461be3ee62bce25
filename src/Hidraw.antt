-- ===== src/Hidraw.antt =====
-- tools/src/hidraw.c: its own table of buttons, and how it takes a report of the remote apart.
use Prim.Native.String.{String}
use lg_magic.Keymap.{name_of}
use lg_magic.Prelude.{
  ℕ, ◌+◌, ◌*◌, Option, none, some, List, [], ◌∷◌, ltb, if◌then◌else◌, length, get_or,
}
use lg_magic.Prelude.Int.{ℤ, ◌+ℤ◌, signed8, signed16}

-- `button_codes`.
abbrev pub button_codes : List (ℕ × String)
button_codes =
    (0x0000, "None")
    ∷ (0x8000, "POWER")
    ∷ (0x8099, "POWER2")
    ∷ (0x8010, "0")
    ∷ (0x8011, "1")
    ∷ (0x8012, "2")
    ∷ (0x8013, "3")
    ∷ (0x8014, "4")
    ∷ (0x8015, "5")
    ∷ (0x8016, "6")
    ∷ (0x8017, "7")
    ∷ (0x8018, "8")
    ∷ (0x8019, "9")
    ∷ (0x8044, "WHEEL_PRESS")
    ∷ (0x8053, "LIST")
    ∷ (0x8045, "...")
    ∷ (0x8002, "VOL+")
    ∷ (0x8003, "VOL-")
    ∷ (0x8009, "MUTE")
    ∷ (0x808b, "MIC")
    ∷ (0x807c, "HOME")
    ∷ (0x8043, "SETTINGS")
    ∷ (0x8028, "BACK")
    ∷ (0x80ab, "GUIDE")
    ∷ (0x805d, "STREAMING")
    ∷ (0x800b, "INPUT")
    ∷ (0x8098, "STB MENU")
    ∷ (0x8001, "CH-")
    ∷ (0x8072, "RED")
    ∷ (0x8071, "GREEN")
    ∷ (0x8063, "YELLOW")
    ∷ (0x8061, "BLUE")
    ∷ (0x8081, "MOVIES")
    ∷ (0x80b0, "PLAY")
    ∷ (0x80ba, "PAUSE")
    ∷ (0x8040, "UP")
    ∷ (0x8041, "DOWN")
    ∷ (0x8006, "RIGHT")
    ∷ (0x8007, "LEFT")
    ∷ []

-- `button_name`; `none` is the text that it makes of an unknown code.
unfoldable pub button_name : ℕ → Option String
button_name code = name_of button_codes code

-- The numbers of bytes; `|` is `+`, since a byte is below 256.
unfoldable pub le16 : List ℕ → ℕ → ℕ
le16 d i = get_or d i 0 + get_or d (i + 1) 0 * 256

unfoldable pub be16 : List ℕ → ℕ → ℕ
be16 d i = get_or d i 0 * 256 + get_or d (i + 1) 0

unfoldable pub be16s : List ℕ → ℕ → ℤ
be16s d i = signed16 (get_or d i 0 * 256 + get_or d (i + 1) 0)

-- What `parse_fd` prints of a report that is long enough.
pub record FdReport : Type 0 where
  pub btn_code : ℕ
  pub name : Option String
  pub wheel : ℤ
  pub wheel_pos : ℤ
  pub counter : ℕ
  pub const_fd00 : ℕ
  pub points : List ℤ

-- `parse_fd`: what it prints, and the position of the wheel after it; a short payload is `none`.
unfoldable pub parse_fd : List ℕ → ℤ → Option FdReport × ℤ
parse_fd d wheel_pos =
    if ltb (length d) 20
    then (none, wheel_pos)
    else (let wheel = signed8 (get_or d 19 0) in
        let moved = wheel_pos +ℤ wheel in
        (
          some (record {
            btn_code = be16 d 17;
            name = button_name (be16 d 17);
            wheel = wheel;
            wheel_pos = moved;
            counter = le16 d 1;
            const_fd00 = le16 d 3;
            points = be16s d 5 ∷ be16s d 7 ∷ be16s d 9 ∷ be16s d 11 ∷ be16s d 13 ∷ be16s d 15 ∷ [];
          }),
          moved,
        ))
