-- ===== src/Kernel/Buttons.antt =====
-- `lg_btn_map` of kernel/lg_magic_main.c: the code that the remote sends, and the macro of the
-- keycode, by its name in <linux/input-event-codes.h>.
use Prim.Native.String.{String}
use lg_magic.Prelude.{ℕ, List, [], ◌∷◌}

-- LGMAGIC_CODE_WHEEL
abbrev pub code_wheel : ℕ
code_wheel = 0x8044

abbrev pub lg_btn_map : List (ℕ × String)
lg_btn_map =
    (0x8000, "KEY_POWER")
    ∷ (0x8099, "KEY_SLEEP")
    ∷ (0x8010, "KEY_0")
    ∷ (0x8011, "KEY_1")
    ∷ (0x8012, "KEY_2")
    ∷ (0x8013, "KEY_3")
    ∷ (0x8014, "KEY_4")
    ∷ (0x8015, "KEY_5")
    ∷ (0x8016, "KEY_6")
    ∷ (0x8017, "KEY_7")
    ∷ (0x8018, "KEY_8")
    ∷ (0x8019, "KEY_9")
    ∷ (code_wheel, "KEY_ENTER")
    ∷ (code_wheel, "BTN_LEFT")
    ∷ (0x8053, "KEY_LIST")
    ∷ (0x8045, "KEY_MENU")
    ∷ (0x8002, "KEY_VOLUMEUP")
    ∷ (0x8003, "KEY_VOLUMEDOWN")
    ∷ (0x8009, "KEY_MUTE")
    ∷ (0x808b, "KEY_VOICECOMMAND")
    ∷ (0x807c, "KEY_HOME")
    ∷ (0x8043, "KEY_SETUP")
    ∷ (0x8028, "KEY_BACK")
    ∷ (0x80ab, "KEY_PROGRAM")
    ∷ (0x805d, "KEY_MEDIA")
    ∷ (0x800b, "KEY_TV")
    ∷ (0x8098, "KEY_CONTEXT_MENU")
    ∷ (0x8001, "KEY_CHANNELDOWN")
    ∷ (0x8072, "KEY_RED")
    ∷ (0x8071, "KEY_GREEN")
    ∷ (0x8063, "KEY_YELLOW")
    ∷ (0x8061, "KEY_BLUE")
    ∷ (0x8081, "KEY_VIDEO")
    ∷ (0x80b0, "KEY_PLAY")
    ∷ (0x80ba, "KEY_PAUSE")
    ∷ (0x8040, "KEY_UP")
    ∷ (0x8041, "KEY_DOWN")
    ∷ (0x8006, "KEY_RIGHT")
    ∷ (0x8007, "KEY_LEFT")
    ∷ []
