-- ===== src/Keymap/Tables.antt =====
-- The tables of tools/src/keymap.c, row by row in the source's order.
use Prim.Native.String.{String}
use lg_magic.Prelude.{ℕ, List, [], ◌∷◌}

abbrev pub key_names : List (ℕ × String)
key_names =
    (28, "KEY_ENTER")
    ∷ (11, "KEY_0")
    ∷ (2, "KEY_1")
    ∷ (3, "KEY_2")
    ∷ (4, "KEY_3")
    ∷ (5, "KEY_4")
    ∷ (6, "KEY_5")
    ∷ (7, "KEY_6")
    ∷ (8, "KEY_7")
    ∷ (9, "KEY_8")
    ∷ (10, "KEY_9")
    ∷ (103, "KEY_UP")
    ∷ (108, "KEY_DOWN")
    ∷ (105, "KEY_LEFT")
    ∷ (106, "KEY_RIGHT")
    ∷ (116, "KEY_POWER")
    ∷ (142, "KEY_SLEEP")
    ∷ (115, "KEY_VOLUMEUP")
    ∷ (114, "KEY_VOLUMEDOWN")
    ∷ (113, "KEY_MUTE")
    ∷ (582, "KEY_VOICECOMMAND")
    ∷ (102, "KEY_HOME")
    ∷ (141, "KEY_SETUP")
    ∷ (158, "KEY_BACK")
    ∷ (139, "KEY_MENU")
    ∷ (395, "KEY_LIST")
    ∷ (362, "KEY_PROGRAM")
    ∷ (226, "KEY_MEDIA")
    ∷ (377, "KEY_TV")
    ∷ (438, "KEY_CONTEXT_MENU")
    ∷ (403, "KEY_CHANNELDOWN")
    ∷ (398, "KEY_RED")
    ∷ (399, "KEY_GREEN")
    ∷ (400, "KEY_YELLOW")
    ∷ (401, "KEY_BLUE")
    ∷ (393, "KEY_VIDEO")
    ∷ (207, "KEY_PLAY")
    ∷ (119, "KEY_PAUSE")
    ∷ (272, "BTN_LEFT")
    ∷ (273, "BTN_RIGHT")
    ∷ (274, "BTN_MIDDLE")
    ∷ (1, "KEY_ESC")
    ∷ (15, "KEY_TAB")
    ∷ (57, "KEY_SPACE")
    ∷ (128, "KEY_STOP")
    ∷ (352, "KEY_OK")
    ∷ (174, "KEY_EXIT")
    ∷ (407, "KEY_NEXT")
    ∷ (412, "KEY_PREVIOUS")
    ∷ (104, "KEY_PAGEUP")
    ∷ (109, "KEY_PAGEDOWN")
    ∷ []

abbrev pub lg_button_codes : List (ℕ × String)
lg_button_codes =
    (0x0000, "None")
    ∷ (0x8000, "POWER")
    ∷ (0x8099, "POWER2")
    ∷ (0x8010, "0")
    ∷ (0x8011, "1")
    ∷ (0x8012, "2")
    ∷ (0x8013, "3")
    ∷ (0x8014, "4")
    ∷ (0x8015, "5")
    ∷ (0x8016, "6")
    ∷ (0x8017, "7")
    ∷ (0x8018, "8")
    ∷ (0x8019, "9")
    ∷ (0x8044, "WHEEL_PRESS")
    ∷ (0x8053, "LIST")
    ∷ (0x8045, "...")
    ∷ (0x8002, "VOL+")
    ∷ (0x8003, "VOL-")
    ∷ (0x8009, "MUTE")
    ∷ (0x808b, "MIC")
    ∷ (0x807c, "HOME")
    ∷ (0x8043, "SETTINGS")
    ∷ (0x8028, "BACK")
    ∷ (0x80ab, "GUIDE")
    ∷ (0x805d, "STREAMING")
    ∷ (0x800b, "INPUT")
    ∷ (0x8098, "STB MENU")
    ∷ (0x8001, "CH-")
    ∷ (0x8072, "RED")
    ∷ (0x8071, "GREEN")
    ∷ (0x8063, "YELLOW")
    ∷ (0x8061, "BLUE")
    ∷ (0x8081, "MOVIES")
    ∷ (0x80b0, "PLAY")
    ∷ (0x80ba, "PAUSE")
    ∷ (0x8040, "UP")
    ∷ (0x8041, "DOWN")
    ∷ (0x8006, "RIGHT")
    ∷ (0x8007, "LEFT")
    ∷ []

-- `struct keymap_default_entry`: the code that the remote sends, and the keycode of the kernel.
abbrev pub default_map : List (ℕ × ℕ)
default_map =
    (0x8000, 116)
    ∷ (0x8099, 142)
    ∷ (0x8010, 11)
    ∷ (0x8011, 2)
    ∷ (0x8012, 3)
    ∷ (0x8013, 4)
    ∷ (0x8014, 5)
    ∷ (0x8015, 6)
    ∷ (0x8016, 7)
    ∷ (0x8017, 8)
    ∷ (0x8018, 9)
    ∷ (0x8019, 10)
    ∷ (0x8044, 28)
    ∷ (0x8053, 395)
    ∷ (0x8045, 139)
    ∷ (0x8002, 115)
    ∷ (0x8003, 114)
    ∷ (0x8009, 113)
    ∷ (0x808b, 582)
    ∷ (0x807c, 102)
    ∷ (0x8043, 141)
    ∷ (0x8028, 158)
    ∷ (0x80ab, 362)
    ∷ (0x805d, 226)
    ∷ (0x800b, 377)
    ∷ (0x8098, 438)
    ∷ (0x8001, 403)
    ∷ (0x8072, 398)
    ∷ (0x8071, 399)
    ∷ (0x8063, 400)
    ∷ (0x8061, 401)
    ∷ (0x8081, 393)
    ∷ (0x80b0, 207)
    ∷ (0x80ba, 119)
    ∷ (0x8040, 103)
    ∷ (0x8041, 108)
    ∷ (0x8006, 106)
    ∷ (0x8007, 105)
    ∷ []
