-- ===== src/Uinput.antt =====
-- The emitters of tools/src/uinput.c: the events that each writes to its device.
use lg_magic.Prelude.{ℕ, ◌^◌, ◌%◌, List, [], ◌∷◌, ◌++◌, if◌then◌else◌}
use lg_magic.Prelude.Int.{ℤ, is_zero_ℤ}

pub data RelCode : Type 0 where
  rel_x rel_y rel_wheel rel_wheel_hi_res : RelCode

-- `struct input_event`: EV_KEY, EV_REL, and EV_SYN with SYN_REPORT.
pub data Event : Type 0 where
  ev_key : ℕ → ℕ → Event
  ev_rel : RelCode → ℤ → Event
  ev_syn : Event

-- `(__u16)code`
unfoldable pub uinput_key : ℕ → ℕ → List Event
uinput_key code value = ev_key (code % 2 ^ 16) value ∷ ev_syn ∷ []

unfoldable pub uinput_scroll : ℤ → ℤ → List Event
uinput_scroll wheel hi_res =
    (if is_zero_ℤ wheel then [] else ev_rel rel_wheel wheel ∷ [])
    ++ ((if is_zero_ℤ hi_res then [] else ev_rel rel_wheel_hi_res hi_res ∷ []) ++ ev_syn ∷ [])

unfoldable pub uinput_move : ℤ → ℤ → List Event
uinput_move dx dy = ev_rel rel_x dx ∷ ev_rel rel_y dy ∷ ev_syn ∷ []
