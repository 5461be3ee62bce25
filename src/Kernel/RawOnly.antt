-- ===== src/Kernel/RawOnly.antt =====
-- kernel/lg_magic_main.c under `raw_only=1`, against the default map of tools/src/keymap.c.
use Prim.Native.String.{String}
use lg_magic.Kernel.{
  InputEvent, Report, hid, imu, key, rel, rel_wheel, sync, Params, Drvdata, find_button,
  press_button, report_button, report_wheel, report_airmouse, report_imu, report_sync,
  decode_report, raw_event, report_btn_code, report_wheel_step,
}
use lg_magic.Kernel.Buttons.{lg_btn_map}
use lg_magic.Keymap.{code_of, keycode_in, name_to_code, default_keycode}
use lg_magic.Keymap.Defaults.{is_some}
use lg_magic.Keymap.RoundTrip.{is_code, is_code_sound}
use lg_magic.Keymap.Tables.{default_map}
use lg_magic.Prelude.{
  ℕ, ◌≡◌, refl, ap, Bool, true, false, not, Option, none, some, List, [], ◌∷◌, ◌++◌, arith, ◌==◌,
  if◌then◌else◌, Bool-cases, Option-cases, inl, inr, length, get_or, ◌&&◌,
}
use mathlib.Core.List.{append-nil}
use lg_magic.Prelude.Float.{Floats}
use lg_magic.Prelude.Int.{ℤ, pos, is_zero_ℤ}
use lg_magic.Prelude.Three.{Three}

-- What both sides assume of <linux/input-event-codes.h>: the macros have the values that
-- tools/src/keymap.c writes down.
abbrev pub IsUapi : (String → ℕ) → Type 0
IsUapi keycode = (c : ℕ) (n : String) → name_to_code (some n) ≡ some c → keycode n ≡ c

is_numbered : Option (ℕ × String) → ℕ → Bool
is_numbered none k = false
is_numbered (some (c, n)) k = is_code (name_to_code (some n)) k

-- The kernel finds a button for every row of the default map, and its macro has the row's number.
rows_found : List (ℕ × ℕ) → Bool
rows_found [] = true
rows_found ((c, k) ∷ rows) = is_numbered (find_button lg_btn_map c) k && rows_found rows

-- The default map has every button of the kernel.
rows_known : List (ℕ × String) → Bool
rows_known [] = true
rows_known ((c, n) ∷ rows) = is_some (default_keycode c) && rows_known rows

rows_found_sound :
    (rows : List (ℕ × ℕ)) (c k : ℕ)
    → rows_found rows ≡ true
    → keycode_in rows c ≡ some k
    → is_numbered (find_button lg_btn_map c) k ≡ true
unfolding rows_found keycode_in
rows_found_sound [] c k ok h = ground arith
rows_found_sound ((d, j) ∷ rows) c k ok h = ground (arith, rows_found_sound rows c k)

rows_known_sound :
    (rows : List (ℕ × String)) (c : ℕ) (row : ℕ × String)
    → rows_known rows ≡ true
    → find_button rows c ≡ some row
    → is_some (default_keycode c) ≡ true
unfolding rows_known find_button
rows_known_sound [] c row ok h = ground arith
rows_known_sound ((d, n) ∷ rows) c row ok h = ground (arith, rows_known_sound rows c row)

default_map_found : rows_found default_map ≡ true
unfolding rows_found is_numbered is_code find_button name_to_code code_of
default_map_found = refl

lg_btn_map_known : rows_known lg_btn_map ≡ true
unfolding rows_known is_some default_keycode keycode_in
lg_btn_map_known = refl

find_button-some :
    (c k : ℕ)
    → default_keycode c ≡ some k
    → (row : ℕ × String) × (find_button lg_btn_map c ≡ some row)
      × (name_to_code (some row.1) ≡ some k)
unfolding default_keycode is_numbered
find_button-some c k h =
    go (find_button lg_btn_map c) refl (rows_found_sound default_map c k default_map_found h)
  where
    go :
        (o : Option (ℕ × String))
        → find_button lg_btn_map c ≡ o
        → is_numbered o k ≡ true
        → (row : ℕ × String) × (find_button lg_btn_map c ≡ some row)
          × (name_to_code (some row.1) ≡ some k)
    go none e numbered = absurd (ground arith)
    go (some row) e numbered = (row, e, is_code_sound (name_to_code (some row.1)) k numbered)

find_button-none : (c : ℕ) → default_keycode c ≡ none → find_button lg_btn_map c ≡ none
unfolding is_some
find_button-none c h = elim (Option-cases (find_button lg_btn_map c)) [
  | inl missing ↦ missing
  | inr (row, found) ↦
      absurd (ground (arith, rows_known_sound lg_btn_map c row lg_btn_map_known found))
]

-- The events on the HID device.
unfoldable pub hid_events : List Report → List InputEvent
hid_events [] = []
hid_events (hid e ∷ rs) = e ∷ hid_events rs
hid_events (imu e ∷ rs) = hid_events rs

abbrev pub presses : Option ℕ → List InputEvent
presses none = []
presses (some k) = key k true ∷ []

-- The events of a report in the words of tools/src/keymap.c: the key of the button before is
-- released and that of the default map pressed where the button changes, and the wheel turns.
unfoldable pub expected_events : (last_keycode last_btncode : ℕ) → List ℕ → List InputEvent
expected_events last_keycode last_btncode bytes =
    let btn_code = report_btn_code bytes in
    let wheel = report_wheel_step bytes in
    (if btn_code == last_btncode
      then []
      else key last_keycode false ∷ presses (default_keycode btn_code))
    ++ ((if is_zero_ℤ wheel then [] else rel rel_wheel wheel ∷ [])
        ++ (if btn_code == last_btncode && is_zero_ℤ wheel then [] else sync ∷ []))

hid_events-append : (rs ts : List Report) → hid_events (rs ++ ts) ≡ hid_events rs ++ hid_events ts
unfolding hid_events
hid_events-append [] ts = refl
hid_events-append (hid e ∷ rs) ts = rw (hid_events-append rs ts)
hid_events-append (imu e ∷ rs) ts = hid_events-append rs ts

default_keycode-zero : default_keycode 0 ≡ none
unfolding default_keycode keycode_in
default_keycode-zero = refl

module _ (fp : Floats) (keycode : String → ℕ) (p : Params) (raw : p.raw_only ≡ true) where
  press_row_raw :
      (d : Drvdata fp.Float) (row : ℕ × String)
      → hid_events (press_button fp keycode p d (some row)).1 ≡ key (keycode row.1) true ∷ []
  unfolding press_button hid_events
  press_row_raw d (c, n) = ground arith

  press_button_raw :
      (d : Drvdata fp.Float) (btn : ℕ)
      → IsUapi keycode
      → hid_events
          (press_button fp keycode p d (if btn == 0 then none else find_button lg_btn_map btn)).1
        ≡ presses (default_keycode btn)
  unfolding press_button hid_events
  press_button_raw d btn agree = elim (Option-cases (default_keycode btn)) [
    | inl unknown ↦ ground (arith, find_button-none btn unknown)
    | inr (k, known) ↦
        let (row, found, number) = find_button-some btn k known in
        ground (arith, default_keycode-zero, agree k row.1 number, press_row_raw d row)
  ]

  report_button_raw :
      (d : Drvdata fp.Float) (btn : ℕ)
      → IsUapi keycode
      → hid_events (report_button fp keycode p d btn).1 ≡ (
          if btn == d.last_btncode
          then []
          else key d.last_keycode false ∷ presses (default_keycode btn))
  unfolding report_button hid_events
  report_button_raw d btn agree = elim (Bool-cases (btn == d.last_btncode)) [
    | inl same ↦ rw same
    | inr changed ↦ rw changed (
        ap (λ rest. key d.last_keycode false ∷ rest)
          (press_button_raw (record d { last_keycode = 0; last_btncode = btn }) btn agree))
  ]

  report_wheel_raw :
      (d : Drvdata fp.Float) (wheel : ℤ)
      → hid_events (report_wheel fp keycode p d wheel)
        ≡ (if is_zero_ℤ wheel then [] else rel rel_wheel wheel ∷ [])
  unfolding report_wheel hid_events
  report_wheel_raw d wheel = ground arith

  report_imu_raw :
      (counter : ℕ) (gyro accel : Three ℤ)
      → hid_events (report_imu fp keycode p counter gyro accel) ≡ []
  unfolding report_imu hid_events
  report_imu_raw counter gyro accel = ground arith

  report_airmouse_raw :
      (d : Drvdata fp.Float) (gyro : Three ℤ)
      → report_airmouse fp keycode p d gyro ≡ (d, [], (pos 0, pos 0))
  unfolding report_airmouse
  report_airmouse_raw d gyro = ground arith

  report_sync_raw :
      (same : Bool) (wheel : ℤ)
      → hid_events (report_sync fp keycode (not same) wheel (pos 0, pos 0))
        ≡ (if same && is_zero_ℤ wheel then [] else sync ∷ [])
  unfolding report_sync hid_events
  report_sync_raw same wheel = ground arith

  decode_report_raw :
      (d : Drvdata fp.Float) (bytes : List ℕ)
      → IsUapi keycode
      → hid_events (decode_report fp keycode p d bytes).1
        ≡ expected_events d.last_keycode d.last_btncode bytes
  unfolding decode_report expected_events hid_events
  decode_report_raw d bytes agree = simp (
    report_airmouse_raw,
    hid_events-append,
    report_button_raw d (report_btn_code bytes) agree,
    report_wheel_raw,
    report_sync_raw,
    report_imu_raw,
    append-nil,
  )

  -- Under `raw_only=1`, a report of the remote that a driver with its devices set up reads gives on
  -- the HID device exactly these events: where the button changes, the key of the button before is
  -- released, and the keycode that `keymap_default_keycode` gives the new button, if any, pressed;
  -- a REL_WHEEL step if the wheel moved; and a SYN if either happened. In particular there is no
  -- pointer motion and no key for the wheel. The values of the macros are those of keymap.c.
  pub raw_event_raw_only :
      (d : Drvdata fp.Float) (bytes : List ℕ)
      → IsUapi keycode
      → d.input_hid ≡ true
      → d.input_imu ≡ true
      → length bytes ≡ 20
      → get_or bytes 0 0 ≡ 0xfd
      → hid_events (raw_event fp keycode p (some d) bytes).1
        ≡ expected_events d.last_keycode d.last_btncode bytes
  unfolding raw_event
  raw_event_raw_only d bytes agree hid_set imu_set size tag =
      ground (arith, decode_report_raw d bytes agree)
