-- ===== src/Kernel/Keys.antt =====
-- Which keys of the HID device are down, after the reports of kernel/lg_magic_main.c.
use Prim.Native.String.{String}
use lg_magic.Kernel.{
  Report, hid, imu, key, rel, msc_serial, abs, sync, Params, Drvdata, find_button, press_button,
  report_button, report_wheel, report_airmouse, report_imu, report_sync, decode_report, raw_event,
  report_btn_code, report_gyro, report_wheel_step,
}
use lg_magic.Kernel.Buttons.{lg_btn_map}
use lg_magic.Prelude.{
  ℕ, ◌≡◌, ◌≢◌, ◌⊎◌, refl, Bool, true, false, not, Option, none, some, List, [], ◌∷◌, ◌++◌, arith,
  ◌==◌, if◌then◌else◌, Bool-cases, inl, inr, ◌||◌, length, get_or,
}
use lg_magic.Prelude.Float.{Floats}
use lg_magic.Prelude.Int.{ℤ}
use lg_magic.Prelude.Three.{Three}

-- The input core's view of the keys: which are down.
abbrev pub Keys : Type 0
Keys = ℕ → Bool

abbrev pub update : Keys → ℕ → Bool → Keys
update s k v j = if k == j then v else s j

unfoldable pub replay : List Report → Keys → Keys
replay [] s = s
replay (hid (key k v) ∷ rs) s = replay rs (update s k v)
replay (hid (rel r v) ∷ rs) s = replay rs s
replay (hid (msc_serial n) ∷ rs) s = replay rs s
replay (hid (abs a v) ∷ rs) s = replay rs s
replay (hid sync ∷ rs) s = replay rs s
replay (imu e ∷ rs) s = replay rs s

-- Only the key of the last button is down, and none once the button is released.
abbrev pub IsBalanced : (last_keycode last_btncode : ℕ) → Keys → Type 0
IsBalanced last_keycode last_btncode s =
    (k : ℕ) → s k ≡ true → (k ≡ last_keycode) × (last_btncode ≢ 0)

-- The same of a driver that may have no data yet.
abbrev pub IsBalancedFor : {F : Type 0} → Option (Drvdata F) → Keys → Type 0
IsBalancedFor none s = Unit
IsBalancedFor (some d) s = IsBalanced d.last_keycode d.last_btncode s

pub replay-append : (rs ts : List Report) (s : Keys) → replay (rs ++ ts) s ≡ replay ts (replay rs s)
unfolding replay
replay-append [] ts s = refl
replay-append (hid (key k v) ∷ rs) ts s = replay-append rs ts (update s k v)
replay-append (hid (rel r v) ∷ rs) ts s = replay-append rs ts s
replay-append (hid (msc_serial n) ∷ rs) ts s = replay-append rs ts s
replay-append (hid (abs a v) ∷ rs) ts s = replay-append rs ts s
replay-append (hid sync ∷ rs) ts s = replay-append rs ts s
replay-append (imu e ∷ rs) ts s = replay-append rs ts s

module _ (fp : Floats) (keycode : String → ℕ) (p : Params) where
  press_button_keys :
      (d : Drvdata fp.Float) (row : Option (ℕ × String)) (s : Keys)
      → (row ≡ none) ⊎ (d.last_btncode ≢ 0)
      → ((k : ℕ) → s k ≡ false)
      → let (d', rs) = press_button fp keycode p d row in
        IsBalanced d'.last_keycode d'.last_btncode (replay rs s)
  unfolding press_button replay
  press_button_keys d none s nz up k h = ground (arith, up k)
  press_button_keys d (some (c, n)) s nz up k h = ground (arith, up k)

  released_up : (a b : ℕ) (s : Keys) → IsBalanced a b s → (k : ℕ) → update s a false k ≡ false
  released_up a b s bal k = ground (arith, bal k)

  row_or_zero :
      (btn : ℕ) (row : Option (ℕ × String)) → ((if btn == 0 then none else row) ≡ none) ⊎ (btn ≢ 0)
  row_or_zero btn row = ground arith

  report_button_keys :
      (d : Drvdata fp.Float) (btn : ℕ) (s : Keys)
      → IsBalanced d.last_keycode d.last_btncode s
      → let (d', rs) = report_button fp keycode p d btn in
        IsBalanced d'.last_keycode d'.last_btncode (replay rs s)
  unfolding report_button replay
  report_button_keys d btn s bal = elim (Bool-cases (btn == d.last_btncode)) [
    | inl same ↦ rw same bal
    | inr changed ↦ rw changed (
        press_button_keys (record d { last_keycode = 0; last_btncode = btn })
          (if btn == 0 then none else find_button lg_btn_map btn) (update s d.last_keycode false)
          (row_or_zero btn (find_button lg_btn_map btn))
          (released_up d.last_keycode d.last_btncode s bal))
  ]

  report_wheel_keys :
      (d : Drvdata fp.Float) (wheel : ℤ) (s : Keys) (a b : ℕ)
      → IsBalanced a b s
      → IsBalanced a b (replay (report_wheel fp keycode p d wheel) s)
  unfolding report_wheel replay
  report_wheel_keys d wheel s a b bal k h = ground (arith, bal k)

  report_airmouse_keys :
      (d : Drvdata fp.Float) (gyro : Three ℤ) (s : Keys)
      → replay (report_airmouse fp keycode p d gyro).1 s ≡ s
  unfolding report_airmouse replay
  report_airmouse_keys d gyro s = ground arith

  report_sync_keys :
      (changed : Bool) (wheel : ℤ) (mouse : ℤ × ℤ) (s : Keys)
      → replay (report_sync fp keycode changed wheel mouse) s ≡ s
  unfolding report_sync replay
  report_sync_keys changed wheel (x, y) s = ground arith

  report_imu_keys :
      (counter : ℕ) (gyro accel : Three ℤ) (s : Keys)
      → replay (report_imu fp keycode p counter gyro accel) s ≡ s
  unfolding report_imu replay
  report_imu_keys counter gyro accel s = ground arith

  report_airmouse_fields :
      (d : Drvdata fp.Float) (gyro : Three ℤ)
      → let d' = (report_airmouse fp keycode p d gyro).0 in
        (d'.last_keycode ≡ d.last_keycode) × (d'.last_btncode ≡ d.last_btncode)
  unfolding report_airmouse
  report_airmouse_fields d gyro = ground arith

  -- Behind the buttons and the wheel nothing changes a key.
  replay_decode :
      (buttons wheels : List Report) (d : Drvdata fp.Float) (gyro accel : Three ℤ) (changed : Bool)
      (w : ℤ) (counter : ℕ) (s : Keys)
      → let (d', moves, mouse) = report_airmouse fp keycode p d gyro in
        replay
          (buttons
            ++ (wheels
                ++ (moves
                    ++ (report_sync fp keycode changed w mouse
                        ++ report_imu fp keycode p counter gyro accel))))
          s
        ≡ replay wheels (replay buttons s)
  replay_decode buttons wheels d gyro accel changed w counter s =
      simp (replay-append, report_airmouse_keys, report_sync_keys, report_imu_keys)

  decode_report_keys :
      (d : Drvdata fp.Float) (bytes : List ℕ) (s : Keys)
      → IsBalanced d.last_keycode d.last_btncode s
      → let (d', rs) = decode_report fp keycode p d bytes in
        IsBalanced d'.last_keycode d'.last_btncode (replay rs s)
  unfolding decode_report
  decode_report_keys d bytes s bal =
      let (d₁, buttons) = report_button fp keycode p d (report_btn_code bytes) in
      let same = report_airmouse_fields d₁ (report_gyro bytes) in
      rw (same.0, same.1, replay_decode)
        (report_wheel_keys d₁ (report_wheel_step bytes) (replay buttons s) d₁.last_keycode
          d₁.last_btncode (report_button_keys d (report_btn_code bytes) s bal))

  -- An accepted report leaves the code of its button behind.
  decode_report_btncode :
      (d : Drvdata fp.Float) (bytes : List ℕ)
      → (decode_report fp keycode p d bytes).0.last_btncode ≡ report_btn_code bytes
  unfolding decode_report report_button
  decode_report_btncode d bytes =
      let (d₁, buttons) = report_button fp keycode p d (report_btn_code bytes) in
      let same = report_airmouse_fields d₁ (report_gyro bytes) in ground (arith, same)

  raw_event-IsBalanced :
      (d : Drvdata fp.Float) (bytes : List ℕ) (s : Keys)
      → IsBalanced d.last_keycode d.last_btncode s
      → let (d', rs) = raw_event fp keycode p (some d) bytes in IsBalancedFor d' (replay rs s)
  unfolding raw_event replay
  raw_event-IsBalanced d bytes s bal = elim (Bool-cases (not d.input_hid || not d.input_imu)) [
    | inl unready ↦ rw unready bal
    | inr ready ↦ elim (Bool-cases (not (length bytes == 20) || not (get_or bytes 0 0 == 0xfd))) [
      | inl foreign ↦ rw (ready, foreign) bal
      | inr ours ↦ rw (ready, ours) (decode_report_keys d bytes s bal)
    ]
  ]

  -- A report of the remote with button code 0, read by a driver whose devices are set up, leaves
  -- every key of the HID device up, if before it only the key of the last button was down.
  pub raw_event_release :
      (d : Drvdata fp.Float) (bytes : List ℕ) (s : Keys)
      → IsBalanced d.last_keycode d.last_btncode s
      → d.input_hid ≡ true
      → d.input_imu ≡ true
      → length bytes ≡ 20
      → get_or bytes 0 0 ≡ 0xfd
      → report_btn_code bytes ≡ 0
      → (k : ℕ) → replay (raw_event fp keycode p (some d) bytes).1 s k ≡ false
  unfolding raw_event
  raw_event_release d bytes s bal hid_set imu_set size tag released k =
      ground (arith, decode_report_keys d bytes s bal k, decode_report_btncode d bytes)

module _ (fp : Floats) (keycode : String → ℕ) where
  -- Reports one after another, each under the module parameters of its time.
  unfoldable pub run :
      List (Params × List ℕ) → Option (Drvdata fp.Float) → Keys → Option (Drvdata fp.Float) × Keys
  run [] d s = (d, s)
  run ((p, bytes) ∷ reports) d s =
      let (d', rs) = raw_event fp keycode p d bytes in run reports d' (replay rs s)

  -- Whatever the reports hold, in whatever mode of the module each is read: if at first only the
  -- key of the last button is down, and none where no button is, this holds at the end as well.
  pub run-IsBalanced :
      (reports : List (Params × List ℕ)) (d : Option (Drvdata fp.Float)) (s : Keys)
      → IsBalancedFor d s
      → let (d', s') = run reports d s in IsBalancedFor d' s'
  unfolding run replay raw_event
  run-IsBalanced [] d s bal = bal
  run-IsBalanced ((p, bytes) ∷ reports) none s bal = run-IsBalanced reports none s bal
  run-IsBalanced ((p, bytes) ∷ reports) (some d) s bal =
      let (d', rs) = raw_event fp keycode p (some d) bytes in
      run-IsBalanced reports d' (replay rs s) (raw_event-IsBalanced fp keycode p d bytes s bal)
