-- ===== src/Evdev/Describe.antt =====
-- What a run of events of tools/src/evdev.c holds: its keys, turns, counter and axes.
use lg_magic.Evdev.{
  EvdevEvent, ev_key, ev_wheel, ev_abs, ev_serial, ev_syn, EvdevImu, keys_size, set_axis, add_key,
}
use lg_magic.Kernel.{Axis, abs_x, abs_y, abs_z, abs_rx, abs_ry, abs_rz}
use lg_magic.Pipeline.{KeyEvent}
use lg_magic.Prelude.{
  ℕ, zero, suc, Bool-cases, inl, inr, length-append, ◌≤◌, ◌≡◌, refl, ap, ◌∙◌, sym, Bool, true,
  false, List, [], ◌∷◌, ◌++◌, take, ltb, if◌then◌else◌, length, arith,
}
use lg_magic.Prelude.Int.{ℤ, pos, negsuc, ◌+ℤ◌}
use lg_magic.Prelude.Three.{Three}

abbrev pub is_syn : EvdevEvent → Bool
is_syn ev_syn = true
is_syn e = false

-- The key events, in order.
unfoldable pub keys_of : List EvdevEvent → List KeyEvent
keys_of [] = []
keys_of (ev_key code value ∷ es) = record { code = code; value = value } ∷ keys_of es
keys_of (e ∷ es) = keys_of es

-- The turns of the wheel, added up.
unfoldable pub wheel_of : List EvdevEvent → ℤ
wheel_of [] = pos 0
wheel_of (ev_wheel v ∷ es) = v +ℤ wheel_of es
wheel_of (e ∷ es) = wheel_of es

-- The last counter, or else the one given.
unfoldable pub counter_of : List EvdevEvent → ℕ → ℕ
counter_of [] c = c
counter_of (ev_serial d ∷ es) c = counter_of es d
counter_of (e ∷ es) c = counter_of es c

abbrev pub axis_eq : Axis → Axis → Bool
axis_eq abs_x abs_x = true
axis_eq abs_y abs_y = true
axis_eq abs_z abs_z = true
axis_eq abs_rx abs_rx = true
axis_eq abs_ry abs_ry = true
axis_eq abs_rz abs_rz = true
axis_eq a b = false

-- The last value of an axis, or else the one given.
unfoldable pub axis_of : Axis → List EvdevEvent → ℤ → ℤ
axis_of a [] v = v
axis_of a (ev_abs b w ∷ es) v = axis_of a es (if axis_eq b a then w else v)
axis_of a (e ∷ es) v = axis_of a es v

-- The place of an axis in a device or a frame.
abbrev pub place : Axis → Three ℤ → Three ℤ → ℤ
place abs_x accel gyro = accel.at0
place abs_y accel gyro = accel.at1
place abs_z accel gyro = accel.at2
place abs_rx accel gyro = gyro.at0
place abs_ry accel gyro = gyro.at1
place abs_rz accel gyro = gyro.at2

pub place-set_axis :
    (dev : EvdevImu) (a b : Axis) (v : ℤ)
    → place a (set_axis dev b v).accel (set_axis dev b v).gyro
      ≡ (if axis_eq b a then v else place a dev.accel dev.gyro)
unfolding set_axis
place-set_axis dev abs_x b v = ground arith
place-set_axis dev abs_y b v = ground arith
place-set_axis dev abs_z b v = ground arith
place-set_axis dev abs_rx b v = ground arith
place-set_axis dev abs_ry b v = ground arith
place-set_axis dev abs_rz b v = ground arith

pub +ℤ_assoc : (a b c : ℤ) → (a +ℤ b) +ℤ c ≡ a +ℤ (b +ℤ c)
unfolding ◌+ℤ◌
+ℤ_assoc (pos a) (pos b) (pos c) = ground arith
+ℤ_assoc (pos a) (pos b) (negsuc c) = ground arith
+ℤ_assoc (pos a) (negsuc b) (pos c) = ground arith
+ℤ_assoc (pos a) (negsuc b) (negsuc c) = ground arith
+ℤ_assoc (negsuc a) (pos b) (pos c) = ground arith
+ℤ_assoc (negsuc a) (pos b) (negsuc c) = ground arith
+ℤ_assoc (negsuc a) (negsuc b) (pos c) = ground arith
+ℤ_assoc (negsuc a) (negsuc b) (negsuc c) = ground arith

pub +ℤ_zero : (a : ℤ) → a +ℤ pos 0 ≡ a
unfolding ◌+ℤ◌
+ℤ_zero (pos a) = ground arith
+ℤ_zero (negsuc a) = ground arith

pub zero_+ℤ : (a : ℤ) → pos 0 +ℤ a ≡ a
unfolding ◌+ℤ◌
zero_+ℤ (pos a) = ground arith
zero_+ℤ (negsuc a) = ground arith

pub take-append_fits : {A : Type 0} (n : ℕ) (xs : List A) → length xs ≤ n → take n (xs ++ []) ≡ xs
take-append_fits zero [] h = refl
take-append_fits zero (x ∷ xs) h = absurd (omega arith)
take-append_fits (suc n) [] h = refl
take-append_fits (suc n) (x ∷ xs) h = ap (λ l. x ∷ l) (take-append_fits n xs (omega arith))

take-append_full :
    {A : Type 0} (n : ℕ) (xs ys : List A) → n ≤ length xs → take n (xs ++ ys) ≡ take n xs
take-append_full zero xs ys h = refl
take-append_full (suc n) [] ys h = absurd (omega arith)
take-append_full (suc n) (x ∷ xs) ys h = ap (λ l. x ∷ l) (take-append_full n xs ys (omega arith))

append_snoc : {A : Type 0} (xs : List A) (x : A) (ys : List A) → (xs ++ x ∷ []) ++ ys ≡ xs ++ x ∷ ys
append_snoc [] x ys = refl
append_snoc (z ∷ xs) x ys = ap (λ l. z ∷ l) (append_snoc xs x ys)

module _ (keys : List KeyEvent) (code value : ℕ) where
  abbrev pressed : KeyEvent
  pressed = record { code = code; value = value }

  pub take-add_key :
      (later : List KeyEvent)
      → take keys_size (add_key keys code value ++ later) ≡ take keys_size (keys ++ pressed ∷ later)
  unfolding add_key
  take-add_key later = elim (Bool-cases (ltb (length keys) keys_size)) [
    | inl room ↦ rw room (ap (take keys_size) (append_snoc keys pressed later))
    | inr full ↦
        let enough : keys_size ≤ length keys = ground arith in
        rw full (
          take-append_full keys_size keys later enough
          ∙ sym (take-append_full keys_size keys (pressed ∷ later) enough))
  ]

  pub length-add_key : length keys ≤ keys_size → length (add_key keys code value) ≤ keys_size
  unfolding add_key
  length-add_key fits = ground (arith, length-append keys (pressed ∷ []))
