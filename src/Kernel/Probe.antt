-- ===== src/Kernel/Probe.antt =====
-- How kernel/lg_magic_main.c finds the calibration of a remote when it is probed: the file with the
-- MAC address in its name, and the generic file. `request_firmware` is a parameter: the size of the
-- file and the calibration that its first 32 bytes hold, or `none` on an error.
use Prim.Native.Char.{code}
use Prim.Native.String.{String}
use lg_magic.Kernel.Airmouse.{Calib, validate_calib}
use lg_magic.Prelude.{
  ℕ, ◌≡◌, ◌⊎◌, refl, inl, inr, Bool, true, false, Option, none, some, List, [], ◌∷◌, ◌++◌, map,
  ◌==◌, leb, if◌then◌else◌, length, take, drop, Bool-cases, Option-cases,
}
use lg_magic.Prelude.Float.{Floats}
use lg_magic.Prelude.Int.{pos}
use lg_magic.Prelude.Three.{Three}

abbrev pub codes : String → List ℕ
codes String.[] = []
codes (String.◌∷◌ c s) = code c ∷ codes s

-- `lgmagic_sanitize_mac`: what it writes to `out`.
unfoldable pub sanitize_mac : List ℕ → List ℕ
sanitize_mac uniq = map (λ c. if c == b':' then b'_' else c) (take 17 uniq)

-- `addr_fw_name`, the MAC address written over its placeholder.
unfoldable pub firmware_name : List ℕ → List ℕ
unfolding sanitize_mac
firmware_name uniq =
    let mac = sanitize_mac uniq in
    codes "lg_magic_calib_" ++ (mac ++ drop (length mac) (codes "XX_XX_XX_XX_XX_XX.bin"))

abbrev pub Firmware : Type 0 → Type 0
Firmware F = List ℕ → Option (ℕ × Calib F)

module _ (fp : Floats) where
  -- What `memset` and `devm_kzalloc` leave: 0.0 everywhere.
  abbrev pub zero_calib : Calib fp.Float
  zero_calib =
      let o = fp.float_of_int (pos 0) in
      let z : Three fp.Float = record { at0 = o; at1 = o; at2 = o } in
      record { gyro_bias = z; gyro_scale = z; alpha = o; mouse_k = o }

  -- `lgmagic_load_fw`: whether it returns 0, and the calibration of the driver data after it.
  unfoldable pub load_fw : Firmware fp.Float → List ℕ → Calib fp.Float → Bool × Calib fp.Float
  load_fw firmware name calib = elim (firmware name) [
    | none ↦ (false, calib)
    | some (size, loaded) ↦
        if leb 32 size
        then if validate_calib fp loaded then (true, zero_calib) else (true, loaded)
        else (true, calib)
  ]

  -- The calibration with which `lgmagic_probe` leaves the driver data of a remote.
  unfoldable pub probe_calib : Firmware fp.Float → List ℕ → Calib fp.Float
  unfolding load_fw
  probe_calib firmware uniq =
      let (own_loaded, own) = load_fw firmware (firmware_name uniq) zero_calib in
      let generic = λ (c : Calib fp.Float). (load_fw firmware (codes "lg_magic_calib.bin") c).1 in
      if length uniq == 17 then if own_loaded then own else generic own else generic zero_calib

  -- The calibration passes `lgmagic_validate_calib`, or is all zeros.
  abbrev pub IsUsable : Calib fp.Float → Type 0
  IsUsable c = (validate_calib fp c ≡ false) ⊎ (c ≡ zero_calib)

  load_fw-IsUsable :
      (firmware : Firmware fp.Float) (name : List ℕ) (c : Calib fp.Float)
      → IsUsable c
      → IsUsable (load_fw firmware name c).1
  unfolding load_fw
  load_fw-IsUsable firmware name c u = elim (Option-cases (firmware name)) [
    | inl missing ↦ rw (missing, load_fw) u
    | inr ((size, loaded), found) ↦
        rw (found, load_fw)
          (elim (Bool-cases (leb 32 size)) [
            | inr short ↦ rw short u
            | inl long ↦ rw long (elim (Bool-cases (validate_calib fp loaded)) [
              | inl bad ↦ rw bad (inr refl)
              | inr good ↦ rw good (inl good)
            ])
          ])
  ]

  -- Whatever the files hold, the calibration of a probed remote either passes
  -- `lgmagic_validate_calib` or is all zeros.
  pub probe_calib-IsUsable :
      (firmware : Firmware fp.Float) (uniq : List ℕ) → IsUsable (probe_calib firmware uniq)
  unfolding probe_calib
  probe_calib-IsUsable firmware uniq =
      let name = codes "lg_magic_calib.bin" in
      let own = load_fw firmware (firmware_name uniq) zero_calib in
      let own_usable = load_fw-IsUsable firmware (firmware_name uniq) zero_calib (inr refl) in
      elim (Bool-cases (length uniq == 17)) [
        | inr other ↦ rw other (load_fw-IsUsable firmware name zero_calib (inr refl))
        | inl mac ↦ rw mac (elim (Bool-cases own.0) [
          | inl loaded ↦ rw loaded own_usable
          | inr missing ↦ rw missing (load_fw-IsUsable firmware name own.1 own_usable)
        ])
      ]
