-- ===== src/Dbus/Padding.antt =====
-- The padding of messages of tools/src/dbus_client.c, written and skipped, and the numbers of four
-- bytes.
use lg_magic.Dbus.Reader.{Rd, rd_u8, rd_u32, u32_of, skip_pad}
use lg_magic.Dbus.Writer.{pad_bytes, u32_bytes}
use lg_magic.Prelude.Result.{ok}
use lg_magic.Prelude.{
  ℕ, zero, suc, ◌+◌, ◌-◌, ◌/◌, ◌%◌, ◌≤◌, ◌<◌, ◌≡◌, refl, sym, ap, ◌∙◌, false, List, [], ◌∷◌, ◌++◌,
  ◌==◌, length, Bool-cases, ==_iff, arith, inl, inr, ◌⊎◌,
}

-- A reader behind `off` bytes.
abbrev pub at_off : List ℕ → ℕ → Rd
at_off left off = record { left = left; off = off }

-- Where a multiple of the alignment is within reach, the padding ends there.

next_in_reach4 :
    (fuel n : ℕ)
    → (n % 4 == 0) ≡ false
    → (n % 4 ≡ 0) ⊎ (4 ≤ suc fuel + n % 4)
    → (suc n % 4 ≡ 0) ⊎ (4 ≤ fuel + suc n % 4)
next_in_reach4 fuel n further_on (inl now) = absurd (ground (arith, further_on, now))
next_in_reach4 fuel n further_on (inr within) = elim (Bool-cases (suc n % 4 == 0)) [
  | inl here ↦ inl (ground arith)
  | inr other ↦ inr (ground (arith, within, other))
]

pub pad_bytes_aligned4 :
    (fuel n : ℕ) → (n % 4 ≡ 0) ⊎ (4 ≤ fuel + n % 4) → (n + length (pad_bytes fuel 4 n)) % 4 ≡ 0
unfolding pad_bytes
pad_bytes_aligned4 zero n (inl now) = omega (arith, now)
pad_bytes_aligned4 zero n (inr within) = omega (arith, within)
pad_bytes_aligned4 (suc fuel) n reach = elim (Bool-cases (n % 4 == 0)) [
  | inl here ↦ ground (arith, here)
  | inr further_on ↦
      let further = pad_bytes_aligned4 fuel (suc n) (next_in_reach4 fuel n further_on reach) in
      ground (arith, further_on, further)
]

next_in_reach8 :
    (fuel n : ℕ)
    → (n % 8 == 0) ≡ false
    → (n % 8 ≡ 0) ⊎ (8 ≤ suc fuel + n % 8)
    → (suc n % 8 ≡ 0) ⊎ (8 ≤ fuel + suc n % 8)
next_in_reach8 fuel n further_on (inl now) = absurd (ground (arith, further_on, now))
next_in_reach8 fuel n further_on (inr within) = elim (Bool-cases (suc n % 8 == 0)) [
  | inl here ↦ inl (ground arith)
  | inr other ↦ inr (ground (arith, within, other))
]

pub pad_bytes_aligned8 :
    (fuel n : ℕ) → (n % 8 ≡ 0) ⊎ (8 ≤ fuel + n % 8) → (n + length (pad_bytes fuel 8 n)) % 8 ≡ 0
unfolding pad_bytes
pad_bytes_aligned8 zero n (inl now) = omega (arith, now)
pad_bytes_aligned8 zero n (inr within) = omega (arith, within)
pad_bytes_aligned8 (suc fuel) n reach = elim (Bool-cases (n % 8 == 0)) [
  | inl here ↦ ground (arith, here)
  | inr further_on ↦
      let further = pad_bytes_aligned8 fuel (suc n) (next_in_reach8 fuel n further_on reach) in
      ground (arith, further_on, further)
]

pub length-pad_bytes4 :
    (fuel n : ℕ) → (n % 4 ≡ 0) ⊎ (4 ≤ fuel + n % 4) → length (pad_bytes fuel 4 n) ≡ (4 - n % 4) % 4
unfolding pad_bytes
length-pad_bytes4 zero n (inl now) = omega (arith, now)
length-pad_bytes4 zero n (inr within) = omega (arith, within)
length-pad_bytes4 (suc fuel) n reach = elim (Bool-cases (n % 4 == 0)) [
  | inl here ↦ ground (arith, here)
  | inr further_on ↦
      let further = length-pad_bytes4 fuel (suc n) (next_in_reach4 fuel n further_on reach) in
      ground (arith, further_on, further)
]

pub length-pad_bytes8 :
    (fuel n : ℕ) → (n % 8 ≡ 0) ⊎ (8 ≤ fuel + n % 8) → length (pad_bytes fuel 8 n) ≡ (8 - n % 8) % 8
unfolding pad_bytes
length-pad_bytes8 zero n (inl now) = omega (arith, now)
length-pad_bytes8 zero n (inr within) = omega (arith, within)
length-pad_bytes8 (suc fuel) n reach = elim (Bool-cases (n % 8 == 0)) [
  | inl here ↦ ground (arith, here)
  | inr further_on ↦
      let further = length-pad_bytes8 fuel (suc n) (next_in_reach8 fuel n further_on reach) in
      ground (arith, further_on, further)
]

-- What was padded is skipped, up to the end of what is left.
pub skip_pad_aligned :
    (align : ℕ) (rest : List ℕ) (n : ℕ) → n % align ≡ 0 → skip_pad align rest n ≡ at_off rest n
unfolding skip_pad
skip_pad_aligned align [] n aligned = refl
skip_pad_aligned align (b ∷ bs) n aligned = rw ((==_iff (n % align) 0).1 aligned) refl

pad_bytes-on :
    (fuel align n : ℕ)
    → (n % align == 0) ≡ false
    → pad_bytes (suc fuel) align n ≡ 0 ∷ pad_bytes fuel align (suc n)
unfolding pad_bytes
pad_bytes-on fuel align n further_on = rw further_on refl

skip_pad-on :
    (align b : ℕ) (rest : List ℕ) (n : ℕ)
    → (n % align == 0) ≡ false
    → skip_pad align (b ∷ rest) n ≡ skip_pad align rest (suc n)
unfolding skip_pad
skip_pad-on align b rest n further_on = rw further_on refl

pub skip_pad-pad_bytes :
    (fuel align n : ℕ) (rest : List ℕ)
    → (n + length (pad_bytes fuel align n)) % align ≡ 0
    → skip_pad align (pad_bytes fuel align n ++ rest) n
      ≡ at_off rest (n + length (pad_bytes fuel align n))
unfolding skip_pad pad_bytes
skip_pad-pad_bytes zero align n rest aligned =
    let same : n ≡ n + 0 = omega arith in
    skip_pad_aligned align rest n (ap (λ x. x % align) same ∙ aligned) ∙ ap (at_off rest) same
skip_pad-pad_bytes (suc fuel) align n rest aligned = elim (Bool-cases (n % align == 0)) [
  | inl here ↦ rw here (
      skip_pad_aligned align rest n ((==_iff (n % align) 0).0 here)
      ∙ ap (at_off rest) (omega arith))
  | inr further_on ↦
      let k = length (pad_bytes fuel align (suc n)) in
      let moved : suc n + k ≡ n + suc k = omega arith in
      let rest_aligned : (suc n + k) % align ≡ 0 =
        ap (λ x. x % align) moved
        ∙ (ap (λ bytes. (n + length bytes) % align) (sym (pad_bytes-on fuel align n further_on))
            ∙ aligned) in
      rw (pad_bytes-on fuel align n further_on) (
        skip_pad-on align 0 (pad_bytes fuel align (suc n) ++ rest) n further_on
        ∙ (skip_pad-pad_bytes fuel align (suc n) rest rest_aligned ∙ ap (at_off rest) moved))
]

-- Four bytes written and read.
pub u32_of-u32_bytes :
    (v : ℕ)
    → v < 4294967296
    → u32_of (v % 256) (v / 256 % 256) (v / 65536 % 256) (v / 16777216 % 256) ≡ v
u32_of-u32_bytes v fits = omega arith

pub rd_u32-u32_bytes :
    (v : ℕ) (rest : List ℕ) (off : ℕ)
    → v < 4294967296
    → rd_u32 (at_off (u32_bytes v ++ rest) off) ≡ ok (v, at_off rest (suc (suc (suc (suc off)))))
unfolding rd_u32 rd_u8
rd_u32-u32_bytes v rest off fits =
    ap (λ x. ok (x, at_off rest (suc (suc (suc (suc off)))))) (u32_of-u32_bytes v fits)
