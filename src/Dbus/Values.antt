-- ===== src/Dbus/Values.antt =====
-- Texts of messages of tools/src/dbus_client.c: the bytes of a text as `wb_str` writes them, and
-- what `rd_str` makes of them.
use lg_magic.Dbus.Padding.{at_off, rd_u32-u32_bytes, skip_pad-pad_bytes, pad_bytes_aligned4}
use lg_magic.Dbus.Reader.{rd_str, rd_items, rd_pad, skip_pad, text_at}
use lg_magic.Dbus.Writer.{pad_bytes, u32_bytes}
use mathlib.Core.List.{append_assoc}
use lg_magic.Prelude.Result.{ok}
use lg_magic.Prelude.Text.{c_text}
use lg_magic.Prelude.{
  ℕ, zero, suc, ◌+◌, ◌<◌, ◌≡◌, ◌≢◌, refl, ap, false, List, [], ◌∷◌, ◌++◌, ◌==◌, ltb, length, All,
  take, drop, get_or, length-append, Bool-cases, ==_iff, arith, inl, inr,
}

-- A text has no NUL in it.
unfoldable pub IsText : List ℕ → Type 0
IsText s = All (λ b. b ≢ 0) s

-- A text with its length and its NUL.
abbrev pub text_bytes : List ℕ → List ℕ
text_bytes s = u32_bytes (length s) ++ (s ++ 0 ∷ [])

pub c_text-IsText : (s : List ℕ) → IsText s → c_text s ≡ s
unfolding IsText c_text
c_text-IsText [] clean = refl
c_text-IsText (b ∷ bs) (differs, clean) = elim (Bool-cases (b == 0)) [
  | inl nul ↦ absurd (differs ((==_iff b 0).0 nul))
  | inr other ↦ rw (other, c_text-IsText bs clean) refl
]

pub take-append : (s rest : List ℕ) → take (length s) (s ++ rest) ≡ s
take-append [] rest = refl
take-append (b ∷ bs) rest = ap (λ xs. b ∷ xs) (take-append bs rest)

pub drop-append : (s rest : List ℕ) → drop (length s) (s ++ rest) ≡ rest
drop-append [] rest = refl
drop-append (b ∷ bs) rest = drop-append bs rest

pub get_or-append : (s : List ℕ) (b d : ℕ) (rest : List ℕ) → get_or (s ++ b ∷ rest) (length s) d ≡ b
get_or-append [] b d rest = refl
get_or-append (x ∷ xs) b d rest = get_or-append xs b d rest

pub drop-behind :
    (s : List ℕ) (b : ℕ) (rest : List ℕ) → drop (suc (length s)) (s ++ b ∷ rest) ≡ rest
drop-behind [] b rest = refl
drop-behind (x ∷ xs) b rest = drop-behind xs b rest

not_empty : (s : List ℕ) (b : ℕ) (rest : List ℕ) → (length (s ++ b ∷ rest) == 0) ≡ false
not_empty s b rest = ground (arith, length-append s (b ∷ rest))

pub has_nul :
    (s : List ℕ) (b : ℕ) (rest : List ℕ) → ltb (length (s ++ b ∷ rest)) (suc (length s)) ≡ false
has_nul s b rest = ground (arith, length-append s (b ∷ rest))

pub text_at-text :
    (s rest : List ℕ) (off : ℕ)
    → IsText s
    → text_at (length s) (at_off (s ++ 0 ∷ rest) off) ≡ ok (s, at_off rest (off + suc (length s)))
unfolding text_at
text_at-text s rest off clean =
    rw
      (
        not_empty s 0 rest,
        has_nul s 0 rest,
        get_or-append s 0 0 rest,
        take-append s (0 ∷ rest),
        c_text-IsText s clean,
        drop-behind s 0 rest,
      )
      refl

-- A text is read back, whatever stands behind it; the padding behind it is skipped.
pub rd_str-text :
    (s tail : List ℕ) (off : ℕ)
    → IsText s
    → length s < 4294967296
    → rd_str (at_off (text_bytes s ++ tail) off)
      ≡ ok (s, rd_pad (at_off tail (off + (5 + length s))) 4)
unfolding rd_str
rd_str-text s tail off clean fits =
    rw
      (
        append_assoc s (0 ∷ []) tail,
        rd_u32-u32_bytes (length s) (s ++ 0 ∷ tail) off fits,
        text_at-text s tail (suc (suc (suc (suc off)))) clean,
      )
      (ap (λ n. ok (s, rd_pad (at_off tail n) 4)) (omega arith))

-- The texts of an array at that position, each at a multiple of 4.
unfoldable pub strings_at : ℕ → List (List ℕ) → List ℕ
strings_at n [] = []
strings_at n (s ∷ more) =
    let padding = pad_bytes 4 4 n in
    padding ++ (text_bytes s ++ strings_at (n + length padding + (5 + length s)) more)

unfoldable pub AreTexts : List (List ℕ) → Type 0
AreTexts items = All (λ s. IsText s × (length s < 4294967296)) items

pub rd_items-strings_at :
    (fuel n : ℕ) (items : List (List ℕ))
    → AreTexts items
    → length items < fuel
    → rd_items fuel (rd_pad (at_off (strings_at n items) n) 4) ≡ ok items
unfolding rd_items rd_pad strings_at AreTexts skip_pad
rd_items-strings_at zero n items are enough = absurd (omega arith)
rd_items-strings_at (suc fuel) n [] are enough = refl
rd_items-strings_at (suc fuel) n (s ∷ more) ((clean, fits), are) enough =
    let k = length (pad_bytes 4 4 n) in
    let next = n + k + (5 + length s) in
    rw
      (
        skip_pad-pad_bytes 4 4 n (text_bytes s ++ strings_at next more)
            (pad_bytes_aligned4 4 n (inr (omega arith))),
        rd_str-text s (strings_at next more) (n + k) clean fits,
      )
      (rw (rd_items-strings_at fuel next more are (omega arith)) refl)
