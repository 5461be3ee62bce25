-- ===== src/Dbus/Rounds.antt =====
-- The loops of tools/src/dbus_client.c over the texts of an array and over header fields, and how
-- many rounds they take.
use lg_magic.Dbus.Fields.{
  Found, text_field, number_field, signature_field, field_value, field_at, fields_from,
}
use lg_magic.Dbus.Padding.{at_off}
use lg_magic.Dbus.Reader.{Rd, Read, rd_u8, rd_u32, rd_str, rd_items, rd_pad, skip_pad, text_at}
use lg_magic.Dbus.{Fault, malformed, outside}
use lg_magic.Prelude.Result.{Result, ok, err, ◌>>=◌, ◌>>◌, fail_if, Result-cases}
use lg_magic.Prelude.Text.{c_text}
use lg_magic.Prelude.{
  ℕ, zero, suc, ◌+◌, ◌%◌, ◌≤◌, ◌<◌, ◌≡◌, refl, ap, Bool, true, false, not, ◌||◌, List, [], ◌∷◌,
  ◌==◌, ltb, if◌then◌else◌, length, take, drop, get_or, Bool-cases, arith, inl, inr,
}
use mathlib.Core.Path.{subst}

-- A read that leaves `n` bytes or fewer.
unfoldable Leaves : {A : Type 0} → ℕ → Read A → Type 0
Leaves n (err e) = Unit
Leaves n (ok (a, after)) = length after.left ≤ n

Leaves-bind :
    {A B : Type 0} (m n : ℕ) (r : Read A) (next : A × Rd → Read B)
    → Leaves m r
    → ((a : A) (after : Rd) → length after.left ≤ m → Leaves n (next (a, after)))
    → Leaves n (r >>= next)
unfolding Leaves
Leaves-bind m n (err e) next leaves further = tt
Leaves-bind m n (ok (a, after)) next leaves further = further a after leaves

Leaves-check :
    {A : Type 0} (n : ℕ) (checked : Result Fault (Unit {0})) (r : Read A)
    → Leaves n r
    → Leaves n (checked >> r)
unfolding Leaves
Leaves-check n (err e) r leaves = tt
Leaves-check n (ok x) r leaves = leaves

choice-Leaves :
    {A : Type 0} (n : ℕ) (b : Bool) (e : Fault) (r : Read A)
    → Leaves n r
    → Leaves n (if b then err e else r)
unfolding Leaves
choice-Leaves n true e r leaves = tt
choice-Leaves n false e r leaves = leaves

either-Leaves :
    {A : Type 0} (n : ℕ) (b : Bool) (r other : Read A)
    → Leaves n r
    → Leaves n other
    → Leaves n (if b then r else other)
either-Leaves n true r other leaves others = leaves
either-Leaves n false r other leaves others = others

ok-Leaves :
    {A : Type 0} (n : ℕ) (a : A) (after : Rd)
    → length after.left ≤ n
    → let r : Read A = ok (a, after) in Leaves n r
unfolding Leaves
ok-Leaves n a after less = less

skip_pad_leaves :
    (align : ℕ) (left : List ℕ) (off : ℕ) → length (skip_pad align left off).left ≤ length left
unfolding skip_pad
skip_pad_leaves align [] off = omega arith
skip_pad_leaves align (b ∷ bs) off = elim (Bool-cases (off % align == 0)) [
  | inl here ↦ rw here (omega arith)
  | inr further_on ↦ rw further_on (omega (arith, skip_pad_leaves align bs (suc off)))
]

rd_pad_leaves : (r : Rd) (align : ℕ) → length (rd_pad r align).left ≤ length r.left
unfolding rd_pad
rd_pad_leaves r align = skip_pad_leaves align r.left r.off

-- A byte less is left, or there is none.
u8-Leaves : (left : List ℕ) (off n : ℕ) → length left ≤ suc n → Leaves n (rd_u8 (at_off left off))
unfolding rd_u8 Leaves
u8-Leaves [] off n less = tt
u8-Leaves (b ∷ bs) off n less = omega arith

rd_u8-Leaves : (r : Rd) (n : ℕ) → length r.left ≤ suc n → Leaves n (rd_u8 r)
rd_u8-Leaves r n less = u8-Leaves r.left r.off n less

rd_u32-Leaves : (r : Rd) (n : ℕ) → length r.left ≤ suc n → Leaves n (rd_u32 r)
unfolding rd_u32 Leaves
rd_u32-Leaves r n less = Leaves-bind n n (rd_u8 r) _ (rd_u8-Leaves r n less) λ b0 r0 less0.
    Leaves-bind n n (rd_u8 r0) _ (rd_u8-Leaves r0 n (omega (arith, less0))) λ b1 r1 less1.
      Leaves-bind n n (rd_u8 r1) _ (rd_u8-Leaves r1 n (omega (arith, less1))) λ b2 r2 less2.
        Leaves-bind n n (rd_u8 r2) _ (rd_u8-Leaves r2 n (omega (arith, less2))) λ b3 r3 less3. less3

length-drop-le : (n : ℕ) (xs : List ℕ) → length (drop n xs) ≤ length xs
length-drop-le zero xs = omega arith
length-drop-le (suc n) [] = omega arith
length-drop-le (suc n) (x ∷ xs) = omega (arith, length-drop-le n xs)

text_at-Leaves : (len : ℕ) (r : Rd) (n : ℕ) → length r.left ≤ n → Leaves n (text_at len r)
unfolding text_at
text_at-Leaves len r n less =
    let behind : Rd = record { left = drop (suc len) r.left; off = r.off + suc len } in
    let fine : Read (List ℕ) = ok (c_text (take len r.left), behind) in
    choice-Leaves n (length r.left == 0) outside _ (
      choice-Leaves n (ltb (length r.left) (suc len) || not (get_or r.left len 0 == 0)) malformed
        fine
        (ok-Leaves n (c_text (take len r.left)) behind
          (omega (arith, less, length-drop-le (suc len) r.left))))

rd_str-Leaves : (r : Rd) (n : ℕ) → length r.left ≤ suc n → Leaves n (rd_str r)
unfolding rd_str Leaves
rd_str-Leaves r n less = Leaves-bind n n (rd_u32 r) _ (rd_u32-Leaves r n less) λ len start less0.
    Leaves-bind n n (text_at len start) _ (text_at-Leaves len start n less0)
      λ s after less1. omega (arith, less1, rd_pad_leaves after 4)

items_end :
    (fuel : ℕ) (left : List ℕ) (off : ℕ)
    → length left < suc fuel
    → ((r : Rd) → length r.left < fuel → rd_items (suc fuel) r ≡ rd_items fuel r)
    → rd_items (suc (suc fuel)) (at_off left off) ≡ rd_items (suc fuel) (at_off left off)
unfolding rd_items Leaves
items_end fuel [] off enough ends = refl
items_end fuel (b ∷ bs) off enough ends = elim (Result-cases (rd_str (at_off (b ∷ bs) off))) [
  | inl (e, failed) ↦ rw (failed, rd_items) refl
  | inr ((s, after), read) ↦
      let less : length after.left ≤ length bs =
        subst (Leaves (length bs)) read (rd_str-Leaves (at_off (b ∷ bs) off) _ (omega arith)) in
      rw (read, rd_items)
        (ap (λ x. x >>= λ more. ok (s ∷ more)) (ends after (omega (arith, less, enough))))
]

-- One more round of each loop changes nothing, where there are more rounds than bytes left.
pub rd_items_ends :
    (fuel : ℕ) (r : Rd) → length r.left < fuel → rd_items (suc fuel) r ≡ rd_items fuel r
unfolding rd_items
rd_items_ends zero r enough = absurd (omega arith)
rd_items_ends (suc fuel) r enough = items_end fuel r.left r.off enough (rd_items_ends fuel)

text_field-Leaves :
    (code : ℕ) (found : Found) (r : Rd) (n : ℕ)
    → length r.left ≤ n
    → Leaves n (text_field code found r)
unfolding text_field Leaves
text_field-Leaves code found r n less =
    let padded = rd_pad r 4 in
    Leaves-bind n n (rd_u32 padded) _
      (rd_u32-Leaves padded n (omega (arith, less, rd_pad_leaves r 4)))
      λ len start less0.
        Leaves-bind n n (text_at len start) _ (text_at-Leaves len start n less0)
          λ s after less1. omega (arith, less1, rd_pad_leaves after 4)

number_field-Leaves :
    (code : ℕ) (found : Found) (r : Rd) (n : ℕ)
    → length r.left ≤ n
    → Leaves n (number_field code found r)
unfolding number_field Leaves
number_field-Leaves code found r n less =
    let padded = rd_pad r 4 in
    Leaves-bind n n (rd_u32 padded) _
      (rd_u32-Leaves padded n (omega (arith, less, rd_pad_leaves r 4))) λ k after less0. less0

signature_field-Leaves :
    (code : ℕ) (found : Found) (r : Rd) (n : ℕ)
    → length r.left ≤ n
    → Leaves n (signature_field code found r)
unfolding signature_field
signature_field-Leaves code found r n less =
    Leaves-bind n n (rd_u8 r) _ (rd_u8-Leaves r n (omega (arith, less))) λ len start less0.
      Leaves-check n (fail_if (ltb (length start.left) (suc len)) malformed) _
        (ok-Leaves n _ _ (omega (arith, less0, length-drop-le (suc len) start.left)))

field_value-Leaves :
    (code fsig : ℕ) (found : Found) (r : Rd) (n : ℕ)
    → length r.left ≤ n
    → Leaves n (field_value code fsig found r)
unfolding field_value Leaves
field_value-Leaves code fsig found r n less =
    either-Leaves n (fsig == b's' || fsig == b'o') _ _ (text_field-Leaves code found r n less) (
      either-Leaves n (fsig == b'u') _ _ (number_field-Leaves code found r n less)
        (either-Leaves n (fsig == b'g') _ _ (signature_field-Leaves code found r n less) tt))

field_at-Leaves :
    (found : Found) (r : Rd) (n : ℕ) → length r.left ≤ suc n → Leaves n (field_at found r)
unfolding field_at
field_at-Leaves found r n less =
    Leaves-bind n n (rd_u8 r) _ (rd_u8-Leaves r n less) λ code r0 less0.
      Leaves-bind n n (rd_u8 r0) _ (rd_u8-Leaves r0 n (omega (arith, less0))) λ slen r1 less1.
        Leaves-bind n n (rd_u8 r1) _ (rd_u8-Leaves r1 n (omega (arith, less1))) λ fsig r2 less2.
          Leaves-bind n n (rd_u8 r2) _ (rd_u8-Leaves r2 n (omega (arith, less2))) λ nul r3 less3.
            Leaves-check n (fail_if (not (slen == 1) || not (nul == 0)) malformed) _
              (field_value-Leaves code fsig found r3 n less3)

fields_end :
    (fuel : ℕ) (found : Found) (left : List ℕ) (off : ℕ)
    → length left < suc fuel
    → ((more : Found) (r : Rd)
        → length r.left < fuel
        → fields_from (suc fuel) more r ≡ fields_from fuel more r)
    → fields_from (suc (suc fuel)) found (at_off left off)
      ≡ fields_from (suc fuel) found (at_off left off)
unfolding fields_from Leaves
fields_end fuel found [] off enough ends = refl
fields_end fuel found (b ∷ bs) off enough ends =
    let padded = rd_pad (at_off (b ∷ bs) off) 8 in
    elim (Result-cases (field_at found padded)) [
      | inl (e, failed) ↦ rw (failed, fields_from) refl
      | inr ((more, after), read) ↦
          let less : length after.left ≤ length bs =
            subst (Leaves (length bs)) read
              (field_at-Leaves found padded (length bs) (rd_pad_leaves (at_off (b ∷ bs) off) 8)) in
          rw (read, fields_from) (ends more after (omega (arith, less, enough)))
    ]

pub fields_from_ends :
    (fuel : ℕ) (found : Found) (r : Rd)
    → length r.left < fuel
    → fields_from (suc fuel) found r ≡ fields_from fuel found r
fields_from_ends zero found r enough = absurd (omega arith)
fields_from_ends (suc fuel) found r enough =
    fields_end fuel found r.left r.off enough (fields_from_ends fuel)
