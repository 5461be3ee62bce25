-- ===== src/Dbus/Reader.antt =====
-- The bounded reader of tools/src/dbus_client.c, the bodies of replies, and their header fields.
-- The flag `err`, with which every later read fails, is the fault of a result.
use lg_magic.Dbus.{
  DbusValue, value_string, value_string_array, value_variant, Fault, malformed, outside,
}
use lg_magic.Prelude.Result.{Result, ok, err, ◌>>=◌, ◌>>◌, fail_if}
use lg_magic.Prelude.Text.{c_text, same_bytes}
use lg_magic.Prelude.{
  ℕ, zero, suc, ◌+◌, ◌*◌, ◌%◌, ◌||◌, not, List, [], ◌∷◌, ◌==◌, ltb, leb, if◌then◌else◌, length,
  take, drop, get_or,
}

-- `struct rd`: the bytes from `p` to `end`, and how many were read before them.
pub record Rd : Type 0 where
  pub left : List ℕ
  pub off : ℕ

-- What a read returns, and the reader behind it.
abbrev pub Read : Type 0 → Type 0
Read A = Result Fault (A × Rd)

-- `rd_u8`
unfoldable pub rd_u8 : Rd → Read ℕ
rd_u8 r = elim r.left [
  | [] ↦ err malformed
  | b ∷ bs ↦ ok (b, record { left = bs; off = suc r.off })
]

-- The four bytes of a number, the lowest first.
abbrev pub u32_of : ℕ → ℕ → ℕ → ℕ → ℕ
u32_of b0 b1 b2 b3 = b0 + 256 * b1 + 65536 * b2 + 16777216 * b3

-- `rd_u32`
unfoldable pub rd_u32 : Rd → Read ℕ
rd_u32 r = rd_u8 r >>= λ (b0, r0). rd_u8 r0 >>= λ (b1, r1).
    rd_u8 r1 >>= λ (b2, r2). rd_u8 r2 >>= λ (b3, r3). ok (u32_of b0 b1 b2 b3, r3)

-- The loop of `rd_pad`, whose base is 0 in each call, and those of `parse_header_fields`: what is
-- left, and its position.
unfoldable pub skip_pad : ℕ → List ℕ → ℕ → Rd
skip_pad align [] off = record { left = []; off = off }
skip_pad align (b ∷ bs) off =
    let further = skip_pad align bs (suc off) in
    if off % align == 0 then record { left = b ∷ bs; off = off } else further

-- `rd_pad`
unfoldable pub rd_pad : Rd → ℕ → Rd
rd_pad r align = skip_pad align r.left r.off

-- A text of `len` bytes with a NUL behind it. `len` is compared with what is left less 1, where 0
-- less 1 is the largest number, and the NUL is then looked for behind the end.
unfoldable pub text_at : ℕ → Rd → Read (List ℕ)
text_at len r =
    if length r.left == 0
    then err outside
    else if ltb (length r.left) (suc len) || not (get_or r.left len 0 == 0)
    then err malformed
    else ok
        (c_text (take len r.left), record { left = drop (suc len) r.left; off = r.off + suc len })

-- `rd_str`
unfoldable pub rd_str : Rd → Read (List ℕ)
rd_str r = rd_u32 r >>= λ (len, behind). text_at len behind >>= λ (s, after). ok (s, rd_pad after 4)

-- The loop of `rd_value` over the texts of an array. Each takes up 5 bytes or more.
unfoldable pub rd_items : ℕ → Rd → Result Fault (List (List ℕ))
rd_items zero r = err malformed
rd_items (suc fuel) r = elim r.left [
  | [] ↦ ok []
  | b ∷ bs ↦ rd_str r >>= λ (s, after). rd_items fuel after >>= λ more. ok (s ∷ more)
]

-- The three types of `rd_value`.
unfoldable pub rd_string : Rd → Read DbusValue
rd_string r = rd_str (rd_pad r 4) >>= λ (s, after). ok (value_string s, after)

unfoldable pub rd_array : Rd → Read DbusValue
rd_array r = rd_u32 (rd_pad r 4) >>= λ (alen, start).
    fail_if (ltb (length start.left) alen) malformed
    >> (rd_items (suc alen) (record { left = take alen start.left; off = 0 }) >>= λ items.
        ok (
          value_string_array items,
          record { left = drop alen start.left; off = start.off + alen },
        ))

unfoldable pub rd_variant : Rd → Read DbusValue
rd_variant r = rd_u8 r >>= λ (slen, start).
    fail_if (slen == 0 || leb 17 slen) malformed
    >> fail_if (ltb (length start.left) (suc slen)) malformed
    >> (rd_u8 (record { left = drop slen start.left; off = start.off + slen }) >>= λ (nul, behind).
        fail_if (not (same_bytes (c_text (take slen start.left)) (b's' ∷ []))) malformed
        >> (rd_str (rd_pad behind 4) >>= λ (s, after).
            ok (value_variant (b's' ∷ []) (value_string s), after)))

-- `rd_value`
unfoldable pub rd_value : Rd → List ℕ → Read DbusValue
rd_value r sig =
    if same_bytes sig (b's' ∷ [])
    then rd_string r
    else if same_bytes sig (b'a' ∷ b's' ∷ [])
    then rd_array r
    else if same_bytes sig (b'v' ∷ [])
    then rd_variant r
    else err malformed
