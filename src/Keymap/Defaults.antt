-- ===== src/Keymap/Defaults.antt =====
-- The default map of tools/src/keymap.c against its two tables of names.
use Prim.Native.String.{String}
use lg_magic.Keymap.{
  name_of, keycode_in, name_to_code, code_to_name, lg_code_to_name, default_keycode,
}
use lg_magic.Keymap.RoundTrip.{name_to_code-code_to_name_iff}
use lg_magic.Keymap.Tables.{lg_button_codes, default_map}
use lg_magic.Prelude.{
  ℕ, ◌≡◌, ◌≢◌, refl, Bool, true, false, ◌&&◌, ◌||◌, Option, none, some, List, [], ◌∷◌, arith, ◌==◌,
}

unfoldable pub is_some {ℓ} : {A : Type ℓ} → Option A → Bool
is_some none = false
is_some (some a) = true

is_some_sound {ℓ} : {A : Type ℓ} (o : Option A) → is_some o ≡ true → (a : A) × (o ≡ some a)
unfolding is_some
is_some_sound none h = absurd (ground arith)
is_some_sound (some a) h = (a, refl)

-- Both codes of every row are named.
rows_named : List (ℕ × ℕ) → Bool
rows_named [] = true
rows_named ((c, k) ∷ rows) =
    (is_some (code_to_name k) && is_some (lg_code_to_name c)) && rows_named rows

rows_named_sound :
    (rows : List (ℕ × ℕ)) (c k : ℕ)
    → rows_named rows ≡ true
    → keycode_in rows c ≡ some k
    → (is_some (code_to_name k) ≡ true) × (is_some (lg_code_to_name c) ≡ true)
unfolding rows_named keycode_in
rows_named_sound [] c k ok h = ground arith
rows_named_sound ((d, j) ∷ rows) c k ok h = ground (arith, rows_named_sound rows c k)

-- Every button but the first row, "None", has a default keycode.
rows_mapped : List (ℕ × String) → Bool
rows_mapped [] = true
rows_mapped ((c, n) ∷ rows) = (c == 0 || is_some (default_keycode c)) && rows_mapped rows

rows_mapped_sound :
    (rows : List (ℕ × String)) (c : ℕ) (n : String)
    → rows_mapped rows ≡ true
    → name_of rows c ≡ some n
    → c ≢ 0
    → is_some (default_keycode c) ≡ true
unfolding rows_mapped name_of
rows_mapped_sound [] c n ok h nz = ground arith
rows_mapped_sound ((d, m) ∷ rows) c n ok h nz = ground (arith, rows_mapped_sound rows c n)

default_map_named : rows_named default_map ≡ true
unfolding rows_named is_some code_to_name lg_code_to_name name_of
default_map_named = refl

lg_button_codes_mapped : rows_mapped lg_button_codes ≡ true
unfolding rows_mapped is_some default_keycode keycode_in
lg_button_codes_mapped = refl

-- Every keycode that a button has by default has a name, which the map of a profile may use and
-- which translates back to that keycode; and the code of the button is one of the remote's.
pub default_keycode_named :
    (c k : ℕ)
    → default_keycode c ≡ some k
    → ((n : String) × (code_to_name k ≡ some n) × (name_to_code (some n) ≡ some k))
      × ((b : String) × (lg_code_to_name c ≡ some b))
unfolding default_keycode
default_keycode_named c k h =
    let (named, button) = rows_named_sound default_map c k default_map_named h in
    let (n, e) = is_some_sound (code_to_name k) named in
    ((n, e, (name_to_code-code_to_name_iff k n).0 e), is_some_sound (lg_code_to_name c) button)

-- Every named button but "None" (code 0) has a default keycode.
default_keycode_total :
    (c : ℕ) (b : String)
    → lg_code_to_name c ≡ some b
    → c ≢ 0
    → (k : ℕ) × (default_keycode c ≡ some k)
unfolding lg_code_to_name
default_keycode_total c b h nz =
    is_some_sound (default_keycode c)
      (rows_mapped_sound lg_button_codes c b lg_button_codes_mapped h nz)
