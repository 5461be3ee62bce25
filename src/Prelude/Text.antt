-- ===== src/Prelude/Text.antt =====
-- Equality of texts: `strcmp(a, b) == 0` of the source.
use Prim.Native.Nat.{ℕ}
use Prim.Native.String.{String}
use lg_magic.Prelude.Tests.{◌==◌, if◌then◌else◌}
use mathlib.Core.List.{List, [], ◌∷◌}
use mathlib.Core.Path.{◌≡◌}
use mathlib.Core.Logic.{◌↔◌}
use mathlib.Core.Bool.{Bool, true, false}
use text.Mathlib.Text
use text.Mathlib.TextEquality
use text.Mathlib.TextPositions

abbrev pub str_eq : String → String → Bool
str_eq a b = text.Mathlib.Text.◌==◌ a b

pub str_eq_iff : (a b : String) → (str_eq a b ≡ true) ↔ (a ≡ b)
str_eq_iff a b = TextEquality.eq_iff a b

pub str_eq_refl : (a : String) → str_eq a a ≡ true
str_eq_refl a = TextPositions.eq_refl a

-- `strcmp(a, b) == 0` of lists of bytes.
unfoldable pub same_bytes : List ℕ → List ℕ → Bool
same_bytes [] [] = true
same_bytes [] (b ∷ bs) = false
same_bytes (a ∷ rest) [] = false
same_bytes (a ∷ rest) (b ∷ bs) = if a == b then same_bytes rest bs else false

-- The text in a buffer: what stands before the first NUL.
unfoldable pub c_text : List ℕ → List ℕ
c_text [] = []
c_text (b ∷ bs) = if b == 0 then [] else b ∷ c_text bs
