-- ===== src/Prelude/Count.antt =====
-- How many elements of a list pass a test.
use Prim.Native.Nat.{ℕ, zero, suc, ◌+◌, ◌<◌}
use lg_magic.Prelude.Lists.{length, get_or}
use lg_magic.Prelude.Tests.{if◌then◌else◌}
use mathlib.Core.Bool.{Bool, true}
use mathlib.Core.List.{List, [], ◌∷◌, ◌++◌}
use mathlib.Core.Logic.{◌≢◌}
use mathlib.Core.Path.{◌≡◌, refl}
use native.Mathlib.Omega.{arith}

unfoldable pub count : {A : Type 0} → (A → Bool) → List A → ℕ
count q [] = 0
count q (x ∷ xs) = (if q x then 1 else 0) + count q xs

pub count-append :
    {A : Type 0} (q : A → Bool) (xs ys : List A) → count q (xs ++ ys) ≡ count q xs + count q ys
unfolding count
count-append q [] ys = omega arith
count-append q (x ∷ xs) ys = omega (arith, count-append q xs ys)

pub count-get_or :
    {A : Type 0} (q : A → Bool) (xs : List A) (i : ℕ) (d : A)
    → i < length xs
    → q (get_or xs i d) ≡ true
    → 0 < count q xs
unfolding count
count-get_or q [] i d inside h = absurd (omega arith)
count-get_or q (x ∷ xs) zero d inside h = ground arith
count-get_or q (x ∷ xs) (suc i) d inside h = omega (arith, count-get_or q xs i d (omega arith) h)

-- Two places at which the test holds count twice.
pub count_two :
    {A : Type 0} (q : A → Bool) (xs : List A) (i j : ℕ) (d : A)
    → i < length xs
    → j < length xs
    → i ≢ j
    → q (get_or xs i d) ≡ true
    → q (get_or xs j d) ≡ true
    → 1 < count q xs
unfolding count
count_two q [] i j d ilt jlt differ hi hj = absurd (omega arith)
count_two q (x ∷ xs) zero zero d ilt jlt differ hi hj = absurd (differ refl)
count_two q (x ∷ xs) zero (suc j) d ilt jlt differ hi hj =
    ground (arith, count-get_or q xs j d (omega arith) hj)
count_two q (x ∷ xs) (suc i) zero d ilt jlt differ hi hj =
    ground (arith, count-get_or q xs i d (omega arith) hi)
count_two q (x ∷ xs) (suc i) (suc j) d ilt jlt differ hi hj =
    omega
      (arith, count_two q xs i j d (omega arith) (omega arith) (λ e. differ (omega arith)) hi hj)
