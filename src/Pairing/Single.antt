-- ===== src/Pairing/Single.antt =====
-- `pairing_match` of tools/src/pairing.c where there is one keyboard.
use lg_magic.Pairing.{Slot}
use lg_magic.Prelude.{ℕ, Option, List, [], ◌∷◌}

abbrev one : ℕ → Option ℕ → List Slot
one k imu = record { kbd = k; imu = imu } ∷ []
