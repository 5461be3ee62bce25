-- ===== src/Pairing/Examples.antt =====
-- The theorems about tools/src/pairing.c at concrete inputs.
use lg_magic.Pairing.{
  InputDev, PairedRemote, has_name, pairing_is_keyboard, pairing_is_imu, lower, bytes_eq, or_empty,
  is_empty, uniq_eq, keyboards, is_free, matches, tally, assign, pair_imu, pair_imus, remote_uniq,
  remote, pairing_match,
}
use lg_magic.Pairing.Order.{indices, pairing_match_keyboards}
use lg_magic.Pairing.Sensors.{as_slot, pairing_match-ArePaired, pairing_match_once}
use lg_magic.Pairing.Given.{ArePaired}
use lg_magic.Prelude.{ℕ, ◌≡◌, refl, some, List, [], ◌∷◌, arith, length, map, take}
use lg_magic.Prelude.Result.{ok}

abbrev keyboard : List ℕ → InputDev
keyboard uniq = record {
  path = "/dev/input/event4";
  name = some "LG Magic Remote";
  uniq = some uniq;
  vendor = 15;
  product = 13330;
}

abbrev sensor : List ℕ → InputDev
sensor uniq = record (keyboard uniq) {
  path = "/dev/input/event5";
  name = some "LG Magic Remote IMU";
}

-- Two remotes, with the MACs "a1" and "b2"; the sensors write theirs with great letters.
abbrev devices : List InputDev
devices =
    keyboard (97 ∷ 49 ∷ [])
    ∷ keyboard (98 ∷ 50 ∷ [])
    ∷ sensor (66 ∷ 50 ∷ [])
    ∷ sensor (65 ∷ 49 ∷ [])
    ∷ []

abbrev remotes : List PairedRemote
remotes =
    record { uniq = 97 ∷ 49 ∷ []; keyboard = 0; imu = some 3 }
    ∷ record { uniq = 98 ∷ 50 ∷ []; keyboard = 1; imu = some 2 }
    ∷ []

program : Unit {0}
unfolding has_name pairing_is_keyboard pairing_is_imu lower bytes_eq or_empty is_empty uniq_eq
    keyboards is_free matches tally assign pair_imu pair_imus remote_uniq remote pairing_match
    indices
program = tt

devices_paired : pairing_match devices 8 ≡ ok remotes
unfolding program
devices_paired = refl

pairing_match_keyboards_example :
    map (λ (r : PairedRemote). r.keyboard) remotes ≡ take 8 (indices pairing_is_keyboard devices 0)
pairing_match_keyboards_example = pairing_match_keyboards devices 8 remotes devices_paired

pairing_match-ArePaired_example : ArePaired devices (map as_slot remotes) (length devices)
pairing_match-ArePaired_example = pairing_match-ArePaired devices 8 remotes devices_paired

pairing_match_once_example : ◌≡◌ {A = ℕ} 1 1
pairing_match_once_example =
    pairing_match_once devices 8 remotes 1 1 2 devices_paired (omega arith) (omega arith) refl refl
