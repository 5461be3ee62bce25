-- ===== src/Pairing.antt =====
-- tools/src/pairing.c: the keyboards of the remotes and the motion sensors that belong to them. A
-- pointer to a device is its index; the texts of a device are `none` for NULL, and a MAC is the
-- list of its bytes. Allocation does not fail, and an index of a device fits into an int.
pub mod Order
mod Counting
pub mod Given
pub mod Sensors
pub mod Single
mod Examples
use Prim.Native.String.{String}
use lg_magic.Prelude.{
  ℕ, suc, ◌+◌, Bool, true, false, not, ◌&&◌, Option, none, some, List, [], ◌∷◌, ◌==◌, leb, ltb,
  if◌then◌else◌, get_or, set, take, map,
}
use lg_magic.Prelude.Result.{Result, ok, err, ◌>>=◌}
use lg_magic.Prelude.Text.{str_eq}

-- `struct pairing_input_dev`.
pub record InputDev : Type 0 where
  pub path : String
  pub name : Option String
  pub uniq : Option (List ℕ)
  pub vendor : ℕ
  pub product : ℕ

-- `struct paired_remote`.
pub record PairedRemote : Type 0 where
  pub uniq : List ℕ
  pub keyboard : ℕ
  pub imu : Option ℕ

-- The causes of -1.
pub data Error : Type 0 where
  many_matches : List ℕ → ℕ → Error
  many_candidates : ℕ → Error

unfoldable pub has_name : InputDev → String → Bool
has_name d name = elim d.name [ none ↦ false | some n ↦ str_eq n name ]

unfoldable pub pairing_is_keyboard : InputDev → Bool
pairing_is_keyboard d = has_name d "LG Magic Remote" && (d.vendor == 15 && d.product == 13330)

unfoldable pub pairing_is_imu : InputDev → Bool
pairing_is_imu d = has_name d "LG Magic Remote IMU"

-- A byte with `A` to `Z` made small.
unfoldable pub lower : ℕ → ℕ
lower c = if leb 65 c && leb c 90 then c + 32 else c

-- The loop of `uniq_eq`.
unfoldable pub bytes_eq : List ℕ → List ℕ → Bool
bytes_eq [] [] = true
bytes_eq [] (b ∷ bs) = false
bytes_eq (a ∷ cs) [] = false
bytes_eq (a ∷ cs) (b ∷ bs) = lower a == lower b && bytes_eq cs bs

-- A text, or "" for NULL.
unfoldable pub or_empty : Option (List ℕ) → List ℕ
or_empty none = []
or_empty (some u) = u

unfoldable pub is_empty : List ℕ → Bool
is_empty [] = true
is_empty (c ∷ cs) = false

unfoldable pub uniq_eq : Option (List ℕ) → Option (List ℕ) → Bool
uniq_eq a b = bytes_eq (or_empty a) (or_empty b)

-- An entry of `kbd_idx` and of `imu_of_kbd`, whose -1 is `none`.
pub record Slot : Type 0 where
  pub kbd : ℕ
  pub imu : Option ℕ

abbrev pub no_slot : Slot
no_slot = record { kbd = 0; imu = none }

abbrev pub no_dev : InputDev
no_dev = record { path = ""; name = none; uniq = none; vendor = 0; product = 0 }

-- The first loop: the keyboards among the devices from index `i` on.
unfoldable pub keyboards : List InputDev → ℕ → List Slot
keyboards [] i = []
keyboards (d ∷ ds) i =
    let rest = keyboards ds (suc i) in
    if pairing_is_keyboard d then record { kbd = i; imu = none } ∷ rest else rest

-- `nmatch`, `match`, `nfree` and `free_kbd`.
pub record Tally : Type 0 where
  pub nmatch : ℕ
  pub match_kbd : ℕ
  pub nfree : ℕ
  pub free_kbd : ℕ

abbrev pub no_tally : Tally
no_tally = record { nmatch = 0; match_kbd = 0; nfree = 0; free_kbd = 0 }

unfoldable pub is_free : Slot → Bool
is_free s = elim s.imu [ none ↦ true | some i ↦ false ]

module _ (devs : List InputDev) where
  -- The test on a keyboard that is free.
  unfoldable pub matches : Option (List ℕ) → Slot → Bool
  matches uniq s = not (is_empty (or_empty uniq)) && uniq_eq uniq (get_or devs s.kbd no_dev).uniq

  -- The loop over the keyboards from number `k` on, for one motion sensor.
  unfoldable pub tally : Option (List ℕ) → List Slot → ℕ → Tally → Tally
  tally uniq [] k t = t
  tally uniq (s ∷ ss) k t = tally uniq ss (suc k) (
      if is_free s
      then (if matches uniq s
          then record { nmatch = t.nmatch + 1; match_kbd = k; nfree = t.nfree + 1; free_kbd = k }
          else record t { nfree = t.nfree + 1; free_kbd = k })
      else t)

  -- `imu_of_kbd[k] = (int)i`.
  unfoldable pub assign : List Slot → ℕ → ℕ → List Slot
  assign slots k i = set slots k (record (get_or slots k no_slot) { imu = some i })

  -- The body of the loop over the motion sensors.
  unfoldable pub pair_imu : List Slot → ℕ → InputDev → Result Error (List Slot)
  pair_imu slots i imu =
      let t = tally imu.uniq slots 0 no_tally in
      if ltb 1 t.nmatch
      then err (many_matches (or_empty imu.uniq) t.nmatch)
      else if t.nmatch == 1
      then ok (assign slots t.match_kbd i)
      else if t.nfree == 1
      then ok (assign slots t.free_kbd i)
      else if t.nfree == 0
      then ok slots
      else err (many_candidates t.nfree)

  -- The loop over the devices, from index `i` on.
  unfoldable pub pair_imus : List InputDev → ℕ → List Slot → Result Error (List Slot)
  pair_imus [] i slots = ok slots
  pair_imus (d ∷ ds) i slots =
      (if pairing_is_imu d then pair_imu slots i d else ok slots) >>= λ after.
      pair_imus ds (suc i) after

  -- The text of the MAC of a remote, of which 63 bytes are kept.
  unfoldable pub remote_uniq : Slot → List ℕ
  remote_uniq s =
      let u = or_empty (get_or devs s.kbd no_dev).uniq in
      take 63 (
        if is_empty u
        then elim s.imu [ none ↦ [] | some i ↦ or_empty (get_or devs i no_dev).uniq ]
        else u)

  unfoldable pub remote : Slot → PairedRemote
  remote s = record { uniq = remote_uniq s; keyboard = s.kbd; imu = s.imu }

  -- The array holds `outsz` remotes.
  unfoldable pub pairing_match : ℕ → Result Error (List PairedRemote)
  pairing_match outsz = elim (keyboards devs 0) [
    | [] ↦ ok []
    | s ∷ ss ↦ pair_imus devs 0 (s ∷ ss) >>= λ slots. ok (take outsz (map remote slots))
  ]
