-- ===== src/Pairing/Sensors.antt =====
-- Why the motion sensors of tools/src/pairing.c belong to the keyboards that they are given to.
use lg_magic.Pairing.{
  InputDev, no_dev, PairedRemote, Slot, no_slot, keyboards, tally, no_tally, is_free, matches,
  assign, pair_imu, pair_imus, remote, pairing_match, pairing_is_imu,
}
use lg_magic.Pairing.Order.{pairing_match-slots}
use lg_magic.Prelude.{
  ℕ, zero, suc, count, count_two, ◌+◌, ◌<◌, ◌≡◌, ◌≢◌, inl, inr, refl, ap, sym, ◌∙◌, true, false,
  none, some, List, [], ◌∷◌, ◌==◌, if◌then◌else◌, get_or, take, map, length, arith, Bool-cases,
  Option-cases,
}
use lg_magic.Prelude.Result.{ok, >>=-eq-ok, ok-injective}
use mathlib.Core.Path.{subst}
use lg_magic.Pairing.Counting.{is_candidate, tally-IsTally}
use lg_magic.Pairing.Given.{
  slot, IsPaired, ArePaired, given, given-ArePaired, ArePaired-suc, ArePaired-take,
}

abbrev pub as_slot : PairedRemote → Slot
as_slot r = record { kbd = r.keyboard; imu = r.imu }

abbrev pub no_remote : PairedRemote
no_remote = record { uniq = []; keyboard = 0; imu = none }

module _ (devs : List InputDev) where
  taken_earlier :
      (ss : List Slot) (i b : ℕ)
      → ArePaired devs ss i
      → b < length ss
      → is_free (slot ss b) ≡ false
      → (j : ℕ) × ((slot ss b).imu ≡ some j) × (j < i)
  unfolding is_free
  taken_earlier ss i b before b_lt busy = elim (Option-cases (slot ss b).imu) [
    | inl none_there ↦ absurd (ground arith)
    | inr (j, here) ↦ (j, here, (before b j b_lt here).0)
  ]

  -- The keyboards other than the only candidate, and other than the only free one.
  others-match :
      (ss : List Slot) (i k : ℕ)
      → ArePaired devs ss i
      → k < length ss
      → count (is_candidate devs (get_or devs i no_dev).uniq) ss ≡ 1
      → is_candidate devs (get_or devs i no_dev).uniq (slot ss k) ≡ true
      → pairing_is_imu (get_or devs i no_dev) ≡ true
      → IsPaired devs ss k i
  others-match ss i k before inside one here sensor = record {
    sensor = sensor;
    others = λ b b_lt differ.
        let u = (get_or devs i no_dev).uniq in
        elim (Bool-cases (is_free (slot ss b))) [
          | inr busy ↦ inr (taken_earlier ss i b before b_lt busy)
          | inl free ↦ elim (Bool-cases (matches devs u (slot ss b))) [
            | inr unlike ↦ inl (ground (arith, here), unlike)
            | inl like ↦ absurd (
                omega (
                  arith,
                  one,
                  count_two (is_candidate devs u) ss b k no_slot b_lt inside differ (ground arith)
                      here,
                ))
          ]
        ];
  }

  others-free :
      (ss : List Slot) (i k : ℕ)
      → ArePaired devs ss i
      → k < length ss
      → count is_free ss ≡ 1
      → is_free (slot ss k) ≡ true
      → pairing_is_imu (get_or devs i no_dev) ≡ true
      → IsPaired devs ss k i
  others-free ss i k before inside one here sensor = record {
    sensor = sensor;
    others = λ b b_lt differ. elim (Bool-cases (is_free (slot ss b))) [
      | inr busy ↦ inr (taken_earlier ss i b before b_lt busy)
      | inl free ↦
          absurd (omega (arith, one, count_two is_free ss b k no_slot b_lt inside differ free here))
    ];
  }

  -- The body of the loop: device `i` is given to the one keyboard with its MAC, or to the one left.
  pair_imu-ArePaired :
      (ss after : List Slot) (i : ℕ)
      → pairing_is_imu (get_or devs i no_dev) ≡ true
      → ArePaired devs ss i
      → pair_imu devs ss i (get_or devs i no_dev) ≡ ok after
      → ArePaired devs after (suc i)
  unfolding pair_imu assign
  pair_imu-ArePaired ss after i sensor before h =
      let u = (get_or devs i no_dev).uniq in
      let t = tally devs u ss 0 no_tally in
      let found = tally-IsTally devs u ss 0 no_tally in
      elim (Bool-cases (t.nmatch == 1)) [
        | inl one ↦ elim found.matched [
          | inl (same, no_match) ↦ absurd (ground (arith, found.nmatch))
          | inr (k, place, inside, here) ↦
              let e : after ≡ given devs ss k i inside = ground arith in
              rw e (
                given-ArePaired devs ss k i inside (ground arith) before
                  (others-match ss i k before inside (ground (arith, found.nmatch)) here sensor))
        ]
        | inr not_one ↦ elim (Bool-cases (t.nfree == 1)) [
          | inl sole ↦ elim found.freed [
            | inl (same, no_free) ↦ absurd (ground (arith, found.nfree))
            | inr (k, place, inside, here) ↦
                let e : after ≡ given devs ss k i inside = ground arith in
                rw e (
                  given-ArePaired devs ss k i inside here before
                    (others-free ss i k before inside (ground (arith, found.nfree)) here sensor))
          ]
          | inr not_sole ↦
              let e : after ≡ ss = ground arith in rw e (ArePaired-suc devs ss i before)
        ]
      ]

  pair_imus-ArePaired :
      (ds : List InputDev) (i : ℕ) (ss after : List Slot)
      → ((j : ℕ) → get_or ds j no_dev ≡ get_or devs (i + j) no_dev)
      → ArePaired devs ss i
      → pair_imus devs ds i ss ≡ ok after
      → ArePaired devs after (i + length ds)
  unfolding pair_imus
  pair_imus-ArePaired [] i ss after rest before h =
      subst (λ (l : List Slot). ArePaired devs l (i + 0)) (ok-injective h)
        (subst (λ n. ArePaired devs ss n) (omega arith) before)
  pair_imus-ArePaired (d ∷ ds) i ss after rest before h =
      let (mid, first, later) =
        >>=-eq-ok (if pairing_is_imu d then pair_imu devs ss i d else ok ss) _ h in
      let here : d ≡ get_or devs i no_dev = rest 0 ∙ ap (λ n. get_or devs n no_dev) (omega arith) in
      let done : ArePaired devs mid (suc i) = elim (Bool-cases (pairing_is_imu d)) [
        | inl sensor ↦
            pair_imu-ArePaired ss mid i (ap pairing_is_imu (sym here) ∙ sensor) before
              (ap (λ e. pair_imu devs ss i e) (sym here) ∙ ground arith)
        | inr other ↦
            subst (λ (l : List Slot). ArePaired devs l (suc i)) {x = ss} {y = mid} (ground arith)
              (ArePaired-suc devs ss i before)
      ] in
      subst (λ n. ArePaired devs after n) (omega arith)
        (pair_imus-ArePaired ds (suc i) mid after
          (λ j. rest (suc j) ∙ ap (λ n. get_or devs n no_dev) (omega arith)) done later)

  keyboards-imu : (ds : List InputDev) (i a : ℕ) → (slot (keyboards ds i) a).imu ≡ none
  unfolding keyboards
  keyboards-imu [] i a = refl
  keyboards-imu (d ∷ ds) i zero = ground (arith, keyboards-imu ds (suc i) 0)
  keyboards-imu (d ∷ ds) i (suc a) =
      ground (arith, keyboards-imu ds (suc i) a, keyboards-imu ds (suc i) (suc a))

  keyboards-ArePaired : (ds : List InputDev) (i n : ℕ) → ArePaired devs (keyboards ds i) n
  unfolding keyboards
  keyboards-ArePaired ds i n a j a_lt here = absurd (ground (arith, keyboards-imu ds i a))

  slots-remotes : (n : ℕ) (ss : List Slot) → map as_slot (take n (map (remote devs) ss)) ≡ take n ss
  unfolding remote
  slots-remotes zero ss = refl
  slots-remotes (suc n) [] = refl
  slots-remotes (suc n) (s ∷ ss) = ap (λ l. s ∷ l) (slots-remotes n ss)

  -- In a pairing that succeeds, a remote's sensor is a device that is one. For each other remote,
  -- either the sensor has the MAC of the remote that it is given to and not that of the other, or
  -- the other has a sensor that comes earlier among the devices.
  pub pairing_match-ArePaired :
      (outsz : ℕ) (rs : List PairedRemote)
      → pairing_match devs outsz ≡ ok rs
      → ArePaired devs (map as_slot rs) (length devs)
  pairing_match-ArePaired outsz rs h =
      let (slots, run, out) = pairing_match-slots devs outsz rs h in
      subst (λ (l : List PairedRemote). ArePaired devs (map as_slot l) (length devs)) out
        (rw (slots-remotes outsz slots) (
          ArePaired-take devs outsz slots (length devs) (
            subst (λ n. ArePaired devs slots n) (omega arith)
              (pair_imus-ArePaired devs 0 (keyboards devs 0) slots
                (λ j. ap (λ n. get_or devs n no_dev) (omega arith)) (keyboards-ArePaired devs 0 0)
                run))))

  given_twice :
      (ss : List Slot) (n a b i : ℕ)
      → ArePaired devs ss n
      → a ≢ b
      → a < length ss
      → b < length ss
      → (slot ss a).imu ≡ some i
      → ¬ ((slot ss b).imu ≡ some i)
  given_twice ss n a b i paired differ a_lt b_lt ha hb =
      elim ((paired a i a_lt ha).1.others b b_lt (λ e. differ (sym e))) [
        | inr (j, taken, earlier) ↦ absurd (ground arith)
        | inl (mine, not_other) ↦ elim ((paired b i b_lt hb).1.others a a_lt differ) [
          | inr (j, taken, earlier) ↦ absurd (ground arith)
          | inl (other, not_mine) ↦ absurd (ground arith)
        ]
      ]

  length-as_slot : (rs : List PairedRemote) → length (map as_slot rs) ≡ length rs
  length-as_slot [] = refl
  length-as_slot (r ∷ rs) = omega (arith, length-as_slot rs)

  imu-as_slot :
      (rs : List PairedRemote) (a : ℕ) → (slot (map as_slot rs) a).imu ≡ (get_or rs a no_remote).imu
  imu-as_slot [] a = refl
  imu-as_slot (r ∷ rs) zero = refl
  imu-as_slot (r ∷ rs) (suc a) = imu-as_slot rs a

  -- In a pairing that succeeds, no sensor is given to two remotes.
  pub pairing_match_once :
      (outsz : ℕ) (rs : List PairedRemote) (a b i : ℕ)
      → pairing_match devs outsz ≡ ok rs
      → a < length rs
      → b < length rs
      → (get_or rs a no_remote).imu ≡ some i
      → (get_or rs b no_remote).imu ≡ some i
      → a ≡ b
  pairing_match_once outsz rs a b i h a_lt b_lt ha hb = elim (Bool-cases (a == b)) [
    | inl same ↦ ground arith
    | inr differ ↦ absurd (
        given_twice (map as_slot rs) (length devs) a b i (pairing_match-ArePaired outsz rs h)
          (λ e. ground (arith, differ, e)) (omega (arith, length-as_slot rs))
          (omega (arith, length-as_slot rs)) (imu-as_slot rs a ∙ ha) (imu-as_slot rs b ∙ hb))
  ]
