-- ===== src/Pairing/Given.antt =====
-- What it means that the motion sensors of tools/src/pairing.c are given to the right keyboards.
use lg_magic.Pairing.{InputDev, no_dev, Slot, no_slot, is_free, matches, pairing_is_imu}
use lg_magic.Prelude.{
  ℕ, suc, get_or-set_same, get_or-set_other, length-set, length-take-le, get_or-take, ◌<◌, ◌≡◌, ◌≢◌,
  ◌⊎◌, inl, inr, refl, ap, sym, ◌∙◌, true, false, Option, some, List, ◌==◌, get_or, set, take,
  length, arith, Bool-cases,
}

abbrev pub slot : List Slot → ℕ → Slot
slot ss k = get_or ss k no_slot

module _ (devs : List InputDev) where
  -- The sensor of keyboard number `a` is device `i`, and for each other keyboard `b` either the
  -- sensor has the MAC of `a` and not that of `b`, or `b` has a sensor that comes earlier.
  pub record IsPaired (ss : List Slot) (a i : ℕ) : Type 0 where
    pub sensor : pairing_is_imu (get_or devs i no_dev) ≡ true
    pub others :
        (b : ℕ)
        → b < length ss
        → b ≢ a
        → ((matches devs (get_or devs i no_dev).uniq (slot ss a) ≡ true)
            × (matches devs (get_or devs i no_dev).uniq (slot ss b) ≡ false))
          ⊎ ((j : ℕ) × ((slot ss b).imu ≡ some j) × (j < i))

  -- Every sensor that is given comes before device `n`, and rightly.
  abbrev pub ArePaired : List Slot → ℕ → Type 0
  ArePaired ss n = (a i : ℕ) → a < length ss → (slot ss a).imu ≡ some i → (i < n) × IsPaired ss a i

  -- One free keyboard, number `k`, is given device `i`.
  module _ (ss : List Slot) (k i : ℕ) (inside : k < length ss) where
    abbrev pub given : List Slot
    given = set ss k (record (slot ss k) { imu = some i })

    slot-given : slot given k ≡ record (slot ss k) { imu = some i }
    slot-given = get_or-set_same ss k (record (slot ss k) { imu = some i }) no_slot inside

    slot_other : (b : ℕ) → b ≢ k → slot given b ≡ slot ss b
    slot_other b differ =
        get_or-set_other ss k b (record (slot ss k) { imu = some i }) no_slot differ

    length-given : length given ≡ length ss
    length-given = length-set ss k (record (slot ss k) { imu = some i })

    matches-given :
        (u : Option (List ℕ)) → matches devs u (slot given k) ≡ matches devs u (slot ss k)
    unfolding matches
    matches-given u = rw slot-given refl

    given-right : IsPaired ss k i → IsPaired given k i
    given-right right = record {
      sensor = right.sensor;
      others = λ b b_lt differ.
          rw (slot_other b differ, matches-given (get_or devs i no_dev).uniq)
            (right.others b (omega (arith, length-given)) differ);
    }

    given-earlier :
        (a j : ℕ) → is_free (slot ss k) ≡ true → a ≢ k → IsPaired ss a j → IsPaired given a j
    unfolding is_free
    given-earlier a j free a_other before = record {
      sensor = before.sensor;
      others = λ b b_lt differ.
          let u = (get_or devs j no_dev).uniq in
          elim (Bool-cases (b == k)) [
            | inr other ↦
                rw (slot_other a a_other, slot_other b (λ e. ground (arith, other, e)))
                  (before.others b (omega (arith, length-given)) differ)
            | inl same ↦
                let e : b ≡ k = ground arith in
                elim (before.others k inside (λ h. differ (e ∙ h))) [
                  | inr (j', taken, earlier) ↦ absurd (ground arith)
                  | inl (mine, not_k) ↦ inl (
                    ap (λ s. matches devs u s) (slot_other a a_other) ∙ mine,
                    ap (λ b'. matches devs u (slot given b')) e ∙ matches-given u ∙ not_k,
                  )
                ]
          ];
    }

    pub given-ArePaired :
        is_free (slot ss k) ≡ true → ArePaired ss i → IsPaired ss k i → ArePaired given (suc i)
    given-ArePaired free before right a j a_lt here = elim (Bool-cases (a == k)) [
      | inl same ↦
          let e : a ≡ k = ground arith in
          let last : j ≡ i = ground (arith, here, slot-given, e) in
          (omega arith, rw (e, last) (given-right right))
      | inr other ↦
          let a_other : a ≢ k = λ e. ground (arith, other, e) in
          let (earlier, was) =
            before a j (omega (arith, length-given)) (ground (arith, slot_other a a_other)) in
          (omega arith, given-earlier a j free a_other was)
    ]

  pub ArePaired-suc : (ss : List Slot) (n : ℕ) → ArePaired ss n → ArePaired ss (suc n)
  ArePaired-suc ss n before a j a_lt here =
      let (earlier, right) = before a j a_lt here in (omega (arith, earlier), right)

  pub ArePaired-take : (m : ℕ) (ss : List Slot) (n : ℕ) → ArePaired ss n → ArePaired (take m ss) n
  ArePaired-take m ss n before a i a_lt here =
      let same : (b : ℕ) → b < length (take m ss) → slot (take m ss) b ≡ slot ss b =
        λ b b_lt. get_or-take m ss b no_slot b_lt in
      let (earlier, right) =
        before a i (omega (arith, length-take-le m ss))
          (ap (λ (s : Slot). s.imu) (sym (same a a_lt)) ∙ here) in
      (
        earlier,
        record {
          sensor = right.sensor;
          others = λ b b_lt differ.
              rw (same a a_lt, same b b_lt)
                (right.others b (omega (arith, length-take-le m ss)) differ);
        },
      )
