-- ===== src/Pairing/Order.antt =====
-- Which keyboards the remotes of tools/src/pairing.c have, and in which order.
use lg_magic.Pairing.{
  InputDev, PairedRemote, Slot, keyboards, tally, no_tally, assign, pair_imu, pair_imus, remote,
  pairing_match, pairing_is_keyboard, pairing_is_imu, or_empty, lower, bytes_eq, uniq_eq,
}
use lg_magic.Prelude.{
  ℕ, zero, suc, ◌≡◌, ◌↔◌, ◌⊎◌, inl, inr, refl, ap, sym, ◌∙◌, Bool, true, Option, List, [], ◌∷◌,
  if◌then◌else◌, take, map, arith,
}
use lg_magic.Prelude.Result.{ok, ◌>>=◌, >>=-eq-ok, ok-injective}

-- The indices, from `i` on, of the elements that pass a test.
unfoldable pub indices : {A : Type 0} → (A → Bool) → List A → ℕ → List ℕ
indices q [] i = []
indices q (x ∷ xs) i = if q x then i ∷ indices q xs (suc i) else indices q xs (suc i)

abbrev pub kbds : List Slot → List ℕ
kbds slots = map (λ (s : Slot). s.kbd) slots

pub kbds-keyboards :
    (ds : List InputDev) (i : ℕ) → kbds (keyboards ds i) ≡ indices pairing_is_keyboard ds i
unfolding keyboards indices
kbds-keyboards [] i = refl
kbds-keyboards (d ∷ ds) i = ground (arith, kbds-keyboards ds (suc i))

pub kbds-assign :
    (devs : List InputDev) (slots : List Slot) (k i : ℕ) → kbds (assign devs slots k i) ≡ kbds slots
unfolding assign
kbds-assign devs [] k i = refl
kbds-assign devs (s ∷ ss) zero i = refl
kbds-assign devs (s ∷ ss) (suc k) i = ap (λ l. s.kbd ∷ l) (kbds-assign devs ss k i)

slots-cases : (ss : List Slot) → (ss ≡ []) ⊎ ((t : Slot) × (ts : List Slot) × (ss ≡ t ∷ ts))
slots-cases [] = inl refl
slots-cases (t ∷ ts) = inr (t, ts, refl)

module _ (devs : List InputDev) where
  kbds-pair_imu :
      (slots : List Slot) (i : ℕ) (d : InputDev) (after : List Slot)
      → pair_imu devs slots i d ≡ ok after
      → kbds after ≡ kbds slots
  unfolding pair_imu
  kbds-pair_imu slots i d after h =
      let t = tally devs d.uniq slots 0 no_tally in
      ground (arith, kbds-assign devs slots t.match_kbd i, kbds-assign devs slots t.free_kbd i)

  pub kbds-pair_imus :
      (ds : List InputDev) (i : ℕ) (slots after : List Slot)
      → pair_imus devs ds i slots ≡ ok after
      → kbds after ≡ kbds slots
  unfolding pair_imus
  kbds-pair_imus [] i slots after h = ground arith
  kbds-pair_imus (d ∷ ds) i slots after h =
      let (mid, first, rest) =
        >>=-eq-ok (if pairing_is_imu d then pair_imu devs slots i d else ok slots) _ h in
      ground (arith, kbds-pair_imus ds (suc i) mid after rest, kbds-pair_imu slots i d mid)

  keyboards-remote :
      (slots : List Slot) (n : ℕ)
      → map (λ (r : PairedRemote). r.keyboard) (take n (map (remote devs) slots))
        ≡ take n (kbds slots)
  unfolding remote
  keyboards-remote slots zero = refl
  keyboards-remote [] (suc n) = refl
  keyboards-remote (s ∷ ss) (suc n) = ap (λ l. s.kbd ∷ l) (keyboards-remote ss n)

  pair_imus-nil : (ds : List InputDev) (i : ℕ) → pair_imus devs ds i [] ≡ ok []
  unfolding pair_imus pair_imu tally
  pair_imus-nil [] i = refl
  pair_imus-nil (d ∷ ds) i = ground (arith, pair_imus-nil ds (suc i))

  pub remotes-nil : (n : ℕ) → take n (map (remote devs) []) ≡ []
  remotes-nil zero = refl
  remotes-nil (suc n) = refl

  -- A run is one of the loop over the motion sensors also where there is no keyboard.
  pub pairing_match-eq :
      (outsz : ℕ)
      → pairing_match devs outsz ≡ (
          pair_imus devs devs 0 (keyboards devs 0) >>= λ slots.
          ok (take outsz (map (remote devs) slots)))
  unfolding pairing_match
  pairing_match-eq outsz = elim (slots-cases (keyboards devs 0)) [
    | inl none_there ↦ ground (arith, none_there, pair_imus-nil devs 0, remotes-nil outsz)
    | inr (s, ss, some_there) ↦ ground (arith, some_there)
  ]

  -- What a run that succeeds returns are the slots that the loop over the motion sensors leaves.
  pub pairing_match-slots :
      (outsz : ℕ) (rs : List PairedRemote)
      → pairing_match devs outsz ≡ ok rs
      → (slots : List Slot) × (pair_imus devs devs 0 (keyboards devs 0) ≡ ok slots)
        × (take outsz (map (remote devs) slots) ≡ rs)
  pairing_match-slots outsz rs h =
      let (slots, run, out) =
        >>=-eq-ok (pair_imus devs devs 0 (keyboards devs 0)) _ (sym (pairing_match-eq outsz) ∙ h) in
      (slots, run, ok-injective out)

  -- The remotes are those of the keyboards, in the order of the devices, as many as the array holds.
  pub pairing_match_keyboards :
      (outsz : ℕ) (rs : List PairedRemote)
      → pairing_match devs outsz ≡ ok rs
      → map (λ (r : PairedRemote). r.keyboard) rs ≡ take outsz (indices pairing_is_keyboard devs 0)
  pairing_match_keyboards outsz rs h =
      let (slots, run, out) = pairing_match-slots outsz rs h in
      let column : kbds slots ≡ indices pairing_is_keyboard devs 0 =
        kbds-pair_imus devs 0 (keyboards devs 0) slots run ∙ kbds-keyboards devs 0 in
      ap (λ l. map (λ (r : PairedRemote). r.keyboard) l) (sym out)
      ∙ keyboards-remote slots outsz
      ∙ ap (λ l. take outsz l) column

bytes_eq_iff : (xs ys : List ℕ) → (bytes_eq xs ys ≡ true) ↔ (map lower xs ≡ map lower ys)
unfolding bytes_eq
bytes_eq_iff [] [] = (λ h. refl, λ h. refl)
bytes_eq_iff [] (y ∷ ys) = ground arith
bytes_eq_iff (x ∷ xs) [] = ground arith
bytes_eq_iff (x ∷ xs) (y ∷ ys) = ground (arith, bytes_eq_iff xs ys)

-- Two MACs are equal exactly when they are equal after `A` to `Z` are made small. A MAC that is
-- absent counts as "", which is equal to "".
pub uniq_eq_iff :
    (a b : Option (List ℕ))
    → (uniq_eq a b ≡ true) ↔ (map lower (or_empty a) ≡ map lower (or_empty b))
unfolding uniq_eq
uniq_eq_iff a b = bytes_eq_iff (or_empty a) (or_empty b)
