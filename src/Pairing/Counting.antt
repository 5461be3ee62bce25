-- ===== src/Pairing/Counting.antt =====
-- What the search of tools/src/pairing.c for the keyboard of a motion sensor counts and finds.
use lg_magic.Pairing.{InputDev, Slot, no_slot, Tally, tally, is_free, matches}
use lg_magic.Prelude.{
  ℕ, suc, count, ◌+◌, ◌<◌, ◌≡◌, ◌⊎◌, inl, inr, refl, Bool, true, ◌&&◌, Option, List, [], ◌∷◌,
  if◌then◌else◌, get_or, length, arith, Bool-cases,
}

module _ (devs : List InputDev) where
  abbrev pub is_candidate : Option (List ℕ) → Slot → Bool
  is_candidate uniq s = is_free s && matches devs uniq s

  -- What the loop over the keyboards counts and where it finds it.
  pub record IsTally (uniq : Option (List ℕ)) (ss : List Slot) (k : ℕ) (t t' : Tally) : Type 0 where
    pub nmatch : t'.nmatch ≡ t.nmatch + count (is_candidate uniq) ss
    pub nfree : t'.nfree ≡ t.nfree + count is_free ss
    pub matched :
        (t'.match_kbd ≡ t.match_kbd) × (count (is_candidate uniq) ss ≡ 0)
        ⊎ ((j : ℕ) × (t'.match_kbd ≡ k + j)
            × (j < length ss)
            × (is_candidate uniq (get_or ss j no_slot) ≡ true))
    pub freed :
        (t'.free_kbd ≡ t.free_kbd) × (count is_free ss ≡ 0)
        ⊎ ((j : ℕ) × (t'.free_kbd ≡ k + j)
            × (j < length ss)
            × (is_free (get_or ss j no_slot) ≡ true))

  pub tally-IsTally :
      (uniq : Option (List ℕ)) (ss : List Slot) (k : ℕ) (t : Tally)
      → IsTally uniq ss k t (tally devs uniq ss k t)
  unfolding tally count
  tally-IsTally uniq [] k t = record {
    nmatch = omega arith;
    nfree = omega arith;
    matched = inl (refl, refl);
    freed = inl (refl, refl);
  }
  tally-IsTally uniq (s ∷ ss) k t =
      let rest = tally-IsTally uniq ss (suc k) (
        if is_free s
        then (if matches devs uniq s
            then record { nmatch = t.nmatch + 1; match_kbd = k; nfree = t.nfree + 1; free_kbd = k }
            else record t { nfree = t.nfree + 1; free_kbd = k })
        else t) in
      record {
        nmatch = ground (arith, rest.nmatch);
        nfree = ground (arith, rest.nfree);
        matched = elim rest.matched [
          | inr (j, place, inside, here) ↦ inr (suc j, omega arith, omega arith, here)
          | inl (place, none_later) ↦ elim (Bool-cases (is_candidate uniq s)) [
            | inl here ↦ inr (0, ground arith, omega arith, here)
            | inr other ↦ inl (ground arith, ground arith)
          ]
        ];
        freed = elim rest.freed [
          | inr (j, place, inside, here) ↦ inr (suc j, omega arith, omega arith, here)
          | inl (place, none_later) ↦ elim (Bool-cases (is_free s)) [
            | inl here ↦ inr (0, ground arith, omega arith, here)
            | inr other ↦ inl (ground arith, ground arith)
          ]
        ];
      }
