-- ===== src/Profile/Buttons.antt =====
-- The button map of a profile of tools/src/profiles.c as a finite map from keycodes to keycodes.
use lg_magic.Profile.{ButtonMapEntry, set_entry, merge_map}
use lg_magic.Prelude.{
  ℕ, ◌≡◌, refl, Option, none, some, List, [], ◌∷◌, arith, ◌==◌, if◌then◌else◌, Bool-cases, inl, inr,
}

-- Where the map sends a keycode: the first entry for it.
unfoldable pub mapped : List ButtonMapEntry → ℕ → Option ℕ
mapped [] code = none
mapped (e ∷ es) code = if e.from == code then some e.to else mapped es code

-- The first answer, or else the second.
abbrev pub or_else {ℓ} : {A : Type ℓ} → Option A → Option A → Option A
or_else (some a) o = some a
or_else none o = o

-- No keycode is mapped twice.
abbrev pub IsDistinct : List ButtonMapEntry → Type 0
IsDistinct [] = Unit
IsDistinct (e ∷ es) = (mapped es e.from ≡ none) × IsDistinct es

pub mapped-set_entry :
    (es : List ButtonMapEntry) (from to code : ℕ)
    → mapped (set_entry es from to) code ≡ (if from == code then some to else mapped es code)
unfolding mapped set_entry
mapped-set_entry [] from to code = refl
mapped-set_entry (e ∷ es) from to code = ground (arith, mapped-set_entry es from to code)

pub set_entry-IsDistinct :
    (es : List ButtonMapEntry) (from to : ℕ) → IsDistinct es → IsDistinct (set_entry es from to)
unfolding mapped set_entry
set_entry-IsDistinct [] from to d = (refl, tt)
set_entry-IsDistinct (e ∷ es) from to d = elim (Bool-cases (e.from == from)) [
  | inl same ↦ rw same d
  | inr other ↦
      rw other
        ((ground (arith, mapped-set_entry es from to e.from), set_entry-IsDistinct es from to d.1))
]

pub merge_map-IsDistinct :
    (dst src : List ButtonMapEntry) → IsDistinct dst → IsDistinct (merge_map dst src)
unfolding merge_map
merge_map-IsDistinct dst [] d = d
merge_map-IsDistinct dst (e ∷ src) d =
    merge_map-IsDistinct (set_entry dst e.from e.to) src (set_entry-IsDistinct dst e.from e.to d)

pub mapped-merge_map :
    (dst src : List ButtonMapEntry) (code : ℕ)
    → IsDistinct src
    → mapped (merge_map dst src) code ≡ or_else (mapped src code) (mapped dst code)
unfolding merge_map mapped
mapped-merge_map dst [] code d = refl
mapped-merge_map dst (e ∷ src) code d = ground (
  arith,
  mapped-merge_map (set_entry dst e.from e.to) src code d.1,
  mapped-set_entry dst e.from e.to code,
)
