-- ===== src/Pipeline/Tracking.antt =====
-- The held keys of tools/src/daemon_pipeline.c as a collection, however its entries are ordered.
use lg_magic.Pipeline.{
  Held, no_key, held_size, held_index, last_held, drop_last, swap_remove, resolve, track_key,
}
use lg_magic.Prelude.{
  ℕ, zero, suc, count, ◌+◌, ◌%◌, ◌^◌, ◌<◌, ◌≤◌, ◌≡◌, ◌⊎◌, refl, Bool, true, not, ◌&&◌, Option, none,
  some, List, [], ◌∷◌, ◌++◌, arith, ◌==◌, if◌then◌else◌, length, get_or, ltb, length-append,
  Option-cases, Bool-cases, inl, inr,
}
use lg_magic.Profile.{ButtonMapEntry}

count-drop_last :
    (q : Held → Bool) (h : Held) (hs : List Held)
    → count q (h ∷ hs) ≡ count q (drop_last (h ∷ hs)) + (if q (last_held (h ∷ hs)) then 1 else 0)
unfolding count drop_last last_held
count-drop_last q h [] = omega arith
count-drop_last q h (k ∷ hs) = omega (arith, count-drop_last q k hs)

-- Removing an index takes away exactly the entry that stands there.
pub count-swap_remove :
    (q : Held → Bool) (hs : List Held) (i : ℕ)
    → i < length hs
    → count q hs ≡ count q (swap_remove hs i) + (if q (get_or hs i no_key) then 1 else 0)
unfolding swap_remove count drop_last last_held
count-swap_remove q [] i h = absurd (omega arith)
count-swap_remove q (a ∷ []) zero h = omega arith
count-swap_remove q (a ∷ []) (suc i) h = absurd (omega arith)
count-swap_remove q (a ∷ b ∷ hs) zero h = omega (arith, count-drop_last q b hs)
count-swap_remove q (a ∷ b ∷ hs) (suc zero) h =
    omega (arith, count-swap_remove q (b ∷ hs) zero (omega arith))
count-swap_remove q (a ∷ b ∷ hs) (suc (suc i)) h =
    omega (arith, count-swap_remove q (b ∷ hs) (suc i) (omega arith))

-- Tests on entries: of a physical code, of a virtual code as the 16 bits that are written, of both.
abbrev pub is_phys : ℕ → Held → Bool
is_phys k h = h.phys == k

abbrev pub is_virt : ℕ → Held → Bool
is_virt v h = h.virt % 2 ^ 16 == v

abbrev pub is_pin : ℕ → ℕ → Held → Bool
is_pin k v h = h.phys == k && h.virt == v

-- What the search finds: an index in range, at which the physical code stands.
held_index_found :
    (hs : List Held) (phys k : ℕ) (idx : Option ℕ) (i : ℕ)
    → held_index hs phys k idx ≡ some i
    → (idx ≡ some i)
      ⊎ ((j : ℕ) × (i ≡ k + j) × (j < length hs) × ((get_or hs j no_key).phys ≡ phys))
unfolding held_index
held_index_found [] phys k idx i h = inl h
held_index_found (a ∷ hs) phys k idx i h =
    elim (held_index_found hs phys (suc k) (if a.phys == phys then some k else idx) i h) [
      | inr (j, place, inside, found) ↦ inr (suc j, omega arith, omega arith, found)
      | inl here ↦ elim (Bool-cases (a.phys == phys)) [
        | inl same ↦ inr (0, ground arith, omega arith, ground arith)
        | inr other ↦ inl (ground arith)
      ]
    ]

held_index_missing :
    (hs : List Held) (phys k : ℕ) (idx : Option ℕ)
    → held_index hs phys k idx ≡ none
    → (idx ≡ none) × (count (is_phys phys) hs ≡ 0)
unfolding held_index count
held_index_missing [] phys k idx h = (h, refl)
held_index_missing (a ∷ hs) phys k idx h =
    let (idx_none, rest) =
      held_index_missing hs phys (suc k) (if a.phys == phys then some k else idx) h in
    (ground arith, ground arith)

-- What is done with a key of which no entry is held, and with one whose entry is at an index.
pub data Tracked (hs : List Held) (phys : ℕ) : Type 0 where
  fresh : held_index hs phys 0 none ≡ none → count (is_phys phys) hs ≡ 0 → Tracked hs phys
  pinned :
      (i : ℕ)
      → held_index hs phys 0 none ≡ some i
      → i < length hs
      → (get_or hs i no_key).phys ≡ phys
      → Tracked hs phys

pub track : (hs : List Held) (phys : ℕ) → Tracked hs phys
track hs phys = elim (Option-cases (held_index hs phys 0 none)) [
  | inl missing ↦ fresh missing (held_index_missing hs phys 0 none missing).1
  | inr (i, found) ↦ elim (held_index_found hs phys 0 none i found) [
    | inl e ↦ absurd (ground arith)
    | inr (j, place, inside, here) ↦
        let e : i ≡ j = omega arith in pinned i found (omega arith) (rw e here)
  ]
]

count_pin-le-count_phys : (k v : ℕ) (hs : List Held) → count (is_pin k v) hs ≤ count (is_phys k) hs
unfolding count
count_pin-le-count_phys k v [] = omega arith
count_pin-le-count_phys k v (h ∷ hs) = ground (arith, count_pin-le-count_phys k v hs)

pub count_any : (hs : List Held) → count (λ h. true) hs ≡ length hs
unfolding count
count_any [] = refl
count_any (h ∷ hs) = omega (arith, count_any hs)

abbrev pub held_as : ℕ → ℕ → Held
held_as phys virt = record { phys = phys; virt = virt }

pub count-snoc :
    (q : Held → Bool) (hs : List Held) (h : Held)
    → count q (hs ++ h ∷ []) ≡ count q hs + (if q h then 1 else 0)
unfolding count
count-snoc q [] h = omega arith
count-snoc q (k ∷ hs) h = omega (arith, count-snoc q hs h)

-- The entries fit into the array, and no physical code has two.
pub record IsTracked (hs : List Held) : Type 0 where
  pub fits : length hs ≤ held_size
  pub once : (k : ℕ) → count (is_phys k) hs ≤ 1

module _ (map : List ButtonMapEntry) (hs : List Held) (phys val : ℕ) where
  pub track_key-pinned :
      (i : ℕ)
      → held_index hs phys 0 none ≡ some i
      → track_key map hs phys val
        ≡ (if val == 0 then swap_remove hs i else hs, (get_or hs i no_key).virt)
  unfolding track_key
  track_key-pinned i found = rw (found, track_key)

  pub track_key-fresh :
      held_index hs phys 0 none ≡ none
      → track_key map hs phys val ≡ (
        if not (val == 0) && ltb (length hs) held_size
            then hs ++ record { phys = phys; virt = resolve map phys } ∷ []
            else hs,
        resolve map phys,
      )
  unfolding track_key
  track_key-fresh missing = rw (missing, track_key)

  -- Whatever the map is, a key event keeps the entries within the array and each code to one entry.
  pub track_key-IsTracked : IsTracked hs → IsTracked (track_key map hs phys val).0
  track_key-IsTracked t = elim (track hs phys) [
    | pinned i found inside here ↦ rw (track_key-pinned i found) (record {
      fits = ground (
        arith,
        count-swap_remove (λ h. true) hs i inside,
        count_any hs,
        count_any (swap_remove hs i),
      );
      once = λ k. ground (arith, t.once k, count-swap_remove (is_phys k) hs i inside);
    })
    | fresh missing none_held ↦ rw (track_key-fresh missing) (record {
      fits = ground (arith, t.fits, length-append hs (held_as phys (resolve map phys) ∷ []));
      once = λ k.
          ground (
            arith,
            t.once k,
            none_held,
            count-snoc (is_phys k) hs (held_as phys (resolve map phys)),
          );
    })
  ]

  -- An event of a key that is held as a virtual code emits that code, whatever the map is by then.
  -- A release takes away this key and nothing else; a repeat changes nothing.
  pub track_key_held :
      (virt : ℕ)
      → IsTracked hs
      → 0 < count (is_pin phys virt) hs
      → ((track_key map hs phys val).1 ≡ virt)
        × ((k v : ℕ)
            → count (is_pin k v) (track_key map hs phys val).0
              ≡ (if val == 0 && k == phys then 0 else count (is_pin k v) hs))
  track_key_held virt t held = elim (track hs phys) [
    | fresh missing none_held ↦ absurd (omega (arith, count_pin-le-count_phys phys virt hs))
    | pinned i found inside here ↦ rw (track_key-pinned i found) (
        (
          ground (
            arith,
            t.once phys,
            count-swap_remove (is_phys phys) hs i inside,
            count-swap_remove (is_pin phys virt) hs i inside,
            count_pin-le-count_phys phys virt (swap_remove hs i),
          ),
          λ k v. ground (
            arith,
            t.once phys,
            count-swap_remove (is_phys phys) hs i inside,
            count-swap_remove (is_pin k v) hs i inside,
            count_pin-le-count_phys k v (swap_remove hs i),
          ),
        ))
  ]

  -- An event of a key that is not held emits the code that the current map gives it. A press is
  -- held as that code if the array has room, and nothing else changes.
  pub track_key_fresh :
      count (is_phys phys) hs ≡ 0
      → length hs < held_size
      → ((track_key map hs phys val).1 ≡ resolve map phys)
        × ((k v : ℕ)
            → count (is_pin k v) (track_key map hs phys val).0
              ≡ count (is_pin k v) hs
                + (if not (val == 0) && (k == phys && v == resolve map phys) then 1 else 0))
  track_key_fresh free room = elim (track hs phys) [
    | pinned i found inside here ↦
        absurd (ground (arith, count-swap_remove (is_phys phys) hs i inside))
    | fresh missing none_held ↦ rw (track_key-fresh missing) (
        (refl, λ k v. ground (arith, count-snoc (is_pin k v) hs (held_as phys (resolve map phys)))))
  ]
