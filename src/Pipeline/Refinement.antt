-- ===== src/Pipeline/Refinement.antt =====
-- The table of held keys of tools/src/daemon_pipeline.c, and a map from physical codes to the
-- virtual codes that they were pressed as.
use lg_magic.Pipeline.{
  Held, held_size, swap_remove, resolve, track_key, track_keys, KeyEvent, Write, keyboard, no_key,
}
use lg_magic.Pipeline.Tracking.{
  count-swap_remove, count_any, is_phys, is_pin, IsTracked, track, fresh, pinned, held_as,
  track_key-pinned, track_key-fresh, track_key-IsTracked, track_key_held, track_key_fresh,
}
use lg_magic.Prelude.{
  ℕ, suc, count, ◌+◌, ◌<◌, ◌≤◌, ◌≡◌, refl, ap, ◌∙◌, true, not, ◌&&◌, Option, none, some, Bool-cases,
  inl, inr, List, [], ◌∷◌, arith, ◌==◌, if◌then◌else◌, length, length-append, get_or,
}
use lg_magic.Profile.{ButtonMapEntry}
use lg_magic.Uinput.{uinput_key}

abbrev pub Pins : Type 0
Pins = ℕ → Option ℕ

abbrev pub set_pin : Pins → ℕ → Option ℕ → Pins
set_pin pins phys o k = if k == phys then o else pins k

-- What a key event does to the map, and the code that it emits: the code of a key that is held, which
-- a release takes out, and otherwise the one of the button map, which a press puts in.
unfoldable pub press_at : List ButtonMapEntry → Pins → ℕ → ℕ → Option ℕ → Pins × ℕ
press_at map pins phys val (some virt) = (if val == 0 then set_pin pins phys none else pins, virt)
press_at map pins phys val none =
    let to = resolve map phys in (if val == 0 then pins else set_pin pins phys (some to), to)

unfoldable pub press : List ButtonMapEntry → Pins → ℕ → ℕ → Pins × ℕ
press map pins phys val = press_at map pins phys val (pins phys)

unfoldable pub press_all : List ButtonMapEntry → Pins → List KeyEvent → Pins × List Write
press_all map pins [] = (pins, [])
press_all map pins (k ∷ ks) =
    let (pins₁, to) = press map pins k.code k.value in
    let (pins₂, writes) = press_all map pins₁ ks in
    (pins₂, keyboard (uinput_key to k.value) ∷ writes)

-- How often the map has a pair.
abbrev pub hits : Option ℕ → ℕ → ℕ
hits none v = 0
hits (some w) v = if w == v then 1 else 0

-- The table has the pairs of the map, and each of them once.
pub record Represents (hs : List Held) (pins : Pins) : Type 0 where
  pub tracked : IsTracked hs
  pub pairs : (k v : ℕ) → count (is_pin k v) hs ≡ hits (pins k) v

module _ (map : List ButtonMapEntry) (hs : List Held) (phys val : ℕ) where
  length-track_key : length (track_key map hs phys val).0 ≤ suc (length hs)
  length-track_key = elim (track hs phys) [
    | pinned i found inside here ↦ rw (track_key-pinned map hs phys val i found) (
        ground (
          arith,
          count-swap_remove (λ h. true) hs i inside,
          count_any hs,
          count_any (swap_remove hs i),
        ))
    | fresh missing none_held ↦
        rw (track_key-fresh map hs phys val missing)
          (ground (arith, length-append hs (held_as phys (resolve map phys) ∷ [])))
  ]

  count_phys_free :
      (pins : Pins) → Represents hs pins → pins phys ≡ none → count (is_phys phys) hs ≡ 0
  count_phys_free pins rep free = elim (track hs phys) [
    | fresh missing none_held ↦ none_held
    | pinned i found inside here ↦
        let pair : count (is_pin phys (get_or hs i no_key).virt) hs ≡ 0 =
          rep.pairs phys (get_or hs i no_key).virt
          ∙ ap (λ o. hits o (get_or hs i no_key).virt) free in
        absurd (
          ground (
            arith,
            pair,
            count-swap_remove (is_pin phys (get_or hs i no_key).virt) hs i inside,
            here,
          ))
  ]

  -- The pairs after an event of a key that is held, and of one that is not.
  hits_held :
      (pins : Pins) (k v : ℕ)
      → (if val == 0 && k == phys then 0 else hits (pins k) v)
        ≡ hits ((if val == 0 then set_pin pins phys none else pins) k) v
  hits_held pins k v = elim (Bool-cases (val == 0)) [
    | inr down ↦ rw down refl
    | inl up ↦ elim (Bool-cases (k == phys)) [
      | inl same ↦ rw (up, same) refl
      | inr other ↦ rw (up, other) refl
    ]
  ]

  hits_fresh :
      (pins : Pins) (to k v : ℕ)
      → pins phys ≡ none
      → hits (pins k) v + (if not (val == 0) && (k == phys && v == to) then 1 else 0)
        ≡ hits ((if val == 0 then pins else set_pin pins phys (some to)) k) v
  hits_fresh pins to k v free = elim (Bool-cases (val == 0)) [
    | inl up ↦ rw up (omega arith)
    | inr down ↦ elim (Bool-cases (k == phys)) [
      | inl same ↦
          let here : pins k ≡ none = ap pins (ground arith) ∙ free in
          rw (down, same, here) (ground arith)
      | inr other ↦ rw (down, other) (omega arith)
    ]
  ]

  track_key-press_at :
      (pins : Pins) (o : Option ℕ)
      → pins phys ≡ o
      → length hs < held_size
      → Represents hs pins
      → Represents (track_key map hs phys val).0 (press_at map pins phys val o).0
        × ((track_key map hs phys val).1 ≡ (press_at map pins phys val o).1)
  unfolding press_at
  track_key-press_at pins (some virt) held room rep =
      let one : count (is_pin phys virt) hs ≡ 1 =
        rep.pairs phys virt ∙ ap (λ o. hits o virt) held ∙ ground arith in
      let after = track_key_held map hs phys val virt rep.tracked (omega (arith, one)) in
      (
        record {
          tracked = track_key-IsTracked map hs phys val rep.tracked;
          pairs = λ k v. after.1 k v ∙ rw (rep.pairs k v) (hits_held pins k v);
        },
        after.0,
      )
  track_key-press_at pins none free room rep =
      let after = track_key_fresh map hs phys val (count_phys_free pins rep free) room in
      (
        record {
          tracked = track_key-IsTracked map hs phys val rep.tracked;
          pairs =
              λ k v. after.1 k v ∙ rw (rep.pairs k v) (hits_fresh pins (resolve map phys) k v free);
        },
        after.0,
      )

-- A table that has the pairs of a map and room for every event of a frame: the keys of the frame
-- write the codes that the map gives, and leave a table that has the pairs of the map after them.
pub track_keys-press_all :
    (map : List ButtonMapEntry) (hs : List Held) (pins : Pins) (ks : List KeyEvent)
    → length hs + length ks ≤ held_size
    → Represents hs pins
    → Represents (track_keys map hs ks).0 (press_all map pins ks).0
      × ((track_keys map hs ks).1 ≡ (press_all map pins ks).1)
unfolding track_keys press_all
track_keys-press_all map hs pins [] room rep = (rep, refl)
track_keys-press_all map hs pins (k ∷ ks) room rep =
    let step = track_key-press_at map hs k.code k.value pins (pins k.code) refl (omega arith) rep in
    let rest =
      track_keys-press_all map (track_key map hs k.code k.value).0 (press map pins k.code k.value).0
        ks (omega (arith, length-track_key map hs k.code k.value)) (unfold press in step.0) in
    let code : (track_key map hs k.code k.value).1 ≡ (press map pins k.code k.value).1 =
      unfold press in step.1 in
    (
      rest.0,
      ap
            (λ to.
              keyboard (uinput_key to k.value)
              ∷ (track_keys map (track_key map hs k.code k.value).0 ks).1)
            code
          ∙ ap (λ ws. keyboard (uinput_key (press map pins k.code k.value).1 k.value) ∷ ws) rest.1,
    )
