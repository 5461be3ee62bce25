-- ===== src/Pipeline/Keys.antt =====
-- Which keys of the virtual keyboard are down, after the writes of tools/src/daemon_pipeline.c.
use lg_magic.Pipeline.{
  Held, held_size, swap_remove, resolve, track_key, track_keys, KeyEvent, Frame, Write, keyboard,
  mouse, Pipeline, turn_wheel, pipeline_keyboard, release_held,
}
use lg_magic.Pipeline.Tracking.{
  count-swap_remove, count-snoc, is_virt, held_as, IsTracked, track, fresh, pinned,
  track_key-pinned, track_key-fresh, track_key-IsTracked, count_any,
}
use lg_magic.Prelude.{
  ℕ, count, ◌+◌, ◌%◌, ◌^◌, ◌<◌, ◌≤◌, ◌≡◌, refl, sym, ap, ◌∙◌, Bool, true, false, not, List, [], ◌∷◌,
  ◌++◌, arith, ◌==◌, if◌then◌else◌, length, length-append,
}
use lg_magic.Prelude.Float.{Floats}
use lg_magic.Prelude.Int.{ℤ}
use lg_magic.Profile.{ButtonMapEntry}
use lg_magic.Uinput.{Event, ev_key, ev_rel, ev_syn, uinput_key}

abbrev pub Keys : Type 0
Keys = ℕ → Bool

abbrev pub update : Keys → ℕ → Bool → Keys
update s k v j = if k == j then v else s j

-- The effect of events on the keys: a value other than 0 is a press or a repeat.
unfoldable pub apply_events : List Event → Keys → Keys
apply_events [] s = s
apply_events (ev_key code value ∷ es) s = apply_events es (update s code (not (value == 0)))
apply_events (ev_rel code value ∷ es) s = apply_events es s
apply_events (ev_syn ∷ es) s = apply_events es s

unfoldable pub replay : List Write → Keys → Keys
replay [] s = s
replay (keyboard es ∷ ws) s = replay ws (apply_events es s)
replay (mouse es ∷ ws) s = replay ws s

pub replay-append : (ws vs : List Write) (s : Keys) → replay (ws ++ vs) s ≡ replay vs (replay ws s)
unfolding replay
replay-append [] vs s = refl
replay-append (keyboard es ∷ ws) vs s = replay-append ws vs (apply_events es s)
replay-append (mouse es ∷ ws) vs s = replay-append ws vs s

-- Every virtual key that is down is the code of a held key.
abbrev pub HasNoStray : Keys → List Held → Type 0
HasNoStray s hs = (v : ℕ) → s v ≡ true → 0 < count (is_virt v) hs

module _ (map : List ButtonMapEntry) (hs : List Held) (phys val : ℕ) where
  track_key-HasNoStray :
      (s : Keys)
      → length hs < held_size
      → HasNoStray s hs
      → let (hs', to) = track_key map hs phys val in
        HasNoStray (apply_events (uinput_key to val) s) hs'
  unfolding apply_events uinput_key
  track_key-HasNoStray s room ok v = elim (track hs phys) [
    | pinned i found inside here ↦
        rw (track_key-pinned map hs phys val i found)
          (λ down. ground (arith, ok v, count-swap_remove (is_virt v) hs i inside))
    | fresh missing none_held ↦
        rw (track_key-fresh map hs phys val missing) (λ down.
          ground (arith, ok v, count-snoc (is_virt v) hs (held_as phys (resolve map phys))))
  ]

  length-track_key : length (track_key map hs phys val).0 ≤ length hs + 1
  length-track_key = elim (track hs phys) [
    | pinned i found inside here ↦ rw (track_key-pinned map hs phys val i found) (
        ground (
          arith,
          count-swap_remove (λ h. true) hs i inside,
          count_any hs,
          count_any (swap_remove hs i),
        ))
    | fresh missing none_held ↦
        rw (track_key-fresh map hs phys val missing)
          (ground (arith, length-append hs (held_as phys (resolve map phys) ∷ [])))
  ]

track_keys-HasNoStray :
    (map : List ButtonMapEntry) (ks : List KeyEvent) (hs : List Held) (s : Keys)
    → length hs + length ks ≤ held_size
    → HasNoStray s hs
    → let (hs', writes) = track_keys map hs ks in HasNoStray (replay writes s) hs'
unfolding track_keys replay
track_keys-HasNoStray map [] hs s room ok = ok
track_keys-HasNoStray map (k ∷ ks) hs s room ok =
    let (hs₁, to) = track_key map hs k.code k.value in
    track_keys-HasNoStray map ks hs₁ (apply_events (uinput_key to k.value) s)
      (omega (arith, length-track_key map hs k.code k.value))
      (track_key-HasNoStray map hs k.code k.value s (omega arith) ok)

track_keys-IsTracked :
    (map : List ButtonMapEntry) (ks : List KeyEvent) (hs : List Held)
    → IsTracked hs
    → IsTracked (track_keys map hs ks).0
unfolding track_keys
track_keys-IsTracked map [] hs t = t
track_keys-IsTracked map (k ∷ ks) hs t =
    track_keys-IsTracked map ks (track_key map hs k.code k.value).0
      (track_key-IsTracked map hs k.code k.value t)

module _ (fp : Floats) where
  replay_wheel :
      (accum speed : fp.Double) (wheel : ℤ) (s : Keys)
      → replay (turn_wheel fp accum speed wheel).1 s ≡ s
  unfolding replay turn_wheel
  replay_wheel accum speed wheel s = ground arith

  -- A frame of the keyboard keeps the held keys within their array, each physical key to one entry,
  -- and, if the array has room for the keys of the frame, every virtual key that the writes leave
  -- down among the codes of the held keys, if that was so before.
  pub pipeline_keyboard-HasNoStray :
      (accepts : Write → Bool) (p : Pipeline fp.Double) (f : Frame) (s : Keys)
      → IsTracked p.held
      → length p.held + length f.keys ≤ held_size
      → HasNoStray s p.held
      → let (p', writes, _) = pipeline_keyboard fp accepts p f in
        IsTracked p'.held × HasNoStray (replay writes s) p'.held
  unfolding pipeline_keyboard
  pipeline_keyboard-HasNoStray accepts p f s t room ok =
      let (hs, keys) = track_keys p.active.map p.held f.keys in
      (
        track_keys-IsTracked p.active.map f.keys p.held t,
        rw (replay-append keys _ s, replay_wheel)
            (track_keys-HasNoStray p.active.map f.keys p.held s room ok),
      )

pub replay-release_held :
    (hs : List Held) (s : Keys) (v : ℕ)
    → replay (release_held hs) s v ≡ true
    → (s v ≡ true) × (count (is_virt v) hs ≡ 0)
unfolding replay release_held apply_events uinput_key count
replay-release_held [] s v down = (down, refl)
replay-release_held (h ∷ hs) s v down =
    let after : update (replay (release_held hs) s) (h.virt % 2 ^ 16) false v ≡ true =
      sym (
        ap (λ (t : Keys). t v)
          (replay-append (release_held hs) (keyboard (uinput_key h.virt 0) ∷ []) s))
      ∙ down in
    ground (arith, after, replay-release_held hs s v)
