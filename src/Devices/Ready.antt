-- ===== src/Devices/Ready.antt =====
-- The calls by which tools/src/daemon_devices.c opens a remote, and their order.
use Prim.Native.String.{String}
use lg_magic.Airmouse.{Calib}
use lg_magic.DeviceConfig.{DeviceConfig}
use lg_magic.Devices.{
  Call, create_keyboard, create_mouse, find_keyboard, find_imu, grab, close_fd, Log, World, Remote,
}
use lg_magic.Devices.Open.{
  Opened, close_one, remote_free, ask, remote_uinput_open, blank_remote, open_imu, open_keyboard,
  remote_open,
}
use lg_magic.Devices.Rescan.{Slots, free_rest}
use lg_magic.Prelude.{
  ℕ, ◌≡◌, refl, ap, sym, ◌∙◌, ◌⊎◌, inl, inr, true, false, Bool-cases, Option, none, some,
  Option-cases, List, [], ◌∷◌,
}
use lg_magic.Prelude.Float.{Floats}
use lg_magic.Prelude.Text.{str_eq}
use mathlib.Core.Path.{subst}

-- The last calls found the keyboard, after they created the mouse and the keyboard of the remote.
unfoldable pub HasPair : List ℕ → ℕ → Log → Type 0
HasPair identity fd log =
    (path : String) × (m : ℕ) × (k : ℕ) × (before : Log) × (log
      ≡ record { call = find_keyboard path; answer = some fd }
        ∷ record { call = create_mouse identity; answer = some m }
        ∷ record { call = create_keyboard identity; answer = some k }
        ∷ before)

unfoldable pub IsReady : Call → Log → Type 0
IsReady (grab identity fd) log = HasPair identity fd log
IsReady (create_keyboard identity) log = Unit
IsReady (create_mouse identity) log = Unit
IsReady (find_keyboard path) log = Unit
IsReady (find_imu path) log = Unit
IsReady (close_fd fd) log = Unit

-- Every grab of the log has its pair right before it.
unfoldable pub GrabsAreReady : Log → Type 0
GrabsAreReady [] = Unit
GrabsAreReady (e ∷ log) = IsReady e.call log × GrabsAreReady log

close_one-GrabsAreReady :
    (fd : Option ℕ) (log : Log) → GrabsAreReady log → GrabsAreReady (close_one fd log)
unfolding close_one GrabsAreReady IsReady
close_one-GrabsAreReady none log ready = ready
close_one-GrabsAreReady (some fd) log ready = (tt, ready)

pub remote_free-GrabsAreReady :
    {D : Type 0} (r : Remote D) (log : Log) → GrabsAreReady log → GrabsAreReady (remote_free r log)
unfolding remote_free
remote_free-GrabsAreReady r log ready = close_one-GrabsAreReady r.mouse_uinput _ (
    close_one-GrabsAreReady r.kbd_uinput _
      (close_one-GrabsAreReady r.imu _ (close_one-GrabsAreReady r.kbd log ready)))

pub free_rest-GrabsAreReady :
    {D : Type 0} (es : Slots D) (log : Log) → GrabsAreReady log → GrabsAreReady (free_rest es log)
unfolding free_rest
free_rest-GrabsAreReady [] log ready = ready
free_rest-GrabsAreReady (none ∷ es) log ready = free_rest-GrabsAreReady es log ready
free_rest-GrabsAreReady (some e ∷ es) log ready =
    free_rest-GrabsAreReady es (remote_free e log) (remote_free-GrabsAreReady e log ready)

-- How `remote_uinput_open` ends: with an error, or with both devices.
Ended : {D : Type 0} → List ℕ → Log → Opened D → Type 0
Ended identity log v =
    ((v.done ≡ false) × GrabsAreReady v.log)
    ⊎ ((v.done ≡ true)
        × (v.remote.identity ≡ identity)
        × (m : ℕ) × (k : ℕ) × (v.log
            ≡ record { call = create_mouse identity; answer = some m }
              ∷ record { call = create_keyboard identity; answer = some k }
              ∷ log))

remote_uinput_open-Ended :
    {D : Type 0} (world : World) (r : Remote D) (log : Log)
    → GrabsAreReady log
    → Ended r.identity log (remote_uinput_open world false r log)
unfolding Ended remote_uinput_open ask GrabsAreReady IsReady close_one
remote_uinput_open-Ended world r log ready =
    elim (Option-cases (world log (create_keyboard r.identity))) [
      | inl failed ↦ rw failed (inl (refl, (tt, ready)))
      | inr (k, made) ↦
          elim (Option-cases
            (world (ask world (create_keyboard r.identity) log) (create_mouse r.identity))) [
              | inl failed ↦ rw (made, failed) (inl (refl, (tt, (tt, (tt, ready)))))
              | inr (m, made_too) ↦
                  rw (made, made_too)
                    (inr (
                      refl,
                      refl,
                      m,
                      k,
                      ap
                            (λ a.
                              record { call = create_mouse r.identity; answer = a }
                              ∷ ask world (create_keyboard r.identity) log)
                            made_too
                          ∙ ap
                              (λ a.
                                record { call = create_mouse r.identity; answer = some m }
                                ∷ record { call = create_keyboard r.identity; answer = a }
                                ∷ log)
                              made,
                    ))
            ]
    ]

module _ (fp : Floats) (load : List ℕ → DeviceConfig fp.Double)
    (calib_path : DeviceConfig fp.Double → List ℕ → Option String)
    (calib_load : String → Option (Calib fp.Double)) (global_lpf : fp.Double) (world : World) where
  open_imu-GrabsAreReady :
      (r : Remote fp.Double) (log : Log)
      → GrabsAreReady log
      → GrabsAreReady (open_imu fp load calib_path calib_load global_lpf world r log).log
  unfolding open_imu GrabsAreReady IsReady ask
  open_imu-GrabsAreReady r log ready = elim (Bool-cases (str_eq r.imu_path "")) [
    | inl absent ↦ rw absent ready
    | inr there ↦ elim (Option-cases (world log (find_imu r.imu_path))) [
      | inl failed ↦ rw (there, failed) (tt, ready)
      | inr (fd, opened) ↦ rw (there, opened) (tt, ready)
    ]
  ]

  open_keyboard_failed :
      (r : Remote fp.Double) (log : Log)
      → world log (find_keyboard r.kbd_path) ≡ none
      → (open_keyboard fp load calib_path calib_load global_lpf world r log).log
        ≡ remote_free r (ask world (find_keyboard r.kbd_path) log)
  unfolding open_keyboard
  open_keyboard_failed r log failed = rw (failed, open_keyboard) refl

  open_keyboard_found :
      (r : Remote fp.Double) (log : Log) (fd : ℕ)
      → world log (find_keyboard r.kbd_path) ≡ some fd
      → open_keyboard fp load calib_path calib_load global_lpf world r log
        ≡ open_imu fp load calib_path calib_load global_lpf world
            (record r { kbd = some fd })
            (ask world (grab r.identity fd) (ask world (find_keyboard r.kbd_path) log))
  unfolding open_keyboard
  open_keyboard_found r log fd found = rw (found, open_keyboard) refl

  ask-GrabsAreReady :
      (call : Call) (log : Log)
      → IsReady call log
      → GrabsAreReady log
      → GrabsAreReady (ask world call log)
  unfolding ask GrabsAreReady
  ask-GrabsAreReady call log here ready = (here, ready)

  open_keyboard-GrabsAreReady :
      (r : Remote fp.Double) (m k : ℕ) (before log : Log)
      → log
        ≡ record { call = create_mouse r.identity; answer = some m }
          ∷ record { call = create_keyboard r.identity; answer = some k }
          ∷ before
      → GrabsAreReady log
      → GrabsAreReady (open_keyboard fp load calib_path calib_load global_lpf world r log).log
  unfolding IsReady HasPair
  open_keyboard-GrabsAreReady r m k before log made ready =
      let asked = ask-GrabsAreReady (find_keyboard r.kbd_path) log tt ready in
      elim (Option-cases (world log (find_keyboard r.kbd_path))) [
        | inl failed ↦ rw (open_keyboard_failed r log failed) (remote_free-GrabsAreReady r _ asked)
        | inr (fd, found) ↦
            let pair : (ask world (find_keyboard r.kbd_path) log
                ≡ record { call = find_keyboard r.kbd_path; answer = some fd }
                  ∷ record { call = create_mouse r.identity; answer = some m }
                  ∷ record { call = create_keyboard r.identity; answer = some k }
                  ∷ before) =
              unfold ask in
              (ap (λ a. record { call = find_keyboard r.kbd_path; answer = a } ∷ log) found
                ∙ ap (λ l. record { call = find_keyboard r.kbd_path; answer = some fd } ∷ l)
                    made) in
            rw (open_keyboard_found r log fd found) (
              open_imu-GrabsAreReady (record r { kbd = some fd }) _
                (ask-GrabsAreReady (grab r.identity fd) _ (r.kbd_path, m, k, before, pair) asked))
      ]

  pub remote_open-GrabsAreReady :
      (identity : List ℕ) (kbd_path imu_path : String) (log : Log)
      → GrabsAreReady log
      → GrabsAreReady
          (remote_open fp load calib_path calib_load global_lpf world false identity kbd_path
            imu_path log).log
  unfolding remote_open Ended
  remote_open-GrabsAreReady identity kbd_path imu_path log ready =
      let blank = blank_remote fp identity kbd_path imu_path in
      let v = remote_uinput_open world false blank log in
      elim (remote_uinput_open-Ended world blank log ready) [
        | inl (failed, still) ↦ rw failed (remote_free-GrabsAreReady v.remote v.log still)
        | inr (done, named, m, k, made) ↦ rw done (
            open_keyboard-GrabsAreReady v.remote m k log v.log
              (subst
                (λ n.
                  v.log
                  ≡ record { call = create_mouse n; answer = some m }
                    ∷ record { call = create_keyboard n; answer = some k }
                    ∷ log)
                {x = blank.identity} {y = v.remote.identity} (sym named) made)
              (subst GrabsAreReady
                {x = record { call = create_mouse blank.identity; answer = some m }
                  ∷ record { call = create_keyboard blank.identity; answer = some k }
                  ∷ log}
                {y = v.log} (sym made) (unfold GrabsAreReady IsReady in (tt, (tt, ready)))))
      ]
