-- ===== src/Pipeline/Examples.antt =====
-- The theorems about tools/src/daemon_pipeline.c at concrete inputs.
use Prim.Native.String.{String}
use lg_magic.Airmouse.{Calib}
use lg_magic.DeviceConfig.Examples.{config, tv}
use lg_magic.Pipeline.{
  Held, Frame, KeyEvent, Pipeline, track_keys, pipeline_init, pipeline_configure, pipeline_keyboard,
}
use lg_magic.Pipeline.Configure.{pipeline_configure_releases}
use lg_magic.Pipeline.Keys.{Keys, replay, HasNoStray, pipeline_keyboard-HasNoStray}
use lg_magic.Pipeline.Refinement.{Pins, set_pin, press_all, Represents, track_keys-press_all}
use lg_magic.Pipeline.Tracking.{IsTracked}
use lg_magic.Prelude.{ℕ, count, ◌≡◌, true, false, Option, none, some, List, [], ◌∷◌, arith, ◌==◌}
use lg_magic.Prelude.Float.{whole}
use lg_magic.Prelude.Int.{pos}

-- UP (103) is held as DOWN (108).
abbrev up_held : List Held
up_held = record { phys = 103; virt = 108 } ∷ []

-- The virtual keyboard with that key down.
abbrev down_108 : Keys
down_108 v = v == 108

abbrev ready : Pipeline whole.Double
ready = record (pipeline_init whole) { active = tv; held = up_held }

-- UP goes up, DOWN goes down, and the wheel turns by one.
abbrev frame : Frame
frame = record {
  accel = record { at0 = pos 0; at1 = pos 0; at2 = pos 0 };
  gyro = record { at0 = pos 0; at1 = pos 0; at2 = pos 0 };
  keys = record { code = 103; value = 0 } ∷ record { code = 108; value = 1 } ∷ [];
  wheel = pos 1;
}

up_held-IsTracked : IsTracked up_held
unfolding count
up_held-IsTracked = record { fits = ground arith; once = λ k. ground arith }

down_108-HasNoStray : HasNoStray down_108 up_held
unfolding count
down_108-HasNoStray v down = ground arith

pipeline_keyboard-HasNoStray_example :
    let (p', writes, _) = pipeline_keyboard whole (λ w. true) ready frame in
    IsTracked p'.held × HasNoStray (replay writes down_108) p'.held
pipeline_keyboard-HasNoStray_example =
    pipeline_keyboard-HasNoStray whole (λ w. true) ready frame down_108 up_held-IsTracked
      (ground arith) down_108-HasNoStray

abbrev no_calib : String → Option (Calib whole.Double)
no_calib path = none

pipeline_configure_releases_example :
    let (p', writes, _) =
      pipeline_configure whole no_calib ready config (some "calib.json") (pos 1) true in
    (p'.held ≡ []) × ((v : ℕ) → replay writes down_108 v ≡ false)
pipeline_configure_releases_example =
    pipeline_configure_releases whole no_calib ready config (some "calib.json") (pos 1) down_108
      down_108-HasNoStray

-- The map of the table with UP held as DOWN.
abbrev up_pin : Pins
up_pin = set_pin (λ k. none) 103 (some 108)

up_held-Represents : Represents up_held up_pin
unfolding count
up_held-Represents = record {
  tracked = record { fits = omega arith; once = λ k. ground arith };
  pairs = λ k v. ground arith;
}

abbrev up_then_down : List KeyEvent
up_then_down = record { code = 103; value = 0 } ∷ record { code = 108; value = 1 } ∷ []

track_keys-press_all_example :
    Represents (track_keys [] up_held up_then_down).0 (press_all [] up_pin up_then_down).0
    × ((track_keys [] up_held up_then_down).1 ≡ (press_all [] up_pin up_then_down).1)
track_keys-press_all_example =
    track_keys-press_all [] up_held up_pin up_then_down (omega arith) up_held-Represents
