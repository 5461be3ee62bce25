-- ===== src/Evdev/Collect.antt =====
-- What `evdev_read_frame_ext` of tools/src/evdev.c collects from a run of events.
use lg_magic.Evdev.{
  EvdevEvent, ev_key, ev_wheel, ev_hwheel, ev_abs, ev_serial, ev_other, ev_syn, ReadResult, event,
  Outcome, frame_read, EvdevImu, EvdevFrame, keys_size, set_axis, add_key, empty_frame,
  finish_frame, read_loop, read_frame_ext,
}
use lg_magic.Kernel.{Axis}
use lg_magic.Prelude.{
  ◌≤◌, ◌≡◌, refl, ap, ◌∙◌, sym, true, false, List, [], ◌∷◌, ◌++◌, map, take, length, All, arith,
}
use lg_magic.Prelude.Float.{Floats}
use lg_magic.Prelude.Int.{◌+ℤ◌}
use lg_magic.Evdev.Describe.{
  is_syn, keys_of, wheel_of, counter_of, axis_of, place, place-set_axis, +ℤ_assoc, +ℤ_zero, zero_+ℤ,
  take-append_fits, take-add_key, length-add_key,
}

module _ (fp : Floats) (t_unit nan : fp.Double) where
  open fp use {Double}

  -- What a run of events gives from a device and a frame: `rest` is left to read.
  record IsCollected (es : List EvdevEvent) (rest : List ReadResult) (dev : EvdevImu)
      (frame : EvdevFrame Double) (outcome : Outcome) (dev' : EvdevImu) (frame' : EvdevFrame Double)
      (left : List ReadResult) : Type 0 where
    outcome_read : outcome ≡ frame_read
    left_rest : left ≡ rest
    keys : frame'.keys ≡ take keys_size (frame.keys ++ keys_of es)
    wheel : frame'.wheel ≡ frame.wheel +ℤ wheel_of es
    counter : frame'.counter ≡ counter_of es frame.counter
    axes : (a : Axis) → place a frame'.accel frame'.gyro ≡ axis_of a es (place a dev.accel dev.gyro)
    kept : (dev'.accel ≡ frame'.accel) × (dev'.gyro ≡ frame'.gyro)
    last : (dev'.last_counter ≡ frame'.counter) × (dev'.have_frame ≡ true)

  read_loop-IsCollected :
      (es : List EvdevEvent) (rest : List ReadResult) (dev : EvdevImu) (frame : EvdevFrame Double)
      → All (λ e. is_syn e ≡ false) es
      → length frame.keys ≤ keys_size
      → let (outcome, dev', frame', left) =
          read_loop fp t_unit nan (map event es ++ event ev_syn ∷ rest) dev frame in
        IsCollected es rest dev frame outcome dev' frame' left
  unfolding read_loop finish_frame keys_of wheel_of counter_of axis_of
  read_loop-IsCollected [] rest dev frame none_syn fits = record {
    outcome_read = refl;
    left_rest = refl;
    keys = sym (take-append_fits keys_size frame.keys fits);
    wheel = sym (+ℤ_zero frame.wheel);
    counter = refl;
    axes = λ a. refl;
    kept = (refl, refl);
    last = (refl, refl);
  }
  read_loop-IsCollected (ev_key code value ∷ es) rest dev frame none_syn fits =
      let c =
        read_loop-IsCollected es rest dev (record frame { keys = add_key frame.keys code value })
          none_syn.1 (length-add_key frame.keys code value fits) in
      record {
        outcome_read = c.outcome_read;
        left_rest = c.left_rest;
        keys = c.keys ∙ take-add_key frame.keys code value (keys_of es);
        wheel = c.wheel;
        counter = c.counter;
        axes = c.axes;
        kept = c.kept;
        last = c.last;
      }
  read_loop-IsCollected (ev_wheel v ∷ es) rest dev frame none_syn fits =
      let c =
        read_loop-IsCollected es rest dev (record frame { wheel = frame.wheel +ℤ v }) none_syn.1
          fits in
      record {
        outcome_read = c.outcome_read;
        left_rest = c.left_rest;
        keys = c.keys;
        wheel = c.wheel ∙ +ℤ_assoc frame.wheel v (wheel_of es);
        counter = c.counter;
        axes = c.axes;
        kept = c.kept;
        last = c.last;
      }
  read_loop-IsCollected (ev_hwheel v ∷ es) rest dev frame none_syn fits =
      let c =
        read_loop-IsCollected es rest dev (record frame { hwheel = frame.hwheel +ℤ v }) none_syn.1
          fits in
      record {
        outcome_read = c.outcome_read;
        left_rest = c.left_rest;
        keys = c.keys;
        wheel = c.wheel;
        counter = c.counter;
        axes = c.axes;
        kept = c.kept;
        last = c.last;
      }
  read_loop-IsCollected (ev_abs b v ∷ es) rest dev frame none_syn fits =
      let c = read_loop-IsCollected es rest (set_axis dev b v) frame none_syn.1 fits in
      record {
        outcome_read = c.outcome_read;
        left_rest = c.left_rest;
        keys = c.keys;
        wheel = c.wheel;
        counter = c.counter;
        axes = λ a. c.axes a ∙ ap (axis_of a es) (place-set_axis dev a b v);
        kept = c.kept;
        last = c.last;
      }
  read_loop-IsCollected (ev_serial d ∷ es) rest dev frame none_syn fits =
      let c = read_loop-IsCollected es rest dev (record frame { counter = d }) none_syn.1 fits in
      record {
        outcome_read = c.outcome_read;
        left_rest = c.left_rest;
        keys = c.keys;
        wheel = c.wheel;
        counter = c.counter;
        axes = c.axes;
        kept = c.kept;
        last = c.last;
      }
  read_loop-IsCollected (ev_other ∷ es) rest dev frame none_syn fits =
      let c = read_loop-IsCollected es rest dev frame none_syn.1 fits in
      record {
        outcome_read = c.outcome_read;
        left_rest = c.left_rest;
        keys = c.keys;
        wheel = c.wheel;
        counter = c.counter;
        axes = c.axes;
        kept = c.kept;
        last = c.last;
      }
  read_loop-IsCollected (ev_syn ∷ es) rest dev frame none_syn fits = absurd (ground arith)

  -- A run of events without a SYN, and then a SYN, is read as one frame, and what follows is left.
  -- Its keys are the first 16 key events in order, its wheel the sum of the turns, its counter the
  -- last one, or 0, and each axis its last value, or the one that the device had before. The device
  -- keeps the axes and the counter of the frame for the next.
  pub read_frame_ext_lem :
      (es : List EvdevEvent) (rest : List ReadResult) (dev : EvdevImu)
      → All (λ e. is_syn e ≡ false) es
      → let (outcome, dev', frame, left) =
          read_frame_ext fp t_unit nan (map event es ++ event ev_syn ∷ rest) dev in
        (outcome ≡ frame_read)
        × (left ≡ rest)
        × (frame.keys ≡ take keys_size (keys_of es))
        × (frame.wheel ≡ wheel_of es)
        × (frame.counter ≡ counter_of es 0)
        × ((a : Axis) → place a frame.accel frame.gyro ≡ axis_of a es (place a dev.accel dev.gyro))
        × ((dev'.accel ≡ frame.accel) × (dev'.gyro ≡ frame.gyro))
        × ((dev'.last_counter ≡ frame.counter) × (dev'.have_frame ≡ true))
  unfolding read_frame_ext empty_frame
  read_frame_ext_lem es rest dev none_syn =
      let c =
        read_loop-IsCollected es rest dev (empty_frame fp t_unit nan) none_syn (omega arith) in
      (
        c.outcome_read,
        c.left_rest,
        c.keys,
        c.wheel ∙ zero_+ℤ (wheel_of es),
        c.counter,
        c.axes,
        c.kept,
        c.last,
      )
