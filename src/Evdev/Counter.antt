-- ===== src/Evdev/Counter.antt =====
-- The counter of the motion sensor in tools/src/evdev.c, which has 16 bits.
use lg_magic.Evdev.{counter_delta}
use lg_magic.Prelude.{ℕ, ◌+◌, ◌%◌, ◌<◌, ◌≡◌, arith}

-- Where the counter of a frame is the last one advanced by fewer than 65536 steps, wrapped to 16
-- bits as the remote wraps it, the difference that the frame's time is computed from is the number
-- of steps.
pub counter_delta_wrapped :
    (last steps : ℕ)
    → last < 65536
    → steps < 65536
    → counter_delta ((last + steps) % 65536) last ≡ steps
unfolding counter_delta
counter_delta_wrapped last steps last_lt steps_lt = omega arith
