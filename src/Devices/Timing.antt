-- ===== src/Devices/Timing.antt =====
-- When the main loop of tools/src/daemon_main.c scans for devices again: where the delay of
-- `daemon_devices_rescan_delay_ms` is 0; otherwise it polls for that long, or less where a device
-- has something to read.
use lg_magic.Devices.{Devices, time_until, delay_of, rescan_delay_ms, rescan_interval}
use lg_magic.Prelude.{ℕ, ◌+◌, ◌≤◌, ◌≡◌, Option, none, some, arith, ltb, if◌then◌else◌}

-- The time of the next scan: 2000 ms after the last one, or when one is scheduled before that.
unfoldable pub deadline_of : Option ℕ → ℕ → ℕ
deadline_of none last = last + rescan_interval
deadline_of (some due) last =
    if ltb due (last + rescan_interval) then due else last + rescan_interval

unfoldable pub deadline : {D : Type 0} → Devices D → ℕ
deadline dd = deadline_of dd.rescan_due dd.last_rescan

-- Polls from one time to another, each no longer than the delay at its start.
pub data Polls {D : Type 0} (dd : Devices D) : ℕ → ℕ → Type 0 where
  done : (now : ℕ) → Polls dd now now
  poll :
      (now took later : ℕ)
      → took ≤ rescan_delay_ms dd now
      → Polls dd (now + took) later
      → Polls dd now later

delay_of_reach :
    (scheduled : Option ℕ) (last now : ℕ)
    → now ≤ deadline_of scheduled last
    → now + delay_of scheduled last now ≡ deadline_of scheduled last
unfolding delay_of time_until deadline_of
delay_of_reach none last now before = ground (arith, before)
delay_of_reach (some due) last now before = ground (arith, before)

delay_of_past :
    (scheduled : Option ℕ) (last now : ℕ)
    → deadline_of scheduled last ≤ now
    → delay_of scheduled last now ≡ 0
unfolding delay_of time_until deadline_of
delay_of_past none last now over = ground (arith, over)
delay_of_past (some due) last now over = ground (arith, over)

delay_of_over :
    (scheduled : Option ℕ) (last now : ℕ)
    → delay_of scheduled last now ≡ 0
    → deadline_of scheduled last ≤ now
unfolding delay_of time_until deadline_of
delay_of_over none last now zero_delay = ground (arith, zero_delay)
delay_of_over (some due) last now zero_delay = ground (arith, zero_delay)

Polls-deadline :
    {D : Type 0} (dd : Devices D) (now later : ℕ)
    → Polls dd now later
    → now ≤ deadline dd
    → later ≤ deadline dd
unfolding deadline rescan_delay_ms
Polls-deadline dd now later (Polls.done _) before = before
Polls-deadline dd now later (Polls.poll _ took _ short rest) before =
    Polls-deadline dd (now + took) later rest
      (omega (arith, short, before, delay_of_reach dd.rescan_due dd.last_rescan now before))

-- From no later than the time of the next scan, which is 2000 ms after the last scan or when one is
-- scheduled before that: however many polls of the main loop end early, none lasts beyond that time,
-- and a poll that is not cut short ends at it. From that time on, and not before, the delay is 0, so
-- the loop scans.
pub rescan_delay_ms-deadline :
    {D : Type 0} (dd : Devices D) (now later : ℕ)
    → now ≤ deadline dd
    → Polls dd now later
    → (later ≤ deadline dd)
      × (later + rescan_delay_ms dd later ≡ deadline dd)
      × ((after : ℕ) → deadline dd ≤ after → rescan_delay_ms dd after ≡ 0)
      × ((before : ℕ) → rescan_delay_ms dd before ≡ 0 → deadline dd ≤ before)
unfolding deadline rescan_delay_ms
rescan_delay_ms-deadline dd now later early polls =
    let within = Polls-deadline dd now later polls early in
    (
      within,
      delay_of_reach dd.rescan_due dd.last_rescan later within,
      delay_of_past dd.rescan_due dd.last_rescan,
      delay_of_over dd.rescan_due dd.last_rescan,
    )
