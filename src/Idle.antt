-- ===== src/Idle.antt =====
-- src/idle.rs: the activity of a connection and the watchdog that closes it. The clock counts
-- microseconds since `base`; the marker and the timeout are milliseconds. A sleep lasts as long as
-- it is asked to. What the connection does while the watchdog sleeps is given as the marker and the
-- number of requests in flight at each time.
pub mod Watch
mod Tests
use oxide_http.Prelude.{
  ℕ, zero, suc, ◌+◌, ◌-◌, ◌*◌, ◌/◌, min, max, Option, none, some, Bool, ltb, leb, if◌then◌else◌,
}

pub record Activity : Type 0 where
  pub last_ms : ℕ
  pub in_flight : ℕ

unfoldable pub new : Activity
new = record { last_ms = 0; in_flight = 0 }

unfoldable pub touch : ℕ → Activity → Activity
touch now a = record a { last_ms = now / 1000 }

-- In milliseconds.
unfoldable pub idle_for : ℕ → Activity → ℕ
idle_for now a = now / 1000 - a.last_ms

unfoldable pub request_guard : Activity → Activity
request_guard a = record a { in_flight = a.in_flight + 1 }

unfoldable pub drop_guard : Activity → Activity
drop_guard a = record a { in_flight = a.in_flight - 1 }

-- A read or a write of some bytes is activity.
unfoldable pub moved : ℕ → ℕ → Activity → Activity
unfolding touch
moved now n a = if ltb 0 n then touch now a else a

-- In microseconds, for a timeout in milliseconds.
unfoldable pub poll_step : ℕ → ℕ
poll_step idle = min (max (idle * 100) 50000) 5000000

-- The loop: when it returns, if it does within the rounds given.
unfoldable pub watch_idle : (ℕ → Activity) → ℕ → ℕ → ℕ → Option ℕ
unfolding poll_step idle_for
watch_idle activity idle zero now = none
watch_idle activity idle (suc fuel) now =
    let busy = watch_idle activity idle fuel (now + poll_step idle) in
    let quiet : ℕ = idle_for now (activity now) in
    let rest = watch_idle activity idle fuel (now + (idle - quiet) * 1000) in
    if ltb 0 (activity now).in_flight then busy else if leb idle quiet then some now else rest
