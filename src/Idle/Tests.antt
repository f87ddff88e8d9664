-- ===== src/Idle/Tests.antt =====
-- src/idle.rs: a connection that falls quiet at 5 ms, with a timeout of 100 ms.
use oxide_http.Prelude.{ℕ, ◌+◌, ◌*◌, ◌≤◌, max, some, ltb, if◌then◌else◌, ◌≡◌, refl, arith}
use oxide_http.Idle.{Activity, poll_step, watch_idle}
use oxide_http.Idle.Watch.{watch_idle_timely}

abbrev quiet : ℕ → Activity
quiet t = record { last_ms = 0; in_flight = if ltb t 5000 then 1 else 0 }

timely_example :
    (t : ℕ) × (watch_idle quiet 100 (5000 + 3) 0 ≡ some t)
    × (t ≤ 5000 + 1000 + max (100 * 1000) (poll_step 100))
timely_example =
    watch_idle_timely quiet 100 5000 0 (λ t. omega arith) (λ t h. ground arith) (λ t h. refl) 0
      (omega arith)
