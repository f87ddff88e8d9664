-- ===== src/Idle/Watch.antt =====
-- src/idle.rs, `watch_idle`: only an idle connection is closed, and an idle one is closed in time.
use oxide_http.Prelude.{
  ℕ, zero, suc, ◌+◌, ◌-◌, ◌*◌, ◌/◌, ◌≤◌, ◌<◌, max, some, true, false, ltb, leb, ◌≡◌, refl, sym, ◌∙◌,
  ap, arith, Bool-cases, inl, inr,
}
use oxide_http.Idle.{Activity, idle_for, poll_step, watch_idle}

module _ (activity : ℕ → Activity) (idle : ℕ) where
  watch-busy :
      (fuel now : ℕ)
      → ltb 0 (activity now).in_flight ≡ true
      → watch_idle activity idle (suc fuel) now
        ≡ watch_idle activity idle fuel (now + poll_step idle)
  unfolding watch_idle
  watch-busy fuel now b = rw (b, watch_idle) refl

  watch-over :
      (fuel now : ℕ)
      → ltb 0 (activity now).in_flight ≡ false
      → leb idle (idle_for now (activity now)) ≡ true
      → watch_idle activity idle (suc fuel) now ≡ some now
  unfolding watch_idle
  watch-over fuel now b o = rw (b, o, watch_idle) refl

  watch-sleep :
      (fuel now : ℕ)
      → ltb 0 (activity now).in_flight ≡ false
      → leb idle (idle_for now (activity now)) ≡ false
      → watch_idle activity idle (suc fuel) now
        ≡ watch_idle activity idle fuel (now + (idle - idle_for now (activity now)) * 1000)
  unfolding watch_idle
  watch-sleep fuel now b o = rw (b, o, watch_idle) refl

  module _ (q l : ℕ) (past : (t : ℕ) → (activity t).last_ms ≤ t / 1000)
      (free : (t : ℕ) → q ≤ t → (activity t).in_flight ≡ 0)
      (still : (t : ℕ) → q ≤ t → (activity t).last_ms ≡ l) where
    longest : ℕ
    longest = max (idle * 1000) (poll_step idle)

    poll_step-bounds : 50000 ≤ poll_step idle
    poll_step-bounds = unfold poll_step in omega arith

    -- From `q` on the connection is quiet: at most two rounds are left.
    quiet_rounds :
        (fuel now : ℕ)
        → q ≤ now
        → (t : ℕ) × (watch_idle activity idle (suc (suc fuel)) now ≡ some t)
          × (t ≤ max now (q + 1000 + idle * 1000))
    unfolding idle_for
    quiet_rounds fuel now h =
        let now_free : ltb 0 (activity now).in_flight ≡ false = ground (arith, free now h) in
        elim (Bool-cases (leb idle (idle_for now (activity now)))) [
          | inl over ↦ (now, watch-over (suc fuel) now now_free over, omega arith)
          | inr early ↦
              let next : ℕ = now + (idle - idle_for now (activity now)) * 1000 in
              let later : q ≤ next = omega (arith, h) in
              let early' : idle_for now (activity now) < idle = ground arith in
              let marker : l ≤ q / 1000 = omega (arith, past q, still q (omega arith)) in
              let gone : idle ≤ idle_for next (activity next) =
                omega (arith, still now h, still next later, early', marker, h) in
              (
                next,
                watch-sleep (suc fuel) now now_free early
                    ∙ watch-over fuel next (ground (arith, free next later)) (ground (arith, gone)),
                omega (arith, still now h, early', marker, h),
              )
        ]

    rounds :
        (fuel now : ℕ)
        → q < fuel + now
        → now ≤ q + 1000 + longest
        → (t : ℕ) × (watch_idle activity idle (suc (suc fuel)) now ≡ some t)
          × (t ≤ q + 1000 + longest)
    unfolding longest idle_for
    rounds zero now enough h =
        let (t, closed, soon) = quiet_rounds zero now (omega arith) in
        (t, closed, omega (arith, soon))
    rounds (suc fuel) now enough h = elim (Bool-cases (leb q now)) [
      | inl after ↦
          let (t, closed, soon) = quiet_rounds (suc fuel) now (ground arith) in
          (t, closed, omega (arith, soon))
      | inr before ↦
          let sooner : now < q = ground arith in
          elim (Bool-cases (ltb 0 (activity now).in_flight)) [
            | inl busy ↦
                let (t, closed, soon) =
                  rounds fuel (now + poll_step idle) (omega (arith, poll_step-bounds))
                    (omega arith) in
                (t, watch-busy (suc (suc fuel)) now busy ∙ closed, soon)
            | inr unused ↦ elim (Bool-cases (leb idle (idle_for now (activity now)))) [
              | inl over ↦ (now, watch-over (suc (suc fuel)) now unused over, omega arith)
              | inr early ↦
                  let early' : idle_for now (activity now) < idle = ground arith in
                  let next : ℕ = now + (idle - idle_for now (activity now)) * 1000 in
                  let (t, closed, soon) =
                    rounds fuel next (omega (arith, early')) (omega (arith, past now, early')) in
                  (t, watch-sleep (suc (suc fuel)) now unused early ∙ closed, soon)
            ]
          ]
    ]

    -- A connection whose marker is never ahead of the clock, and on which nothing moves and no
    -- request is in flight from `q` on, is closed: a watchdog started before `q` returns, and no
    -- later than the longer of the timeout and the poll step after `q`, to the next millisecond.
    pub watch_idle_timely :
        (start : ℕ)
        → start ≤ q
        → (t : ℕ) × (watch_idle activity idle (q + 3) start ≡ some t)
          × (t ≤ q + 1000 + max (idle * 1000) (poll_step idle))
    unfolding longest
    watch_idle_timely start h =
        let (t, closed, soon) = rounds (q + 1) start (omega arith) (omega (arith, h)) in
        let same : suc (suc (q + 1)) ≡ q + 3 = omega arith in
        (t, ap (λ (n : ℕ). watch_idle activity idle n start) (sym same) ∙ closed, soon)
