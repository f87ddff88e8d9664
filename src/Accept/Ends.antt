-- ===== src/Accept/Ends.antt =====
-- src/server.rs, `serve`: the way to the end of the accept loop, whatever else happens.
use oxide_http.Prelude.{
  ℕ, ◌≤◌, Option, List, [], ◌∷◌, true, false, get_elem?, total, ◌==◌, Bool-cases, Option-cases, All,
  ◌≡◌, ◌≢◌, refl, ap, ◌⊎◌, inl, inr, arith,
}
use oxide_http.Lifecycle.Calls.{wait_closing}
use oxide_http.Accept.{
  Conn, served, released, gone, Loop, selecting, reserved, draining, finished, Server, Event,
  accepts, goes_on, stops, drained, deadline, signal, sender_drops, advances, above, holds_drain,
  advance, decide, step_selecting, step_draining, step_reserved, step_loop, step, run,
}

-- How far the loop is from its end.
abbrev pub rank : Loop → ℕ
rank (reserved count) = 3
rank selecting = 2
rank draining = 1
rank finished = 0

-- No socket is accepted.
abbrev pub IsQuiet : Event → Type 0
IsQuiet event = event ≢ accepts true

Nearer : Server → Event → Server → Type 0
Nearer s event s' = (rank s'.loop ≤ rank s.loop) ⊎ ((event ≡ accepts true) × (rank s.loop ≡ 2))

module _ (most : Option ℕ) where
  pub decide-rank : (s : Server) (count : ℕ) → rank (decide most s count).loop ≤ 2
  unfolding decide
  decide-rank s count = elim (Bool-cases (above most count)) [
    | inl over ↦ rw (over, decide) (omega arith)
    | inr under ↦ rw (under, decide) (omega arith)
  ]

  step_selecting-Nearer :
      (s : Server) (event : Event) → s.loop ≡ selecting → Nearer s event (step_selecting s event)
  unfolding step_selecting Nearer
  step_selecting-Nearer s (accepts true) e = inr (refl, ap rank e)
  step_selecting-Nearer s stops e = elim (Bool-cases (wait_closing s.stage s.sender_gone)) [
    | inl ordered ↦ rw (ordered, step_selecting) (inl (omega (arith, ap rank e)))
    | inr not_yet ↦ rw (not_yet, step_selecting) (inl (omega arith))
  ]
  step_selecting-Nearer s (accepts false) e = inl (omega arith)
  step_selecting-Nearer s goes_on e = inl (omega arith)
  step_selecting-Nearer s drained e = inl (omega arith)
  step_selecting-Nearer s deadline e = inl (omega arith)
  step_selecting-Nearer s (signal stage) e = inl (omega arith)
  step_selecting-Nearer s sender_drops e = inl (omega arith)
  step_selecting-Nearer s (advances i) e = inl (omega arith)

  step_draining-Nearer :
      (s : Server) (event : Event) → s.loop ≡ draining → Nearer s event (step_draining s event)
  unfolding step_draining Nearer
  step_draining-Nearer s drained e = elim (Bool-cases (total holds_drain s.conns == 0)) [
    | inl none_left ↦ rw (none_left, step_draining) (inl (omega arith))
    | inr some_left ↦ rw (some_left, step_draining) (inl (omega arith))
  ]
  step_draining-Nearer s deadline e = inl (omega arith)
  step_draining-Nearer s (accepts ok) e = inl (omega arith)
  step_draining-Nearer s goes_on e = inl (omega arith)
  step_draining-Nearer s stops e = inl (omega arith)
  step_draining-Nearer s (signal stage) e = inl (omega arith)
  step_draining-Nearer s sender_drops e = inl (omega arith)
  step_draining-Nearer s (advances i) e = inl (omega arith)

  step_reserved-Nearer :
      (s : Server) (count : ℕ) (event : Event)
      → s.loop ≡ reserved count
      → Nearer s event (step_reserved most s count event)
  unfolding step_reserved Nearer
  step_reserved-Nearer s count goes_on e = inl (omega (arith, decide-rank s count, ap rank e))
  step_reserved-Nearer s count (accepts ok) e = inl (omega arith)
  step_reserved-Nearer s count stops e = inl (omega arith)
  step_reserved-Nearer s count drained e = inl (omega arith)
  step_reserved-Nearer s count deadline e = inl (omega arith)
  step_reserved-Nearer s count (signal stage) e = inl (omega arith)
  step_reserved-Nearer s count sender_drops e = inl (omega arith)
  step_reserved-Nearer s count (advances i) e = inl (omega arith)

  step_loop-Nearer :
      (s : Server) (loop : Loop) (event : Event)
      → s.loop ≡ loop
      → Nearer s event (step_loop most s loop event)
  unfolding step_loop Nearer
  step_loop-Nearer s selecting event e = step_selecting-Nearer s event e
  step_loop-Nearer s (reserved count) event e = step_reserved-Nearer s count event e
  step_loop-Nearer s draining event e = step_draining-Nearer s event e
  step_loop-Nearer s finished event e = inl (omega arith)

  advance-loop : (s : Server) (i : ℕ) (c : Conn) → (advance s i c).loop ≡ s.loop
  unfolding advance
  advance-loop s i served = refl
  advance-loop s i released = refl
  advance-loop s i gone = refl

  step-Nearer : (s : Server) (event : Event) → Nearer s event (step most s event)
  unfolding step Nearer
  step-Nearer s (accepts ok) = step_loop-Nearer s s.loop (accepts ok) refl
  step-Nearer s goes_on = step_loop-Nearer s s.loop goes_on refl
  step-Nearer s stops = step_loop-Nearer s s.loop stops refl
  step-Nearer s drained = step_loop-Nearer s s.loop drained refl
  step-Nearer s deadline = step_loop-Nearer s s.loop deadline refl
  step-Nearer s (signal stage) = inl (omega arith)
  step-Nearer s sender_drops = inl (omega arith)
  step-Nearer s (advances i) = elim (Option-cases (get_elem? s.conns i)) [
    | inl beyond ↦ rw (beyond, step) (inl (omega arith))
    | inr (c, here) ↦ rw (here, step) (inl (omega (arith, ap rank (advance-loop s i c))))
  ]

  -- Below the `select`, or with no socket accepted, the loop never gets further away.
  pub run-rank :
      (k : ℕ) (s : Server) (events : List Event)
      → (All IsQuiet events) ⊎ (k ≤ 1)
      → rank s.loop ≤ k
      → rank (run most s events).loop ≤ k
  unfolding run Nearer
  run-rank k s [] q h = h
  run-rank k s (event ∷ events) q h = elim (step-Nearer s event) [
    | inl near ↦ run-rank k (step most s event) events (rest q) (omega (arith, near, h))
    | inr (accepted, at_select) ↦ elim q [
      | inl quiet ↦ absurd (quiet.0 accepted)
      | inr low ↦ absurd (omega (arith, at_select, low, h))
    ]
  ]
    where
      rest : (All IsQuiet (event ∷ events)) ⊎ (k ≤ 1) → (All IsQuiet events) ⊎ (k ≤ 1)
      rest (inl quiet) = inl quiet.1
      rest (inr low) = inr low
