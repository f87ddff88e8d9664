-- ===== src/Accept/Runs.antt =====
-- src/server.rs, `serve`: the cap on connections and the end of the accept loop, in every run.
use oxide_http.Prelude.{
  ℕ, max, Option, none, some, List, [], ◌∷◌, Bool, true, get_elem?, total, Option-cases, ◌≡◌, refl,
  inl, inr, arith,
}
use oxide_http.Body.Delivery.{Within}
use oxide_http.Accept.{
  Loop, selecting, reserved, draining, finished, Server, start, Event, accepts, goes_on, stops,
  drained, deadline, signal, sender_drops, advances, holds_drain, step_reserved, step_loop, step,
  run,
}
use oxide_http.Accept.Cap.{holds_live, IsCapped, LoopOk-ordered, IsOrdered}
use oxide_http.Accept.Steps.{
  advance-IsCapped, decide-IsCapped, step_selecting-IsCapped, step_draining-IsCapped,
}

module _ (most : Option ℕ) where
  step_reserved-IsCapped :
      (s : Server) (count : ℕ) (event : Event)
      → s.loop ≡ reserved count
      → IsCapped most s
      → IsCapped most (step_reserved most s count event)
  unfolding step_reserved
  step_reserved-IsCapped s count goes_on e h = decide-IsCapped most s h count e
  step_reserved-IsCapped s count (accepts ok) e h = h
  step_reserved-IsCapped s count stops e h = h
  step_reserved-IsCapped s count drained e h = h
  step_reserved-IsCapped s count deadline e h = h
  step_reserved-IsCapped s count (signal stage) e h = h
  step_reserved-IsCapped s count sender_drops e h = h
  step_reserved-IsCapped s count (advances i) e h = h

  step_loop-IsCapped :
      (s : Server) (loop : Loop) (event : Event)
      → s.loop ≡ loop
      → IsCapped most s
      → IsCapped most (step_loop most s loop event)
  unfolding step_loop
  step_loop-IsCapped s selecting event e h = step_selecting-IsCapped most s h event e
  step_loop-IsCapped s (reserved count) event e h = step_reserved-IsCapped s count event e h
  step_loop-IsCapped s draining event e h = step_draining-IsCapped most s h event e
  step_loop-IsCapped s finished event e h = h

  ordered-IsCapped :
      (s : Server) (stage : ℕ) (sender_gone : Bool)
      → (IsOrdered s.stage s.sender_gone → IsOrdered stage sender_gone)
      → IsCapped most s
      → IsCapped most (record s { stage = stage; sender_gone = sender_gone })
  ordered-IsCapped s stage sender_gone f h = record {
    counted = h.counted;
    capped = h.capped;
    loop_ok =
        LoopOk-ordered most (total holds_live s.conns) (total holds_drain s.conns)
          (IsOrdered s.stage s.sender_gone) (IsOrdered stage sender_gone) s.timed_out s.loop f
          h.loop_ok;
  }

  step-IsCapped : (s : Server) (event : Event) → IsCapped most s → IsCapped most (step most s event)
  unfolding step
  step-IsCapped s (accepts ok) h = step_loop-IsCapped s s.loop (accepts ok) refl h
  step-IsCapped s goes_on h = step_loop-IsCapped s s.loop goes_on refl h
  step-IsCapped s stops h = step_loop-IsCapped s s.loop stops refl h
  step-IsCapped s drained h = step_loop-IsCapped s s.loop drained refl h
  step-IsCapped s deadline h = step_loop-IsCapped s s.loop deadline refl h
  step-IsCapped s (signal stage) h =
      ordered-IsCapped s (max s.stage stage) s.sender_gone
        (λ o. elim o [ inl late ↦ inl (omega arith) | inr sender_drop ↦ inr sender_drop ]) h
  step-IsCapped s sender_drops h = ordered-IsCapped s s.stage true (λ o. inr refl) h
  step-IsCapped s (advances i) h = elim (Option-cases (get_elem? s.conns i)) [
    | inl beyond ↦ rw (beyond, step) h
    | inr (c, here) ↦ rw (here, step) (advance-IsCapped most s i c here h)
  ]

  run-IsCapped :
      (s : Server) (events : List Event) → IsCapped most s → IsCapped most (run most s events)
  unfolding run
  run-IsCapped s [] h = h
  run-IsCapped s (event ∷ events) h =
      run-IsCapped (step most s event) events (step-IsCapped s event h)

  -- However the accept loop, its connections and the orders to close interleave: the counter is the
  -- number of connections that are served, and one more between the count and the check of the
  -- limit; no more connections are served than the limit allows; the loop is left only after an order
  -- to close; and it is over only when no connection is left or the deadline has passed.
  pub run-start-IsCapped : (events : List Event) → IsCapped most (run most start events)
  run-start-IsCapped events =
      run-IsCapped start events (record { counted = refl; capped = Within-zero most; loop_ok = tt })
    where
      Within-zero : (o : Option ℕ) → Within o 0
      Within-zero none = tt
      Within-zero (some n) = omega arith
