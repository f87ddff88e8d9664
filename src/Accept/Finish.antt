-- ===== src/Accept/Finish.antt =====
-- src/server.rs, `serve`: once the order to close is given, the accept loop ends.
use oxide_http.Prelude.{
  ℕ, ◌≤◌, Option, List, [], ◌∷◌, ◌++◌, true, false, get_elem?, total, ◌==◌, Bool-cases,
  Option-cases, All, ◌≡◌, refl, ◌∙◌, ap, inl, inr, arith,
}
use oxide_http.Lifecycle.Calls.{wait_closing}
use oxide_http.Accept.{
  Conn, served, released, gone, Loop, selecting, reserved, draining, finished, Server, Event,
  accepts, goes_on, stops, drained, deadline, signal, sender_drops, advances, above, holds_drain,
  accept, advance, decide, step_selecting, step_draining, step_reserved, step_loop, step, run,
}
use oxide_http.Accept.Cap.{IsOrdered, wait_closing_iff}
use oxide_http.Accept.Ends.{rank, IsQuiet, decide-rank, run-rank}

-- An order to close that one server has, the other has too.
abbrev Obeys : Server → Server → Type 0
Obeys s s' = IsOrdered s.stage s.sender_gone → IsOrdered s'.stage s'.sender_gone

module _ (most : Option ℕ) where
  decide-Obeys : (s : Server) (count : ℕ) → Obeys s (decide most s count)
  unfolding decide
  decide-Obeys s count = elim (Bool-cases (above most count)) [
    | inl over ↦ rw (over, decide) (λ o. o)
    | inr under ↦ rw (under, decide) (λ o. o)
  ]

  step_loop-Obeys :
      (s : Server) (loop : Loop) (event : Event) → Obeys s (step_loop most s loop event)
  unfolding step_loop step_selecting step_draining step_reserved accept
  step_loop-Obeys s selecting stops = elim (Bool-cases (wait_closing s.stage s.sender_gone)) [
    | inl ordered ↦ rw (ordered, step_loop, step_selecting) (λ o. o)
    | inr not_yet ↦ rw (not_yet, step_loop, step_selecting) (λ o. o)
  ]
  step_loop-Obeys s selecting (accepts true) = λ o. o
  step_loop-Obeys s selecting (accepts false) = λ o. o
  step_loop-Obeys s selecting goes_on = λ o. o
  step_loop-Obeys s selecting drained = λ o. o
  step_loop-Obeys s selecting deadline = λ o. o
  step_loop-Obeys s selecting (signal stage) = λ o. o
  step_loop-Obeys s selecting sender_drops = λ o. o
  step_loop-Obeys s selecting (advances i) = λ o. o
  step_loop-Obeys s (reserved count) goes_on = decide-Obeys s count
  step_loop-Obeys s (reserved count) (accepts ok) = λ o. o
  step_loop-Obeys s (reserved count) stops = λ o. o
  step_loop-Obeys s (reserved count) drained = λ o. o
  step_loop-Obeys s (reserved count) deadline = λ o. o
  step_loop-Obeys s (reserved count) (signal stage) = λ o. o
  step_loop-Obeys s (reserved count) sender_drops = λ o. o
  step_loop-Obeys s (reserved count) (advances i) = λ o. o
  step_loop-Obeys s draining drained = elim (Bool-cases (total holds_drain s.conns == 0)) [
    | inl none_left ↦ rw (none_left, step_loop, step_draining) (λ o. o)
    | inr some_left ↦ rw (some_left, step_loop, step_draining) (λ o. o)
  ]
  step_loop-Obeys s draining deadline = λ o. o
  step_loop-Obeys s draining (accepts ok) = λ o. o
  step_loop-Obeys s draining goes_on = λ o. o
  step_loop-Obeys s draining stops = λ o. o
  step_loop-Obeys s draining (signal stage) = λ o. o
  step_loop-Obeys s draining sender_drops = λ o. o
  step_loop-Obeys s draining (advances i) = λ o. o
  step_loop-Obeys s finished event = λ o. o

  advance-Obeys : (s : Server) (i : ℕ) (c : Conn) → Obeys s (advance s i c)
  unfolding advance
  advance-Obeys s i served = λ o. o
  advance-Obeys s i released = λ o. o
  advance-Obeys s i gone = λ o. o

  step-Obeys : (s : Server) (event : Event) → Obeys s (step most s event)
  unfolding step
  step-Obeys s (accepts ok) = step_loop-Obeys s s.loop (accepts ok)
  step-Obeys s goes_on = step_loop-Obeys s s.loop goes_on
  step-Obeys s stops = step_loop-Obeys s s.loop stops
  step-Obeys s drained = step_loop-Obeys s s.loop drained
  step-Obeys s deadline = step_loop-Obeys s s.loop deadline
  step-Obeys s (signal stage) =
      λ o. elim o [ inl late ↦ inl (omega arith) | inr sender_gone ↦ inr sender_gone ]
  step-Obeys s sender_drops = λ o. inr refl
  step-Obeys s (advances i) = elim (Option-cases (get_elem? s.conns i)) [
    | inl beyond ↦ rw (beyond, step) (λ o. o)
    | inr (c, here) ↦ rw (here, step) (advance-Obeys s i c)
  ]

  run-Obeys : (s : Server) (events : List Event) → Obeys s (run most s events)
  unfolding run
  run-Obeys s [] = λ o. o
  run-Obeys s (event ∷ events) = λ o. run-Obeys (step most s event) events (step-Obeys s event o)

  run-append :
      (s : Server) (xs ys : List Event) → run most s (xs ++ ys) ≡ run most (run most s xs) ys
  unfolding run
  run-append s [] ys = refl
  run-append s (x ∷ xs) ys = run-append (step most s x) xs ys

  -- The three steps that the loop itself has to take.
  goes_on-rank :
      (s : Server) (loop : Loop) → s.loop ≡ loop → rank (step_loop most s loop goes_on).loop ≤ 2
  unfolding step_loop step_selecting step_draining step_reserved
  goes_on-rank s selecting e = omega (arith, ap rank e)
  goes_on-rank s (reserved count) e = decide-rank most s count
  goes_on-rank s draining e = omega (arith, ap rank e)
  goes_on-rank s finished e = omega (arith, ap rank e)

  stops-rank :
      (s : Server) (loop : Loop)
      → s.loop ≡ loop
      → rank s.loop ≤ 2
      → IsOrdered s.stage s.sender_gone
      → rank (step_loop most s loop stops).loop ≤ 1
  unfolding step_loop step_selecting step_draining step_reserved
  stops-rank s selecting e h o =
      rw ((wait_closing_iff s.stage s.sender_gone).1 o, step_loop, step_selecting) (omega arith)
  stops-rank s (reserved count) e h o = absurd (omega (arith, ap rank e, h))
  stops-rank s draining e h o = omega (arith, ap rank e)
  stops-rank s finished e h o = omega (arith, ap rank e)

  deadline-rank :
      (s : Server) (loop : Loop)
      → s.loop ≡ loop
      → rank s.loop ≤ 1
      → rank (step_loop most s loop deadline).loop ≤ 0
  unfolding step_loop step_selecting step_draining step_reserved
  deadline-rank s selecting e h = absurd (omega (arith, ap rank e, h))
  deadline-rank s (reserved count) e h = absurd (omega (arith, ap rank e, h))
  deadline-rank s draining e h = omega arith
  deadline-rank s finished e h = omega (arith, ap rank e)

  rank-finished : (loop : Loop) → rank loop ≤ 0 → loop ≡ finished
  rank-finished selecting h = absurd (omega arith)
  rank-finished (reserved count) h = absurd (omega arith)
  rank-finished draining h = absurd (omega arith)
  rank-finished finished h = refl

  -- Once CLOSING is ordered or the sender of the stage is gone, the accept loop ends wherever it stands
  -- and whatever its connections, the drain and the signals do meanwhile: after it has gone on to its
  -- `select` and no socket is accepted before it takes the order, it is over when the deadline passes,
  -- and stays so.
  pub run-finishes :
      (s : Server) (quiet later rest : List Event)
      → IsOrdered s.stage s.sender_gone
      → All IsQuiet quiet
      → (run most s (goes_on ∷ (quiet ++ (stops ∷ (later ++ (deadline ∷ rest)))))).loop ≡ finished
  unfolding run step
  run-finishes s quiet later rest order q =
      let s1 : Server = step_loop most s s.loop goes_on in
      let s2 : Server = run most s1 quiet in
      let s3 : Server = step_loop most s2 s2.loop stops in
      let s4 : Server = run most s3 later in
      let s5 : Server = step_loop most s4 s4.loop deadline in
      let near : rank s2.loop ≤ 2 = run-rank most 2 s1 quiet (inl q) (goes_on-rank s s.loop refl) in
      let still_ordered : IsOrdered s2.stage s2.sender_gone =
        run-Obeys s1 quiet (step_loop-Obeys s s.loop goes_on order) in
      let past : rank s4.loop ≤ 1 =
        run-rank most 1 s3 later (inr (omega arith))
          (stops-rank s2 s2.loop refl near still_ordered) in
      let over : rank (run most s5 rest).loop ≤ 0 =
        run-rank most 0 s5 rest (inr (omega arith)) (deadline-rank s4 s4.loop refl past) in
      ap (λ (t : Server). t.loop)
        (run-append s1 quiet (stops ∷ (later ++ (deadline ∷ rest)))
          ∙ run-append s3 later (deadline ∷ rest))
      ∙ rank-finished (run most s5 rest).loop over
