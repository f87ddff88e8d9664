-- ===== src/Accept/Steps.antt =====
-- src/server.rs, `serve`: what each step of the accept loop keeps.
use oxide_http.Prelude.{
  ℕ, ◌+◌, ◌<◌, Option, some, true, false, ◌==◌, ==_iff, get_elem?, set, total, total-set,
  Bool-cases, ◌≡◌, refl, sym, ◌∙◌, ap, subst, inl, inr, arith,
}
use oxide_http.Body.Delivery.{Within}
use oxide_http.Lifecycle.Calls.{wait_closing}
use oxide_http.Accept.{
  Conn, served, released, gone, Loop, selecting, reserved, draining, Server, Event, accepts,
  goes_on, stops, drained, deadline, signal, sender_drops, advances, above, holds_drain, accept,
  decide, advance, step_selecting, step_draining,
}
use oxide_http.Accept.Cap.{
  holds_live, reserving, LoopOk, IsCapped, Within-less, Within-next, LoopOk-less, total-snoc,
  IsOrdered, wait_closing_iff,
}

module _ (most : Option ℕ) where
  pub advance-IsCapped :
      (s : Server) (i : ℕ) (c : Conn)
      → get_elem? s.conns i ≡ some c
      → IsCapped most s
      → IsCapped most (advance s i c)
  unfolding advance
  advance-IsCapped s i served e h =
      let fewer : total holds_live (set s.conns i released) + 1 ≡ total holds_live s.conns + 0 =
        total-set holds_live s.conns i served released e in
      let kept : total holds_drain (set s.conns i released) + 1 ≡ total holds_drain s.conns + 1 =
        total-set holds_drain s.conns i served released e in
      record {
        counted = omega (arith, fewer, h.counted);
        capped = Within-less most (total holds_live s.conns) _ (omega (arith, fewer)) h.capped;
        loop_ok =
            LoopOk-less most (total holds_live s.conns) (total holds_live (set s.conns i released))
              (total holds_drain s.conns) (total holds_drain (set s.conns i released))
              (IsOrdered s.stage s.sender_gone) s.timed_out s.loop (omega (arith, fewer))
              (omega (arith, kept)) h.loop_ok;
      }
  advance-IsCapped s i released e h =
      let same : total holds_live (set s.conns i gone) + 0 ≡ total holds_live s.conns + 0 =
        total-set holds_live s.conns i released gone e in
      let fewer : total holds_drain (set s.conns i gone) + 1 ≡ total holds_drain s.conns + 0 =
        total-set holds_drain s.conns i released gone e in
      record {
        counted = omega (arith, same, h.counted);
        capped = Within-less most (total holds_live s.conns) _ (omega (arith, same)) h.capped;
        loop_ok =
            LoopOk-less most (total holds_live s.conns) (total holds_live (set s.conns i gone))
              (total holds_drain s.conns) (total holds_drain (set s.conns i gone))
              (IsOrdered s.stage s.sender_gone) s.timed_out s.loop (omega (arith, same))
              (omega (arith, fewer)) h.loop_ok;
      }
  advance-IsCapped s i gone e h = h

  -- The facts of a server whose loop is at a known point.
  module _ (s : Server) (h : IsCapped most s) where
    counted_at : (loop : Loop) → s.loop ≡ loop → s.live ≡ total holds_live s.conns + reserving loop
    counted_at loop e = h.counted ∙ ap (λ l. total holds_live s.conns + reserving l) e

    known_point :
        (loop : Loop)
        → s.loop ≡ loop
        → LoopOk
            (total holds_live s.conns)
            (total holds_drain s.conns)
            (IsOrdered s.stage s.sender_gone)
            s.timed_out
            loop
    known_point loop e =
        subst
          (λ (l : Loop).
            LoopOk (total holds_live s.conns) (total holds_drain s.conns)
              (IsOrdered s.stage s.sender_gone) s.timed_out l)
          e h.loop_ok

    pub decide-IsCapped :
        (count : ℕ) → s.loop ≡ reserved count → IsCapped most (decide most s count)
    unfolding decide
    decide-IsCapped count e =
        let all_counted : s.live ≡ total holds_live s.conns + 1 = counted_at (reserved count) e in
        let room : total holds_live s.conns < count = known_point (reserved count) e in
        elim (Bool-cases (above most count)) [
          | inl over ↦
              rw over
                (record { counted = omega (arith, all_counted); capped = h.capped; loop_ok = tt })
          | inr under ↦ rw under (record {
            counted = omega (arith, all_counted, total-snoc holds_live s.conns served);
            capped =
                subst (Within most) (sym (total-snoc holds_live s.conns served))
                  (Within-next most (total holds_live s.conns) count room under);
            loop_ok = tt;
          })
        ]

    pub step_selecting-IsCapped :
        (event : Event) → s.loop ≡ selecting → IsCapped most (step_selecting s event)
    unfolding step_selecting accept
    step_selecting-IsCapped (accepts true) e =
        let all_counted : s.live ≡ total holds_live s.conns + 0 = counted_at selecting e in
        record {
          counted = omega (arith, all_counted);
          capped = h.capped;
          loop_ok = omega (arith, all_counted);
        }
    step_selecting-IsCapped (accepts false) e = h
    step_selecting-IsCapped stops e = elim (Bool-cases (wait_closing s.stage s.sender_gone)) [
      | inr not_yet ↦ rw not_yet h
      | inl ordered ↦ rw ordered (record {
        counted = counted_at selecting e;
        capped = h.capped;
        loop_ok = (wait_closing_iff s.stage s.sender_gone).0 ordered;
      })
    ]
    step_selecting-IsCapped goes_on e = h
    step_selecting-IsCapped drained e = h
    step_selecting-IsCapped deadline e = h
    step_selecting-IsCapped (signal stage) e = h
    step_selecting-IsCapped sender_drops e = h
    step_selecting-IsCapped (advances i) e = h

    pub step_draining-IsCapped :
        (event : Event) → s.loop ≡ draining → IsCapped most (step_draining s event)
    unfolding step_draining
    step_draining-IsCapped drained e = elim (Bool-cases (total holds_drain s.conns == 0)) [
      | inr some_left ↦ rw some_left h
      | inl none_left ↦ rw none_left (record {
        counted = counted_at draining e;
        capped = h.capped;
        loop_ok = (known_point draining e, inr ((==_iff _ 0).0 none_left));
      })
    ]
    step_draining-IsCapped deadline e = record {
      counted = counted_at draining e;
      capped = h.capped;
      loop_ok = (known_point draining e, inl refl);
    }
    step_draining-IsCapped (accepts ok) e = h
    step_draining-IsCapped stops e = h
    step_draining-IsCapped goes_on e = h
    step_draining-IsCapped (signal stage) e = h
    step_draining-IsCapped sender_drops e = h
    step_draining-IsCapped (advances i) e = h
