-- ===== src/Overload/Slots.antt =====
-- src/overload.rs: permits and places in the queue, under every interleaving of requests, some of
-- which are dropped while they wait.
use oxide_http.Prelude.{
  ◌⊎◌, ℕ, zero, suc, ◌+◌, ◌≤◌, ◌<◌, Option, none, some, List, [], ◌∷◌, true, false, ◌≡◌, refl, ◌∙◌,
  ap, inl, inr, Option-cases, arith, get_elem?, total, total-set, set,
}
use oxide_http.Overload.{
  Limiter, new, Pc, starting, clearing, marking, queueing, backing_out, waiting, leaving, holding,
  rejected, released, abandoned, Wake, permit, timeout, drops, advance, System, step, run,
}

-- How many permits a request at this point has, whether the counter has it, and whether it takes a
-- place of the queue: it waits, or was dropped while it waited.
abbrev pub held : Pc → ℕ
held clearing = 1
held (leaving true) = 1
held holding = 1
held _ = 0

abbrev pub counted : Pc → ℕ
counted backing_out = 1
counted waiting = 1
counted (leaving b) = 1
counted abandoned = 1
counted _ = 0

abbrev pub in_queue : Pc → ℕ
in_queue waiting = 1
in_queue (leaving b) = 1
in_queue abandoned = 1
in_queue _ = 0

-- The permits of the semaphore are free or held, the queue's counter counts those that entered it
-- and have not taken themselves off again, and no more than `max_queue` take a place.
pub record IsFair (max_concurrent max_queue : ℕ) (s : System) : Type 0 where
  pub conserved : s.limiter.permits + total held s.tasks ≡ max_concurrent
  pub queue_counted : s.limiter.queued ≡ total counted s.tasks
  pub queue_bounded : total in_queue s.tasks ≤ max_queue
  pub queue_fixed : s.limiter.max_queue ≡ max_queue

-- What one atomic operation changes: a permit moves between the semaphore and the request, the
-- counter follows the request's place in the queue, and a request waits only if there is room.
record Moves (l : Limiter) (pc : Pc) (l' : Limiter) (pc' : Pc) : Type 0 where
  permits : l'.permits + held pc' ≡ l.permits + held pc
  queued : l'.queued + counted pc ≡ l.queued + counted pc'
  fixed : l'.max_queue ≡ l.max_queue
  room : (in_queue pc' ≤ in_queue pc) ⊎ ((l.queued < l.max_queue) × (pc ≡ queueing))

in_queue-le-counted : (tasks : List Pc) → total in_queue tasks ≤ total counted tasks
in_queue-le-counted [] = omega arith
in_queue-le-counted (starting ∷ tasks) = omega (arith, in_queue-le-counted tasks)
in_queue-le-counted (_ ∷ tasks) = omega (arith, in_queue-le-counted tasks)

in_queue-one : (pc : Pc) → in_queue pc ≤ 1
in_queue-one starting = omega arith
in_queue-one _ = omega arith

counted-le :
    (tasks : List Pc) (i : ℕ) (pc : Pc)
    → get_elem? tasks i ≡ some pc
    → counted pc ≤ total counted tasks
counted-le [] i pc e = cc
counted-le (p ∷ tasks) zero pc e = let same : p ≡ pc = cc in omega (arith, ap counted same)
counted-le (p ∷ tasks) (suc i) pc e = omega (arith, counted-le tasks i pc e)

advance-Moves :
    (now : ℕ) (w : Wake) (l : Limiter) (pc : Pc)
    → counted pc ≤ l.queued
    → Moves l pc (advance now w l pc).0 (advance now w l pc).1
unfolding advance
advance-Moves now w l starting h = ground arith
advance-Moves now w l clearing h = ground arith
advance-Moves now w l marking h = ground arith
advance-Moves now w l queueing h = ground arith
advance-Moves now w l backing_out h = ground arith
advance-Moves now timeout l waiting h = ground arith
advance-Moves now permit l waiting h = ground arith
advance-Moves now drops l waiting h = ground arith
advance-Moves now w l (leaving true) h = ground arith
advance-Moves now w l (leaving false) h = ground arith
advance-Moves now w l holding h = ground arith
advance-Moves now w l rejected h = ground arith
advance-Moves now w l released h = ground arith
advance-Moves now w l abandoned h = ground arith

step-nobody : (i now : ℕ) (w : Wake) (s : System) → get_elem? s.tasks i ≡ none → step i now w s ≡ s
unfolding step
step-nobody i now w s e = rw (e, step) refl

step-here :
    (i now : ℕ) (w : Wake) (s : System) (pc : Pc)
    → get_elem? s.tasks i ≡ some pc
    → step i now w s ≡ record {
      limiter = (advance now w s.limiter pc).0;
      tasks = set s.tasks i (advance now w s.limiter pc).1;
    }
unfolding step
step-here i now w s pc e = rw (e, step) refl

module _ {max_concurrent max_queue : ℕ} where
  step-IsFair :
      (i now : ℕ) (w : Wake) (s : System)
      → IsFair max_concurrent max_queue s
      → IsFair max_concurrent max_queue (step i now w s)
  step-IsFair i now w s v = elim (Option-cases (get_elem? s.tasks i)) [
    | inl nobody ↦ rw (step-nobody i now w s nobody) v
    | inr (pc, here) ↦
        let next = advance now w s.limiter pc in
        let m : Moves s.limiter pc next.0 next.1 =
          advance-Moves now w s.limiter pc
            (omega (arith, counted-le s.tasks i pc here, v.queue_counted)) in
        let moved = total-set held s.tasks i pc next.1 here in
        let places = total-set counted s.tasks i pc next.1 here in
        let queue = total-set in_queue s.tasks i pc next.1 here in
        rw (step-here i now w s pc here) (record {
          conserved = omega (arith, m.permits, moved, v.conserved);
          queue_counted = omega (arith, m.queued, places, v.queue_counted);
          queue_bounded = elim m.room [
            | inl no_more ↦ omega (arith, queue, no_more, v.queue_bounded)
            | inr (free, entering) ↦ omega (
              arith,
              queue,
              free,
              ap in_queue entering,
              in_queue-one next.1,
              in_queue-le-counted s.tasks,
              v.queue_counted,
              v.queue_fixed,
            )
          ];
          queue_fixed = m.fixed ∙ v.queue_fixed;
        })
  ]

  run-IsFair :
      (schedule : List (ℕ × ℕ × Wake)) (s : System)
      → IsFair max_concurrent max_queue s
      → IsFair max_concurrent max_queue (run schedule s)
  unfolding run
  run-IsFair [] s v = v
  run-IsFair ((i, now, w) ∷ schedule) s v =
      run-IsFair schedule (step i now w s) (step-IsFair i now w s v)

-- Requests that have just arrived.
abbrev pub arrivals : ℕ → List Pc
arrivals zero = []
arrivals (suc n) = starting ∷ arrivals n

total-arrivals :
    (n : ℕ)
    → (total held (arrivals n) ≡ 0)
      × (total counted (arrivals n) ≡ 0)
      × (total in_queue (arrivals n) ≡ 0)
total-arrivals zero = omega arith
total-arrivals (suc n) = omega (arith, total-arrivals n)

-- Any number of requests, stepping and being dropped in any order: at every moment the free permits
-- and those that requests hold make up the limit; the queue's counter counts exactly the requests
-- that entered the queue and have not left it, together with those that were dropped while they
-- waited; and those that wait and those that were dropped so are together at most `max_queue`.
pub run-new-IsFair :
    (max_concurrent max_queue retry_after : ℕ) (shed_after : Option ℕ) (n : ℕ)
    (schedule : List (ℕ × ℕ × Wake))
    → IsFair max_concurrent max_queue (
        run schedule (record {
          limiter = new max_concurrent max_queue retry_after shed_after;
          tasks = arrivals n;
        }))
run-new-IsFair max_concurrent max_queue retry_after shed_after n schedule =
    let (none_held, none_counted, none_waiting) = total-arrivals n in
    run-IsFair schedule _ (
      unfold new in
      record {
        conserved = omega (arith, none_held);
        queue_counted = omega (arith, none_counted);
        queue_bounded = omega (arith, none_waiting);
        queue_fixed = refl;
      })
