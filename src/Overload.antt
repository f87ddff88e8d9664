-- ===== src/Overload.antt =====
-- src/overload.rs: the limiter of concurrent requests. Times are milliseconds since `base`. The
-- semaphore of `tokio` is its number of free permits and whether it is closed; that a waiter gets
-- a permit only when one is free is what the code relies on.
pub mod Slots
pub mod Shedding
mod Tests
use oxide_http.Prelude.{
  ℕ, zero, suc, ◌+◌, ◌-◌, max, Option, none, some, List, [], ◌∷◌, Bool, true, false, ltb, leb, ◌==◌,
  if◌then◌else◌, get_elem?, set,
}

pub record Limiter : Type 0 where
  pub permits : ℕ
  pub closed : Bool
  pub max_queue : ℕ
  pub queued : ℕ
  pub retry_after : ℕ
  pub shed_after : Option ℕ
  pub saturated_since_ms : ℕ

unfoldable pub new : (max_concurrent max_queue retry_after : ℕ) → Option ℕ → Limiter
new max_concurrent max_queue retry_after shed_after = record {
  permits = max_concurrent;
  closed = false;
  max_queue = max_queue;
  queued = 0;
  retry_after = retry_after;
  shed_after = shed_after;
  saturated_since_ms = 0;
}

pub data TryAcquire : Type 0 where
  got_permit : TryAcquire
  is_closed : TryAcquire
  no_permits : TryAcquire

unfoldable pub try_acquire : Limiter → Limiter × TryAcquire
try_acquire l =
    if l.closed
    then (l, is_closed)
    else if l.permits == 0
    then (l, no_permits)
    else (record l { permits = l.permits - 1 }, got_permit)

-- A permit is dropped.
unfoldable pub release : Limiter → Limiter
release l = record l { permits = l.permits + 1 }

unfoldable pub clear_saturation : Limiter → Limiter
clear_saturation l = record l { saturated_since_ms = 0 }

-- The compare-and-exchange takes effect only at 0.
unfoldable pub mark_saturated : ℕ → Limiter → Limiter
mark_saturated now l =
    if l.saturated_since_ms == 0 then record l { saturated_since_ms = max now 1 } else l

unfoldable pub should_shed : ℕ → Limiter → Bool
should_shed now l = elim l.shed_after [
  | none ↦ false
  | some threshold ↦
      if l.saturated_since_ms == 0 then false else leb threshold (now - l.saturated_since_ms)
]

-- `queued.fetch_add(1)`, with the depth before it, and `queued.fetch_sub(1)`.
unfoldable pub enter_queue : Limiter → Limiter × ℕ
enter_queue l = (record l { queued = l.queued + 1 }, l.queued)

unfoldable pub leave_queue : Limiter → Limiter
leave_queue l = record l { queued = l.queued - 1 }

-- Where a request stands in `acquire`, between two atomic operations, and after it. A request that is
-- dropped while it holds a permit releases it.
pub data Pc : Type 0 where
  starting : Pc
  clearing : Pc
  marking : Pc
  queueing : Pc
  backing_out : Pc
  waiting : Pc
  leaving : Bool → Pc
  holding : Pc
  rejected : Pc
  released : Pc
  abandoned : Pc

-- What befalls a waiter: a permit, its timeout, or the end of its connection, at which hyper drops the
-- future of `acquire` and with it all that follows the wait.
pub data Wake : Type 0 where
  permit : Wake
  timeout : Wake
  drops : Wake

after_try : Limiter → TryAcquire → Limiter × Pc
after_try l got_permit = (l, clearing)
after_try l is_closed = (l, rejected)
after_try l no_permits = (l, marking)

after_enter : Limiter → ℕ → Limiter × Pc
after_enter l depth = if leb l.max_queue depth then (l, backing_out) else (l, waiting)

woken : Wake → Limiter → Limiter × Pc
woken timeout l = (l, leaving false)
woken drops l = (l, abandoned)
woken permit l =
    if l.permits == 0 then (l, waiting) else (record l { permits = l.permits - 1 }, leaving true)

-- One atomic operation of `acquire`, and the release of the permit.
unfoldable pub advance : ℕ → Wake → Limiter → Pc → Limiter × Pc
unfolding try_acquire release clear_saturation mark_saturated enter_queue leave_queue after_try
    after_enter woken
advance now w l starting = let (l', t) = try_acquire l in after_try l' t
advance now w l clearing = (clear_saturation l, holding)
advance now w l marking =
    let l' : Limiter = mark_saturated now l in
    if l'.max_queue == 0 then (l', rejected) else (l', queueing)
advance now w l queueing = let (l', depth) = enter_queue l in after_enter l' depth
advance now w l backing_out = (leave_queue l, rejected)
advance now w l waiting = woken w l
advance now w l (leaving true) = (leave_queue l, holding)
advance now w l (leaving false) = (leave_queue l, rejected)
advance now w l holding = (release l, released)
advance now w l rejected = (l, rejected)
advance now w l released = (l, released)
advance now w l abandoned = (l, abandoned)

-- The limiter with all the requests that use it.
pub record System : Type 0 where
  pub limiter : Limiter
  pub tasks : List Pc

-- The request at `i` makes its next atomic step; others may step in between.
unfoldable pub step : ℕ → ℕ → Wake → System → System
unfolding advance
step i now w s = elim (get_elem? s.tasks i) [
  | none ↦ s
  | some pc ↦
      let next = advance now w s.limiter pc in
      record { limiter = next.0; tasks = set s.tasks i next.1 }
]

unfoldable pub run : List (ℕ × ℕ × Wake) → System → System
unfolding step
run [] s = s
run ((i, now, w) ∷ schedule) s = run schedule (step i now w s)
