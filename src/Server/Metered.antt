-- ===== src/Server/Metered.antt =====
-- src/server.rs, `handle`: the metrics of requests, each a task that steps in any order with the others.
-- Hyper drops a request's future when its connection dies.
use oxide_http.Prelude.{
  ℕ, zero, suc, ◌^◌, ◌≤◌, ◌<◌, Text, none, some, List, [], ◌∷◌, length, length-set, get_elem?, set,
  total, total-set, Option-cases, ◌≡◌, refl, sym, ap, inl, inr, arith,
}
use oxide_http.Metrics.{Metrics, new, request_started, request_finished}

-- A request before `request_started`; while it is handled; answered; or dropped while it was
-- handled.
pub data Request : Type 0 where
  arriving : Request
  handled : Request
  finished : Request
  dropped : Request

-- What comes next for a request: its first step, the end of its handling, or the end of its
-- connection.
pub data Turn : Type 0 where
  starts : Turn
  responds : (method : Text) (status elapsed : ℕ) → Turn
  disconnects : Turn

pub record Served : Type 0 where
  pub metrics : Metrics
  pub requests : List Request

unfoldable pub turn : Served → ℕ → Request → Turn → Served
unfolding request_started request_finished
turn s i arriving starts = record {
  metrics = request_started s.metrics;
  requests = set s.requests i handled;
}
turn s i handled (responds method status elapsed) = record {
  metrics = request_finished method status elapsed s.metrics;
  requests = set s.requests i finished;
}
turn s i handled disconnects = record s { requests = set s.requests i dropped }
turn s i request next = s

unfoldable pub step : Served → ℕ × Turn → Served
unfolding turn
step s (i, next) = elim (get_elem? s.requests i) [ none ↦ s | some r ↦ turn s i r next ]

unfoldable pub run : Served → List (ℕ × Turn) → Served
unfolding step
run s [] = s
run s (t ∷ turns) = run (step s t) turns

-- Requests that have started and not finished, those that were dropped among them.
abbrev pub unfinished : Request → ℕ
unfinished arriving = 0
unfinished handled = 1
unfinished finished = 0
unfinished dropped = 1

abbrev pub arriving_all : ℕ → List Request
arriving_all zero = []
arriving_all (suc n) = arriving ∷ arriving_all n

total-le-length : (rs : List Request) → total unfinished rs ≤ length rs
total-le-length [] = omega arith
total-le-length (arriving ∷ rs) = omega (arith, total-le-length rs)
total-le-length (handled ∷ rs) = omega (arith, total-le-length rs)
total-le-length (finished ∷ rs) = omega (arith, total-le-length rs)
total-le-length (dropped ∷ rs) = omega (arith, total-le-length rs)

record IsGauged (s : Served) : Type 0 where
  few : length s.requests < 2 ^ 64
  gauge : s.metrics.in_flight ≡ total unfinished s.requests

IsGauged-kept :
    (s : Served) (i : ℕ) (old next : Request)
    → get_elem? s.requests i ≡ some old
    → unfinished old ≡ unfinished next
    → IsGauged s
    → IsGauged (record s { requests = set s.requests i next })
IsGauged-kept s i old next e same h = record {
  few = omega (arith, h.few, length-set s.requests i next);
  gauge = omega (arith, h.gauge, total-set unfinished s.requests i old next e, same);
}

turn-IsGauged :
    (s : Served) (i : ℕ) (r : Request) (next : Turn)
    → get_elem? s.requests i ≡ some r
    → IsGauged s
    → IsGauged (turn s i r next)
unfolding turn request_started request_finished
turn-IsGauged s i arriving starts e h =
    let more = total-set unfinished s.requests i arriving handled e in
    record {
      few = omega (arith, h.few, length-set s.requests i handled);
      gauge = omega (
        arith,
        h.gauge,
        h.few,
        more,
        total-le-length (set s.requests i handled),
        length-set s.requests i handled,
      );
    }
turn-IsGauged s i handled (responds method status elapsed) e h =
    let less = total-set unfinished s.requests i handled finished e in
    record {
      few = omega (arith, h.few, length-set s.requests i finished);
      gauge = omega (arith, h.gauge, h.few, less, total-le-length s.requests);
    }
turn-IsGauged s i handled disconnects e h = IsGauged-kept s i handled dropped e refl h
turn-IsGauged s i handled starts e h = h
turn-IsGauged s i arriving (responds method status elapsed) e h = h
turn-IsGauged s i arriving disconnects e h = h
turn-IsGauged s i finished next e h = h
turn-IsGauged s i dropped next e h = h

step-IsGauged : (s : Served) (t : ℕ × Turn) → IsGauged s → IsGauged (step s t)
unfolding step
step-IsGauged s (i, next) h = elim (Option-cases (get_elem? s.requests i)) [
  | inl beyond ↦ rw (beyond, step) h
  | inr (r, here) ↦ rw (here, step) (turn-IsGauged s i r next here h)
]

run-IsGauged : (s : Served) (turns : List (ℕ × Turn)) → IsGauged s → IsGauged (run s turns)
unfolding run
run-IsGauged s [] h = h
run-IsGauged s (t ∷ turns) h = run-IsGauged (step s t) turns (step-IsGauged s t h)

length-arriving : (n : ℕ) → length (arriving_all n) ≡ n
length-arriving zero = refl
length-arriving (suc n) = ap suc (length-arriving n)

total-arriving : (n : ℕ) → total unfinished (arriving_all n) ≡ 0
total-arriving zero = refl
total-arriving (suc n) = omega (arith, total-arriving n)

-- However fewer than 2 ^ 64 requests and the ends of their connections interleave, the gauge of
-- requests in flight is the number of those that are handled now, together with those whose
-- connection ended before their answer.
pub run-leaks :
    (n : ℕ) (turns : List (ℕ × Turn))
    → n < 2 ^ 64
    → (run (record { metrics = new; requests = arriving_all n }) turns).metrics.in_flight
      ≡ total unfinished (run (record { metrics = new; requests = arriving_all n }) turns).requests
unfolding new
run-leaks n turns h =
    (run-IsGauged (record { metrics = new; requests = arriving_all n }) turns
      (record { few = omega (arith, h, length-arriving n); gauge = sym (total-arriving n) })).gauge
