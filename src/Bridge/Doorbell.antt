-- ===== src/Bridge/Doorbell.antt =====
-- src/bridge.rs, `enqueue` and `take_batch` step by step, with js/index.ts, `#drainBatch`: under
-- every interleaving a waiting request is on its way to JS.
use oxide_http.Prelude.{
  ℕ, ◌+◌, ◌≤◌, ◌<◌, none, some, List, [], ◌∷◌, ◌++◌, true, ltb, if◌then◌else◌, ◌≡◌, refl, ap, arith,
  Bool-cases, Option-cases, ◌⊎◌, inl, inr, get_elem?, set, total, total-set, is_empty,
}
use oxide_http.Bridge.{MatchedRequest, Pending, Bridge, new, insert_pending, enqueue, take_batch}

-- Where a connection stands in `enqueue`: before the registration, between it and the queue, about
-- to ring, and done.
pub data Pc : Type 0 where
  registering : MatchedRequest → Pending → Pc
  pushing : MatchedRequest → Pc
  ringing : Pc
  queued : Pc

-- JS waits for the doorbell, or takes batches until one is empty.
pub data Js : Type 0 where
  idle : Js
  draining : Js

unfoldable pub advance : Bridge → Pc → Bridge × Pc
unfolding insert_pending
advance b (registering req p) =
    (record b { pending = insert_pending req.req_id p b.pending }, pushing req)
advance b (pushing req) =
    (record b { queue = b.queue ++ req ∷ [] }, if is_empty b.queue then ringing else queued)
advance b ringing = (record b { rings = b.rings + 1 }, queued)
advance b queued = (b, queued)

-- `served` counts the doorbell calls that JS has run.
pub record System : Type 0 where
  pub bridge : Bridge
  pub served : ℕ
  pub js : Js
  pub tasks : List Pc

js_step : System → Js → System
unfolding take_batch
js_step s idle =
    if ltb s.served s.bridge.rings then record s { served = s.served + 1; js = draining } else s
js_step s draining =
    let (b', batch) = take_batch s.bridge in
    record s { bridge = b'; js = if is_empty batch then idle else draining }

pub data Turn : Type 0 where
  connection : (i : ℕ) → Turn
  javascript : Turn

pub step : Turn → System → System
unfolding advance js_step
step (connection i) s = elim (get_elem? s.tasks i) [
  | none ↦ s
  | some pc ↦
      let next = advance s.bridge pc in record s { bridge = next.0; tasks = set s.tasks i next.1 }
]
step javascript s = js_step s s.js

pub run : List Turn → System → System
unfolding step
run [] s = s
run (turn ∷ schedule) s = run schedule (step turn s)

-- Undisturbed, the steps make up `enqueue`.
alone :
    (req : MatchedRequest) (p : Pending) (b : Bridge)
    → (let (b1, pc1) = advance b (registering req p) in
        let (b2, pc2) = advance b1 pc1 in (advance b2 pc2).0)
      ≡ enqueue req p b
unfolding advance enqueue
alone req p b = ground arith

abbrev pub rings_soon : Pc → ℕ
rings_soon ringing = 1
rings_soon pc = 0

abbrev drains : Js → ℕ
drains idle = 0
drains draining = 1

abbrev backlog : List MatchedRequest → ℕ
backlog [] = 0
backlog (req ∷ q) = 1

-- Rings that JS has not run, connections about to ring, and a draining JS are enough for what waits.
record Covered (s : System) : Type 0 where
  served : s.served ≤ s.bridge.rings
  woken :
      backlog s.bridge.queue + s.served ≤ s.bridge.rings + (total rings_soon s.tasks + drains s.js)

backlog-le : (q : List MatchedRequest) → backlog q ≤ 1
backlog-le [] = omega arith
backlog-le (req ∷ q) = omega arith

record Rings (b : Bridge) (pc : Pc) (b' : Bridge) (pc' : Pc) : Type 0 where
  grows : b.rings ≤ b'.rings
  covers :
      backlog b'.queue + (b.rings + rings_soon pc) ≤ backlog b.queue + (b'.rings + rings_soon pc')

push-Rings :
    (b : Bridge) (req : MatchedRequest) (q : List MatchedRequest)
    → b.queue ≡ q
    → Rings b (pushing req) (advance b (pushing req)).0 (advance b (pushing req)).1
unfolding advance
push-Rings b req [] e = rw e (record { grows = omega arith; covers = omega arith })
push-Rings b req (x ∷ q) e = rw e (record { grows = omega arith; covers = omega arith })

advance-Rings : (b : Bridge) (pc : Pc) → Rings b pc (advance b pc).0 (advance b pc).1
unfolding advance
advance-Rings b (registering req p) = record { grows = omega arith; covers = omega arith }
advance-Rings b (pushing req) = push-Rings b req b.queue refl
advance-Rings b ringing = record { grows = omega arith; covers = omega arith }
advance-Rings b queued = record { grows = omega arith; covers = omega arith }

empty-backlog : (q : List MatchedRequest) → is_empty q ≡ true → backlog q ≡ 0
empty-backlog [] e = refl
empty-backlog (req ∷ q) e = cc

js-Covered : (s : System) (js : Js) → s.js ≡ js → Covered s → Covered (js_step s js)
unfolding js_step
js-Covered s idle e c = elim (Bool-cases (ltb s.served s.bridge.rings)) [
  | inl rung ↦
      rw rung (record { served = ground arith; woken = omega (arith, c.woken, ap drains e) })
  | inr quiet ↦ rw quiet c
]
js-Covered s draining e c = elim (Bool-cases (is_empty s.bridge.queue)) [
  | inl empty ↦ rw empty (record {
    served = c.served;
    woken = omega (arith, c.woken, ap drains e, empty-backlog s.bridge.queue empty, c.served);
  })
  | inr waiting ↦ rw waiting (record { served = c.served; woken = omega (arith, c.served) })
]

step-nobody : (i : ℕ) (s : System) → get_elem? s.tasks i ≡ none → step (connection i) s ≡ s
unfolding step
step-nobody i s e = rw (e, step) refl

step-here :
    (i : ℕ) (s : System) (pc : Pc)
    → get_elem? s.tasks i ≡ some pc
    → step (connection i) s
      ≡ record s { bridge = (advance s.bridge pc).0; tasks = set s.tasks i (advance s.bridge pc).1 }
unfolding step
step-here i s pc e = rw (e, step) refl

step-Covered : (turn : Turn) (s : System) → Covered s → Covered (step turn s)
step-Covered javascript s c = unfold step in js-Covered s s.js refl c
step-Covered (connection i) s c = elim (Option-cases (get_elem? s.tasks i)) [
  | inl nobody ↦ rw (step-nobody i s nobody) c
  | inr (pc, here) ↦
      let r : Rings s.bridge pc (advance s.bridge pc).0 (advance s.bridge pc).1 =
        advance-Rings s.bridge pc in
      let moved = total-set rings_soon s.tasks i pc (advance s.bridge pc).1 here in
      rw (step-here i s pc here) (record {
        served = omega (arith, c.served, r.grows);
        woken = omega (arith, c.woken, r.covers, moved);
      })
]

run-Covered : (schedule : List Turn) (s : System) → Covered s → Covered (run schedule s)
unfolding run
run-Covered [] s c = c
run-Covered (turn ∷ schedule) s c = run-Covered schedule (step turn s) (step-Covered turn s c)

-- Connections that have a request each.
abbrev pub connections : List (MatchedRequest × Pending) → List Pc
connections [] = []
connections ((req, p) ∷ reqs) = registering req p ∷ connections reqs

quiet : (reqs : List (MatchedRequest × Pending)) → total rings_soon (connections reqs) ≡ 0
quiet [] = refl
quiet ((req, p) ∷ reqs) = omega (arith, quiet reqs)

abbrev pub start : List (MatchedRequest × Pending) → System
start reqs = record { bridge = new; served = 0; js = idle; tasks = connections reqs }

covered :
    (q : List MatchedRequest) (js : Js) (served rings soon : ℕ)
    → backlog q + served ≤ rings + (soon + drains js)
    → (q ≡ []) ⊎ (served < rings) ⊎ (0 < soon) ⊎ (js ≡ draining)
covered [] js served rings soon h = inl refl
covered (req ∷ q) draining served rings soon h = inr (inr (inr refl))
covered (req ∷ q) idle served rings soon h = ground arith

-- Any number of connections and JS, in any order: at every moment at which a request waits, JS has
-- a doorbell call to run, or a connection is about to ring, or JS is taking batches already.
pub run-never_asleep :
    (reqs : List (MatchedRequest × Pending)) (schedule : List Turn)
    → ((run schedule (start reqs)).bridge.queue ≡ [])
      ⊎ ((run schedule (start reqs)).served < (run schedule (start reqs)).bridge.rings)
      ⊎ (0 < total rings_soon (run schedule (start reqs)).tasks)
      ⊎ ((run schedule (start reqs)).js ≡ draining)
run-never_asleep reqs schedule =
    let s : System = run schedule (start reqs) in
    let c : Covered s =
      run-Covered schedule (start reqs)
        (unfold new in record { served = omega arith; woken = omega (arith, quiet reqs) }) in
    covered s.bridge.queue s.js s.served s.bridge.rings (total rings_soon s.tasks) c.woken
