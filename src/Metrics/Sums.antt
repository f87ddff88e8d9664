-- ===== src/Metrics/Sums.antt =====
-- src/metrics.rs: every request is counted once, and the gauges follow what is open.
use oxide_http.Prelude.{
  ℕ, ◌+◌, ◌≤◌, ◌<◌, ◌%◌, ◌^◌, ◌-◌, Text, List, [], ◌∷◌, ◌≡◌, refl, arith, length, total,
}
use oxide_http.Metrics.{
  Metrics, new, fetch_add, fetch_sub_one, method_index, class_index, count_request,
  request_finished, request_started, conn_opened, conn_closed, add_request_bytes,
  add_response_bytes, cache_hit, cache_miss,
}
use oxide_http.Metrics.Table.{
  counted, Wide, Counts, count_request-Counts, method_index-lt, class_index-lt,
}

-- What a server reports, in any order.
pub data Event : Type 0 where
  started : Event
  finished : Text → (status elapsed : ℕ) → Event
  opened : Event
  closed : Event
  bytes_in : ℕ → Event
  bytes_out : ℕ → Event
  hit : Event
  miss : Event

pub step : Metrics → Event → Metrics
step m started = request_started m
step m (finished method status elapsed) = request_finished method status elapsed m
step m opened = conn_opened m
step m closed = conn_closed m
step m (bytes_in n) = add_request_bytes n m
step m (bytes_out n) = add_response_bytes n m
step m hit = cache_hit m
step m miss = cache_miss m

pub run : Metrics → List Event → Metrics
unfolding step
run m [] = m
run m (e ∷ es) = run (step m e) es

abbrev pub starts : Event → ℕ
starts started = 1
starts e = 0

abbrev pub finishes : Event → ℕ
finishes (finished method status elapsed) = 1
finishes e = 0

abbrev pub opens : Event → ℕ
opens opened = 1
opens e = 0

abbrev pub closes : Event → ℕ
closes closed = 1
closes e = 0

-- A gauge after `s` additions and `f` subtractions, modulo its width.
record Gauge (g s f : ℕ) : Type 0 where
  bounded : g < 2 ^ 64
  balance : (g + f) % 2 ^ 64 ≡ s % 2 ^ 64

Gauge-up : (g s f : ℕ) → Gauge g s f → Gauge (fetch_add g 1) (s + 1) (f + 0)
Gauge-up g s f v = record { bounded = omega arith; balance = omega (arith, v.bounded, v.balance) }

Gauge-down : (g s f : ℕ) → Gauge g s f → Gauge (fetch_sub_one g) (s + 0) (f + 1)
Gauge-down g s f v = record { bounded = omega arith; balance = omega (arith, v.bounded, v.balance) }

Gauge-same : (g s f : ℕ) → Gauge g s f → Gauge g (s + 0) (f + 0)
Gauge-same g s f v = record { bounded = v.bounded; balance = omega (arith, v.balance) }

Gauge-value : (g s f : ℕ) → Gauge g s f → f ≤ s → s < 2 ^ 64 → g ≡ s - f
Gauge-value g s f v h k = omega (arith, v.bounded, v.balance)

record Balanced (m : Metrics) (s f o c : ℕ) : Type 0 where
  wide : Wide m.requests
  long : length m.requests ≡ 9
  counters : counted m.requests ≡ f
  duration_count : m.duration_count ≡ f
  in_flight : Gauge m.in_flight s f
  connections : Gauge m.connections o c

untouched :
    (m m' : Metrics) (s f o c : ℕ)
    → m'.requests ≡ m.requests
    → m'.duration_count ≡ m.duration_count
    → m'.in_flight ≡ m.in_flight
    → m'.connections ≡ m.connections
    → Balanced m s f o c
    → Balanced m' (s + 0) (f + 0) (o + 0) (c + 0)
untouched m m' s f o c r d i k v = record {
  wide = rw r v.wide;
  long = rw r v.long;
  counters = rw r (omega (arith, v.counters));
  duration_count = rw d (omega (arith, v.duration_count));
  in_flight = rw i (Gauge-same m.in_flight s f v.in_flight);
  connections = rw k (Gauge-same m.connections o c v.connections);
}

regroup :
    (m : Metrics) (s s1 s2 f f1 f2 o o1 o2 c c1 c2 : ℕ)
    → Balanced m (s + s1 + s2) (f + f1 + f2) (o + o1 + o2) (c + c1 + c2)
    → Balanced m (s + (s1 + s2)) (f + (f1 + f2)) (o + (o1 + o2)) (c + (c1 + c2))
regroup m s s1 s2 f f1 f2 o o1 o2 c c1 c2 v = record {
  wide = v.wide;
  long = v.long;
  counters = omega (arith, v.counters);
  duration_count = omega (arith, v.duration_count);
  in_flight = record {
    bounded = v.in_flight.bounded;
    balance = omega (arith, v.in_flight.balance);
  };
  connections = record {
    bounded = v.connections.bounded;
    balance = omega (arith, v.connections.balance);
  };
}

finishes-le : (e : Event) → finishes e ≤ 1
finishes-le (finished method status elapsed) = omega arith
finishes-le started = omega arith
finishes-le _ = omega arith

starts-le : (e : Event) → (starts e ≤ 1) × (opens e ≤ 1)
starts-le started = omega arith
starts-le opened = omega arith
starts-le (finished method status elapsed) = omega arith
starts-le _ = omega arith

totals-le : (es : List Event) → (total starts es ≤ length es) × (total opens es ≤ length es)
totals-le [] = omega arith
totals-le (e ∷ es) = omega (arith, totals-le es, starts-le e)

step-Balanced :
    (m : Metrics) (e : Event) (s f o c : ℕ)
    → f + 1 < 2 ^ 64
    → Balanced m s f o c
    → Balanced (step m e) (s + starts e) (f + finishes e) (o + opens e) (c + closes e)
unfolding step request_started request_finished conn_opened conn_closed add_request_bytes
    add_response_bytes cache_hit cache_miss
step-Balanced m started s f o c h v = record {
  wide = v.wide;
  long = v.long;
  counters = omega (arith, v.counters);
  duration_count = omega (arith, v.duration_count);
  in_flight = Gauge-up m.in_flight s f v.in_flight;
  connections = Gauge-same m.connections o c v.connections;
}
step-Balanced m (finished method status elapsed) s f o c h v =
    let n : Counts m.requests
        (count_request m.requests (method_index method) (class_index status)) =
      count_request-Counts m.requests (method_index method) (class_index status) v.wide v.long
        (method_index-lt method) (class_index-lt status) (omega (arith, v.counters)) in
    record {
      wide = n.wide;
      long = n.long;
      counters = omega (arith, n.more, v.counters);
      duration_count = omega (arith, v.duration_count);
      in_flight = Gauge-down m.in_flight s f v.in_flight;
      connections = Gauge-same m.connections o c v.connections;
    }
step-Balanced m opened s f o c h v = record {
  wide = v.wide;
  long = v.long;
  counters = omega (arith, v.counters);
  duration_count = omega (arith, v.duration_count);
  in_flight = Gauge-same m.in_flight s f v.in_flight;
  connections = Gauge-up m.connections o c v.connections;
}
step-Balanced m closed s f o c h v = record {
  wide = v.wide;
  long = v.long;
  counters = omega (arith, v.counters);
  duration_count = omega (arith, v.duration_count);
  in_flight = Gauge-same m.in_flight s f v.in_flight;
  connections = Gauge-down m.connections o c v.connections;
}
step-Balanced m (bytes_in n) s f o c h v =
    untouched m (step m (bytes_in n)) s f o c refl refl refl refl v
step-Balanced m (bytes_out n) s f o c h v =
    untouched m (step m (bytes_out n)) s f o c refl refl refl refl v
step-Balanced m hit s f o c h v = untouched m (step m hit) s f o c refl refl refl refl v
step-Balanced m miss s f o c h v = untouched m (step m miss) s f o c refl refl refl refl v

run-Balanced :
    (es : List Event) (m : Metrics) (s f o c : ℕ)
    → f + length es < 2 ^ 64
    → Balanced m s f o c
    → Balanced
        (run m es)
        (s + total starts es)
        (f + total finishes es)
        (o + total opens es)
        (c + total closes es)
unfolding run
run-Balanced [] m s f o c h v = untouched m m s f o c refl refl refl refl v
run-Balanced (e ∷ es) m s f o c h v =
    let small : finishes e ≤ 1 = finishes-le e in
    let later =
      run-Balanced es (step m e) (s + starts e) (f + finishes e) (o + opens e) (c + closes e)
        (omega arith) (step-Balanced m e s f o c (omega arith) v) in
    regroup (run (step m e) es) s (starts e) (total starts es) f (finishes e) (total finishes es) o
      (opens e) (total opens es) c (closes e) (total closes es) later

new-Balanced : Balanced new 0 0 0 0
unfolding new Wide
new-Balanced = record {
  wide = ground arith;
  long = refl;
  counters = refl;
  duration_count = refl;
  in_flight = record { bounded = omega arith; balance = refl };
  connections = record { bounded = omega arith; balance = refl };
}

-- For fewer than 2 ^ 64 events in any order: the counters of all methods and classes together, and
-- the histogram's count, are the number of finished requests.
pub run-counted :
    (es : List Event)
    → length es < 2 ^ 64
    → (counted (run new es).requests ≡ total finishes es)
      × ((run new es).duration_count ≡ total finishes es)
run-counted es h =
    let v = run-Balanced es new 0 0 0 0 (omega arith) new-Balanced in
    (omega (arith, v.counters), omega (arith, v.duration_count))

-- For fewer than 2 ^ 64 events, among which no more requests finish than started and no more
-- connections close than opened: the gauges are the numbers still in flight and still open.
pub run-gauges :
    (es : List Event)
    → length es < 2 ^ 64
    → total finishes es ≤ total starts es
    → total closes es ≤ total opens es
    → ((run new es).in_flight ≡ total starts es - total finishes es)
      × ((run new es).connections ≡ total opens es - total closes es)
run-gauges es h fs cs =
    let v = run-Balanced es new 0 0 0 0 (omega arith) new-Balanced in
    let bound = totals-le es in
    let flying =
      Gauge-value (run new es).in_flight (0 + total starts es) (0 + total finishes es) v.in_flight
        (omega arith) (omega (arith, bound.0, h)) in
    let opened_now =
      Gauge-value (run new es).connections (0 + total opens es) (0 + total closes es) v.connections
        (omega arith) (omega (arith, bound.1, h)) in
    (omega (arith, flying), omega (arith, opened_now))
