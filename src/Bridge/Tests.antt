-- ===== src/Bridge/Tests.antt =====
-- src/bridge.rs: two requests.
use oxide_http.Prelude.{pos, ℕ, ◌≤◌, ◌<◌, codes, none, some, List, [], ◌∷◌, ◌++◌, ◌≡◌, ◌⊎◌, total}
use oxide_http.Stream.{new_signal}
use oxide_http.Bridge.Types.{JsResponse}
use oxide_http.Bridge.{MatchedRequest, Pending, new}
use oxide_http.Bridge.Steps as D
use oxide_http.Bridge.Steps.{Op, arrive, batch, open_body, answer, arrivals}
use oxide_http.Bridge.Delivery.{run-delivered}
use oxide_http.Bridge.Once.{ids, count, run-at_most_once}
use oxide_http.Bridge.Doorbell as B
use oxide_http.Bridge.Doorbell.{
  Turn, connection, javascript, start, rings_soon, draining, run-never_asleep,
}

abbrev request : ℕ → MatchedRequest
request i = record {
  req_id = i;
  leaf_id = pos 0;
  method = codes "GET";
  path = codes "/";
  query_string = none;
  params = [];
  query = [];
  headers = [];
  ip = codes "::1";
  ips = [];
  country = none;
  id = codes "x";
  valid_body = none;
  valid_query = none;
  valid_params = none;
}

abbrev waiting : Pending
waiting = record {
  body = some (record { req_rx = none; resp_tx = none; mp_rx = none; abort = new_signal });
}

abbrev ok : JsResponse
ok = record { status = none; headers = none; body = none; streamed = none }

abbrev ops : List Op
ops =
    arrive (request 0) waiting
    ∷ batch
    ∷ arrive (request 1) waiting
    ∷ open_body 0
    ∷ open_body 0
    ∷ answer 0 ok
    ∷ answer 0 ok
    ∷ []

delivered_example : (D.run new ops).1.delivered ++ (D.run new ops).0.queue ≡ arrivals ops
delivered_example = run-delivered ops

at_most_once_example :
    (count 0 (D.run new ops).1.answered ≤ count 0 (ids (arrivals ops)))
    × (count 0 (D.run new ops).1.opened ≤ count 0 (ids (arrivals ops)))
at_most_once_example = run-at_most_once 0 ops

abbrev two : List (MatchedRequest × Pending)
two = (request 0, waiting) ∷ (request 1, waiting) ∷ []

abbrev turns : List Turn
turns = connection 0 ∷ connection 0 ∷ connection 1 ∷ connection 1 ∷ connection 0 ∷ javascript ∷ []

awake_example :
    ((B.run turns (start two)).bridge.queue ≡ [])
    ⊎ ((B.run turns (start two)).served < (B.run turns (start two)).bridge.rings)
    ⊎ (0 < total rings_soon (B.run turns (start two)).tasks)
    ⊎ ((B.run turns (start two)).js ≡ draining)
awake_example = run-never_asleep two turns
