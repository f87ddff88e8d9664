-- ===== src/Lifecycle/Tests.antt =====
-- src/lib.rs: a server that comes up, is closed and comes up again.
use oxide_http.Prelude.{
  pos, codes, to_uppercase, split, text_eq, none, some, List, [], ◌∷◌, true, is_some, get_elem?,
  All, ◌≡◌, refl, ok,
}
use oxide_http.Bridge.Types.{JsResponse}
use oxide_http.Router.{to_matchit}
use oxide_http.Samples.{sys, app, json, tls, exact, options}
use oxide_http.Config.Leaves.{Slots}
use oxide_http.Config.Tune.{tuned}
use oxide_http.Router.{Routes}
use oxide_http.Lifecycle.{Shared, shared_of}
use oxide_http.Lifecycle.Calls.{
  Running, waiting, RustServer, new, listen, take_batch, respond, resume, close,
}
use oxide_http.Lifecycle.Steps.{start, stop, awake, ready, batch, Op, run, step}
use oxide_http.Lifecycle.Draining.{IsDropped}
use oxide_http.Lifecycle.Closing.{run-Dropped}
use oxide_http.Lifecycle.Attached.{Orderly, IsAttached, run-new-IsAttached}
use oxide_http.Lifecycle.Relisten.{relisten_detached}

came_up : is_some (listen sys app (new sys)).0.state ≡ true
unfolding listen new to_uppercase split text_eq to_matchit
came_up = refl

abbrev slots : Slots json
slots = record {
  schemas = some (record { body = none; query = none; params = none }) ∷ [];
  multipart = none ∷ [];
  cache =
      some (record {
        config = record { ttl = 1000; vary = []; max_entries = 1024; max_body_bytes = 1048576 };
        store = [];
      })
      ∷ [];
  defs = record { method = codes "get"; path = codes "/a"; leaf_id = pos 0 } ∷ [];
}

abbrev routes : Routes exact
routes = record { by_method = (codes "GET", (codes "/a", pos 0) ∷ []) ∷ []; all = none }

abbrev shared : Shared sys
shared =
    shared_of sys app slots routes
      (tuned tls options none 10000 (some 30000) (some 30000) none (some 10000)) 1000 none

abbrev closing_ops : List Op
closing_ops = start app ∷ batch ∷ stop ∷ ready true ∷ awake 0 ∷ []

-- During the pause the server takes no other `listen`, and its readiness is gone for good.
dropped_example : All (IsDropped sys) (run sys (new sys) closing_ops).store
dropped_example = run-Dropped sys closing_ops

orderly : Orderly sys (new sys) closing_ops
unfolding new step listen close resume
orderly = (refl, tt)

closing_example : IsAttached sys (run sys (new sys) closing_ops)
closing_example = run-new-IsAttached sys closing_ops orderly

abbrev in_drain : RustServer sys
in_drain = run sys (new sys) closing_ops

abbrev waited_for : Running
waited_for = record { cell = 0; close_deadline = 11000; pre_shutdown_delay = 50 }

waits : get_elem? in_drain.closes 0 ≡ some (waiting waited_for)
unfolding run new to_uppercase split text_eq to_matchit
waits = refl

comes_up_again : (listen sys app in_drain).1 ≡ ok tt
unfolding run new listen to_uppercase split text_eq to_matchit
comes_up_again = refl

abbrev answered : JsResponse
answered = record { status = none; headers = none; body = none; streamed = none }

detached_example :
    (is_some (resume sys 0 (listen sys app in_drain).0).state ≡ true)
    × ((take_batch sys (resume sys 0 (listen sys app in_drain).0)).1 ≡ [])
    × ((respond sys 7 answered (resume sys 0 (listen sys app in_drain).0)).1 ≡ none)
detached_example = relisten_detached sys app in_drain 0 waited_for 7 answered waits comes_up_again
