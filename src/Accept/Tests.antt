-- ===== src/Accept/Tests.antt =====
-- src/server.rs: an accept loop with room for one connection.
use oxide_http.Prelude.{inr, none, some, List, [], ◌∷◌, ◌++◌, true, false, any, ◌≡◌, refl}
use oxide_http.Lifecycle.Calls.{wait_closing}
use oxide_http.Accept.{
  Event, accepts, goes_on, stops, drained, deadline, signal, advances, finished, start, run, gone,
  Wake, closes, shed, conn_done, idle, ended, dropped_idle, drive,
}
use oxide_http.Accept.Cap.{IsCapped}
use oxide_http.Accept.Finish.{run-finishes}
use oxide_http.Accept.Runs.{run-start-IsCapped}
use oxide_http.Accept.Connection.{orders, drive_graceful}

-- The second connection is over the limit; the first ends during the drain.
abbrev events : List Event
events =
    accepts true
    ∷ goes_on
    ∷ accepts true
    ∷ goes_on
    ∷ signal 1
    ∷ stops
    ∷ signal 2
    ∷ stops
    ∷ drained
    ∷ advances 0
    ∷ advances 0
    ∷ drained
    ∷ []

ends_drained : (run (some 1) start events).loop ≡ finished
unfolding run wait_closing
ends_drained = refl

one_served : (run (some 1) start events).conns ≡ gone ∷ []
unfolding run wait_closing
one_served = refl

capped_example : IsCapped (some 1) (run (some 1) start events)
capped_example = run-start-IsCapped (some 1) events

abbrev twice : List Wake
twice = shed ∷ closes ∷ []

graceful_example :
    (drive false (twice ++ conn_done ∷ []) ≡ ended (any orders twice))
    × (drive false (twice ++ idle ∷ []) ≡ dropped_idle (any orders twice))
graceful_example = drive_graceful twice [] (refl, (refl, tt))

-- Between the accept loop's steps, a signal comes twice and a connection ends.
abbrev quiet_events : List Event
quiet_events = signal 2 ∷ advances 0 ∷ accepts false ∷ []

finishes_example :
    (run none
      (record start { sender_gone = true })
      (goes_on ∷ (quiet_events ++ (stops ∷ ((accepts true ∷ []) ++ (deadline ∷ [])))))).loop
    ≡ finished
finishes_example =
    run-finishes none (record start { sender_gone = true }) quiet_events (accepts true ∷ []) []
      (inr refl) ((λ e. cc e), ((λ e. cc e), ((λ e. cc e), tt)))
