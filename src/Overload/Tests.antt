-- ===== src/Overload/Tests.antt =====
-- src/overload.rs: a limiter of one slot and one place in the queue.
use oxide_http.Prelude.{ℕ, none, List, [], ◌∷◌, ◌≡◌, refl}
use oxide_http.Overload.{new, Wake, permit, drops, abandoned, run, holding, waiting, rejected}
use oxide_http.Overload.Slots.{IsFair, arrivals, run-new-IsFair}

abbrev schedule : List (ℕ × ℕ × Wake)
schedule =
    (0, 0, permit)
    ∷ (1, 0, permit)
    ∷ (0, 0, permit)
    ∷ (1, 0, permit)
    ∷ (1, 0, permit)
    ∷ (2, 1, permit)
    ∷ (2, 1, permit)
    ∷ (2, 1, permit)
    ∷ (2, 1, permit)
    ∷ []

-- The first request holds the slot, the second waits, and the third is refused.
three_requests :
    (run schedule (record { limiter = new 1 1 1 none; tasks = arrivals 3 })).tasks
    ≡ holding ∷ waiting ∷ rejected ∷ []
unfolding run new
three_requests = refl

-- The waiting request is dropped, and the third finds the queue full although nobody waits.
abbrev dropped_waiting : List (ℕ × ℕ × Wake)
dropped_waiting =
    (0, 0, permit)
    ∷ (1, 0, permit)
    ∷ (0, 0, permit)
    ∷ (1, 0, permit)
    ∷ (1, 0, permit)
    ∷ (1, 1, drops)
    ∷ (2, 2, permit)
    ∷ (2, 2, permit)
    ∷ (2, 2, permit)
    ∷ (2, 2, permit)
    ∷ []

lost_place :
    (run dropped_waiting (record { limiter = new 1 1 1 none; tasks = arrivals 3 })).tasks
    ≡ holding ∷ abandoned ∷ rejected ∷ []
unfolding run new
lost_place = refl

run-new_example :
    IsFair 1 1 (run dropped_waiting (record { limiter = new 1 1 1 none; tasks = arrivals 3 }))
run-new_example = run-new-IsFair 1 1 1 none 3 dropped_waiting
