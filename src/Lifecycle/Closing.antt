-- ===== src/Lifecycle/Closing.antt =====
-- src/lib.rs, `close`: readiness is dropped before the listener closes, in every run.
use oxide_http.Prelude.{
  ℕ, Option, none, some, List, [], ◌∷◌, ◌++◌, get_elem?, All, All-append, All-map, All-get_elem,
  All-set, Option-cases, ◌≡◌, refl, inl, inr, Result-cases,
}
use oxide_http.Lifecycle.{System, Listen, Shared, prepare}
use oxide_http.Lifecycle.Calls.{
  running, closing, Running, Close, pausing, waiting, closed, update, Cell, RustServer, new,
  listening, listen, resume_as, resume, on_bridge, send,
}
use oxide_http.Lifecycle.Steps.{
  Op, start, batch, body, answer, purge_path, ready, serve, stop, awake, step, run, Holds-append,
  Holds-update, Holds-last, take_batch-Touched, take_body-Touched, respond-Touched,
  purge_cache-Touched, set_ready-Touched,
}
use oxide_http.Lifecycle.Draining.{
  IsDraining, IsDropped, StateOk, CloseOk, IsOrdered, Touched-IsOrdered, close-IsOrdered, All-send,
  CloseOk-send, CloseOk-sends, IsOrdered-update, Gentle-Keeps,
}

module _ (sys : System) where
  abbrev fresh : Shared sys → Cell sys
  fresh shared = record { shared = shared; stage = running }

  CloseOk-fresh :
      (cells : List (Cell sys)) (shared : Shared sys) (c : Close)
      → CloseOk sys cells c
      → CloseOk sys (cells ++ fresh shared ∷ []) c
  CloseOk-fresh cells shared (pausing r) h = Holds-append sys (IsDraining sys) cells _ r.cell h
  CloseOk-fresh cells shared (waiting r) h = Holds-append sys (IsDraining sys) cells _ r.cell h
  CloseOk-fresh cells shared closed h = tt

  listening-IsOrdered :
      (s : RustServer sys) (shared : Shared sys) (delay : ℕ)
      → IsOrdered sys s
      → IsOrdered sys (listening sys s (shared, delay))
  unfolding listening
  listening-IsOrdered s shared delay h = record {
    dropped = All-append (IsDropped sys) s.store (fresh shared ∷ []) h.dropped (inl refl, tt);
    up = Holds-last sys (λ c. Unit {0}) s.store (fresh shared) tt;
    calls =
        All-map (CloseOk sys s.store) (CloseOk sys (s.store ++ fresh shared ∷ [])) s.closes
          (CloseOk-fresh s.store shared) h.calls;
  }

  listen-IsOrdered :
      (l : Listen) (s : RustServer sys) → IsOrdered sys s → IsOrdered sys (listen sys l s).0
  unfolding listen
  listen-IsOrdered l s h = elim (Option-cases s.state) [
    | inr (r, up) ↦ rw (up, listen) h
    | inl down ↦ elim (Result-cases (prepare sys l)) [
      | inr (e, bad) ↦ rw (down, bad, listen) h
      | inl (p, good) ↦ rw (down, good, listen) (listening-IsOrdered s p.0 p.1 h)
    ]
  ]

  StateOk-send :
      (cells : List (Cell sys)) (i : ℕ) (r : Option Running)
      → StateOk sys cells r
      → StateOk sys (update cells i (send sys closing)) r
  StateOk-send cells i none h = tt
  StateOk-send cells i (some r) h =
      Holds-update sys (λ c. Unit {0}) (send sys closing) (λ c u. tt) cells i r.cell h

  resume_as-IsOrdered :
      (i : ℕ) (s : RustServer sys) (c : Close)
      → get_elem? s.closes i ≡ some c
      → IsOrdered sys s
      → IsOrdered sys (resume_as sys i s c)
  unfolding resume_as
  resume_as-IsOrdered i s (pausing r) e h =
      let out : CloseOk sys s.store (pausing r) =
        All-get_elem (CloseOk sys s.store) s.closes i (pausing r) h.calls e in
      let sent : CloseOk sys (update s.store r.cell (send sys closing)) (waiting r) =
        CloseOk-send sys closing s.store r.cell (waiting r) out in
      record {
        dropped = All-send sys closing s.store r.cell out h.dropped;
        up = StateOk-send s.store r.cell s.state h.up;
        calls =
            All-set (CloseOk sys (update s.store r.cell (send sys closing))) s.closes i (waiting r)
              sent (CloseOk-sends sys closing s.store r.cell s.closes h.calls);
      }
  resume_as-IsOrdered i s (waiting r) e h = record {
    dropped = h.dropped;
    up = h.up;
    calls = All-set (CloseOk sys s.store) s.closes i closed tt h.calls;
  }
  resume_as-IsOrdered i s closed e h = h

  resume-IsOrdered : (i : ℕ) (s : RustServer sys) → IsOrdered sys s → IsOrdered sys (resume sys i s)
  unfolding resume
  resume-IsOrdered i s h = elim (Option-cases (get_elem? s.closes i)) [
    | inl gone ↦ rw (gone, resume) h
    | inr (c, here) ↦ rw (here, resume) (resume_as-IsOrdered i s c here h)
  ]

  step-IsOrdered : (s : RustServer sys) (op : Op) → IsOrdered sys s → IsOrdered sys (step sys s op)
  unfolding step
  step-IsOrdered s (start l) h = listen-IsOrdered l s h
  step-IsOrdered s batch h = Touched-IsOrdered sys (take_batch-Touched sys s) h
  step-IsOrdered s (body id) h = Touched-IsOrdered sys (take_body-Touched sys id s) h
  step-IsOrdered s (answer id res) h = Touched-IsOrdered sys (respond-Touched sys id res s) h
  step-IsOrdered s (purge_path path) h = Touched-IsOrdered sys (purge_cache-Touched sys path s) h
  step-IsOrdered s (ready v) h = Touched-IsOrdered sys (set_ready-Touched sys v s) h
  step-IsOrdered s (serve cell f) h =
      IsOrdered-update sys s cell (on_bridge sys f)
        (Gentle-Keeps sys (on_bridge sys f) (λ c. (refl, refl))) h
  step-IsOrdered s stop h = close-IsOrdered sys s h
  step-IsOrdered s (awake i) h = resume-IsOrdered i s h

  run-IsOrdered :
      (s : RustServer sys) (ops : List Op) → IsOrdered sys s → IsOrdered sys (run sys s ops)
  unfolding run
  run-IsOrdered s [] h = h
  run-IsOrdered s (op ∷ ops) h = run-IsOrdered (step sys s op) ops (step-IsOrdered s op h)

  -- Whatever JS, the connections and the timers do and in whatever order: every server of the run
  -- that has left the running stage, to close its listener or to wait before it does, is out of
  -- readiness.
  pub run-Dropped : (ops : List Op) → All (IsDropped sys) (run sys (new sys) ops).store
  unfolding new
  run-Dropped ops =
      (run-IsOrdered (new sys) ops (record { dropped = tt; up = tt; calls = tt })).dropped
