-- ===== src/Lifecycle/Attached.antt =====
-- src/lib.rs: which server the calls of JS reach, from `listen` to the end of `close`.
use oxide_http.Prelude.{
  ℕ, ◌+◌, ◌≤◌, Option, none, some, List, [], ◌∷◌, ◌++◌, ◌==◌, length, get_elem?, set, total,
  total-set, All, All-append, All-get_elem, All-set, Bool-cases, Option-cases, ◌≡◌, refl, ap, subst,
  inl, inr, arith, Result-cases,
}
use oxide_http.Lifecycle.{System, Listen, prepare}
use oxide_http.Lifecycle.Calls.{
  Running, Close, pausing, waiting, closed, RustServer, new, listening, listen, begin_close, close,
  resume_as, resume,
}
use oxide_http.Lifecycle.Steps.{
  Op, start, batch, body, answer, purge_path, ready, serve, stop, awake, step, run, Touched, same,
  touched, take_batch-Touched, take_body-Touched, respond-Touched, purge_cache-Touched,
  set_ready-Touched,
}

-- A call of `close` that is not over.
abbrev pub busy : Close → ℕ
busy (pausing r) = 1
busy (waiting r) = 1
busy closed = 0

abbrev up_count : Option Running → ℕ
up_count none = 0
up_count (some r) = 1

-- The calls of JS reach the server that is up.
abbrev pub UpOk : Option ℕ → Option Running → Type 0
UpOk active none = Unit
UpOk active (some r) = active ≡ some r.cell

-- The calls of JS reach the server that is being closed.
abbrev pub CallOk : Option ℕ → Close → Type 0
CallOk active (pausing r) = active ≡ some r.cell
CallOk active (waiting r) = active ≡ some r.cell
CallOk active closed = Unit

down-UpOk : (active : Option ℕ) (state : Option Running) → up_count state ≡ 0 → UpOk active state
down-UpOk active none h = tt
down-UpOk active (some r) h = absurd (omega arith)

idle-CallOk :
    (active : Option ℕ) (calls : List Close) → total busy calls ≡ 0 → All (CallOk active) calls
idle-CallOk active [] h = tt
idle-CallOk active (pausing r ∷ calls) h = absurd (omega arith)
idle-CallOk active (waiting r ∷ calls) h = absurd (omega arith)
idle-CallOk active (closed ∷ calls) h = (tt, idle-CallOk active calls (omega arith))

total-snoc :
    (calls : List Close) (c : Close) → total busy (calls ++ c ∷ []) ≡ total busy calls + busy c
total-snoc [] c = omega arith
total-snoc (d ∷ calls) c = omega (arith, total-snoc calls c)

module _ (sys : System) where
  -- One server at a time, up or going down, and it is the one that the calls reach.
  pub record IsAttached (s : RustServer sys) : Type 0 where
    pub single : total busy s.closes + up_count s.state ≤ 1
    pub up : UpOk s.active s.state
    pub calls : All (CallOk s.active) s.closes

  Touched-IsAttached : {s t : RustServer sys} → Touched sys s t → IsAttached s → IsAttached t
  Touched-IsAttached same h = h
  Touched-IsAttached (touched cell f g) h = record { single = h.single; up = h.up; calls = h.calls }

  -- `listen` is called only when no `close` is under way.
  abbrev pub Orderly : RustServer sys → List Op → Type 0
  Orderly s [] = Unit
  Orderly s (start l ∷ ops) = (total busy s.closes ≡ 0) × Orderly (step sys s (start l)) ops
  Orderly s (op ∷ ops) = Orderly (step sys s op) ops

  listen-IsAttached :
      (l : Listen) (s : RustServer sys)
      → total busy s.closes ≡ 0
      → IsAttached s
      → IsAttached (listen sys l s).0
  unfolding listen listening
  listen-IsAttached l s idle h = elim (Option-cases s.state) [
    | inr (r, up) ↦ rw (up, listen) h
    | inl down ↦ elim (Result-cases (prepare sys l)) [
      | inr (e, bad) ↦ rw (down, bad, listen) h
      | inl (p, good) ↦
          rw (down, good, listen)
            (record {
              single = omega (arith, idle);
              up = refl;
              calls = idle-CallOk (some (length s.store)) s.closes idle;
            })
    ]
  ]

  begin_close-IsAttached :
      (s : RustServer sys) (r : Running)
      → s.state ≡ some r
      → IsAttached s
      → IsAttached (begin_close sys s r)
  unfolding begin_close
  begin_close-IsAttached s r up h =
      let few : total busy s.closes + 1 ≤ 1 =
        subst (λ (o : Option Running). total busy s.closes + up_count o ≤ 1) up h.single in
      let reached : s.active ≡ some r.cell = subst (UpOk s.active) up h.up in
      elim (Bool-cases (r.pre_shutdown_delay == 0)) [
        | inl at_once ↦ rw at_once (record {
          single = omega (arith, few, total-snoc s.closes (waiting r));
          up = tt;
          calls = All-append (CallOk s.active) s.closes (waiting r ∷ []) h.calls (reached, tt);
        })
        | inr later ↦ rw later (record {
          single = omega (arith, few, total-snoc s.closes (pausing r));
          up = tt;
          calls = All-append (CallOk s.active) s.closes (pausing r ∷ []) h.calls (reached, tt);
        })
      ]

  close-IsAttached : (s : RustServer sys) → IsAttached s → IsAttached (close sys s)
  unfolding close
  close-IsAttached s h = elim (Option-cases s.state) [
    | inr (r, up) ↦ rw (up, close) (begin_close-IsAttached s r up h)
    | inl down ↦
        rw (down, close)
          (record {
            single = omega (arith, h.single, total-snoc s.closes closed, ap up_count down);
            up = h.up;
            calls = All-append (CallOk s.active) s.closes (closed ∷ []) h.calls (tt, tt);
          })
  ]

  resume_as-IsAttached :
      (i : ℕ) (s : RustServer sys) (c : Close)
      → get_elem? s.closes i ≡ some c
      → IsAttached s
      → IsAttached (resume_as sys i s c)
  unfolding resume_as
  resume_as-IsAttached i s (pausing r) e h = record {
    single = omega (arith, h.single, total-set busy s.closes i (pausing r) (waiting r) e);
    up = h.up;
    calls =
        All-set (CallOk s.active) s.closes i (waiting r)
          (All-get_elem (CallOk s.active) s.closes i (pausing r) h.calls e) h.calls;
  }
  resume_as-IsAttached i s (waiting r) e h =
      let fewer : total busy (set s.closes i closed) + 1 ≡ total busy s.closes + 0 =
        total-set busy s.closes i (waiting r) closed e in
      let idle : total busy (set s.closes i closed) ≡ 0 = omega (arith, fewer, h.single) in
      record {
        single = omega (arith, idle, h.single, fewer);
        up = down-UpOk none s.state (omega (arith, h.single, fewer));
        calls = idle-CallOk none (set s.closes i closed) idle;
      }
  resume_as-IsAttached i s closed e h = h

  resume-IsAttached : (i : ℕ) (s : RustServer sys) → IsAttached s → IsAttached (resume sys i s)
  unfolding resume
  resume-IsAttached i s h = elim (Option-cases (get_elem? s.closes i)) [
    | inl gone ↦ rw (gone, resume) h
    | inr (c, here) ↦ rw (here, resume) (resume_as-IsAttached i s c here h)
  ]

  run-IsAttached :
      (s : RustServer sys) (ops : List Op)
      → Orderly s ops
      → IsAttached s
      → IsAttached (run sys s ops)
  unfolding run step
  run-IsAttached s [] o h = h
  run-IsAttached s (start l ∷ ops) o h =
      run-IsAttached (listen sys l s).0 ops o.1 (listen-IsAttached l s o.0 h)
  run-IsAttached s (batch ∷ ops) o h =
      run-IsAttached (step sys s batch) ops o (Touched-IsAttached (take_batch-Touched sys s) h)
  run-IsAttached s (body id ∷ ops) o h =
      run-IsAttached (step sys s (body id)) ops o
        (Touched-IsAttached (take_body-Touched sys id s) h)
  run-IsAttached s (answer id res ∷ ops) o h =
      run-IsAttached (step sys s (answer id res)) ops o
        (Touched-IsAttached (respond-Touched sys id res s) h)
  run-IsAttached s (purge_path path ∷ ops) o h =
      run-IsAttached (step sys s (purge_path path)) ops o
        (Touched-IsAttached (purge_cache-Touched sys path s) h)
  run-IsAttached s (ready v ∷ ops) o h =
      run-IsAttached (step sys s (ready v)) ops o (Touched-IsAttached (set_ready-Touched sys v s) h)
  run-IsAttached s (serve cell f ∷ ops) o h =
      run-IsAttached (step sys s (serve cell f)) ops o
        (record { single = h.single; up = h.up; calls = h.calls })
  run-IsAttached s (stop ∷ ops) o h = run-IsAttached (close sys s) ops o (close-IsAttached s h)
  run-IsAttached s (awake i ∷ ops) o h =
      run-IsAttached (resume sys i s) ops o (resume-IsAttached i s h)

  -- As long as `listen` is called only when no `close` is under way, there is at most one server that
  -- is up or being closed, and until the end of its drain the calls of JS reach its bridge.
  pub run-new-IsAttached :
      (ops : List Op) → Orderly (new sys) ops → IsAttached (run sys (new sys) ops)
  unfolding new
  run-new-IsAttached ops o =
      run-IsAttached (new sys) ops o (record { single = omega arith; up = tt; calls = tt })
