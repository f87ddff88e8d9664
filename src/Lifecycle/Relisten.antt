-- ===== src/Lifecycle/Relisten.antt =====
-- src/lib.rs, `listen` and `close`: a `listen` during the drain of an earlier server.
use oxide_http.Prelude.{
  ℕ, none, some, List, [], true, is_some, get_elem?, set, Option-cases, ◌≡◌, refl, sym, ap, subst,
  inl, inr, ok, Result-cases,
}
use oxide_http.Bridge.Types.{JsResponse}
use oxide_http.Lifecycle.{System, Listen, prepare}
use oxide_http.Lifecycle.Calls.{
  Running, Close, waiting, closed, RustServer, listening, listen, active_cell, take_batch, respond,
  resume_as, resume,
}

module _ (sys : System) where
  listen-up :
      (l : Listen) (s : RustServer sys)
      → (listen sys l s).1 ≡ ok tt
      → (is_some (listen sys l s).0.state ≡ true) × ((listen sys l s).0.closes ≡ s.closes)
  unfolding listen listening
  listen-up l s e = elim (Option-cases s.state) [
    | inr (r, up) ↦ cc (rw (up, listen) at e)
    | inl down ↦ elim (Result-cases (prepare sys l)) [
      | inr (x, bad) ↦ cc (rw (down, bad, listen) at e)
      | inl (p, good) ↦ rw (down, good, listen) (refl, refl)
    ]
  ]

  resume-waiting :
      (i : ℕ) (s : RustServer sys) (r : Running)
      → get_elem? s.closes i ≡ some (waiting r)
      → resume sys i s ≡ record s { active = none; closes = set s.closes i closed }
  unfolding resume resume_as
  resume-waiting i s r e = rw (e, resume) refl

  active_cell-none : (s : RustServer sys) → s.active ≡ none → active_cell sys s ≡ none
  unfolding active_cell
  active_cell-none s e = rw e refl

  detached :
      (s : RustServer sys) (id : ℕ) (res : JsResponse)
      → s.active ≡ none
      → (take_batch sys s ≡ (s, [])) × (respond sys id res s ≡ (s, none))
  unfolding take_batch respond
  detached s id res e =
      let nowhere : active_cell sys s ≡ none = active_cell-none s e in
      (rw (nowhere, take_batch) refl, rw (nowhere, respond) refl)

  -- A `listen` that succeeds while a `close` waits for its drain is cut off when that drain ends: the
  -- new server is up, and yet JS gets no request of it and no answer of JS reaches it.
  pub relisten_detached :
      (l : Listen) (s : RustServer sys) (i : ℕ) (r : Running) (id : ℕ) (res : JsResponse)
      → get_elem? s.closes i ≡ some (waiting r)
      → (listen sys l s).1 ≡ ok tt
      → (is_some (resume sys i (listen sys l s).0).state ≡ true)
        × ((take_batch sys (resume sys i (listen sys l s).0)).1 ≡ [])
        × ((respond sys id res (resume sys i (listen sys l s).0)).1 ≡ none)
  relisten_detached l s i r id res waits came_up =
      let (up, kept) = listen-up l s came_up in
      let t : RustServer sys = (listen sys l s).0 in
      let cut : resume sys i t ≡ record t { active = none; closes = set t.closes i closed } =
        resume-waiting i t r
          (subst (λ (cs : List Close). get_elem? cs i ≡ some (waiting r)) (sym kept) waits) in
      let (no_batch, no_answer) =
        detached (record t { active = none; closes = set t.closes i closed }) id res refl in
      rw cut (up, ap (λ p. p.1) no_batch, ap (λ p. p.1) no_answer)
