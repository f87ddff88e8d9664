-- ===== src/Lifecycle/Draining.antt =====
-- src/lib.rs, `close`: in which order a server is taken down, whatever is called meanwhile.
use oxide_http.Prelude.{
  ℕ, zero, suc, Option, none, some, List, [], ◌∷◌, true, ◌==◌, All, All-append, All-map, Bool-cases,
  Option-cases, ◌≡◌, refl, sym, ◌∙◌, subst, ◌⊎◌, inl, inr,
}
use oxide_http.Health.{set_draining}
use oxide_http.Lifecycle.{System}
use oxide_http.Lifecycle.Calls.{
  running, pre_shutdown, closing, Running, Close, pausing, waiting, closed, update, Cell,
  RustServer, begin_close, close, draining, send,
}
use oxide_http.Lifecycle.Steps.{Holds, Holds-update, All-update, Gentle, Touched, same, touched}

module _ (sys : System) where
  abbrev pub IsDraining : Cell sys → Type 0
  IsDraining c = c.shared.readiness.draining ≡ true

  -- A server that has left the running stage is out of readiness.
  abbrev pub IsDropped : Cell sys → Type 0
  IsDropped c = (c.stage ≡ running) ⊎ IsDraining c

  abbrev pub StateOk : List (Cell sys) → Option Running → Type 0
  StateOk cells none = Unit
  StateOk cells (some r) = Holds sys (λ c. Unit {0}) cells r.cell

  -- A call of `close` that has begun has dropped the readiness of its server.
  abbrev pub CloseOk : List (Cell sys) → Close → Type 0
  CloseOk cells (pausing r) = Holds sys IsDraining cells r.cell
  CloseOk cells (waiting r) = Holds sys IsDraining cells r.cell
  CloseOk cells closed = Unit

  pub record IsOrdered (s : RustServer sys) : Type 0 where
    pub dropped : All IsDropped s.store
    pub up : StateOk s.store s.state
    pub calls : All (CloseOk s.store) s.closes

  -- A change to a cell that keeps what is asked of it.
  pub record Keeps (f : Cell sys → Cell sys) : Type 0 where
    pub keeps_dropped : (c : Cell sys) → IsDropped c → IsDropped (f c)
    pub keeps_draining : (c : Cell sys) → IsDraining c → IsDraining (f c)

  pub Gentle-Keeps : (f : Cell sys → Cell sys) → Gentle sys f → Keeps f
  Gentle-Keeps f g = record {
    keeps_dropped = λ c h. elim h [ inl up ↦ inl ((g c).0 ∙ up) | inr out ↦ inr ((g c).1 ∙ out) ];
    keeps_draining = λ c h. (g c).1 ∙ h;
  }

  module _ (f : Cell sys → Cell sys) (k : Keeps f) (cells : List (Cell sys)) (i : ℕ) where
    StateOk-update : (r : Option Running) → StateOk cells r → StateOk (update cells i f) r
    StateOk-update none h = tt
    StateOk-update (some r) h = Holds-update sys (λ c. Unit {0}) f (λ c u. tt) cells i r.cell h

    CloseOk-update : (c : Close) → CloseOk cells c → CloseOk (update cells i f) c
    CloseOk-update (pausing r) h = Holds-update sys IsDraining f k.keeps_draining cells i r.cell h
    CloseOk-update (waiting r) h = Holds-update sys IsDraining f k.keeps_draining cells i r.cell h
    CloseOk-update closed h = tt

    CloseOk-updates :
        (calls : List Close) → All (CloseOk cells) calls → All (CloseOk (update cells i f)) calls
    CloseOk-updates calls h =
        All-map (CloseOk cells) (CloseOk (update cells i f)) calls CloseOk-update h

  pub IsOrdered-update :
      (s : RustServer sys) (i : ℕ) (f : Cell sys → Cell sys)
      → Keeps f
      → IsOrdered s
      → IsOrdered (record s { store = update s.store i f })
  IsOrdered-update s i f k h = record {
    dropped = All-update sys IsDropped f k.keeps_dropped s.store i h.dropped;
    up = StateOk-update f k s.store i s.state h.up;
    calls = CloseOk-updates f k s.store i s.closes h.calls;
  }

  pub Touched-IsOrdered : {s t : RustServer sys} → Touched sys s t → IsOrdered s → IsOrdered t
  Touched-IsOrdered same h = h
  Touched-IsOrdered (touched {s} cell f g) h = IsOrdered-update s cell f (Gentle-Keeps f g) h

  draining-Keeps : Keeps (draining sys)
  unfolding set_draining
  draining-Keeps = record { keeps_dropped = λ c h. inr refl; keeps_draining = λ c h. refl }

  Holds-drained :
      (cells : List (Cell sys)) (i : ℕ)
      → Holds sys (λ c. Unit {0}) cells i
      → Holds sys IsDraining (update cells i (draining sys)) i
  unfolding update set_draining
  Holds-drained [] i (c, e, h) = cc
  Holds-drained (x ∷ cells) zero h = (draining sys x, refl, refl)
  Holds-drained (x ∷ cells) (suc i) h = Holds-drained cells i h

  -- A stage may be sent to a cell that is out of readiness.
  pub All-send :
      (stage : ℕ) (cells : List (Cell sys)) (i : ℕ)
      → Holds sys IsDraining cells i
      → All IsDropped cells
      → All IsDropped (update cells i (send sys stage))
  unfolding update
  All-send stage [] i h d = tt
  All-send stage (x ∷ cells) zero (c, e, h) d =
      let same : x ≡ c = cc (e) in (inr (subst IsDraining (sym same) h), d.1)
  All-send stage (x ∷ cells) (suc i) h d = (d.0, All-send stage cells i h d.1)

  module _ (stage : ℕ) (cells : List (Cell sys)) (i : ℕ) where
    pub CloseOk-send : (c : Close) → CloseOk cells c → CloseOk (update cells i (send sys stage)) c
    CloseOk-send (pausing r) h =
        Holds-update sys IsDraining (send sys stage) (λ c d. d) cells i r.cell h
    CloseOk-send (waiting r) h =
        Holds-update sys IsDraining (send sys stage) (λ c d. d) cells i r.cell h
    CloseOk-send closed h = tt

    pub CloseOk-sends :
        (calls : List Close)
        → All (CloseOk cells) calls
        → All (CloseOk (update cells i (send sys stage))) calls
    CloseOk-sends calls h =
        All-map (CloseOk cells) (CloseOk (update cells i (send sys stage))) calls CloseOk-send h

  begin_close-IsOrdered :
      (s : RustServer sys) (r : Running)
      → s.state ≡ some r
      → IsOrdered s
      → IsOrdered (begin_close sys s r)
  unfolding begin_close
  begin_close-IsOrdered s r up h =
      let s1 : RustServer sys = record s { store = update s.store r.cell (draining sys) } in
      let h1 : IsOrdered s1 = IsOrdered-update s r.cell (draining sys) draining-Keeps h in
      let out : Holds sys IsDraining s1.store r.cell =
        Holds-drained s.store r.cell (subst (StateOk s.store) up h.up) in
      elim (Bool-cases (r.pre_shutdown_delay == 0)) [
        | inl at_once ↦ rw at_once (record {
          dropped = All-send closing s1.store r.cell out h1.dropped;
          up = tt;
          calls =
              All-append (CloseOk (update s1.store r.cell (send sys closing))) s.closes
                (waiting r ∷ []) (CloseOk-sends closing s1.store r.cell s.closes h1.calls)
                (CloseOk-send closing s1.store r.cell (waiting r) out, tt);
        })
        | inr later ↦ rw later (record {
          dropped = All-send pre_shutdown s1.store r.cell out h1.dropped;
          up = tt;
          calls =
              All-append (CloseOk (update s1.store r.cell (send sys pre_shutdown))) s.closes
                (pausing r ∷ []) (CloseOk-sends pre_shutdown s1.store r.cell s.closes h1.calls)
                (CloseOk-send pre_shutdown s1.store r.cell (pausing r) out, tt);
        })
      ]

  pub close-IsOrdered : (s : RustServer sys) → IsOrdered s → IsOrdered (close sys s)
  unfolding close
  close-IsOrdered s h = elim (Option-cases s.state) [
    | inr (r, up) ↦ rw (up, close) (begin_close-IsOrdered s r up h)
    | inl down ↦
        rw (down, close)
          (record {
            dropped = h.dropped;
            up = h.up;
            calls = All-append (CloseOk s.store) s.closes (closed ∷ []) h.calls (tt, tt);
          })
  ]
