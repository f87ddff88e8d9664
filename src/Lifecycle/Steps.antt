-- ===== src/Lifecycle/Steps.antt =====
-- src/lib.rs: runs of a server, of whatever is called and happens in any order.
use oxide_http.Prelude.{
  ℕ, zero, suc, Text, Option, some, List, [], ◌∷◌, ◌++◌, Bool, length, get_elem?, All, Option-cases,
  ◌≡◌, refl, sym, subst, inl, inr,
}
use oxide_http.Bridge.Types.{JsResponse}
use oxide_http.Bridge.{Bridge}
use oxide_http.Bridge
use oxide_http.Lifecycle.{System, Listen}
use oxide_http.Health.{set_js_ready}
use oxide_http.Lifecycle.Calls.{
  update, Cell, RustServer, listen, take_batch, take_body, respond, purge_cache, set_ready, close,
  resume, on_bridge, active_cell, at_active, purged, readied,
}

-- What JS, the connections and the timers do to a server, in any order. `serve` is what the
-- connections of a cell do to its bridge.
pub data Op : Type 0 where
  start : Listen → Op
  batch : Op
  body : (id : ℕ) → Op
  answer : (id : ℕ) → JsResponse → Op
  purge_path : Option Text → Op
  ready : Bool → Op
  serve : (cell : ℕ) → (Bridge → Bridge) → Op
  stop : Op
  awake : (call : ℕ) → Op

module _ (sys : System) where
  unfoldable pub step : RustServer sys → Op → RustServer sys
  unfolding listen take_batch take_body respond purge_cache set_ready close resume update
  step s (start l) = (listen sys l s).0
  step s batch = (take_batch sys s).0
  step s (body id) = (take_body sys id s).0
  step s (answer id res) = (respond sys id res s).0
  step s (purge_path path) = (purge_cache sys path s).0
  step s (ready r) = set_ready sys r s
  step s (serve cell f) = record s { store = update s.store cell (on_bridge sys f) }
  step s stop = close sys s
  step s (awake i) = resume sys i s

  unfoldable pub run : RustServer sys → List Op → RustServer sys
  unfolding step
  run s [] = s
  run s (op ∷ ops) = run (step s op) ops

  module _ (P : Cell sys → Type 0) where
    -- The cell is there and has the property.
    abbrev pub Holds : List (Cell sys) → ℕ → Type 0
    Holds cells i = (c : Cell sys) × (get_elem? cells i ≡ some c) × P c

    pub Holds-append :
        (cells more : List (Cell sys)) (i : ℕ) → Holds cells i → Holds (cells ++ more) i
    Holds-append [] more i (c, e, h) = cc
    Holds-append (x ∷ cells) more zero h = h
    Holds-append (x ∷ cells) more (suc i) h = Holds-append cells more i h

    module _ (f : Cell sys → Cell sys) (keeps : (c : Cell sys) → P c → P (f c)) where
      pub Holds-update :
          (cells : List (Cell sys)) (i j : ℕ) → Holds cells j → Holds (update cells i f) j
      unfolding update
      Holds-update [] i j h = h
      Holds-update (x ∷ cells) zero zero (c, e, h) =
          let same : x ≡ c = cc (e) in (f x, refl, keeps x (subst P (sym same) h))
      Holds-update (x ∷ cells) zero (suc j) h = h
      Holds-update (x ∷ cells) (suc i) zero h = h
      Holds-update (x ∷ cells) (suc i) (suc j) h = Holds-update cells i j h

      pub All-update : (cells : List (Cell sys)) (i : ℕ) → All P cells → All P (update cells i f)
      unfolding update
      All-update [] i h = tt
      All-update (c ∷ cells) zero h = (keeps c h.0, h.1)
      All-update (c ∷ cells) (suc i) h = (h.0, All-update cells i h.1)

  -- Where a cell is put.
  pub Holds-last :
      (P : Cell sys → Type 0) (cells : List (Cell sys)) (c : Cell sys)
      → P c
      → Holds P (cells ++ c ∷ []) (length cells)
  Holds-last P [] c h = (c, refl, h)
  Holds-last P (x ∷ cells) c h = Holds-last P cells c h

  -- A change to a cell that leaves its stage and its draining alone.
  abbrev pub Gentle : (Cell sys → Cell sys) → Type 0
  Gentle f =
      (c : Cell sys)
      → ((f c).stage ≡ c.stage) × ((f c).shared.readiness.draining ≡ c.shared.readiness.draining)

  -- The calls that JS makes of a server that is up change one cell, or nothing.
  pub data Touched : RustServer sys → RustServer sys → Type 0 where
    same : {s : RustServer sys} → Touched s s
    touched :
        {s : RustServer sys} (cell : ℕ) (f : Cell sys → Cell sys)
        → Gentle f
        → Touched s (record s { store = update s.store cell f })

  at_active-Touched :
      (s : RustServer sys) (f : Cell sys → Cell sys) → Gentle f → Touched s (at_active sys s f)
  at_active-Touched s f g = elim (Option-cases s.active) [
    | inl out ↦ rw out same
    | inr (c, up) ↦ rw up (touched c f g)
  ]

  pub take_batch-Touched : (s : RustServer sys) → Touched s (take_batch sys s).0
  unfolding take_batch
  take_batch-Touched s = elim (Option-cases (active_cell sys s)) [
    | inl down ↦ rw (down, take_batch) same
    | inr (c, up) ↦
        rw (up, take_batch)
          (at_active-Touched s (on_bridge sys (λ b. (Bridge.take_batch b).0)) (λ d. (refl, refl)))
  ]

  pub take_body-Touched : (id : ℕ) (s : RustServer sys) → Touched s (take_body sys id s).0
  unfolding take_body
  take_body-Touched id s = elim (Option-cases (active_cell sys s)) [
    | inl down ↦ rw (down, take_body) same
    | inr (c, up) ↦
        rw (up, take_body)
          (at_active-Touched s (on_bridge sys (λ b. (Bridge.take_body id b).0)) (λ d. (refl, refl)))
  ]

  pub respond-Touched :
      (id : ℕ) (res : JsResponse) (s : RustServer sys) → Touched s (respond sys id res s).0
  unfolding respond
  respond-Touched id res s = elim (Option-cases (active_cell sys s)) [
    | inl down ↦ rw (down, respond) same
    | inr (c, up) ↦
        rw (up, respond)
          (at_active-Touched s (on_bridge sys (λ b. (Bridge.respond id res b).0))
            (λ d. (refl, refl)))
  ]

  pub purge_cache-Touched :
      (path : Option Text) (s : RustServer sys) → Touched s (purge_cache sys path s).0
  unfolding purge_cache
  purge_cache-Touched path s = elim (Option-cases (active_cell sys s)) [
    | inl down ↦ rw (down, purge_cache) same
    | inr (c, up) ↦ rw (up, purge_cache) (at_active-Touched s (purged sys path) (λ d. (refl, refl)))
  ]

  pub set_ready-Touched : (r : Bool) (s : RustServer sys) → Touched s (set_ready sys r s)
  unfolding set_ready set_js_ready
  set_ready-Touched v s = elim (Option-cases s.state) [
    | inl down ↦ rw down same
    | inr (r, up) ↦ rw up (touched r.cell (readied sys v) (λ d. (refl, refl)))
  ]
