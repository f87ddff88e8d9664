-- ===== src/Lifecycle/Calls.antt =====
-- src/lib.rs, the methods of `RustServer`, and src/server.rs, the stages of a shutdown. `state` and
-- `active` point at a cell of the store: `Arc<Shared>` and the sender of the stage. A call of
-- `close` runs in steps, between which other calls come.
use oxide_http.Prelude.{
  ℕ, zero, suc, ◌+◌, ◌%◌, ◌^◌, Text, codes, Option, none, some, List, [], ◌∷◌, ◌++◌, Bool, true,
  leb, ◌==◌, if◌then◌else◌, length, get_elem?, set, Result, ok, err,
}
use oxide_http.Bridge.Types.{JsResponse}
use oxide_http.Bridge.{MatchedRequest, Bridge}
use oxide_http.Bridge
use oxide_http.Cache.{LeafCache, purge}
use oxide_http.Health.{set_draining, set_js_ready}
use oxide_http.Stream.{BodyIo}
use oxide_http.Lifecycle.{System, Listen, Shared, prepare}

abbrev pub running : ℕ
running = 0

abbrev pub pre_shutdown : ℕ
pre_shutdown = 1

abbrev pub closing : ℕ
closing = 2

-- Whether `wait_closing` returns at a stage. `sender_gone`: the sender was dropped.
unfoldable pub wait_closing : ℕ → Bool → Bool
wait_closing stage sender_gone = if leb closing stage then true else sender_gone

pub record Running : Type 0 where
  pub cell : ℕ
  pub close_deadline : ℕ
  pub pre_shutdown_delay : ℕ

-- A call of `close`: in its pause with the listener open, in its wait for the drain, or over.
pub data Close : Type 0 where
  pausing : Running → Close
  waiting : Running → Close
  closed : Close

-- `apply` at an index; beyond the end nothing changes.
unfoldable pub update {ℓ} : {A : Type ℓ} → List A → ℕ → (A → A) → List A
update [] i f = []
update (x ∷ xs) zero f = f x ∷ xs
update (x ∷ xs) (suc i) f = x ∷ update xs i f

unfoldable pub purge_all : Option Text → List (Option LeafCache) → List (Option LeafCache) × ℕ
unfolding purge
purge_all path [] = ([], 0)
purge_all path (none ∷ leaves) = let r = purge_all path leaves in (none ∷ r.0, r.1)
purge_all path (some c ∷ leaves) =
    let p = purge path c in let r = purge_all path leaves in (some p.0 ∷ r.0, p.1 + r.1)

module _ (sys : System) where
  pub record Cell : Type 0 where
    pub shared : Shared sys
    pub stage : ℕ

  pub record RustServer : Type 0 where
    pub store : List Cell
    pub state : Option Running
    pub active : Option ℕ
    pub closes : List Close

  unfoldable pub new : RustServer
  new = record { store = []; state = none; active = none; closes = [] }

  unfoldable pub listening : RustServer → Shared sys × ℕ → RustServer
  listening s (shared, delay) = record s {
    store = s.store ++ record { shared = shared; stage = running } ∷ [];
    active = some (length s.store);
    state = some (record {
      cell = length s.store;
      close_deadline = shared.tuning.shutdown_timeout + 1000;
      pre_shutdown_delay = delay;
    });
  }

  unfoldable pub listen : Listen → RustServer → RustServer × Result (Unit {0})
  unfolding prepare listening
  listen l s = elim s.state [
    | some r ↦ (s, err (codes "listen: this server is already listening; call close() first"))
    | none ↦ elim (prepare sys l) [ err e ↦ (s, err e) | ok p ↦ (listening s p, ok tt) ]
  ]

  unfoldable pub active_cell : RustServer → Option Cell
  active_cell s = elim s.active [ none ↦ none | some c ↦ get_elem? s.store c ]

  abbrev pub at_active : RustServer → (Cell → Cell) → RustServer
  at_active s f = elim s.active [ none ↦ s | some c ↦ record s { store = update s.store c f } ]

  abbrev pub on_bridge : (Bridge → Bridge) → Cell → Cell
  on_bridge f c = record c { shared = record c.shared { bridge = f c.shared.bridge } }

  unfoldable pub take_batch : RustServer → RustServer × List MatchedRequest
  unfolding update active_cell Bridge.take_batch
  take_batch s = elim (active_cell s) [
    | none ↦ (s, [])
    | some c ↦ (
      at_active s (on_bridge (λ b. (Bridge.take_batch b).0)),
      (Bridge.take_batch c.shared.bridge).1,
    )
  ]

  unfoldable pub take_body : ℕ → RustServer → RustServer × Option BodyIo
  unfolding update active_cell Bridge.take_body
  take_body id s = elim (active_cell s) [
    | none ↦ (s, none)
    | some c ↦ (
      at_active s (on_bridge (λ b. (Bridge.take_body id b).0)),
      (Bridge.take_body id c.shared.bridge).1,
    )
  ]

  -- With the answer that reaches a request, if any.
  unfoldable pub respond : ℕ → JsResponse → RustServer → RustServer × Option JsResponse
  unfolding update active_cell Bridge.respond
  respond id res s = elim (active_cell s) [
    | none ↦ (s, none)
    | some c ↦ (
      at_active s (on_bridge (λ b. (Bridge.respond id res b).0)),
      (Bridge.respond id res c.shared.bridge).1,
    )
  ]

  abbrev pub purged : Option Text → Cell → Cell
  purged path c = record c {
    shared = record c.shared { cache = (purge_all path c.shared.cache).0 };
  }

  unfoldable pub purge_cache : Option Text → RustServer → RustServer × ℕ
  unfolding update active_cell purge_all
  purge_cache path s = elim (active_cell s) [
    | none ↦ (s, 0)
    | some c ↦ (at_active s (purged path), (purge_all path c.shared.cache).1 % 2 ^ 32)
  ]

  abbrev pub readied : Bool → Cell → Cell
  readied ready c = record c {
    shared = record c.shared { readiness = set_js_ready c.shared.readiness ready };
  }

  unfoldable pub set_ready : Bool → RustServer → RustServer
  unfolding update set_js_ready
  set_ready ready s = elim s.state [
    | none ↦ s
    | some r ↦ record s { store = update s.store r.cell (readied ready) }
  ]

  -- Readiness is dropped before the stage is sent.
  abbrev pub draining : Cell → Cell
  draining c = record c {
    shared = record c.shared { readiness = set_draining c.shared.readiness true };
  }

  abbrev pub send : ℕ → Cell → Cell
  send stage c = record c { stage = stage }

  unfoldable pub begin_close : RustServer → Running → RustServer
  unfolding update set_draining
  begin_close s r =
      let dropped : List Cell = update s.store r.cell draining in
      if r.pre_shutdown_delay == 0
      then record s {
        state = none;
        store = update dropped r.cell (send closing);
        closes = s.closes ++ waiting r ∷ [];
      }
      else record s {
        state = none;
        store = update dropped r.cell (send pre_shutdown);
        closes = s.closes ++ pausing r ∷ [];
      }

  -- `close`, up to its first wait.
  unfoldable pub close : RustServer → RustServer
  unfolding begin_close
  close s = elim s.state [
    | none ↦ record s { closes = s.closes ++ closed ∷ [] }
    | some r ↦ begin_close s r
  ]

  unfoldable pub resume_as : ℕ → RustServer → Close → RustServer
  unfolding update
  resume_as i s (pausing r) = record s {
    store = update s.store r.cell (send closing);
    closes = set s.closes i (waiting r);
  }
  resume_as i s (waiting r) = record s { active = none; closes = set s.closes i closed }
  resume_as i s closed = s

  -- The i-th call of `close` after its wait: the pause is over, or the drain is done or out of time.
  unfoldable pub resume : ℕ → RustServer → RustServer
  unfolding resume_as
  resume i s = elim (get_elem? s.closes i) [ none ↦ s | some c ↦ resume_as i s c ]
