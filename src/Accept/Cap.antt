-- ===== src/Accept/Cap.antt =====
-- src/server.rs, `serve`: the cap on connections, and the end of the accept loop.
use oxide_http.Prelude.{
  ℕ, ◌+◌, ◌≤◌, ◌<◌, Option, none, some, List, [], ◌∷◌, ◌++◌, Bool, true, false, total, ◌≡◌, ◌⊎◌,
  ◌↔◌, inl, inr, arith,
}
use oxide_http.Body.Delivery.{Within}
use oxide_http.Lifecycle.Calls.{wait_closing}
use oxide_http.Accept.{
  Conn, served, released, gone, Loop, selecting, reserved, draining, finished, Server, above,
  holds_drain,
}

-- Whether a connection is counted as live.
abbrev pub holds_live : Conn → ℕ
holds_live served = 1
holds_live released = 0
holds_live gone = 0

abbrev pub reserving : Loop → ℕ
reserving (reserved count) = 1
reserving loop = 0

-- An order to close: the stage is CLOSING, 2, or past it, or the sender was dropped.
abbrev pub IsOrdered : ℕ → Bool → Type 0
IsOrdered stage sender_gone = (2 ≤ stage) ⊎ (sender_gone ≡ true)

-- What the loop relies on at each of its points: the count taken is above the connections served; the
-- loop is left only on an order to close, and is over only when the drain or its time is.
abbrev pub LoopOk : (live open_ends : ℕ) → (order : Type 0) → (timed_out : Bool) → Loop → Type 0
LoopOk live open_ends order timed_out selecting = Unit
LoopOk live open_ends order timed_out (reserved count) = live < count
LoopOk live open_ends order timed_out draining = order
LoopOk live open_ends order timed_out finished = order × ((timed_out ≡ true) ⊎ (open_ends ≡ 0))

module _ (max_connections : Option ℕ) where
  pub record IsCapped (s : Server) : Type 0 where
    pub counted : s.live ≡ total holds_live s.conns + reserving s.loop
    pub capped : Within max_connections (total holds_live s.conns)
    pub loop_ok :
        LoopOk
          (total holds_live s.conns)
          (total holds_drain s.conns)
          (IsOrdered s.stage s.sender_gone)
          s.timed_out
          s.loop

  pub Within-less : (n m : ℕ) → m ≤ n → Within max_connections n → Within max_connections m
  Within-less n m h w = go max_connections w
    where
      go : (o : Option ℕ) → Within o n → Within o m
      go none w = tt
      go (some most) w = omega arith

  pub Within-next :
      (n count : ℕ)
      → n < count
      → above max_connections count ≡ false
      → Within max_connections (n + 1)
  Within-next n count h a = go max_connections a
    where
      go : (o : Option ℕ) → above o count ≡ false → Within o (n + 1)
      go none a = tt
      go (some most) a = ground arith

  pub LoopOk-less :
      (live live' open_ends open_ends' : ℕ) (order : Type 0) (timed_out : Bool) (loop : Loop)
      → live' ≤ live
      → open_ends' ≤ open_ends
      → LoopOk live open_ends order timed_out loop
      → LoopOk live' open_ends' order timed_out loop
  LoopOk-less live live' o o' order timed_out selecting h k l = tt
  LoopOk-less live live' o o' order timed_out (reserved count) h k l = omega arith
  LoopOk-less live live' o o' order timed_out draining h k l = l
  LoopOk-less live live' o o' order timed_out finished h k (now, inl late) = (now, inl late)
  LoopOk-less live live' o o' order timed_out finished h k (now, inr over) =
      (now, inr (omega arith))

  pub LoopOk-ordered :
      (live open_ends : ℕ) (before after : Type 0) (timed_out : Bool) (loop : Loop)
      → (before → after)
      → LoopOk live open_ends before timed_out loop
      → LoopOk live open_ends after timed_out loop
  LoopOk-ordered live o before after timed_out selecting f l = tt
  LoopOk-ordered live o before after timed_out (reserved count) f l = l
  LoopOk-ordered live o before after timed_out draining f l = f l
  LoopOk-ordered live o before after timed_out finished f (now, over) = (f now, over)

pub total-snoc :
    (f : Conn → ℕ) (conns : List Conn) (c : Conn) → total f (conns ++ c ∷ []) ≡ total f conns + f c
total-snoc f [] c = omega arith
total-snoc f (d ∷ conns) c = omega (arith, total-snoc f conns c)

-- The specification of `wait_closing`: it returns at CLOSING, or once the sender is dropped.
pub wait_closing_iff :
    (stage : ℕ) (sender_gone : Bool)
    → (wait_closing stage sender_gone ≡ true) ↔ IsOrdered stage sender_gone
unfolding wait_closing
wait_closing_iff stage sender_gone = (λ e. ground arith, λ o. ground arith)
