-- ===== src/Accept.antt =====
-- src/server.rs, `serve`, `serve_admin`, `serve_conn`, `drive` and their guards: connections from
-- accept to close. The accept loop, the connections and the signals take steps in any order. The
-- counter counts sockets, and so does not wrap.
pub mod Cap
pub mod Steps
pub mod Runs
pub mod Ends
pub mod Finish
pub mod Builders
pub mod Connection
mod Tests
use oxide_http.Prelude.{
  ℕ, zero, suc, ◌+◌, ◌-◌, ◌<◌, max, Text, Option, none, some, List, [], ◌∷◌, ◌++◌, Bool, true,
  false, ltb, leb, ◌==◌, if◌then◌else◌, unwrap_or, is_some_and, get_elem?, set, total,
}
use oxide_http.Lifecycle.Calls.{closing, wait_closing}
use oxide_http.ProxyProtocol.{PrefixedIo, Outcome, done, rejected, out_of_fuel}
use oxide_http.ProxyProtocol

-- A connection's task: served under its `LiveGuard`; past it, with its end of the drain channel;
-- gone.
pub data Conn : Type 0 where
  served : Conn
  released : Conn
  gone : Conn

-- The accept loop: at its `select`; between the count and the limit; waiting for the drain; over.
pub data Loop : Type 0 where
  selecting : Loop
  reserved : (count : ℕ) → Loop
  draining : Loop
  finished : Loop

pub record Server : Type 0 where
  pub loop : Loop
  pub live : ℕ
  pub conns : List Conn
  pub stage : ℕ
  pub sender_gone : Bool
  pub timed_out : Bool

abbrev pub start : Server
start = record {
  loop = selecting;
  live = 0;
  conns = [];
  stage = 0;
  sender_gone = false;
  timed_out = false;
}

-- What happens next: `accept` returns, the loop goes on, `wait_closing` returns, the drain or its
-- deadline is over, the sender of the stage sends or is dropped, a connection's task goes on.
pub data Event : Type 0 where
  accepts : (ok : Bool) → Event
  goes_on : Event
  stops : Event
  drained : Event
  deadline : Event
  signal : (stage : ℕ) → Event
  sender_drops : Event
  advances : (conn : ℕ) → Event

abbrev pub above : Option ℕ → ℕ → Bool
above max_connections count = is_some_and max_connections (λ most. ltb most count)

-- Whether a connection still holds its end of the drain channel.
abbrev pub holds_drain : Conn → ℕ
holds_drain served = 1
holds_drain released = 1
holds_drain gone = 0

unfoldable pub accept : Server → Bool → Server
accept s true = record s { live = s.live + 1; loop = reserved (s.live + 1) }
accept s false = s

-- The limit: roll the count back and drop the stream, or spawn the connection's task.
unfoldable pub decide : Option ℕ → Server → ℕ → Server
decide max_connections s count =
    if above max_connections count
    then record s { live = s.live - 1; loop = selecting }
    else record s { conns = s.conns ++ served ∷ []; loop = selecting }

unfoldable pub advance : Server → ℕ → Conn → Server
advance s i served = record s { live = s.live - 1; conns = set s.conns i released }
advance s i released = record s { conns = set s.conns i gone }
advance s i gone = s

unfoldable pub step_selecting : Server → Event → Server
unfolding accept wait_closing
step_selecting s (accepts ok) = accept s ok
step_selecting s stops =
    if wait_closing s.stage s.sender_gone then record s { loop = draining } else s
step_selecting s event = s

unfoldable pub step_draining : Server → Event → Server
step_draining s drained = if total holds_drain s.conns == 0 then record s { loop = finished } else s
step_draining s deadline = record s { loop = finished; timed_out = true }
step_draining s event = s

unfoldable pub step_reserved : Option ℕ → Server → ℕ → Event → Server
unfolding decide
step_reserved max_connections s count goes_on = decide max_connections s count
step_reserved max_connections s count event = s

unfoldable pub step_loop : Option ℕ → Server → Loop → Event → Server
unfolding step_selecting step_draining step_reserved
step_loop max_connections s selecting event = step_selecting s event
step_loop max_connections s (reserved count) event = step_reserved max_connections s count event
step_loop max_connections s draining event = step_draining s event
step_loop max_connections s finished event = s

-- A step of the sender or of a connection, or else of the loop.
unfoldable pub step : Option ℕ → Server → Event → Server
unfolding step_loop advance
step max_connections s (signal stage) = record s { stage = max s.stage stage }
step max_connections s sender_drops = record s { sender_gone = true }
step max_connections s (advances i) = elim (get_elem? s.conns i) [
  | none ↦ s
  | some c ↦ advance s i c
]
step max_connections s event = step_loop max_connections s s.loop event

unfoldable pub run : Option ℕ → Server → List Event → Server
unfolding step
run max_connections s [] = s
run max_connections s (event ∷ events) = run max_connections (step max_connections s event) events

-- How a connection is served.
pub data Served : Type 0 where
  dropped : Served
  http1 : (peer_ip : Text) → Served
  auto : (peer_ip : Text) → Served

-- `maybe_timeout` around the prefix: none is silence beyond the timeout.
unfoldable pub peer_of :
    Bool → Text → Option (Outcome (PrefixedIo × ProxyProtocol.ParsedAddr)) → Option Text
peer_of false peer_ip prefix = some peer_ip
peer_of true peer_ip (some (done (io, addr))) = some (unwrap_or addr peer_ip)
peer_of true peer_ip (some rejected) = none
peer_of true peer_ip (some out_of_fuel) = none
peer_of true peer_ip none = none

-- The choice of the protocol: `handshake` tells whether TLS came up in time.
unfoldable pub protocol : (tls h2c handshake : Bool) → Text → Served
protocol true h2c true ip = auto ip
protocol true h2c false ip = dropped
protocol false true handshake ip = auto ip
protocol false false handshake ip = http1 ip

unfoldable pub serve_conn :
    (proxy_protocol tls h2c : Bool)
    → Text
    → Option (Outcome (PrefixedIo × ProxyProtocol.ParsedAddr))
    → (handshake : Bool) → Served
unfolding peer_of protocol
serve_conn proxy_protocol tls h2c peer_ip prefix handshake =
    elim (peer_of proxy_protocol peer_ip prefix) [
      | none ↦ dropped
      | some ip ↦ protocol tls h2c handshake ip
    ]

-- What `drive` waits for.
pub data Wake : Type 0 where
  conn_done : Wake
  idle : Wake
  closes : Wake
  shed : Wake

-- How it ends: the connection was over, or dropped as idle; and whether it was asked to close.
pub data Driven : Type 0 where
  ended : (graceful : Bool) → Driven
  dropped_idle : (graceful : Bool) → Driven
  waits : (graceful : Bool) → Driven

-- The two `select`s, the second after `graceful_shutdown`.
unfoldable pub drive : Bool → List Wake → Driven
drive graceful [] = waits graceful
drive graceful (conn_done ∷ wakes) = ended graceful
drive graceful (idle ∷ wakes) = dropped_idle graceful
drive graceful (closes ∷ wakes) = drive true wakes
drive graceful (shed ∷ wakes) = drive true wakes
