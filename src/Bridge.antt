-- ===== src/Bridge.antt =====
-- src/bridge.rs: the queue of requests on their way to JS, and the tickets under which JS takes a
-- request's body and answers it. The `HashMap` of pending requests is an association list with one
-- pair to a ticket.
pub mod Steps
pub mod Delivery
pub mod Once
pub mod Doorbell
pub mod Types
mod Tests
use oxide_http.Prelude.{
  ℕ, ℤ, zero, suc, ◌+◌, ◌%◌, ◌^◌, Text, Option, none, some, List, [], ◌∷◌, ◌++◌, Bool, true, false,
  not, ◌==◌, if◌then◌else◌, retain, is_empty,
}
use oxide_http.Bridge.Types.{KvPair, JsResponse}
use oxide_http.Body.{BodyMsg}
use oxide_http.Multipart.{MpEvent}
use oxide_http.Stream.{AbortSignal, BodyIo, new_body_io}

-- A leaf that is none is the -1 of a path without a route.
pub record MatchedRequest : Type 0 where
  pub req_id : ℕ
  pub leaf_id : ℤ
  pub method : Text
  pub path : Text
  pub query_string : Option Text
  pub params : List (Text × Text)
  pub query : List KvPair
  pub headers : List KvPair
  pub ip : Text
  pub ips : List Text
  pub country : Option Text
  pub id : Text
  pub valid_body : Option Text
  pub valid_query : Option Text
  pub valid_params : Option Text

pub record BodyParts : Type 0 where
  pub req_rx : Option (List BodyMsg)
  pub resp_tx : Option (List Text)
  pub mp_rx : Option (List MpEvent)
  pub abort : AbortSignal

-- One request in flight. Its `done` sender is known by the ticket that it stands under.
pub record Pending : Type 0 where
  pub body : Option BodyParts

abbrev pub PendingMap : Type 0
PendingMap = List (ℕ × Pending)

-- `rings` counts the calls of the doorbell.
pub record Bridge : Type 0 where
  pub rings : ℕ
  pub queue : List MatchedRequest
  pub pending : PendingMap
  pub next_id : ℕ

unfoldable pub new : Bridge
new = record { rings = 0; queue = []; pending = []; next_id = 0 }

unfoldable pub next_req_id : Bridge → Bridge × ℕ
next_req_id b = (record b { next_id = (b.next_id + 1) % 2 ^ 32 }, b.next_id)

-- `HashMap::get_mut`, `remove` and `insert`.
unfoldable pub find_pending : ℕ → PendingMap → Option Pending
find_pending id [] = none
find_pending id ((i, p) ∷ m) = if i == id then some p else find_pending id m

unfoldable pub remove_pending : ℕ → PendingMap → PendingMap
remove_pending id m = retain (λ (p : ℕ × Pending). not (p.0 == id)) m

unfoldable pub insert_pending : ℕ → Pending → PendingMap → PendingMap
unfolding remove_pending
insert_pending id p m = (id, p) ∷ remove_pending id m

-- The request is registered, then queued, and the bell rings if the queue was empty.
unfoldable pub enqueue : MatchedRequest → Pending → Bridge → Bridge
unfolding insert_pending
enqueue req p b =
    let was_empty : Bool = is_empty b.queue in
    record b {
      rings = if was_empty then b.rings + 1 else b.rings;
      queue = b.queue ++ req ∷ [];
      pending = insert_pending req.req_id p b.pending;
    }

unfoldable pub take_batch : Bridge → Bridge × List MatchedRequest
take_batch b = (record b { queue = [] }, b.queue)

-- `p.body.take()`.
unfoldable pub take_body : ℕ → Bridge → Bridge × Option BodyIo
unfolding find_pending insert_pending new_body_io
take_body id b = elim (find_pending id b.pending) [
  | none ↦ (b, none)
  | some p ↦ elim p.body [
    | none ↦ (b, none)
    | some parts ↦ (
      record b { pending = insert_pending id (record { body = none }) b.pending },
      some (new_body_io parts.req_rx parts.resp_tx parts.mp_rx parts.abort),
    )
  ]
]

-- The answer that reaches the request's dispatcher, if any.
unfoldable pub respond : ℕ → JsResponse → Bridge → Bridge × Option JsResponse
unfolding find_pending remove_pending
respond id res b = elim (find_pending id b.pending) [
  | none ↦ (b, none)
  | some p ↦ (record b { pending = remove_pending id b.pending }, some res)
]
