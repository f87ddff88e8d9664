-- ===== src/Body.antt =====
-- src/server.rs, `read_body_task` and `buffer_body`, and src/stream.rs, `BodyIo::read`: the request
-- body on its way from the socket. What `body.frame()` yields is a list of events whose end is
-- the end of the body. `silence` is a wait longer than `bodyReadTimeout`.
pub mod Delivery
pub mod Buffer
mod Tests
use oxide_http.Prelude.{
  ℕ, zero, suc, ◌+◌, ◌-◌, ◌^◌, min, Text, codes, Option, none, some, List, [], ◌∷◌, ◌++◌, Bool, ltb,
  if◌then◌else◌, length, is_some_and, is_some,
}

-- `u64::saturating_add`.
abbrev pub u64_max : ℕ
u64_max = 2 ^ 64 - 1

abbrev pub saturating_add : ℕ → ℕ → ℕ
saturating_add a b = min (a + b) u64_max

pub data Event : Type 0 where
  chunk : Text → Event
  trailers : Event
  broken : Event
  silence : Event

pub data BodyMsg : Type 0 where
  msg_data : Text → BodyMsg
  overflow : BodyMsg
  timeout : BodyMsg
  aborted : BodyMsg

abbrev pub exceeds : Option ℕ → ℕ → Bool
exceeds limit n = is_some_and limit (λ lim. ltb lim n)

-- What a task did: the messages that reached the channel, and the bytes added to the metrics.
pub record Sent : Type 0 where
  pub messages : List BodyMsg
  pub counted : ℕ

abbrev nothing : Sent
nothing = record { messages = []; counted = 0 }

-- `let _ = tx.send(m).await; return`.
last_send : ℕ → BodyMsg → Sent
last_send zero m = nothing
last_send (suc room) m = record { messages = m ∷ []; counted = 0 }

abbrev counting : ℕ → Sent → Sent
counting n s = record s { counted = n + s.counted }

-- The receiver takes `room` more messages before it is dropped.
unfoldable pub read_body_task : Option ℕ → Bool → ℕ → ℕ → List Event → Sent
unfolding last_send
read_body_task limit has_timeout room total [] = nothing
read_body_task limit has_timeout room total (trailers ∷ events) =
    read_body_task limit has_timeout room total events
read_body_task limit has_timeout room total (broken ∷ events) = last_send room aborted
read_body_task limit has_timeout room total (silence ∷ events) =
    let waited = read_body_task limit has_timeout room total events in
    if has_timeout then last_send room timeout else waited
read_body_task limit has_timeout room total (chunk b ∷ events) =
    let total' : ℕ = saturating_add total (length b) in
    let sent : Sent = elim room [
      | zero ↦ nothing
      | suc room' ↦
          let rest : Sent = read_body_task limit has_timeout room' total' events in
          record rest { messages = msg_data b ∷ rest.messages }
    ] in
    counting (length b) (if exceeds limit total' then last_send room overflow else sent)

pub data BodyErr : Type 0 where
  too_large : BodyErr
  timed_out : BodyErr
  cut : BodyErr

pub data Buffered : Type 0 where
  buffered : Text → Buffered
  refused : BodyErr → Buffered

-- `buffer_body`: the result, and the bytes added to the metrics.
unfoldable pub buffer_body : Option ℕ → Bool → Text → List Event → Buffered × ℕ
buffer_body limit has_timeout buf [] = (buffered buf, 0)
buffer_body limit has_timeout buf (trailers ∷ events) = buffer_body limit has_timeout buf events
buffer_body limit has_timeout buf (broken ∷ events) = (refused cut, 0)
buffer_body limit has_timeout buf (silence ∷ events) =
    let waited = buffer_body limit has_timeout buf events in
    if has_timeout then (refused timed_out, 0) else waited
buffer_body limit has_timeout buf (chunk b ∷ events) =
    let rest = buffer_body limit has_timeout (buf ++ b) events in
    if exceeds limit (length buf + length b)
    then (refused too_large, length b)
    else (rest.0, length b + rest.1)

-- `BodyIo::read`, over the messages still in the channel once its sender is gone.
pub data ReadResult : Type 0 where
  piece : Text → ReadResult
  finished : ReadResult
  error : Text → ReadResult

abbrev pub body_limit_exceeded : Text
body_limit_exceeded = codes "BODY_LIMIT_EXCEEDED"

abbrev pub body_read_timeout : Text
body_read_timeout = codes "BODY_READ_TIMEOUT"

abbrev pub body_read_aborted : Text
body_read_aborted = codes "BODY_READ_ABORTED"

unfoldable pub read : Option (List BodyMsg) → ReadResult × Option (List BodyMsg)
read none = (finished, none)
read (some []) = (finished, some [])
read (some (msg_data b ∷ rx)) = (piece b, some rx)
read (some (overflow ∷ rx)) = (error body_limit_exceeded, some rx)
read (some (timeout ∷ rx)) = (error body_read_timeout, some rx)
read (some (aborted ∷ rx)) = (error body_read_aborted, some rx)
