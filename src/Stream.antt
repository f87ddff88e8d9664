-- ===== src/Stream.antt =====
-- src/stream.rs: the bridge of one request's bodies to JS, the reader of form parts, and the signal
-- that tells how a request ended. A receiver is the list of the messages still to come, once its
-- sender is gone.
pub mod Parts
mod Tests
use oxide_http.Prelude.{
  ℕ, zero, suc, ◌+◌, ◌%◌, ◌^◌, Text, codes, Option, none, some, List, [], ◌∷◌, ◌++◌, Bool, true,
  false, length, if◌then◌else◌,
}
use mathlib.Core.Option
use oxide_http.Body.{BodyMsg, ReadResult}
use oxide_http.Multipart.{Part, MpEvent, part, chunk, part_end, reject}
use oxide_http.Body

-- Armed by default: only a response disarms it.
pub record AbortSignal : Type 0 where
  pub notified : Bool
  pub aborted : Bool

unfoldable pub new_signal : AbortSignal
new_signal = record { notified = false; aborted = true }

unfoldable pub complete : AbortSignal → AbortSignal
complete s = record s { aborted = false }

unfoldable pub fire : AbortSignal → AbortSignal
fire s = record s { notified = true }

pub record MpState : Type 0 where
  pub rx : List MpEvent
  pub ended : Bool

pub record BodyIo : Type 0 where
  pub req_rx : Option (List BodyMsg)
  pub resp_tx : Option (List Text)
  pub mp : Option MpState
  pub abort : AbortSignal

unfoldable pub new_body_io :
    Option (List BodyMsg) → Option (List Text) → Option (List MpEvent) → AbortSignal → BodyIo
new_body_io req_rx resp_tx mp_rx abort = record {
  req_rx = req_rx;
  resp_tx = resp_tx;
  mp = Option.map (λ rx. record { rx = rx; ended = false }) mp_rx;
  abort = abort;
}

unfoldable pub read : BodyIo → BodyIo × ReadResult
unfolding Body.read
read io = let r = Body.read io.req_rx in (record io { req_rx = r.1 }, r.0)

-- What `write` sends; `closed` is a response channel whose receiver is gone.
pub data Written : Type 0 where
  written : Written
  response_body_closed : Written

unfoldable pub write : Bool → Text → BodyIo → BodyIo × Written
write closed b io = elim io.resp_tx [
  | none ↦ (io, written)
  | some sent ↦
      if closed
      then (io, response_body_closed)
      else (record io { resp_tx = some (sent ++ b ∷ []) }, written)
]

unfoldable pub end_write : BodyIo → BodyIo
end_write io = record io { resp_tx = none }

-- `wait_abort` resolves once the signal was fired.
unfoldable pub wait_abort : BodyIo → Option Bool
wait_abort io = if io.abort.notified then some io.abort.aborted else none

-- What a call of the part reader answers: a value, `null`, or a refusal of the form.
pub data PartResult {ℓ} (A : Type ℓ) : Type ℓ where
  got : A → PartResult A
  null : PartResult A
  mp_reject : (status : ℕ) (message : Text) → PartResult A

-- The loop of `next_part` over the events.
unfoldable pub next_event : Bool → List MpEvent → MpState × PartResult Part
next_event ended [] = (record { rx = []; ended = ended }, null)
next_event ended (part p ∷ rx) = (record { rx = rx; ended = false }, got p)
next_event ended (chunk b ∷ rx) = next_event ended rx
next_event ended (part_end ∷ rx) = next_event ended rx
next_event ended (reject status m ∷ rx) = (record { rx = rx; ended = ended }, mp_reject status m)

unfoldable pub next_part : MpState → MpState × PartResult Part
unfolding next_event
next_part state = next_event state.ended state.rx

part_event : List MpEvent → MpState × PartResult Text
part_event [] = (record { rx = []; ended = true }, null)
part_event (chunk b ∷ rx) = (record { rx = rx; ended = false }, got b)
part_event (part_end ∷ rx) = (record { rx = rx; ended = true }, null)
part_event (reject status m ∷ rx) = (record { rx = rx; ended = false }, mp_reject status m)
part_event (part p ∷ rx) = (record { rx = rx; ended = true }, null)

unfoldable pub read_part : MpState → MpState × PartResult Text
unfolding part_event
read_part state = if state.ended then (state, null) else part_event state.rx

-- `ChannelBody`: a chunk of the response on its way to the socket, counted in the metrics.
pub record ChannelBody : Type 0 where
  pub rx : List Text
  pub response_bytes : ℕ

unfoldable pub poll_frame : ChannelBody → ChannelBody × Option Text
poll_frame c = elim c.rx [
  | [] ↦ (c, none)
  | b ∷ rx ↦ (record { rx = rx; response_bytes = (c.response_bytes + length b) % 2 ^ 64 }, some b)
]
