-- ===== src/Bridge/Types.antt =====
-- src/bridge.rs: the pairs and the response of a handler.
use oxide_http.Prelude.{ℕ, Text, Option, List, Bool}

pub record KvPair : Type 0 where
  pub key : Text
  pub value : Text

-- The response a handler passes to `respond`.
pub record JsResponse : Type 0 where
  pub status : Option ℕ
  pub headers : Option (List KvPair)
  pub body : Option Text
  pub streamed : Option Bool
