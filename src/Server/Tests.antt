-- ===== src/Server/Tests.antt =====
-- src/server.rs: small requests.
use oxide_http.Prelude.{
  pos, ok, Bool, to_uppercase, split, Text, codes, text_eq, none, some, List, [], ◌∷◌, true, false,
  ◌≡◌, refl, ◌↔◌, arith, parse_u64, ℕ, total, ◌+◌,
}
use oxide_http.Bridge.Types.{KvPair, JsResponse}
use oxide_http.Body.{Event, chunk, buffered, buffer_body}
use oxide_http.Router.{RouteDef, build, built, to_matchit, Matchit, Routes, match_route}
use oxide_http.Server.{Http, status_text, content_length}
use oxide_http.Metrics.{new, request_started, request_finished}
use oxide_http.Server.Metered
use oxide_http.Server.AccessLog
use oxide_http.Server.AccessLog.Accounted
use oxide_http.Server.AccessLog.Kept
use oxide_http.Schema.{Value, string, JsonSchema, LeafSchema, has_body, validate}
use oxide_http.Schema.Outcome.{Accepts}
use oxide_http.Stream.{new_signal}
use oxide_http.Server.Completion.{Moment, future_dropped, finish, Ends, finish-Ends}
use oxide_http.Server.Validation.{leaf, slot, select_leaf, dispatch-Accepts}
use oxide_http.Server.Pipeline.{Leaf, Env, ReqData, whole, Handed, goes_on, dispatch}
use oxide_http.Server.Checked.{PlainOf}
use oxide_http.Server.Routing.{not_found, route_and_dispatch, handle_inner, Action}
use oxide_http.Server.Routing.Answers.{not_found_iff}

abbrev http : Http
http = record { to_str = λ v. some v; valid_header = λ k v. true }

abbrev forwarded : List KvPair
forwarded = record { key = codes "x-forwarded-for"; value = codes "1.1.1.1, 2.2.2.2" } ∷ []

abbrev res : JsResponse
res = record {
  status = none;
  headers = some (record { key = codes "X-A"; value = codes "1" } ∷ []);
  body = some (codes "hi");
  streamed = none;
}

abbrev rid : Text
rid = codes "x-request-id"

abbrev nowhere : Matchit
nowhere = record {
  Tree = Unit;
  empty = tt;
  insert_route = λ t p leaf. some tt;
  error_text = λ t p leaf. [];
  at = λ t path. none;
}

abbrev routes : Routes nowhere
routes = record { by_method = (codes "GET", tt) ∷ []; all = none }

abbrev defs : List RouteDef
defs = record { method = codes "get"; path = codes "/a"; leaf_id = pos 0 } ∷ []

routes_made : build nowhere defs ≡ built routes
unfolding build to_matchit to_uppercase text_eq split
routes_made = refl

not_found_example :
    (route_and_dispatch nowhere routes false (codes "GET") (codes "/") ≡ not_found)
    ↔ ((false ≡ false) × ((m : Text) → match_route nowhere routes m (codes "/") ≡ none))
not_found_example = not_found_iff nowhere routes false (codes "GET") (codes "/") defs routes_made

abbrev long : List (Text × Text)
long = (codes "content-length", codes "9") ∷ []

-- A dispatch that counts itself.
abbrev counting : ℕ → Action http ℕ
counting status n = (status_text status (codes "a"), n + 1)

undispatched :
    handle_inner http (counting 200) none (some 5) (codes "POST") long 0
    ≡ (status_text 413 (codes "Payload Too Large"), 0)
unfolding handle_inner content_length text_eq parse_u64
undispatched = refl

abbrev text_of : Value → Text
text_of (string s) = s
text_of v = []

-- Every text is JSON, of a string, and valid.
abbrev json : JsonSchema
json = record {
  Validator = Bool;
  from_str = λ s. ok (string s);
  print = text_of;
  validator_for = λ v. ok true;
  iter_errors = λ schema v. [];
  parse_f64 = λ s. none;
}

abbrev body_schema : LeafSchema json
body_schema = record { body = some true; query = none; params = none }

abbrev checked_leaf : Leaf
checked_leaf = leaf json http (body_schema ∷ []) (none ∷ []) (none ∷ []) (pos 0)

abbrev env : Env
env = record {
  http = http;
  decoders = record { gzip = λ b. []; zlib = λ b. []; brotli = λ b. [] };
  hash_bytes = λ b. 0;
  parse_boundary = λ ct. none;
  body_limit = some 9;
  read_timeout = true;
  id_header = rid;
}

abbrev post : ReqData
post = record {
  method = codes "POST";
  path = codes "/";
  query_string = none;
  query = [];
  headers = [];
}

abbrev sent : List Event
sent = chunk (codes "{}") ∷ []

abbrev handed : Handed
handed = record {
  validated = record { body = some (codes "{}"); query = none; params = none };
  body = whole (codes "{}");
  cache_key = none;
}

has_body_part : has_body json body_schema ≡ true
unfolding has_body
has_body_part = refl

reaches_js : dispatch env checked_leaf post [] false (codes "7") 0 sent true ≡ goes_on handed
unfolding dispatch select_leaf validate
reaches_js = refl

handed_example :
    (raw : Text) × (b : Text) × ((buffer_body (some 9) true [] sent).0 ≡ buffered raw)
    × PlainOf env checked_leaf post [] false (codes "7") 0 sent true raw b
    × Accepts json body_schema [] [] (some b) handed.validated
    × (handed.body ≡ whole raw)
unfolding slot
handed_example =
    dispatch-Accepts json http (body_schema ∷ []) (none ∷ []) (none ∷ []) (pos 0) env post [] false
      (codes "7") 0 sent body_schema handed refl has_body_part refl reaches_js

abbrev moment : Moment
moment = record { slot = 0; now = 5; later = 6 }

ended_example :
    Ends http rid false moment none none future_dropped
      (finish http rid false moment none none new_signal future_dropped)
ended_example = finish-Ends http rid false moment none none future_dropped

-- Two requests: one is answered, the other loses its connection.
abbrev turns : List (ℕ × Metered.Turn)
turns =
    (0, Metered.starts)
    ∷ (1, Metered.starts)
    ∷ (1, Metered.disconnects)
    ∷ (0, Metered.responds (codes "GET") 200 5)
    ∷ []

metered_example :
    (Metered.run
      (record { metrics = new; requests = Metered.arriving_all 2 })
      turns).metrics.in_flight
    ≡ total Metered.unfinished
        (Metered.run (record { metrics = new; requests = Metered.arriving_all 2 }) turns).requests
metered_example = Metered.run-leaks 2 turns (omega arith)

-- The request that lost its connection is in flight for good.
leak :
    (Metered.run
      (record { metrics = new; requests = Metered.arriving_all 2 })
      turns).metrics.in_flight
    ≡ 1
unfolding Metered.run Metered.step Metered.turn request_started request_finished new
leak = refl

abbrev logging : List AccessLog.Op
logging =
    AccessLog.send (codes "a")
    ∷ AccessLog.send (codes "b")
    ∷ AccessLog.write true
    ∷ AccessLog.report true
    ∷ AccessLog.write false
    ∷ AccessLog.send (codes "c")
    ∷ AccessLog.count
    ∷ []
