-- ===== src/Server/Completion.antt =====
-- src/server.rs, `dispatch`: from the handing over of a request to its end.
use oxide_http.Prelude.{
  ℕ, ℤ, Text, codes, Option, none, some, List, [], Bool, true, inl, inr, ◌≡◌, refl, ◌↔◌, ◌⊎◌, ◌≢◌,
}
use oxide_http.Bridge.Types.{JsResponse}
use oxide_http.Bridge.{Bridge, MatchedRequest, next_req_id, enqueue}
use oxide_http.Body.{BodyMsg}
use oxide_http.Multipart.{MpEvent}
use oxide_http.Cache.{LeafCache, maybe_store}
use oxide_http.Schema.{Validated}
use oxide_http.Stream.{AbortSignal, new_signal, complete, fire}
use oxide_http.Server.{Http, Response, status_text, build_response}
use oxide_http.Server.Pipeline.{ReqData}

-- What `dispatch` has computed of the client, beside the request's own data.
pub record Client : Type 0 where
  pub ip : Text
  pub ips : List Text
  pub country : Option Text
  pub id : Text

unfoldable pub request_for_js :
    ℕ → ℤ → ReqData → List (Text × Text) → Client → Validated → MatchedRequest
request_for_js req_id leaf_id r params c v = record {
  req_id = req_id;
  leaf_id = leaf_id;
  method = r.method;
  path = r.path;
  query_string = r.query_string;
  params = params;
  query = r.query;
  headers = r.headers;
  ip = c.ip;
  ips = c.ips;
  country = c.country;
  id = c.id;
  valid_body = v.body;
  valid_query = v.query;
  valid_params = v.params;
}

-- The request gets a ticket and is put into the queue with the ends of its channels.
unfoldable pub hand_over :
    ℤ
    → ReqData
    → List (Text × Text)
    → Client
    → Validated
    → (req_rx : Option (List BodyMsg)) → (mp_rx : Option (List MpEvent)) → Bridge
    → Bridge × ℕ
unfolding next_req_id enqueue request_for_js new_signal
hand_over leaf_id r params c v req_rx mp_rx b =
    let (b', req_id) = next_req_id b in
    (
      enqueue (request_for_js req_id leaf_id r params c v)
          (record {
            body =
                some (record {
                  req_rx = req_rx;
                  resp_tx = some [];
                  mp_rx = mp_rx;
                  abort = new_signal;
                });
          })
          b',
      req_id,
    )

-- How the wait for JS ends: with its answer, with the sender gone, or because hyper drops the
-- request's future.
pub data Done : Type 0 where
  answered : JsResponse → Done
  sender_gone : Done
  future_dropped : Done

-- What is left of a request: its response, the leaf's cache, and the signal that JS may wait for.
pub record Ended : Type 0 where
  pub response : Option Response
  pub cache : Option LeafCache
  pub abort : AbortSignal

-- The clock and the iteration order of a store, as in `maybe_store`.
pub record Moment : Type 0 where
  pub slot : ℕ
  pub now : ℕ
  pub later : ℕ

module _ (http : Http) (id_header : Text) (head : Bool) (at : Moment) where
  -- Stored under the key of a miss.
  unfoldable pub store : Option LeafCache → Option (Text × Text) → JsResponse → Option LeafCache
  unfolding maybe_store
  store (some c) (some (key, path)) res =
      some (maybe_store at.slot at.now at.later key path res id_header c)
  store (some c) none res = some c
  store none ctx res = none

  -- The guard fires at every end; a request that came to its end has completed the signal first.
  unfoldable pub finish : Option LeafCache → Option (Text × Text) → AbortSignal → Done → Ended
  unfolding store build_response complete fire
  finish cache ctx abort (answered res) = record {
    response = some (build_response http res head).0;
    cache = store cache ctx res;
    abort = fire (complete abort);
  }
  finish cache ctx abort sender_gone = record {
    response = some (status_text 500 (codes "Internal Server Error"));
    cache = cache;
    abort = fire (complete abort);
  }
  finish cache ctx abort future_dropped = record {
    response = none;
    cache = cache;
    abort = fire abort;
  }

  -- What a request's end shows. JS is told of an abort if and only if there is no response, and there
  -- is none if and only if hyper dropped the request; if JS went away, it is a 500; and the leaf's
  -- cache is as it was unless JS answered a request that a lookup had missed.
  abbrev pub Ends : Option LeafCache → Option (Text × Text) → Done → Ended → Type 0
  Ends cache ctx done e =
      (e.abort.notified ≡ true)
      × ((e.abort.aborted ≡ true) ↔ (e.response ≡ none))
      × ((e.response ≡ none) ↔ (done ≡ future_dropped))
      × ((done ≢ sender_gone)
          ⊎ (e.response ≡ some (status_text 500 (codes "Internal Server Error"))))
      × ((e.cache ≡ cache)
          ⊎ ((c : LeafCache) × (key : Text) × (path : Text) × (res : JsResponse) × (cache ≡ some c)
              × (ctx ≡ some (key, path))
              × (done ≡ answered res)
              × (e.response ≡ some (build_response http res head).0)
              × (e.cache ≡ some (maybe_store at.slot at.now at.later key path res id_header c))))

  -- However the wait for JS ends, the signal that JS may wait for fires, and it tells of an abort
  -- exactly if the request went without a response, which is exactly if hyper dropped it; if JS went
  -- away without an answer, the response is a 500; and the leaf's cache changes only by the store of
  -- an answer under the key that the request's lookup missed, and that answer is the response.
  pub finish-Ends :
      (cache : Option LeafCache) (ctx : Option (Text × Text)) (done : Done)
      → Ends cache ctx done (finish cache ctx new_signal done)
  unfolding finish store complete fire new_signal
  finish-Ends (some c) (some (key, path)) (answered res) = (
    refl,
    (λ e. cc, λ e. cc),
    (λ e. cc, λ e. cc),
    inl (λ e. cc),
    inr (c, key, path, res, refl, refl, refl, refl, refl),
  )
  finish-Ends (some c) none (answered res) =
      (refl, (λ e. cc, λ e. cc), (λ e. cc, λ e. cc), inl (λ e. cc), inl refl)
  finish-Ends none (some ctx) (answered res) =
      (refl, (λ e. cc, λ e. cc), (λ e. cc, λ e. cc), inl (λ e. cc), inl refl)
  finish-Ends none none (answered res) =
      (refl, (λ e. cc, λ e. cc), (λ e. cc, λ e. cc), inl (λ e. cc), inl refl)
  finish-Ends cache ctx sender_gone =
      (refl, (λ e. cc, λ e. cc), (λ e. cc, λ e. cc), inr refl, inl refl)
  finish-Ends cache ctx future_dropped =
      (refl, (λ e. refl, λ e. refl), (λ e. refl, λ e. refl), inl (λ e. cc), inl refl)
