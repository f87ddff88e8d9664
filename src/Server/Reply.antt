-- ===== src/Server/Reply.antt =====
-- src/server.rs, `build_response` and `cached_response`: HEAD mirrors GET, and a replay mirrors the
-- answer that was stored.
use oxide_http.Prelude.{
  ℕ, Text, codes, to_lowercase, length, List, [], ◌∷◌, ◌++◌, map, Bool, true, false, not, ◌||◌, ltb,
  any, unwrap_or, ◌≡◌, refl, sym, ◌∙◌, ap, arith,
}
use oxide_http.Bridge.Types.{JsResponse}
use oxide_http.Cache.Replay.{replay_of}
use oxide_http.Server.{
  Http, ResBody, full, Response, builder_or_500, build_response, cached_response, js_headers,
  with_length,
}

module _ (http : Http) where
  -- Headers and a status that the builder accepts.
  abbrev pub accepted : ℕ → List (Text × Text) → Bool
  accepted status headers = not (
      any (λ (h : Text × Text). not (http.valid_header h.0 h.1)) headers
      || (ltb status 100 || ltb 999 status))

  builder_or_500-accepted :
      (r : Response)
      → accepted r.status r.headers ≡ true
      → builder_or_500 http r ≡ record r { headers = map (λ h. (to_lowercase h.0, h.1)) r.headers }
  unfolding builder_or_500
  builder_or_500-accepted r h = ground arith

  module _ (res : JsResponse) (whole : unwrap_or res.streamed false ≡ false)
      (ok : accepted (unwrap_or res.status 200) (js_headers http res) ≡ true)
      (ok_head : accepted
          (unwrap_or res.status 200)
          (with_length http false (length (unwrap_or res.body [])) (js_headers http res))
        ≡ true) where
    get_reply : build_response http res false ≡ (
      record {
        status = unwrap_or res.status 200;
        headers = map (λ h. (to_lowercase h.0, h.1)) (js_headers http res);
        body = full (unwrap_or res.body []);
      },
      length (unwrap_or res.body []),
    )
    unfolding build_response
    get_reply =
        rw whole (
          ap (λ (r : Response). (r, length (unwrap_or res.body []))) (builder_or_500-accepted _ ok))

    head_reply : build_response http res true ≡ (
      record {
        status = unwrap_or res.status 200;
        headers =
            map
              (λ h. (to_lowercase h.0, h.1))
              (with_length http false (length (unwrap_or res.body [])) (js_headers http res));
        body = full [];
      },
      0,
    )
    unfolding build_response
    head_reply = rw whole (ap (λ (r : Response). (r, 0)) (builder_or_500-accepted _ ok_head))

    -- For an answer that is not streamed and that hyper accepts: HEAD has the status of GET and no
    -- body, its headers are those of GET, with the length of GET's body unless one was set, and
    -- only GET's body is counted.
    head_mirrors_get :
        ((build_response http res true).0.status ≡ (build_response http res false).0.status)
        × ((build_response http res true).0.body ≡ full [])
        × ((build_response http res true).0.headers
            ≡ map
                (λ h. (to_lowercase h.0, h.1))
                (with_length http false (build_response http res false).1 (js_headers http res)))
        × ((build_response http res true).1 ≡ 0)
    head_mirrors_get = rw (get_reply, head_reply) (refl, refl, refl, refl)

  -- For an answer that is not streamed, where hyper accepts it and its replay: the replay has
  -- the status and the body of the answer that was stored, and counts as many bytes.
  pub replay_mirrors_get :
      (res : JsResponse) (id id_header : Text)
      → unwrap_or res.streamed false ≡ false
      → accepted (unwrap_or res.status 200) (js_headers http res) ≡ true
      → accepted (unwrap_or res.status 200) (
          (replay_of id_header res).headers
          ++ (id_header, id) ∷ (codes "x-cache", codes "hit") ∷ [])
        ≡ true
      → ((cached_response http (replay_of id_header res) false id id_header).0.status
          ≡ (build_response http res false).0.status)
        × ((cached_response http (replay_of id_header res) false id id_header).0.body
            ≡ (build_response http res false).0.body)
        × ((cached_response http (replay_of id_header res) false id id_header).1
            ≡ (build_response http res false).1)
  unfolding cached_response build_response
  replay_mirrors_get res id id_header whole ok ok' =
      let status : ℕ = unwrap_or res.status 200 in
      let body : ResBody = full (unwrap_or res.body []) in
      let direct =
        builder_or_500-accepted
          (record { status = status; headers = js_headers http res; body = body }) ok in
      let replayed =
        builder_or_500-accepted
          (record {
            status = status;
            headers =
                (replay_of id_header res).headers
                ++ (id_header, id) ∷ (codes "x-cache", codes "hit") ∷ [];
            body = body;
          })
          ok' in
      rw whole (
        ap (λ (r : Response). r.status) replayed ∙ sym (ap (λ (r : Response). r.status) direct),
        ap (λ (r : Response). r.body) replayed ∙ sym (ap (λ (r : Response). r.body) direct),
        refl,
      )
