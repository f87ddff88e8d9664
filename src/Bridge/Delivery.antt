-- ===== src/Bridge/Delivery.antt =====
-- src/bridge.rs: every request reaches JS once and in order, whatever JS calls and when.
use oxide_http.Prelude.{List, [], ◌∷◌, ◌++◌, append_assoc, append-nil, ◌≡◌, refl, sym, ◌∙◌, ap}
use oxide_http.Bridge.{MatchedRequest, Bridge, new, enqueue, take_batch, take_body, respond}
use oxide_http.Bridge.Steps.{
  Op, arrive, batch, open_body, answer, step, run, arrivals, arrivals-cons, take_body-queue,
  respond-queue,
}

step-queue :
    (b : Bridge) (op : Op)
    → (step b op).1.delivered ++ (step b op).0.queue ≡ b.queue ++ arrivals (op ∷ [])
unfolding step enqueue take_batch take_body respond
step-queue b (arrive req p) = refl
step-queue b batch = refl
step-queue b (open_body id) = take_body-queue id b ∙ sym (append-nil b.queue)
step-queue b (answer id res) = respond-queue id b res ∙ sym (append-nil b.queue)

run-queue :
    (b : Bridge) (ops : List Op)
    → (run b ops).1.delivered ++ (run b ops).0.queue ≡ b.queue ++ arrivals ops
unfolding run
run-queue b [] = sym (append-nil b.queue)
run-queue b (op ∷ ops) =
    let b' : Bridge = (step b op).0 in
    append_assoc (step b op).1.delivered (run b' ops).1.delivered (run b' ops).0.queue
    ∙ ap (λ (q : List MatchedRequest). (step b op).1.delivered ++ q) (run-queue b' ops)
    ∙ sym (append_assoc (step b op).1.delivered b'.queue (arrivals ops))
    ∙ ap (λ (q : List MatchedRequest). q ++ arrivals ops) (step-queue b op)
    ∙ append_assoc b.queue (arrivals (op ∷ [])) (arrivals ops)
    ∙ ap (λ (q : List MatchedRequest). b.queue ++ q) (sym (arrivals-cons op ops))

-- Whatever JS calls and when: the requests that its batches gave it, followed by those that still
-- wait, are those that arrived, in their order.
pub run-delivered :
    (ops : List Op) → (run new ops).1.delivered ++ (run new ops).0.queue ≡ arrivals ops
unfolding new
run-delivered ops = run-queue new ops
