-- ===== src/Bridge/Steps.antt =====
-- src/bridge.rs: what connections and JS do to the bridge, as a run of whole operations.
use oxide_http.Prelude.{
  ℕ, Option, none, some, List, [], ◌∷◌, ◌++◌, ◌≡◌, refl, Option-cases, inl, inr,
}
use oxide_http.Bridge.Types.{JsResponse}
use oxide_http.Stream.{new_body_io}
use oxide_http.Bridge.{
  MatchedRequest, BodyParts, Pending, Bridge, find_pending, remove_pending, insert_pending, enqueue,
  take_batch, take_body, respond,
}

-- What the connections and JS do to the bridge, in any order.
pub data Op : Type 0 where
  arrive : MatchedRequest → Pending → Op
  batch : Op
  open_body : (id : ℕ) → Op
  answer : (id : ℕ) → JsResponse → Op

-- What comes out: the requests that JS was given, and the tickets under which a body was handed
-- out or an answer reached its request.
pub record Out : Type 0 where
  pub delivered : List MatchedRequest
  pub opened : List ℕ
  pub answered : List ℕ

abbrev pub silent : Out
silent = record { delivered = []; opened = []; answered = [] }

unfoldable pub ticket {ℓ} : {A : Type ℓ} → ℕ → Option A → List ℕ
ticket id none = []
ticket id (some a) = id ∷ []

unfoldable pub step : Bridge → Op → Bridge × Out
unfolding ticket
step b (arrive req p) = (enqueue req p b, silent)
step b batch = let r = take_batch b in (r.0, record silent { delivered = r.1 })
step b (open_body id) = let r = take_body id b in (r.0, record silent { opened = ticket id r.1 })
step b (answer id res) =
    let r = respond id res b in (r.0, record silent { answered = ticket id r.1 })

unfoldable pub run : Bridge → List Op → Bridge × Out
unfolding step
run b [] = (b, silent)
run b (op ∷ ops) =
    let (b', out) = step b op in
    let (b'', later) = run b' ops in
    (
      b'',
      record {
        delivered = out.delivered ++ later.delivered;
        opened = out.opened ++ later.opened;
        answered = out.answered ++ later.answered;
      },
    )

-- The requests that arrive, in order.
abbrev pub arrivals : List Op → List MatchedRequest
arrivals [] = []
arrivals (arrive req p ∷ ops) = req ∷ arrivals ops
arrivals (op ∷ ops) = arrivals ops

module _ (id : ℕ) (b : Bridge) where
  pub take_body-unknown : find_pending id b.pending ≡ none → take_body id b ≡ (b, none)
  unfolding take_body
  take_body-unknown e = rw (e, take_body) refl

  pub take_body-gone :
      (p : Pending)
      → find_pending id b.pending ≡ some p
      → p.body ≡ none
      → take_body id b ≡ (b, none)
  unfolding take_body
  take_body-gone p e gone = rw (e, gone, take_body) refl

  pub take_body-taken :
      (p : Pending) (parts : BodyParts)
      → find_pending id b.pending ≡ some p
      → p.body ≡ some parts
      → take_body id b ≡ (
        record b { pending = insert_pending id (record { body = none }) b.pending },
        some (new_body_io parts.req_rx parts.resp_tx parts.mp_rx parts.abort),
      )
  unfolding take_body
  take_body-taken p parts e here = rw (e, here, take_body) refl

  pub respond-unknown :
      (res : JsResponse) → find_pending id b.pending ≡ none → respond id res b ≡ (b, none)
  unfolding respond
  respond-unknown res e = rw (e, respond) refl

  pub respond-sent :
      (res : JsResponse) (p : Pending)
      → find_pending id b.pending ≡ some p
      → respond id res b ≡ (record b { pending = remove_pending id b.pending }, some res)
  unfolding respond
  respond-sent res p e = rw (e, respond) refl

  pub take_body-queue : (take_body id b).0.queue ≡ b.queue
  take_body-queue = elim (Option-cases (find_pending id b.pending)) [
    | inl missing ↦ rw (take_body-unknown missing) refl
    | inr (p, found) ↦ elim (Option-cases p.body) [
      | inl gone ↦ rw (take_body-gone p found gone) refl
      | inr (parts, here) ↦ rw (take_body-taken p parts found here) refl
    ]
  ]

  pub respond-queue : (res : JsResponse) → (respond id res b).0.queue ≡ b.queue
  respond-queue res = elim (Option-cases (find_pending id b.pending)) [
    | inl missing ↦ rw (respond-unknown res missing) refl
    | inr (p, found) ↦ rw (respond-sent res p found) refl
  ]

pub arrivals-cons :
    (op : Op) (ops : List Op) → arrivals (op ∷ ops) ≡ arrivals (op ∷ []) ++ arrivals ops
arrivals-cons (arrive req p) ops = refl
arrivals-cons batch ops = refl
arrivals-cons (open_body id) ops = refl
arrivals-cons (answer id res) ops = refl
