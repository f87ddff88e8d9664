-- ===== src/Bridge/Once.antt =====
-- src/bridge.rs: a request is answered at most once, and its body handed out at most once.
use oxide_http.Prelude.{
  ℕ, ◌+◌, ◌≤◌, Option, none, some, List, [], ◌∷◌, ◌++◌, true, ◌==◌, if◌then◌else◌, ◌≡◌, refl, ◌∙◌,
  ap, arith, Option-cases, inl, inr, is_some,
}
use oxide_http.Bridge.Types.{JsResponse}
use oxide_http.Bridge.{
  MatchedRequest, Pending, PendingMap, Bridge, new, find_pending, remove_pending, insert_pending,
  enqueue, take_batch, take_body, respond,
}
use oxide_http.Bridge.Steps.{
  Op, arrive, batch, open_body, answer, Out, silent, ticket, step, run, arrivals, arrivals-cons,
  take_body-unknown, take_body-gone, take_body-taken, respond-unknown, respond-sent,
}

-- How often a ticket occurs.
abbrev pub count : ℕ → List ℕ → ℕ
count id [] = 0
count id (i ∷ is) = (if i == id then 1 else 0) + count id is

count-append : (id : ℕ) (xs ys : List ℕ) → count id (xs ++ ys) ≡ count id xs + count id ys
count-append id [] ys = omega arith
count-append id (i ∷ xs) ys = omega (arith, count-append id xs ys)

abbrev pub ids : List MatchedRequest → List ℕ
ids [] = []
ids (req ∷ reqs) = req.req_id ∷ ids reqs

find-remove :
    (id j : ℕ) (m : PendingMap)
    → find_pending id (remove_pending j m) ≡ (if j == id then none else find_pending id m)
unfolding find_pending remove_pending
find-remove id j [] = ground arith
find-remove id j ((i, p) ∷ m) = ground (arith, find-remove id j m)

find-insert :
    (id j : ℕ) (p : Pending) (m : PendingMap)
    → find_pending id (insert_pending j p m) ≡ (if j == id then some p else find_pending id m)
unfolding find_pending insert_pending
find-insert id j p m = ground (arith, find-remove id j m)

-- A request that is still to be answered, and one whose body is still to be taken.
abbrev held : Option Pending → ℕ
held none = 0
held (some p) = 1

abbrev body_left : Option Pending → ℕ
body_left none = 0
body_left (some p) = if is_some p.body then 1 else 0

-- Handing something out under a ticket uses it up.
record Spends (id : ℕ) (b b' : Bridge) (out : Out) (came : ℕ) : Type 0 where
  answers :
      count id out.answered + held (find_pending id b'.pending)
      ≤ held (find_pending id b.pending) + came
  bodies :
      count id out.opened + body_left (find_pending id b'.pending)
      ≤ body_left (find_pending id b.pending) + came

module _ (id j : ℕ) (b : Bridge) where
  take_body-Spends :
      Spends id b (take_body j b).0 (record silent { opened = ticket j (take_body j b).1 }) 0
  unfolding ticket
  take_body-Spends = elim (Option-cases (find_pending j b.pending)) [
    | inl missing ↦
        rw (take_body-unknown j b missing) (record { answers = omega arith; bodies = omega arith })
    | inr (p, found) ↦ elim (Option-cases p.body) [
      | inl gone ↦
          rw (take_body-gone j b p found gone)
            (record { answers = omega arith; bodies = omega arith })
      | inr (parts, here) ↦
          let after = find-insert id j (record { body = none }) b.pending in
          let same : (j == id) ≡ true → find_pending id b.pending ≡ some p =
            λ e. ground (arith, found) in
          rw (take_body-taken j b p parts found here) (record {
            answers = ground (arith, after, same);
            bodies = ground (arith, after, same, here);
          })
    ]
  ]

  respond-Spends :
      (res : JsResponse)
      → Spends id b
          (respond j res b).0
          (record silent { answered = ticket j (respond j res b).1 })
          0
  unfolding ticket
  respond-Spends res = elim (Option-cases (find_pending j b.pending)) [
    | inl missing ↦
        rw (respond-unknown j b res missing)
          (record { answers = omega arith; bodies = omega arith })
    | inr (p, found) ↦
        let after = find-remove id j b.pending in
        let same : (j == id) ≡ true → find_pending id b.pending ≡ some p =
          λ e. ground (arith, found) in
        rw (respond-sent j b res p found)
          (record { answers = ground (arith, after, same); bodies = ground (arith, after, same) })
  ]

step-Spends :
    (id : ℕ) (b : Bridge) (op : Op)
    → Spends id b (step b op).0 (step b op).1 (count id (ids (arrivals (op ∷ []))))
unfolding step
step-Spends id b (arrive req p) =
    let after = find-insert id req.req_id p b.pending in
    unfold enqueue in record { answers = ground (arith, after); bodies = ground (arith, after) }
step-Spends id b batch = unfold take_batch in record { answers = omega arith; bodies = omega arith }
step-Spends id b (open_body j) = take_body-Spends id j b
step-Spends id b (answer j res) = respond-Spends id j b res

ids-append : (xs ys : List MatchedRequest) → ids (xs ++ ys) ≡ ids xs ++ ids ys
ids-append [] ys = refl
ids-append (x ∷ xs) ys = ap (λ (is : List ℕ). x.req_id ∷ is) (ids-append xs ys)

run-Spends :
    (id : ℕ) (b : Bridge) (ops : List Op)
    → Spends id b (run b ops).0 (run b ops).1 (count id (ids (arrivals ops)))
unfolding run
run-Spends id b [] = record { answers = omega arith; bodies = omega arith }
run-Spends id b (op ∷ ops) =
    let here = step-Spends id b op in
    let later = run-Spends id (step b op).0 ops in
    let out : Out = (step b op).1 in
    let rest : Out = (run (step b op).0 ops).1 in
    let split =
      ap (λ (rs : List MatchedRequest). count id (ids rs)) (arrivals-cons op ops)
      ∙ ap (count id) (ids-append (arrivals (op ∷ [])) (arrivals ops))
      ∙ count-append id (ids (arrivals (op ∷ []))) (ids (arrivals ops)) in
    record {
      answers =
          omega
            (arith, here.answers, later.answers, split, count-append id out.answered rest.answered);
      bodies =
          omega (arith, here.bodies, later.bodies, split, count-append id out.opened rest.opened);
    }

-- Whatever JS calls and when: under a ticket no more answers reach a request, and no more bodies
-- are handed out, than requests arrived with that ticket.
pub run-at_most_once :
    (id : ℕ) (ops : List Op)
    → (count id (run new ops).1.answered ≤ count id (ids (arrivals ops)))
      × (count id (run new ops).1.opened ≤ count id (ids (arrivals ops)))
run-at_most_once id ops =
    let spends = run-Spends id new ops in
    let fresh : find_pending id new.pending ≡ none = unfold new find_pending in refl in
    (ground (arith, spends.answers, fresh), ground (arith, spends.bodies, fresh))
