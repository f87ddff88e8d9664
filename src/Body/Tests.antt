-- ===== src/Body/Tests.antt =====
-- src/server.rs: bodies read on small inputs.
use oxide_http.Prelude.{◌≤◌, codes, none, some, List, [], ◌∷◌, true, ◌≡◌, ◌↔◌, refl, arith, length}
use oxide_http.Body.{
  Event, chunk, trailers, silence, msg_data, overflow, timeout, read_body_task, buffer_body,
  buffered,
}
use oxide_http.Body.Delivery.{data_of, payload, Whole, Within, Ordered, run, read_body_task_bounded}
use oxide_http.Body.Buffer.{buffer_body_iff}

abbrev upload : List Event
upload = chunk (codes "abc") ∷ trailers ∷ chunk (codes "de") ∷ []

too_long :
    (read_body_task (some 4) true 9 0 upload).messages ≡ msg_data (codes "abc") ∷ overflow ∷ []
unfolding read_body_task
too_long = refl

too_slow :
    (read_body_task none true 9 0 (chunk (codes "a") ∷ silence ∷ [])).messages
    ≡ msg_data (codes "a") ∷ timeout ∷ []
unfolding read_body_task
too_slow = refl

read_body_task_example :
    (length (data_of (run (some 4) true 9 0 upload)) ≤ 4) × Ordered (run (some 4) true 9 0 upload)
read_body_task_example = read_body_task_bounded 4 true 9 upload (omega arith)

buffer_body_example : ((buffer_body (some 5) true [] upload).0 ≡ buffered (codes "abcde")) ↔ (
    Whole true upload
    × Within (some 5) (length (payload upload))
    × (codes "abcde" ≡ payload upload))
buffer_body_example = buffer_body_iff (some 5) true (codes "abcde") upload
