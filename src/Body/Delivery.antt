-- ===== src/Body/Delivery.antt =====
-- src/server.rs, `read_body_task`: what reaches JS.
use oxide_http.Prelude.{
  ℕ, zero, suc, ◌+◌, ◌≤◌, ◌<◌, Text, Option, none, some, List, [], ◌∷◌, ◌++◌, Bool, false, ◌≡◌,
  refl, arith, length, length-append,
}
use oxide_http.Body.{
  u64_max, saturating_add, Event, chunk, trailers, broken, silence, BodyMsg, msg_data,
  read_body_task,
}

-- The bytes in a list of messages, and those of a body.
abbrev pub data_of : List BodyMsg → Text
data_of [] = []
data_of (msg_data b ∷ ms) = b ++ data_of ms
data_of (m ∷ ms) = data_of ms

abbrev pub payload : List Event → Text
payload [] = []
payload (chunk b ∷ es) = b ++ payload es
payload (e ∷ es) = payload es

-- Data first, and at most one reason for the end, which is last.
abbrev pub Ordered : List BodyMsg → Type 0
Ordered [] = Unit
Ordered (msg_data b ∷ ms) = Ordered ms
Ordered (m ∷ ms) = ms ≡ []

-- Only data: JS will see a clean end.
abbrev pub Clean : List BodyMsg → Type 0
Clean [] = Unit
Clean (msg_data b ∷ ms) = Clean ms
Clean (m ∷ ms) = ⊥

-- The body came whole, in the time allowed.
abbrev pub Whole : Bool → List Event → Type 0
Whole has_timeout [] = Unit
Whole has_timeout (broken ∷ es) = ⊥
Whole has_timeout (silence ∷ es) = (has_timeout ≡ false) × Whole has_timeout es
Whole has_timeout (chunk b ∷ es) = Whole has_timeout es
Whole has_timeout (trailers ∷ es) = Whole has_timeout es

-- At most the limit, where there is one.
abbrev pub Within : Option ℕ → ℕ → Type 0
Within none n = Unit
Within (some lim) n = n ≤ lim

abbrev pub run : Option ℕ → Bool → ℕ → ℕ → List Event → List BodyMsg
run limit has_timeout room total es = (read_body_task limit has_timeout room total es).messages

run-Ordered :
    (limit : Option ℕ) (t : Bool) (room total : ℕ) (es : List Event)
    → Ordered (run limit t room total es)
unfolding read_body_task
run-Ordered limit t room total [] = tt
run-Ordered limit t room total (trailers ∷ es) = run-Ordered limit t room total es
run-Ordered limit t zero total (broken ∷ es) = tt
run-Ordered limit t (suc room) total (broken ∷ es) = refl
run-Ordered limit t zero total (silence ∷ es) = ground (arith, run-Ordered limit t zero total es)
run-Ordered limit t (suc room) total (silence ∷ es) =
    ground (arith, run-Ordered limit t (suc room) total es)
run-Ordered limit t zero total (chunk b ∷ es) = ground arith
run-Ordered limit t (suc room) total (chunk b ∷ es) =
    ground (arith, run-Ordered limit t room (saturating_add total (length b)) es)

-- A limit that the saturating counter can pass; those of the options are below 2 ^ 63.
abbrev pub IsCountable : Option ℕ → Type 0
IsCountable none = Unit
IsCountable (some lim) = lim < u64_max

run_bounded :
    (lim : ℕ) (t : Bool) (room total : ℕ) (es : List Event)
    → lim < u64_max
    → total ≤ lim
    → total + length (data_of (run (some lim) t room total es)) ≤ lim
unfolding read_body_task
run_bounded lim t room total [] c h = omega arith
run_bounded lim t room total (trailers ∷ es) c h = run_bounded lim t room total es c h
run_bounded lim t zero total (broken ∷ es) c h = omega arith
run_bounded lim t (suc room) total (broken ∷ es) c h = omega arith
run_bounded lim t zero total (silence ∷ es) c h =
    ground (arith, run_bounded lim t zero total es c h)
run_bounded lim t (suc room) total (silence ∷ es) c h =
    ground (arith, run_bounded lim t (suc room) total es c h)
run_bounded lim t zero total (chunk b ∷ es) c h = ground arith
run_bounded lim t (suc room) total (chunk b ∷ es) c h = ground (
  arith,
  run_bounded lim t room (saturating_add total (length b)) es,
  length-append b (data_of (run (some lim) t room (saturating_add total (length b)) es)),
)

-- Under a limit below 2 ^ 64 - 1, JS never receives more bytes than the limit, whatever arrives,
-- and a refusal, a timeout or a lost connection is the last thing it hears of the body.
pub read_body_task_bounded :
    (lim : ℕ) (has_timeout : Bool) (room : ℕ) (es : List Event)
    → lim < u64_max
    → (length (data_of (run (some lim) has_timeout room 0 es)) ≤ lim)
      × Ordered (run (some lim) has_timeout room 0 es)
read_body_task_bounded lim has_timeout room es c = (
  omega (arith, run_bounded lim has_timeout room 0 es c),
  run-Ordered (some lim) has_timeout room 0 es,
)
