-- ===== src/Stream/Parts.antt =====
-- src/stream.rs, `next_part` and `read_part`: what a handler gets of a form, however much of each
-- part it reads.
use oxide_http.Prelude.{
  ℕ, zero, suc, Text, List, [], ◌∷◌, Bool, true, false, ◌≡◌, refl, ◌∙◌, ap, take,
}
use oxide_http.Multipart.{Part, MpEvent, part, chunk, part_end}
use oxide_http.Stream.{MpState, PartResult, got, null, mp_reject, next_event, next_part, read_part}

-- The events of a form whose parts all arrive.
abbrev pub body_events : List Text → List MpEvent → List MpEvent
body_events [] rest = part_end ∷ rest
body_events (b ∷ bs) rest = chunk b ∷ body_events bs rest

abbrev pub form_events : List (Part × List Text) → List MpEvent
form_events [] = []
form_events ((p, bs) ∷ form) = part p ∷ body_events bs (form_events form)

-- `n` calls of `read_part`, with the chunks they gave.
pub read_parts : ℕ → MpState → MpState × List Text
unfolding read_part
read_parts zero s = (s, [])
read_parts (suc n) s =
    let (s', r) = read_part s in
    let (s'', later) = read_parts n s' in
    (s'', elim r [ got b ↦ b ∷ later | null ↦ later | mp_reject st m ↦ later ])

-- A handler that reads as many chunks of each part as a list says, part by part.
pub visit : List ℕ → MpState → List (Part × List Text)
unfolding next_part read_parts
visit [] s = []
visit (n ∷ ns) s =
    let (s', r) = next_part s in
    let (s'', bs) = read_parts n s' in
    let later = visit ns s'' in elim r [ got p ↦ (p, bs) ∷ later | null ↦ [] | mp_reject st m ↦ [] ]

-- What it is meant to see.
abbrev pub seen : List ℕ → List (Part × List Text) → List (Part × List Text)
seen [] form = []
seen (n ∷ ns) [] = []
seen (n ∷ ns) ((p, bs) ∷ form) = (p, take n bs) ∷ seen ns form

next_event-skips :
    (ended : Bool) (bs : List Text) (rest : List MpEvent)
    → next_event ended (body_events bs rest) ≡ next_event ended rest
unfolding next_event
next_event-skips ended [] rest = refl
next_event-skips ended (b ∷ bs) rest = next_event-skips ended bs rest

read_parts-ended :
    (n : ℕ) (rest : List MpEvent)
    → read_parts n (record { rx = rest; ended = true }) ≡ (record { rx = rest; ended = true }, [])
unfolding read_parts
read_parts-ended zero rest = refl
read_parts-ended (suc n) rest = rw (read_parts-ended n rest) refl

-- After some reads of a part the rest of it, if any, and the next part are still to come.
pub record Reading (rest : List MpEvent) (chunks : List Text) (r : MpState × List Text)
    : Type 0 where
  given : r.1 ≡ chunks
  next : (ended : Bool) → next_event ended r.0.rx ≡ next_event ended rest

read_parts-Reading :
    (n : ℕ) (bs : List Text) (rest : List MpEvent)
    → Reading rest (take n bs) (read_parts n (record { rx = body_events bs rest; ended = false }))
unfolding read_parts
read_parts-Reading zero bs rest = record {
  given = refl;
  next = λ ended. next_event-skips ended bs rest;
}
read_parts-Reading (suc n) [] rest = record {
  given = ap (λ (r : MpState × List Text). r.1) (read_parts-ended n rest);
  next =
      λ ended. ap (λ (r : MpState × List Text). next_event ended r.0.rx) (read_parts-ended n rest);
}
read_parts-Reading (suc n) (b ∷ bs) rest =
    let later = read_parts-Reading n bs rest in
    record { given = ap (λ (cs : List Text). b ∷ cs) later.given; next = later.next }

visit-got :
    (n : ℕ) (ns : List ℕ) (s s' : MpState) (p : Part)
    → next_part s ≡ (s', got p)
    → visit (n ∷ ns) s ≡ (p, (read_parts n s').1) ∷ visit ns (read_parts n s').0
unfolding visit
visit-got n ns s s' p e =
    rw
      (
        ap (λ (r : MpState × PartResult Part). r.1) e,
        ap (λ (r : MpState × PartResult Part). r.0) e,
        visit,
      )
      refl

visit-null :
    (n : ℕ) (ns : List ℕ) (s s' : MpState) → next_part s ≡ (s', null) → visit (n ∷ ns) s ≡ []
unfolding visit
visit-null n ns s s' e = rw (e, visit) refl

visit-form :
    (ns : List ℕ) (ended : Bool) (events : List MpEvent) (form : List (Part × List Text))
    → ((e : Bool) → next_event e events ≡ next_event e (form_events form))
    → visit ns (record { rx = events; ended = ended }) ≡ seen ns form
unfolding visit next_part
visit-form [] ended events form same = refl
visit-form (n ∷ ns) ended events [] same =
    visit-null n ns (record { rx = events; ended = ended }) (record { rx = []; ended = ended })
      (same ended ∙ (unfold next_event in refl))
visit-form (n ∷ ns) ended events ((p, bs) ∷ form) same =
    let r : MpState × List Text =
      read_parts n (record { rx = body_events bs (form_events form); ended = false }) in
    let reading = read_parts-Reading n bs (form_events form) in
    let first : next_event ended events
        ≡ (record { rx = body_events bs (form_events form); ended = false }, got p) =
      same ended ∙ (unfold next_event in refl) in
    visit-got n ns (record { rx = events; ended = ended })
      (record { rx = body_events bs (form_events form); ended = false }) p first
    ∙ cc (reading.given, visit-form ns r.0.ended r.0.rx form reading.next)

-- However many chunks of each part of a whole form a handler reads, and however many parts: it
-- gets the parts in order, and of each part the first chunks, as many as it asked for and the
-- part has.
pub visit-form_events :
    (ns : List ℕ) (form : List (Part × List Text))
    → visit ns (record { rx = form_events form; ended = false }) ≡ seen ns form
visit-form_events ns form = visit-form ns false (form_events form) form (λ e. refl)
