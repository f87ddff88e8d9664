-- ===== src/Body/Buffer.antt =====
-- src/server.rs, `buffer_body`: it accepts what `read_body_task` would deliver.
use oxide_http.Prelude.{
  ℕ, zero, suc, ◌+◌, ◌≤◌, min, Text, Option, none, some, List, [], ◌∷◌, ◌++◌, append_assoc,
  append-nil, Bool, true, false, ◌≡◌, refl, sym, ◌∙◌, ap, ◌↔◌, inl, inr, Bool-cases, arith, length,
  length-append, subst,
}
use oxide_http.Body.{
  u64_max, saturating_add, Event, chunk, trailers, broken, silence, BodyMsg, msg_data, overflow,
  timeout, aborted, exceeds, read_body_task, too_large, timed_out, cut, Buffered, buffered, refused,
  buffer_body,
}
use oxide_http.Body.Delivery.{payload, Whole, Within, IsCountable, run}

-- What a reader makes of all the messages: the whole body, or why there is none.
abbrev pub collect : Text → List BodyMsg → Buffered
collect buf [] = buffered buf
collect buf (msg_data b ∷ ms) = collect (buf ++ b) ms
collect buf (overflow ∷ ms) = refused too_large
collect buf (timeout ∷ ms) = refused timed_out
collect buf (aborted ∷ ms) = refused cut

exceeds-saturating :
    (limit : Option ℕ) (a b : ℕ)
    → IsCountable limit
    → exceeds limit (saturating_add (min a u64_max) b) ≡ exceeds limit (a + b)
exceeds-saturating none a b c = refl
exceeds-saturating (some lim) a b c = ground arith

module _ (limit : Option ℕ) (t : Bool) (b : Text) (es : List Event) where
  run-over :
      (room total : ℕ)
      → exceeds limit (saturating_add total (length b)) ≡ true
      → run limit t (suc room) total (chunk b ∷ es) ≡ overflow ∷ []
  unfolding read_body_task
  run-over room total h = ground arith

  run-fits :
      (room total : ℕ)
      → exceeds limit (saturating_add total (length b)) ≡ false
      → run limit t (suc room) total (chunk b ∷ es)
        ≡ msg_data b ∷ run limit t room (saturating_add total (length b)) es
  unfolding read_body_task
  run-fits room total h = ground arith

  buffer-over :
      (buf : Text)
      → exceeds limit (length buf + length b) ≡ true
      → (buffer_body limit t buf (chunk b ∷ es)).0 ≡ refused too_large
  unfolding buffer_body
  buffer-over buf h = ground arith

  buffer-fits :
      (buf : Text)
      → exceeds limit (length buf + length b) ≡ false
      → (buffer_body limit t buf (chunk b ∷ es)).0 ≡ (buffer_body limit t (buf ++ b) es).0
  unfolding buffer_body
  buffer-fits buf h = ground arith

buffer-collect :
    (limit : Option ℕ) (t : Bool) (room : ℕ) (buf : Text) (es : List Event)
    → IsCountable limit
    → length es ≤ room
    → (buffer_body limit t buf es).0 ≡ collect buf (run limit t room (min (length buf) u64_max) es)
unfolding buffer_body read_body_task
buffer-collect limit t room buf [] c h = refl
buffer-collect limit t room buf (trailers ∷ es) c h =
    buffer-collect limit t room buf es c (omega arith)
buffer-collect limit t zero buf (broken ∷ es) c h = absurd (omega arith)
buffer-collect limit t (suc room) buf (broken ∷ es) c h = refl
buffer-collect limit t zero buf (silence ∷ es) c h = absurd (omega arith)
buffer-collect limit true (suc room) buf (silence ∷ es) c h = refl
buffer-collect limit false (suc room) buf (silence ∷ es) c h =
    buffer-collect limit false (suc room) buf es c (omega arith)
buffer-collect limit t zero buf (chunk b ∷ es) c h = absurd (omega arith)
buffer-collect limit t (suc room) buf (chunk b ∷ es) c h =
    let same = exceeds-saturating limit (length buf) (length b) c in
    let later = buffer-collect limit t room (buf ++ b) es c (omega arith) in
    let total : saturating_add (min (length buf) u64_max) (length b)
        ≡ min (length (buf ++ b)) u64_max =
      omega (arith, length-append buf b) in
    elim (Bool-cases (exceeds limit (length buf + length b))) [
      | inl over ↦
          buffer-over limit t b es buf over
          ∙ sym (
              ap (collect buf)
                (run-over limit t b es room (min (length buf) u64_max) (same ∙ over)))
      | inr fits ↦
          buffer-fits limit t b es buf fits
          ∙ later
          ∙ ap (λ (n : ℕ). collect (buf ++ b) (run limit t room n es)) (sym total)
          ∙ sym (
              ap (collect buf)
                (run-fits limit t b es room (min (length buf) u64_max) (same ∙ fits)))
    ]

-- Under a limit that the counter can pass, and with room for every message: buffering the body
-- gives what a patient reader of `read_body_task`'s messages would make of them: the same bytes,
-- or a refusal for the same reason.
pub buffer_body-eq-collect :
    (limit : Option ℕ) (has_timeout : Bool) (room : ℕ) (es : List Event)
    → IsCountable limit
    → length es ≤ room
    → (buffer_body limit has_timeout [] es).0 ≡ collect [] (run limit has_timeout room 0 es)
buffer_body-eq-collect limit has_timeout room es c h =
    buffer-collect limit has_timeout room [] es c h

pub fits-Within : (limit : Option ℕ) (n : ℕ) → exceeds limit n ≡ false → Within limit n
fits-Within none n h = tt
fits-Within (some lim) n h = ground arith

pub Within-fits : (limit : Option ℕ) (m n : ℕ) → m ≤ n → Within limit n → exceeds limit m ≡ false
Within-fits none m n h w = refl
Within-fits (some lim) m n h w = ground arith

buffer_sound :
    (limit : Option ℕ) (t : Bool) (buf out : Text) (es : List Event)
    → Within limit (length buf)
    → (buffer_body limit t buf es).0 ≡ buffered out
    → Whole t es × Within limit (length (buf ++ payload es)) × (out ≡ buf ++ payload es)
unfolding buffer_body
buffer_sound limit t buf out [] w e = (tt, rw append-nil w, cc (append-nil buf))
buffer_sound limit t buf out (trailers ∷ es) w e = buffer_sound limit t buf out es w e
buffer_sound limit t buf out (broken ∷ es) w e = cc
buffer_sound limit true buf out (silence ∷ es) w e = cc
buffer_sound limit false buf out (silence ∷ es) w e =
    let (whole, within, same) = buffer_sound limit false buf out es w e in
    ((refl, whole), within, same)
buffer_sound limit t buf out (chunk b ∷ es) w e =
    elim (Bool-cases (exceeds limit (length buf + length b))) [
      | inl over ↦ cc (sym (buffer-over limit t b es buf over) ∙ e)
      | inr fits ↦
          let (whole, within, same) =
            buffer_sound limit t (buf ++ b) out es
              (rw length-append (fits-Within limit (length buf + length b) fits))
              (sym (buffer-fits limit t b es buf fits) ∙ e) in
          (
            whole,
            subst (λ (s : Text). Within limit (length s)) (append_assoc buf b (payload es)) within,
            same ∙ append_assoc buf b (payload es),
          )
    ]

buffer_complete :
    (limit : Option ℕ) (t : Bool) (buf : Text) (es : List Event)
    → Whole t es
    → Within limit (length (buf ++ payload es))
    → (buffer_body limit t buf es).0 ≡ buffered (buf ++ payload es)
unfolding buffer_body
buffer_complete limit t buf [] h w = ap buffered (sym (append-nil buf))
buffer_complete limit t buf (trailers ∷ es) h w = buffer_complete limit t buf es h w
buffer_complete limit t buf (broken ∷ es) h w = absurd h
buffer_complete limit true buf (silence ∷ es) h w = cc (h.0)
buffer_complete limit false buf (silence ∷ es) h w = buffer_complete limit false buf es h.1 w
buffer_complete limit t buf (chunk b ∷ es) h w =
    let regroup : (buf ++ b) ++ payload es ≡ buf ++ (b ++ payload es) =
      append_assoc buf b (payload es) in
    let w' : Within limit (length ((buf ++ b) ++ payload es)) =
      subst (λ (s : Text). Within limit (length s)) (sym regroup) w in
    let shorter : length buf + length b ≤ length ((buf ++ b) ++ payload es) =
      omega (arith, length-append buf b, length-append (buf ++ b) (payload es)) in
    buffer-fits limit t b es buf (Within-fits limit _ _ shorter w')
    ∙ buffer_complete limit t (buf ++ b) es h w'
    ∙ ap buffered regroup

pub Within-zero : (limit : Option ℕ) → Within limit 0
Within-zero none = tt
Within-zero (some lim) = omega arith

-- Buffering succeeds exactly when the body comes whole, in time, and within the limit, and then
-- yields all of its bytes.
pub buffer_body_iff :
    (limit : Option ℕ) (has_timeout : Bool) (out : Text) (es : List Event)
    → ((buffer_body limit has_timeout [] es).0 ≡ buffered out)
      ↔ (Whole has_timeout es × Within limit (length (payload es)) × (out ≡ payload es))
buffer_body_iff limit has_timeout out es = (
  buffer_sound limit has_timeout [] out es (Within-zero limit),
  λ p. buffer_complete limit has_timeout [] es p.0 p.1 ∙ ap buffered (sym p.2),
)
