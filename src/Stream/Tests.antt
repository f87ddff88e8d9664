-- ===== src/Stream/Tests.antt =====
-- src/stream.rs: small forms.
use oxide_http.Prelude.{codes, Text, none, some, List, [], ◌∷◌, true, false, ◌≡◌, refl}
use oxide_http.Multipart.{Part, part, chunk, part_end}
use oxide_http.Stream.{null, read_part}
use oxide_http.Stream.Parts.{form_events, visit, seen, visit-form_events}

abbrev file : Part
file = record { name = some (codes "f"); filename = some (codes "a.txt"); content_type = none }

abbrev note : Part
note = record { name = some (codes "n"); filename = none; content_type = none }

abbrev form : List (Part × List Text)
form = (file, codes "one" ∷ codes "two" ∷ []) ∷ (note, codes "hi" ∷ []) ∷ []

-- The first part is half read.
visit_example :
    visit (1 ∷ 9 ∷ []) (record { rx = form_events form; ended = false }) ≡ seen (1 ∷ 9 ∷ []) form
visit_example = visit-form_events (1 ∷ 9 ∷ []) form

-- A read before the first `next_part` takes the first part's announcement, and the part is lost.
part_lost : read_part (record { rx = form_events form; ended = false }) ≡ (
  record {
    rx =
        chunk (codes "one")
        ∷ chunk (codes "two")
        ∷ part_end
        ∷ part note
        ∷ chunk (codes "hi")
        ∷ part_end
        ∷ [];
    ended = true;
  },
  null,
)
unfolding read_part
part_lost = refl
