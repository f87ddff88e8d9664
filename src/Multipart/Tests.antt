-- ===== src/Multipart/Tests.antt =====
-- src/multipart.rs: the source's tests of the type checks, and a form with a file.
use oxide_http.Prelude.{
  codes, text_eq, to_lowercase, starts_with, split, trim, none, some, List, [], ◌∷◌, true, false,
  ◌≡◌, refl, arith,
}
use oxide_http.ProxyProtocol.{bytes}
use oxide_http.Multipart.{
  MultipartConfig, Part, Item, field, part, chunk, part_end, reject, mime_allowed, ext_allowed,
  parse_task,
}
use oxide_http.Multipart.Limits.{Between, parse_task-Between}

mime : mime_allowed (some (codes "image/png; q=1")) (some (codes "image/*" ∷ [])) ≡ true
unfolding mime_allowed text_eq to_lowercase starts_with split trim
mime = refl

extension : ext_allowed (some (codes "a.EXE")) (some (codes ".png" ∷ [])) ≡ false
unfolding ext_allowed text_eq to_lowercase
extension = refl

abbrev config : MultipartConfig
config = record {
  max_file_size = some 4;
  max_field_size = none;
  max_files = some 1;
  max_fields = none;
  allowed_mime = none;
  allowed_ext = none;
}

abbrev file : Part
file = record { name = some (codes "f"); filename = some (codes "a.txt"); content_type = none }

abbrev form : List Item
form = field file (bytes (codes "abc") ∷ []) ∷ field file (bytes (codes "d") ∷ []) ∷ []

second_refused :
    parse_task config 0 0 9 form
    ≡ part file ∷ chunk (codes "abc") ∷ part_end ∷ reject 400 (codes "too many files") ∷ []
unfolding parse_task mime_allowed ext_allowed
second_refused = refl

form_example : Between config 0 0 (parse_task config 0 0 9 form)
form_example =
    parse_task-Between config 9 form
      (record { file_size = omega arith; field_size = tt; files = omega arith; fields = tt })
