-- ===== src/Multipart.antt =====
-- src/multipart.rs: the limits and type checks of a multipart form, and the events that JS gets.
-- What `multer` finds in the body is a list of fields, each with what its `chunk` calls return.
pub mod Limits
mod Tests
use oxide_http.Prelude.{
  ℕ, zero, suc, ◌+◌, ◌%◌, ◌^◌, Text, codes, text_eq, to_lowercase, starts_with, split, trim, Option,
  none, some, List, [], ◌∷◌, ◌++◌, Bool, true, false, not, ◌&&◌, ◌||◌, ltb, if◌then◌else◌, length,
  any, unwrap_or, is_some, is_some_and, drop, leb, ◌-◌,
}
use oxide_http.ProxyProtocol.{Read, bytes, failed}
use oxide_http.Body.{saturating_add, exceeds}

pub record MultipartConfig : Type 0 where
  pub max_file_size : Option ℕ
  pub max_field_size : Option ℕ
  pub max_files : Option ℕ
  pub max_fields : Option ℕ
  pub allowed_mime : Option (List Text)
  pub allowed_ext : Option (List Text)

pub record Part : Type 0 where
  pub name : Option Text
  pub filename : Option Text
  pub content_type : Option Text

pub data MpEvent : Type 0 where
  part : Part → MpEvent
  chunk : Text → MpEvent
  part_end : MpEvent
  reject : (status : ℕ) (message : Text) → MpEvent

-- One field of the form, or the point where the form is malformed.
pub data Item : Type 0 where
  field : Part → List Read → Item
  malformed : Item

-- `str::strip_suffix` and `ends_with`.
ends_with : Text → Text → Bool
ends_with s t = leb (length t) (length s) && text_eq (drop (length s - length t) s) t

strip_star : Text → Option Text
strip_star [] = none
strip_star (c ∷ s) =
    if text_eq (c ∷ s) (codes "/*")
    then some []
    else elim (strip_star s) [ none ↦ none | some p ↦ some (c ∷ p) ]

mime_matches : Text → Text → Bool
unfolding strip_star
mime_matches main p = elim (strip_star p) [
  | some prefix ↦ starts_with main (prefix ++ codes "/")
  | none ↦ text_eq main p
]

-- The first piece of a text that `split` cut.
abbrev first_piece : List Text → Text
first_piece [] = []
first_piece (p ∷ ps) = p

unfoldable pub mime_allowed : Option Text → Option (List Text) → Bool
unfolding mime_matches
mime_allowed ct none = true
mime_allowed ct (some patterns) =
    let main : Text = trim (first_piece (split b';' (to_lowercase (unwrap_or ct [])))) in
    any (λ p. mime_matches main p) patterns

unfoldable pub ext_allowed : Option Text → Option (List Text) → Bool
unfolding ends_with
ext_allowed filename none = true
ext_allowed none (some exts) = true
ext_allowed (some fname) (some exts) =
    let lower : Text = to_lowercase fname in any (λ e. ends_with lower e) exts

-- A `u32` counter goes up.
abbrev pub bump : ℕ → ℕ
bump n = (n + 1) % 2 ^ 32

-- A send: JS takes `room` more events before it goes away. `then` is the rest of the task.
abbrev pub send : MpEvent → ℕ → (ℕ → List MpEvent) → List MpEvent
send e zero after = []
send e (suc room) after = e ∷ after room

-- `let _ = tx.send(reject(..)).await; return`.
abbrev pub refuse : ℕ → ℕ → Text → List MpEvent
refuse room status message = send (reject status message) room (λ r. [])

abbrev pub is_file : Part → Bool
is_file p = is_some p.filename

abbrev pub size_limit : MultipartConfig → Bool → Option ℕ
size_limit cfg file = if file then cfg.max_file_size else cfg.max_field_size

abbrev too_large_status : Bool → ℕ
too_large_status file = if file then 413 else 400

-- The chunks of one part, then its end, then the rest of the form.
unfoldable pub part_chunks : Option ℕ → Bool → ℕ → ℕ → List Read → (ℕ → List MpEvent) → List MpEvent
part_chunks limit file size room [] after = send part_end room after
part_chunks limit file size room (failed ∷ reads) after =
    refuse room 400 (codes "malformed multipart")
part_chunks limit file size room (bytes b ∷ reads) after =
    let size' : ℕ = saturating_add size (length b) in
    let rest = send (chunk b) room (λ r. part_chunks limit file size' r reads after) in
    if exceeds limit size'
    then refuse room (too_large_status file) (codes "part too large")
    else rest

-- The checks before a part is announced: the refusal, if there is one.
unfoldable pub part_check : MultipartConfig → ℕ → ℕ → Part → Option (ℕ × Text)
part_check cfg files fields p =
    if is_file p
    then (if exceeds cfg.max_files files
        then some (400, codes "too many files")
        else if not (mime_allowed p.content_type cfg.allowed_mime)
        then some (415, codes "mime type not allowed")
        else if not (ext_allowed p.filename cfg.allowed_ext)
        then some (415, codes "file extension not allowed")
        else none)
    else if exceeds cfg.max_fields fields
    then some (400, codes "too many fields")
    else none

unfoldable pub parse_task : MultipartConfig → ℕ → ℕ → ℕ → List Item → List MpEvent
unfolding part_chunks part_check
parse_task cfg files fields room [] = []
parse_task cfg files fields room (malformed ∷ items) = refuse room 400 (codes "malformed multipart")
parse_task cfg files fields room (field p reads ∷ items) =
    let files' : ℕ = if is_file p then bump files else files in
    let fields' : ℕ = if is_file p then fields else bump fields in
    elim (part_check cfg files' fields' p) [
      | some r ↦ refuse room r.0 r.1
      | none ↦ send (part p) room (λ r.
          part_chunks (size_limit cfg (is_file p)) (is_file p) 0 r reads
            (λ r'. parse_task cfg files' fields' r' items))
    ]
