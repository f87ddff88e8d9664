-- ===== src/Multipart/Limits.antt =====
-- src/multipart.rs, `parse_task`: what the stream of events promises to JS.
use oxide_http.Prelude.{
  ℕ, zero, suc, ◌+◌, ◌≤◌, ◌<◌, ◌^◌, Text, codes, Option, none, some, List, [], ◌∷◌, Bool, true,
  false, ◌≡◌, refl, inl, inr, Bool-cases, Option-cases, arith, length, if◌then◌else◌,
}
use oxide_http.ProxyProtocol.{Read, bytes, failed}
use oxide_http.Body.{exceeds, saturating_add}
use oxide_http.Body.Delivery.{Within, IsCountable}
use oxide_http.Multipart.{
  MultipartConfig, Part, MpEvent, part, chunk, part_end, reject, Item, field, malformed,
  mime_allowed, ext_allowed, bump, refuse, is_file, send, size_limit, part_chunks, part_check,
  parse_task,
}

-- What lets a part be announced, as the `files`-th file or the `fields`-th field.
abbrev pub Admits : MultipartConfig → Bool → ℕ → ℕ → Part → Type 0
Admits cfg true files fields p =
    Within cfg.max_files files
    × (mime_allowed p.content_type cfg.allowed_mime ≡ true)
    × (ext_allowed p.filename cfg.allowed_ext ≡ true)
Admits cfg false files fields p = Within cfg.max_fields fields

abbrev pub count_file : Part → ℕ → ℕ
count_file p n = if is_file p then n + 1 else n

abbrev pub count_field : Part → ℕ → ℕ
count_field p n = if is_file p then n else n + 1

mutual
  -- Between two parts, after `files` files and `fields` fields.
  pub data Between (cfg : MultipartConfig) : ℕ → ℕ → List MpEvent → Type 0 where
    quiet : (files fields : ℕ) → Between cfg files fields []
    refused : (files fields status : ℕ) (m : Text) → Between cfg files fields (reject status m ∷ [])
    announced :
        (files fields : ℕ) (p : Part) (es : List MpEvent)
        → Admits cfg (is_file p) (count_file p files) (count_field p fields) p
        → Inside cfg (count_file p files) (count_field p fields) (is_file p) 0 es
        → Between cfg files fields (part p ∷ es)

  -- Inside a part that has had `size` bytes.
  pub data Inside (cfg : MultipartConfig) : ℕ → ℕ → Bool → ℕ → List MpEvent → Type 0 where
    stopped : (files fields : ℕ) (file : Bool) (size : ℕ) → Inside cfg files fields file size []
    broken_off :
        (files fields : ℕ) (file : Bool) (size status : ℕ) (m : Text)
        → Inside cfg files fields file size (reject status m ∷ [])
    more :
        (files fields : ℕ) (file : Bool) (size : ℕ) (b : Text) (es : List MpEvent)
        → Within (size_limit cfg file) (size + length b)
        → Inside cfg files fields file (size + length b) es
        → Inside cfg files fields file size (chunk b ∷ es)
    ended :
        (files fields : ℕ) (file : Bool) (size : ℕ) (es : List MpEvent)
        → Between cfg files fields es
        → Inside cfg files fields file size (part_end ∷ es)

-- A counter of the code that stands for the real count wherever a limit is set.
abbrev Tracks : Option ℕ → ℕ → ℕ → Type 0
Tracks none real counter = Unit
Tracks (some lim) real counter = (real ≡ counter) × (counter ≤ lim)

-- A limit that a `u32` counter can pass.
abbrev pub IsCountable32 : Option ℕ → Type 0
IsCountable32 none = Unit
IsCountable32 (some lim) = lim + 1 < 2 ^ 32

Tracks-bump :
    (limit : Option ℕ) (real counter : ℕ)
    → IsCountable32 limit
    → Tracks limit real counter
    → exceeds limit (bump counter) ≡ false
    → Tracks limit (real + 1) (bump counter) × Within limit (real + 1)
Tracks-bump none real counter c t e = (tt, tt)
Tracks-bump (some lim) real counter c t e = ground arith

Tracks-add :
    (limit : Option ℕ) (real counter n : ℕ)
    → IsCountable limit
    → Tracks limit real counter
    → exceeds limit (saturating_add counter n) ≡ false
    → Tracks limit (real + n) (saturating_add counter n) × Within limit (real + n)
Tracks-add none real counter n c t e = (tt, tt)
Tracks-add (some lim) real counter n c t e = ground arith

Tracks-zero : (limit : Option ℕ) → Tracks limit 0 0
Tracks-zero none = tt
Tracks-zero (some lim) = (refl, omega arith)

-- The limits of a form, below the ends of the counters.
pub record IsBounded (cfg : MultipartConfig) : Type 0 where
  pub file_size : IsCountable cfg.max_file_size
  pub field_size : IsCountable cfg.max_field_size
  pub files : IsCountable32 cfg.max_files
  pub fields : IsCountable32 cfg.max_fields

size_limit-IsCountable :
    (cfg : MultipartConfig) (file : Bool) → IsBounded cfg → IsCountable (size_limit cfg file)
size_limit-IsCountable cfg true b = b.file_size
size_limit-IsCountable cfg false b = b.field_size

module _ (cfg : MultipartConfig) (files fields : ℕ) (file : Bool) (after : ℕ → List MpEvent)
    (sized : IsCountable (size_limit cfg file))
    (next : (room : ℕ) → Between cfg files fields (after room)) where
  part_chunks-Inside :
      (room real size : ℕ) (reads : List Read)
      → Tracks (size_limit cfg file) real size
      → Inside cfg files fields file real
          (part_chunks (size_limit cfg file) file size room reads after)
  unfolding part_chunks
  part_chunks-Inside zero real size [] t = stopped files fields file real
  part_chunks-Inside (suc room) real size [] t =
      ended files fields file real (after room) (next room)
  part_chunks-Inside zero real size (failed ∷ reads) t = stopped files fields file real
  part_chunks-Inside (suc room) real size (failed ∷ reads) t = broken_off files fields file real _ _
  part_chunks-Inside zero real size (bytes b ∷ reads) t =
      elim (Bool-cases (exceeds (size_limit cfg file) (saturating_add size (length b)))) [
        | inl over ↦ rw over (stopped files fields file real)
        | inr fits ↦ rw fits (stopped files fields file real)
      ]
  part_chunks-Inside (suc room) real size (bytes b ∷ reads) t =
      elim (Bool-cases (exceeds (size_limit cfg file) (saturating_add size (length b)))) [
        | inl over ↦ rw over (broken_off files fields file real _ _)
        | inr fits ↦
            let (t', within) = Tracks-add (size_limit cfg file) real size (length b) sized t fits in
            rw fits (
              more files fields file real b _ within (
                part_chunks-Inside room (real + length b) (saturating_add size (length b)) reads
                  t'))
      ]

-- The counters after a part.
abbrev bump_file : Part → ℕ → ℕ
bump_file p n = if is_file p then bump n else n

abbrev bump_field : Part → ℕ → ℕ
bump_field p n = if is_file p then n else bump n

module _ (cfg : MultipartConfig) (bounded : IsBounded cfg) where
  part_check-Admits :
      (files fields cf cg : ℕ) (p : Part)
      → Tracks cfg.max_files files cf
      → Tracks cfg.max_fields fields cg
      → part_check cfg (bump_file p cf) (bump_field p cg) p ≡ none
      → Tracks cfg.max_files (count_file p files) (bump_file p cf)
        × Tracks cfg.max_fields (count_field p fields) (bump_field p cg)
        × Admits cfg (is_file p) (count_file p files) (count_field p fields) p
  unfolding part_check
  part_check-Admits files fields cf cg p tf tg e = elim (Bool-cases (is_file p)) [
    | inl file ↦
        let (t, w) = Tracks-bump cfg.max_files files cf bounded.files tf (ground arith) in
        rw file (t, tg, (w, ground arith, ground arith))
    | inr plain ↦
        let (t, w) = Tracks-bump cfg.max_fields fields cg bounded.fields tg (ground arith) in
        rw plain (tf, t, w)
  ]

  parse_task-refused :
      (cf cg room : ℕ) (p : Part) (reads : List Read) (items : List Item) (r : ℕ × Text)
      → part_check cfg (bump_file p cf) (bump_field p cg) p ≡ some r
      → parse_task cfg cf cg room (field p reads ∷ items) ≡ refuse room r.0 r.1
  unfolding parse_task
  parse_task-refused cf cg room p reads items r e = rw (e, parse_task) refl

  parse_task-announced :
      (cf cg room : ℕ) (p : Part) (reads : List Read) (items : List Item)
      → part_check cfg (bump_file p cf) (bump_field p cg) p ≡ none
      → parse_task cfg cf cg room (field p reads ∷ items)
        ≡ send (part p) room (λ r.
          part_chunks
            (size_limit cfg (is_file p))
            (is_file p)
            0
            r
            reads
            (λ r'. parse_task cfg (bump_file p cf) (bump_field p cg) r' items))
  unfolding parse_task
  parse_task-announced cf cg room p reads items e = rw (e, parse_task) refl

  refuse-Between :
      (files fields room status : ℕ) (m : Text) → Between cfg files fields (refuse room status m)
  refuse-Between files fields zero status m = quiet files fields
  refuse-Between files fields (suc room) status m = refused files fields status m

  announce :
      (files fields room : ℕ) (p : Part) (after : ℕ → List MpEvent)
      → Admits cfg (is_file p) (count_file p files) (count_field p fields) p
      → ((r : ℕ) → Inside cfg (count_file p files) (count_field p fields) (is_file p) 0 (after r))
      → Between cfg files fields (send (part p) room after)
  announce files fields zero p after ok next = quiet files fields
  announce files fields (suc room) p after ok next =
      announced files fields p (after room) ok (next room)

  run-Between :
      (files fields cf cg room : ℕ) (items : List Item)
      → Tracks cfg.max_files files cf
      → Tracks cfg.max_fields fields cg
      → Between cfg files fields (parse_task cfg cf cg room items)
  unfolding parse_task
  run-Between files fields cf cg room [] tf tg = quiet files fields
  run-Between files fields cf cg room (malformed ∷ items) tf tg =
      refuse-Between files fields room 400 (codes "malformed multipart")
  run-Between files fields cf cg room (field p reads ∷ items) tf tg =
      elim (Option-cases (part_check cfg (bump_file p cf) (bump_field p cg) p)) [
        | inr (r, found) ↦
            rw (parse_task-refused cf cg room p reads items r found)
              (refuse-Between files fields room r.0 r.1)
        | inl passed ↦
            let (tf', tg', ok) = part_check-Admits files fields cf cg p tf tg passed in
            let later : (r : ℕ)
                → Between cfg (count_file p files) (count_field p fields)
                    (parse_task cfg (bump_file p cf) (bump_field p cg) r items) =
              λ r.
                run-Between (count_file p files) (count_field p fields) (bump_file p cf)
                  (bump_field p cg) r items tf' tg' in
            rw (parse_task-announced cf cg room p reads items passed) (
              announce files fields room p _ ok (λ r.
                part_chunks-Inside cfg (count_file p files) (count_field p fields) (is_file p) _
                  (size_limit-IsCountable cfg (is_file p) bounded) later r 0 0 reads
                  (Tracks-zero (size_limit cfg (is_file p)))))
      ]

-- What JS gets of a form is parts, each announced before its chunks and closed after them, with at
-- most one refusal, which is last. Under limits that the counters can pass, no part beyond the
-- limits or of a type that is not allowed is announced, and no part has more bytes than its limit.
pub parse_task-Between :
    (cfg : MultipartConfig) (room : ℕ) (items : List Item)
    → IsBounded cfg
    → Between cfg 0 0 (parse_task cfg 0 0 room items)
parse_task-Between cfg room items bounded =
    run-Between cfg bounded 0 0 0 0 room items (Tracks-zero cfg.max_files)
      (Tracks-zero cfg.max_fields)
