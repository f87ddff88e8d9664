-- ===== src/Listener/Unix.antt =====
-- src/listener.rs, `bind_unix`: what becomes of the files.
use oxide_http.Prelude.{
  ◌⊎◌, true, false, inl, inr, none, Text, codes, text_eq, text_eq_refl, text_eq_iff, Option, none,
  some, Option-cases, Bool-cases, Result, ok, err, ◌++◌, ◌≡◌, refl, ◌∙◌, ◌≢◌, inl, inr,
}
use oxide_http.Listener.{
  System, Files, Kind, socket, Meta, found, not_found, too_many_links, metadata, addr_in_use, put,
  bind_at, clear_and_bind, bind_over, bind_unix,
}

put-same : (path : Text) (kind : Option Kind) (files : Files) → put path kind files path ≡ kind
unfolding put
put-same path kind files = rw (text_eq_refl path) refl

put-other :
    (path : Text) (kind : Option Kind) (files : Files) (q : Text)
    → q ≢ path
    → put path kind files q ≡ files q
unfolding put
put-other path kind files q apart = elim (Bool-cases (text_eq q path)) [
  | inl same ↦ absurd (apart ((text_eq_iff q path).0 same))
  | inr other ↦ rw other refl
]

-- No other path has changed; at the path itself nothing has, unless nothing stood there, or a socket,
-- or a link that leads to one; and a call that succeeds has left a socket there.
pub record IsCareful (path : Text) (before : Files) (outcome : Result (Unit {0}) × Files)
    : Type 0 where
  pub others : (q : Text) → q ≢ path → outcome.1 q ≡ before q
  pub replaced :
      (outcome.1 path ≡ before path) ⊎ ((before path ≡ none) ⊎ (metadata before path ≡ found true))
  pub bound : outcome.0 ≡ ok tt → outcome.1 path ≡ some socket

refused : (path : Text) (files : Files) (msg : Text) → IsCareful path files (err msg, files)
refused path files msg = record { others = λ q apart. refl; replaced = inl refl; bound = λ e. cc e }

module _ (sys : System) where
  bind_at-none-IsCareful :
      (path : Text) (before files : Files)
      → (before path ≡ none) ⊎ (metadata before path ≡ found true)
      → ((q : Text) → q ≢ path → files q ≡ before q)
      → IsCareful path before (bind_at sys path none files)
  unfolding bind_at
  bind_at-none-IsCareful path before files free same = elim (Option-cases (sys.bind_fails path)) [
    | inr (msg, fails) ↦
        rw (fails, bind_at) (record { others = same; replaced = inr free; bound = λ e. cc e })
    | inl works ↦
        rw (works, bind_at)
          (record {
            others = λ q apart. put-other path (some socket) files q apart ∙ same q apart;
            replaced = inr free;
            bound = λ e. put-same path (some socket) files;
          })
  ]

  bind_at-IsCareful :
      (path : Text) (kind : Option Kind) (files : Files)
      → files path ≡ kind
      → IsCareful path files (bind_at sys path kind files)
  unfolding bind_at
  bind_at-IsCareful path (some kind) files e = refused path files addr_in_use
  bind_at-IsCareful path none files e =
      bind_at-none-IsCareful path files files (inl e) (λ q apart. refl)

  clear_and_bind-IsCareful :
      (path : Text) (files : Files)
      → metadata files path ≡ found true
      → IsCareful path files (clear_and_bind sys path files)
  unfolding clear_and_bind
  clear_and_bind-IsCareful path files e = elim (Option-cases (sys.remove_fails path)) [
    | inr (msg, fails) ↦ rw (fails, clear_and_bind) (refused path files msg)
    | inl works ↦
        rw (works, clear_and_bind)
          (bind_at-none-IsCareful path files (put path none files) (inr e)
            (put-other path none files))
  ]

  bind_over-IsCareful :
      (path : Text) (meta : Meta) (files : Files)
      → metadata files path ≡ meta
      → IsCareful path files (bind_over sys path meta files)
  unfolding bind_over
  bind_over-IsCareful path (found false) files e =
      refused path files (path ++ codes ": file exists and is not a socket")
  bind_over-IsCareful path (found true) files e = clear_and_bind-IsCareful path files e
  bind_over-IsCareful path not_found files e = bind_at-IsCareful path (files path) files refl
  bind_over-IsCareful path too_many_links files e =
      refused path files (codes "Too many levels of symbolic links (os error 40)")

  -- Whatever stands at the path and whichever call fails, binding a Unix socket touches no other path;
  -- it changes what stands at the path only where nothing did, or a socket, or a link that leads to
  -- one; and where it succeeds, a socket stands at the path.
  pub bind_unix-IsCareful :
      (path : Text) (files : Files) → IsCareful path files (bind_unix sys path files)
  unfolding bind_unix
  bind_unix-IsCareful path files = elim (Option-cases (sys.metadata_fails path)) [
    | inr (msg, fails) ↦ rw (fails, bind_unix) (refused path files msg)
    | inl works ↦ rw (works, bind_unix) (bind_over-IsCareful path (metadata files path) files refl)
  ]
