-- ===== src/Server/AccessLog/Kept.antt =====
-- src/server.rs, `access_log` and the writer thread: what each step does to the lines and the drops.
use oxide_http.Prelude.{
  ℕ, suc, ◌+◌, ◌-◌, ◌≤◌, ◌<◌, Text, List, [], ◌∷◌, ◌++◌, Bool, true, false, ltb, if◌then◌else◌,
  length, length-append, Bool-cases, map, total, sym, subst, ◌∙◌, ◌⊎◌, ◌≡◌, refl, ap, inl, inr,
  arith,
}
use oxide_http.Server.AccessLog.{
  access_log_queue, dropped_line, Writer, receiving, wrote, gone, Log, Op, send, report, push_line,
  try_send, fetch_dropped, write_line, report_dropped,
}

-- The lines that requests have logged.
abbrev pub sent : List Op → ℕ
sent [] = 0
sent (send line ∷ ops) = suc (sent ops)
sent (op ∷ ops) = sent ops

abbrev pub accounted : Log → ℕ
accounted l = length l.lines + length l.queue + l.dropped + l.failed + l.lost

-- Numbers of drops whose warnings are the lines, and which add up to `n`.
abbrev pub Warn : List Text → ℕ → Type 0
Warn warnings n = (ns : List ℕ) × (warnings ≡ map dropped_line ns) × (total (λ m. m) ns ≡ n)

-- The warnings that stdout refused.
abbrev pub refused : List Op → ℕ
refused [] = 0
refused (report false ∷ ops) = suc (refused ops)
refused (op ∷ ops) = refused ops

pub record IsKept (l : Log) : Type 0 where
  pub bounded : length l.queue ≤ access_log_queue
  pub reports_few : l.reported ≤ l.dropped
  pub lost_only_gone : (l.writer ≡ gone) ⊎ (l.lost ≡ 0)
  pub warned : Warn l.warnings (l.reported - l.unwarned)
  pub unwarned_few : l.unwarned ≤ l.reported

-- What a step does to the lines that are accounted for, and to the drops without a warning.
pub record Step (l l' : Log) (new_lines may_refuse : ℕ) : Type 0 where
  pub kept : IsKept l'
  pub same : accounted l' ≡ accounted l + new_lines
  pub warns : may_refuse ≡ 0 → l'.unwarned ≡ l.unwarned

Warn-snoc :
    (warnings : List Text) (n more : ℕ)
    → Warn warnings n
    → Warn (warnings ++ dropped_line more ∷ []) (n + more)
Warn-snoc warnings n more (ns, e, t) =
    (ns ++ more ∷ [], rw e (sym (map-snoc ns)), total-snoc ns ∙ ap (λ a. a + more) t)
  where
    map-snoc :
        (ms : List ℕ)
        → map dropped_line (ms ++ more ∷ []) ≡ map dropped_line ms ++ dropped_line more ∷ []
    map-snoc [] = refl
    map-snoc (m ∷ ms) = ap (λ r. dropped_line m ∷ r) (map-snoc ms)

    total-snoc : (ms : List ℕ) → total (λ m. m) (ms ++ more ∷ []) ≡ total (λ m. m) ms + more
    total-snoc [] = omega arith
    total-snoc (m ∷ ms) = omega (arith, total-snoc ms)

push_line-Step : (line : Text) (l : Log) → IsKept l → Step l (push_line line l) 1 0
unfolding push_line
push_line-Step line l h = elim (Bool-cases (ltb (length l.queue) access_log_queue)) [
  | inl room ↦
      let longer : length (l.queue ++ line ∷ []) ≡ length l.queue + 1 =
        length-append l.queue (line ∷ []) in
      let below : length l.queue < access_log_queue = ground arith in
      rw room (record {
        kept = record {
          bounded = omega (arith, longer, below);
          reports_few = h.reports_few;
          lost_only_gone = h.lost_only_gone;
          warned = h.warned;
          unwarned_few = h.unwarned_few;
        };
        same = omega (arith, longer);
        warns = λ e. refl;
      })
  | inr full ↦ rw full (failed_one l h)
]
  where
    failed_one : (l : Log) → IsKept l → Step l (record l { failed = l.failed + 1 }) 1 0
    failed_one l h = record {
      kept = record {
        bounded = h.bounded;
        reports_few = h.reports_few;
        lost_only_gone = h.lost_only_gone;
        warned = h.warned;
        unwarned_few = h.unwarned_few;
      };
      same = omega arith;
      warns = λ e. refl;
    }

pub still : (l : Log) → IsKept l → (n : ℕ) → Step l l 0 n
still l h n = record { kept = h; same = omega arith; warns = λ e. refl }

pub try_send-Step : (line : Text) (l : Log) (w : Writer) → IsKept l → Step l (try_send line l w) 1 0
unfolding try_send
try_send-Step line l gone h = record {
  kept = record {
    bounded = h.bounded;
    reports_few = h.reports_few;
    lost_only_gone = h.lost_only_gone;
    warned = h.warned;
    unwarned_few = h.unwarned_few;
  };
  same = omega arith;
  warns = λ e. refl;
}
try_send-Step line l receiving h = push_line-Step line l h
try_send-Step line l wrote h = push_line-Step line l h

pub fetch_dropped-Step : (l : Log) → IsKept l → Step l (fetch_dropped l) 0 0
unfolding fetch_dropped
fetch_dropped-Step l h = elim (Bool-cases (ltb 0 l.failed)) [
  | inl some_failed ↦
      let above : 0 < l.failed = ground arith in
      rw some_failed (record {
        kept = record {
          bounded = h.bounded;
          reports_few = omega (arith, h.reports_few);
          lost_only_gone = h.lost_only_gone;
          warned = h.warned;
          unwarned_few = h.unwarned_few;
        };
        same = omega (arith, above);
        warns = λ e. refl;
      })
  | inr none_failed ↦ rw none_failed (still l h 0)
]

pub write_line-Step :
    (l : Log) (queue : List Text) (ok : Bool)
    → l.queue ≡ queue
    → l.writer ≡ receiving
    → IsKept l
    → Step l (write_line l queue ok) 0 0
unfolding write_line
write_line-Step l [] ok e r h = still l h 0
write_line-Step l (line ∷ queue) true e r h =
    let size : length l.queue ≡ suc (length queue) = ap length e in
    let longer : length (l.lines ++ line ∷ []) ≡ length l.lines + 1 =
      length-append l.lines (line ∷ []) in
    record {
      kept = record {
        bounded = omega (arith, size, h.bounded);
        reports_few = h.reports_few;
        lost_only_gone = elim h.lost_only_gone [
          | inl over ↦ cc (r, over)
          | inr none_lost ↦ inr none_lost
        ];
        warned = h.warned;
        unwarned_few = h.unwarned_few;
      };
      same = omega (arith, size, longer);
      warns = λ e. refl;
    }
write_line-Step l (line ∷ queue) false e r h =
    let size : length l.queue ≡ suc (length queue) = ap length e in
    record {
      kept = record {
        bounded = omega arith;
        reports_few = h.reports_few;
        lost_only_gone = inl refl;
        warned = h.warned;
        unwarned_few = h.unwarned_few;
      };
      same = omega (arith, size);
      warns = λ e. refl;
    }

not_gone : (l : Log) → l.writer ≡ wrote → IsKept l → l.lost ≡ 0
not_gone l w h = elim h.lost_only_gone [ inl over ↦ cc (w, over) | inr none_lost ↦ none_lost ]

abbrev pub may_refuse : Bool → ℕ
may_refuse true = 0
may_refuse false = 1

pub report_dropped-Step :
    (l : Log) (ok : Bool)
    → l.writer ≡ wrote
    → IsKept l
    → Step l (report_dropped l ok) 0 (may_refuse ok)
unfolding report_dropped
report_dropped-Step l ok w h = elim (Bool-cases (ltb l.reported l.dropped)) [
  | inl more ↦ rw more (go ok (ground arith))
  | inr all ↦ rw all (record {
    kept = record {
      bounded = h.bounded;
      reports_few = h.reports_few;
      lost_only_gone = inr (not_gone l w h);
      warned = h.warned;
      unwarned_few = h.unwarned_few;
    };
    same = omega arith;
    warns = λ e. refl;
  })
]
  where
    go :
        (ok : Bool)
        → l.reported < l.dropped
        → Step l
            (if ok
              then record l {
                reported = l.dropped;
                warnings = l.warnings ++ dropped_line (l.dropped - l.reported) ∷ [];
                writer = receiving;
              }
              else record l {
                reported = l.dropped;
                unwarned = l.unwarned + (l.dropped - l.reported);
                writer = receiving;
              })
            0
            (may_refuse ok)
    go true below = record {
      kept = record {
        bounded = h.bounded;
        reports_few = omega arith;
        lost_only_gone = inr (not_gone l w h);
        warned =
            subst (Warn (l.warnings ++ dropped_line (l.dropped - l.reported) ∷ []))
              (omega (arith, h.unwarned_few, below))
              (Warn-snoc l.warnings (l.reported - l.unwarned) (l.dropped - l.reported) h.warned);
        unwarned_few = omega (arith, h.unwarned_few, below);
      };
      same = omega arith;
      warns = λ e. refl;
    }
    go false below = record {
      kept = record {
        bounded = h.bounded;
        reports_few = omega arith;
        lost_only_gone = inr (not_gone l w h);
        warned = subst (Warn l.warnings) (omega (arith, h.unwarned_few, below)) h.warned;
        unwarned_few = omega (arith, h.unwarned_few, below);
      };
      same = omega arith;
      warns = λ e. absurd (omega arith);
    }
