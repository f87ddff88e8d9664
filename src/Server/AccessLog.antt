-- ===== src/Server/AccessLog.antt =====
-- src/server.rs, `access_log` and the writer thread: a bounded queue between the requests and stdout.
-- The requests, the writer and stdout take steps in any order. The counters do not wrap: a line is
-- more than a count.
pub mod Kept
pub mod Accounted
use oxide_http.Prelude.{
  ℕ, suc, ◌+◌, ◌-◌, ◌≤◌, ◌<◌, Text, codes, decimal, List, [], ◌∷◌, ◌++◌, Bool, true, false, ltb,
  if◌then◌else◌, length, length-append, Bool-cases, map, total, sym, subst, ◌∙◌, ◌⊎◌, ◌≡◌, refl, ap,
  inl, inr, arith,
}
use oxide_http.Server.Log.{escape_json}

abbrev pub access_log_queue : ℕ
access_log_queue = 8192

-- `{:.3}` of the milliseconds is a parameter.
unfoldable pub access_line : (method path : Text) (status : ℕ) (ms_text : Text) → Text
unfolding escape_json decimal
access_line method path status ms_text =
    codes "{\"level\":\"info\",\"msg\":\"request\",\"method\":\""
    ++ (method
        ++ (codes "\",\"path\":\""
            ++ (escape_json path
                ++ (codes "\",\"status\":"
                    ++ (decimal status ++ (codes ",\"durationMs\":" ++ (ms_text ++ codes "}")))))))

unfoldable pub dropped_line : ℕ → Text
unfolding decimal
dropped_line n =
    codes "{\"level\":\"warn\",\"msg\":\"access log dropped lines\",\"dropped\":"
    ++ (decimal n ++ codes "}")

-- The writer: waiting for a line, with the line written and the counter yet to be read, or gone.
pub data Writer : Type 0 where
  receiving : Writer
  wrote : Writer
  gone : Writer

-- `failed` counts the requests between a failed `try_send` and their count in `dropped`. `lost` are
-- the lines that a broken stdout has left behind, `unwarned` the drops whose warning it refused.
pub record Log : Type 0 where
  pub queue : List Text
  pub dropped : ℕ
  pub failed : ℕ
  pub reported : ℕ
  pub lost : ℕ
  pub unwarned : ℕ
  pub writer : Writer
  pub lines : List Text
  pub warnings : List Text

abbrev pub empty : Log
empty = record {
  queue = [];
  dropped = 0;
  failed = 0;
  reported = 0;
  lost = 0;
  unwarned = 0;
  writer = receiving;
  lines = [];
  warnings = [];
}

pub data Op : Type 0 where
  send : Text → Op
  count : Op
  write : (ok : Bool) → Op
  report : (ok : Bool) → Op

push_line : Text → Log → Log
push_line line l =
    if ltb (length l.queue) access_log_queue
    then record l { queue = l.queue ++ line ∷ [] }
    else record l { failed = l.failed + 1 }

-- `try_send`: the queue is full, or its receiver is gone.
pub try_send : Text → Log → Writer → Log
unfolding push_line
try_send line l gone = record l { failed = l.failed + 1 }
try_send line l receiving = push_line line l
try_send line l wrote = push_line line l

pub fetch_dropped : Log → Log
fetch_dropped l =
    if ltb 0 l.failed then record l { failed = l.failed - 1; dropped = l.dropped + 1 } else l

-- `recv`, and `writeln!`: with stdout gone the thread ends, and its queue with it.
pub write_line : Log → List Text → Bool → Log
write_line l [] ok = l
write_line l (line ∷ queue) true = record l {
  queue = queue;
  lines = l.lines ++ line ∷ [];
  writer = wrote;
}
write_line l (line ∷ queue) false = record l {
  queue = [];
  lost = l.lost + length (line ∷ queue);
  writer = gone;
}

-- The rest of the round; a warning that stdout refuses is passed over.
pub report_dropped : Log → Bool → Log
unfolding dropped_line
report_dropped l ok =
    if ltb l.reported l.dropped
    then (if ok
        then record l {
          reported = l.dropped;
          warnings = l.warnings ++ dropped_line (l.dropped - l.reported) ∷ [];
          writer = receiving;
        }
        else record l {
          reported = l.dropped;
          unwarned = l.unwarned + (l.dropped - l.reported);
          writer = receiving;
        })
    else record l { writer = receiving }

pub writes : Log → Writer → Bool → Log
unfolding write_line
writes l receiving ok = write_line l l.queue ok
writes l w ok = l

pub reports : Log → Writer → Bool → Log
unfolding report_dropped
reports l wrote ok = report_dropped l ok
reports l w ok = l

unfoldable pub step : Log → Op → Log
unfolding try_send fetch_dropped writes reports
step l (send line) = try_send line l l.writer
step l count = fetch_dropped l
step l (write ok) = writes l l.writer ok
step l (report ok) = reports l l.writer ok

unfoldable pub run : Log → List Op → Log
unfolding step
run l [] = l
run l (op ∷ ops) = run (step l op) ops
