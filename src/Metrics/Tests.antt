-- ===== src/Metrics/Tests.antt =====
-- src/metrics.rs: the source's tests, and small runs.
use oxide_http.Prelude.{codes, text_eq, List, [], ◌∷◌, map, ◌≡◌, refl, arith, total}
use oxide_http.Metrics.{new, cumulative, buckets, method_index, class_index}
use oxide_http.Metrics.Table.{counted}
use oxide_http.Metrics.Sums.{Event, started, finished, opened, run, finishes, run-counted}
use oxide_http.Metrics.Histogram.{Finished, finish, within_bound, cumulative-finish}

indices :
    (method_index (codes "GET") ≡ 0) × (method_index (codes "BREW") ≡ 8) × (class_index 404 ≡ 3)
unfolding method_index class_index text_eq
indices = (refl, refl, refl)

abbrev day : List Event
day = opened ∷ started ∷ started ∷ finished (codes "GET") 200 3000000 ∷ []

counted_example :
    (counted (run new day).requests ≡ total finishes day)
    × ((run new day).duration_count ≡ total finishes day)
counted_example = run-counted day (omega arith)

abbrev slow : List Finished
slow = (codes "GET", 200, 3000000) ∷ (codes "POST", 500, 700000000) ∷ []

histogram_example :
    cumulative 0 (finish slow new).duration_buckets ≡ map (within_bound slow) buckets
histogram_example = cumulative-finish slow (omega arith)
