-- ===== src/Metrics/Histogram.antt =====
-- src/metrics.rs: the histogram counts, for each bound, the requests that did not pass it.
use oxide_http.Prelude.{
  ℕ, ◌+◌, ◌≤◌, ◌<◌, ◌^◌, Text, List, [], ◌∷◌, map, true, false, leb, if◌then◌else◌, ◌≡◌, refl, ◌∙◌,
  ap, arith, Bool-cases, inl, inr, All, length, total, fun_ext,
}
use oxide_http.Metrics.{Metrics, buckets, new, fetch_add, bump_bucket, request_finished, cumulative}

-- A finished request: its method, its status, and how long it took.
abbrev pub Finished : Type 0
Finished = Text × ℕ × ℕ

pub finish : List Finished → Metrics → Metrics
finish [] m = m
finish ((method, status, elapsed) ∷ rs) m = finish rs (request_finished method status elapsed m)

abbrev pub at_most : ℕ → ℕ → ℕ
at_most edge elapsed = if leb elapsed edge then 1 else 0

-- How many requests took at most `edge`.
abbrev pub within_bound : List Finished → ℕ → ℕ
within_bound rs edge = total (λ (r : Finished). at_most edge r.2) rs

abbrev Ascending : List ℕ → Type 0
Ascending [] = Unit
Ascending (e ∷ es) = All (λ (f : ℕ). e ≤ f) es × Ascending es

sums : ℕ → List ℕ → List ℕ
sums acc [] = []
sums acc (n ∷ ns) = (acc + n) ∷ sums (acc + n) ns

abbrev self : ℕ → ℕ
self n = n

cumulative-sums :
    (acc : ℕ) (ns : List ℕ) → acc + total self ns < 2 ^ 64 → cumulative acc ns ≡ sums acc ns
unfolding cumulative sums
cumulative-sums acc [] h = refl
cumulative-sums acc (n ∷ ns) h =
    let small : fetch_add acc n ≡ acc + n = omega arith in
    rw small (ap (λ (s : List ℕ). (acc + n) ∷ s) (cumulative-sums (acc + n) ns (omega arith)))

cons_eq : {x y : ℕ} {xs ys : List ℕ} → x ≡ y → xs ≡ ys → x ∷ xs ≡ y ∷ ys
cons_eq e es = cc

-- One more at every bound, when the duration passes none of them.
shift :
    (d acc : ℕ) (es ns : List ℕ) (f : ℕ → ℕ)
    → All (λ (e : ℕ). d ≤ e) es
    → sums acc ns ≡ map f es
    → sums (acc + 1) ns ≡ map (λ e. at_most e d + f e) es
unfolding sums
shift d acc [] [] f below same = refl
shift d acc [] (n ∷ ns) f below same = cc
shift d acc (e ∷ es) [] f below same = cc
shift d acc (e ∷ es) (n ∷ ns) f below same =
    let here : acc + n ≡ f e = cc in
    let later : sums (acc + n) ns ≡ map f es = cc in
    let moved : acc + 1 + n ≡ acc + n + 1 = omega arith in
    cons_eq (ground (arith, here, below.0))
      (ap (λ (a : ℕ). sums a ns) moved ∙ shift d (acc + n) es ns f below.1 later)

All-below : (d e : ℕ) (es : List ℕ) → d ≤ e → All (λ (f : ℕ). e ≤ f) es → All (λ (f : ℕ). d ≤ f) es
All-below d e [] h all = tt
All-below d e (f ∷ es) h all = (omega (arith, all.0), All-below d e es h all.1)

bump-here :
    (e d n : ℕ) (es ns : List ℕ)
    → leb d e ≡ true
    → bump_bucket (e ∷ es) (n ∷ ns) d ≡ fetch_add n 1 ∷ ns
unfolding bump_bucket
bump-here e d n es ns h = ground arith

bump-later :
    (e d n : ℕ) (es ns : List ℕ)
    → leb d e ≡ false
    → bump_bucket (e ∷ es) (n ∷ ns) d ≡ n ∷ bump_bucket es ns d
unfolding bump_bucket
bump-later e d n es ns h = ground arith

bump-sums :
    (d acc : ℕ) (es ns : List ℕ) (f : ℕ → ℕ)
    → Ascending es
    → acc + total self ns + 1 < 2 ^ 64
    → sums acc ns ≡ map f es
    → (sums acc (bump_bucket es ns d) ≡ map (λ e. at_most e d + f e) es)
      × (total self (bump_bucket es ns d) ≤ total self ns + 1)
unfolding sums
bump-sums d acc [] [] f asc h same = unfold bump_bucket in (refl, omega arith)
bump-sums d acc [] (n ∷ ns) f asc h same = cc
bump-sums d acc (e ∷ es) [] f asc h same = cc
bump-sums d acc (e ∷ es) (n ∷ ns) f asc h same =
    let here : acc + n ≡ f e = cc in
    let later : sums (acc + n) ns ≡ map f es = cc in
    elim (Bool-cases (leb d e)) [
      | inl fits ↦
          let small : fetch_add n 1 ≡ n + 1 = omega arith in
          let moved : acc + (n + 1) ≡ acc + n + 1 = omega arith in
          rw (bump-here e d n es ns fits, small)
            (
              cons_eq (ground (arith, here)) (
                  ap (λ (a : ℕ). sums a ns) moved
                  ∙ shift d (acc + n) es ns f (All-below d e es (ground arith) asc.0) later),
              omega arith,
            )
      | inr slow ↦
          let (rest, bound) = bump-sums d (acc + n) es ns f asc.1 (omega arith) later in
          rw (bump-later e d n es ns slow)
            (cons_eq (ground (arith, here)) rest, omega (arith, bound))
    ]

buckets-Ascending : Ascending buckets
buckets-Ascending = ground arith

buckets-finished :
    (method : Text) (status elapsed : ℕ) (m : Metrics)
    → (request_finished method status elapsed m).duration_buckets
      ≡ bump_bucket buckets m.duration_buckets elapsed
unfolding request_finished
buckets-finished method status elapsed m = refl

map_same : (f g : ℕ → ℕ) (es : List ℕ) → ((e : ℕ) → f e ≡ g e) → map f es ≡ map g es
map_same f g es same = ap (λ (h : ℕ → ℕ). map h es) (fun_ext same)

finish-sums :
    (rs : List Finished) (m : Metrics) (f : ℕ → ℕ)
    → total self m.duration_buckets + length rs < 2 ^ 64
    → sums 0 m.duration_buckets ≡ map f buckets
    → (sums 0 (finish rs m).duration_buckets ≡ map (λ e. within_bound rs e + f e) buckets)
      × (total self (finish rs m).duration_buckets ≤ total self m.duration_buckets + length rs)
unfolding finish
finish-sums [] m f h same =
    (same ∙ map_same f (λ e. 0 + f e) buckets (λ e. omega arith), omega arith)
finish-sums ((method, status, elapsed) ∷ rs) m f h same =
    let m' : Metrics = request_finished method status elapsed m in
    let step : m'.duration_buckets ≡ bump_bucket buckets m.duration_buckets elapsed =
      buckets-finished method status elapsed m in
    let (one, bound) =
      bump-sums elapsed 0 buckets m.duration_buckets f buckets-Ascending (omega arith) same in
    let grown = ap (total self) step in
    let (all, most) =
      finish-sums rs m' (λ e. at_most e elapsed + f e) (omega (arith, grown, bound))
        (ap (sums 0) step ∙ one) in
    (
      all
          ∙ map_same (λ e. within_bound rs e + (at_most e elapsed + f e))
              (λ e. at_most e elapsed + within_bound rs e + f e) buckets (λ e. omega arith),
      omega (arith, most, grown, bound),
    )

fresh : sums 0 new.duration_buckets ≡ map (λ (e : ℕ). 0) buckets
unfolding sums new
fresh = refl

fresh_total : total self new.duration_buckets ≡ 0
unfolding new
fresh_total = refl

-- For fewer than 2 ^ 64 requests, the histogram that `encode` prints has at each bound the number of
-- requests that took at most that long.
pub cumulative-finish :
    (rs : List Finished)
    → length rs < 2 ^ 64
    → cumulative 0 (finish rs new).duration_buckets ≡ map (within_bound rs) buckets
cumulative-finish rs h =
    let (all, most) = finish-sums rs new (λ e. 0) (omega (arith, fresh_total)) fresh in
    cumulative-sums 0 (finish rs new).duration_buckets (omega (arith, most, fresh_total))
    ∙ all
    ∙ map_same (λ e. within_bound rs e + 0) (within_bound rs) buckets (λ e. omega arith)
