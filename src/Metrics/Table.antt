-- ===== src/Metrics/Table.antt =====
-- src/metrics.rs: the table of counters, one for each method and class.
use oxide_http.Prelude.{
  ℕ, zero, suc, ◌+◌, ◌≤◌, ◌<◌, ◌^◌, Text, List, [], ◌∷◌, ◌≡◌, refl, sym, ◌∙◌, ap, arith, some,
  length, total, total-set, get_elem?, set,
}
use oxide_http.Metrics.{fetch_add, position, method_index, class_index, count_request, methods}

abbrev pub self : ℕ → ℕ
self n = n

-- All the counters of requests together.
abbrev pub counted : List (List ℕ) → ℕ
counted rows = total (total self) rows

-- The table has a row for each method and a counter for each class.
unfoldable pub Wide : List (List ℕ) → Type 0
Wide [] = Unit
Wide (row ∷ rows) = (length row ≡ 5) × Wide rows

get_elem?-here {ℓ} :
    {A : Type ℓ} (xs : List A) (i : ℕ) → i < length xs → (x : A) × (get_elem? xs i ≡ some x)
get_elem?-here [] i h = absurd (omega arith)
get_elem?-here (x ∷ xs) zero h = (x, refl)
get_elem?-here (x ∷ xs) (suc i) h = get_elem?-here xs i (omega arith)

Wide-row :
    (rows : List (List ℕ)) (i : ℕ) (row : List ℕ)
    → Wide rows
    → get_elem? rows i ≡ some row
    → length row ≡ 5
unfolding Wide
Wide-row [] i row w e = cc
Wide-row (r ∷ rows) zero row w e = let same : r ≡ row = cc in ap length (sym same) ∙ w.0
Wide-row (r ∷ rows) (suc i) row w e = Wide-row rows i row w.1 e

length-set {ℓ} : {A : Type ℓ} (xs : List A) (i : ℕ) (x : A) → length (set xs i x) ≡ length xs
length-set [] i x = refl
length-set (y ∷ xs) zero x = refl
length-set (y ∷ xs) (suc i) x = omega (arith, length-set xs i x)

Wide-set :
    (rows : List (List ℕ)) (i : ℕ) (row : List ℕ)
    → Wide rows
    → length row ≡ 5
    → Wide (set rows i row)
unfolding Wide
Wide-set [] i row w h = tt
Wide-set (r ∷ rows) zero row w h = (h, w.1)
Wide-set (r ∷ rows) (suc i) row w h = (w.0, Wide-set rows i row w.1 h)

pub class_index-lt : (status : ℕ) → class_index status < 5
unfolding class_index
class_index-lt status = ground arith

position-lt :
    (method : Text) (ms : List Text) (i : ℕ) → i + length ms ≤ 9 → position method ms i < 9
unfolding position
position-lt method [] i h = omega arith
position-lt method (m ∷ ms) i h = ground (arith, position-lt method ms (suc i))

count_request-there :
    (rows : List (List ℕ)) (m c : ℕ) (row : List ℕ) (n : ℕ)
    → get_elem? rows m ≡ some row
    → get_elem? row c ≡ some n
    → count_request rows m c ≡ set rows m (set row c (fetch_add n 1))
unfolding count_request
count_request-there rows m c row n e f = rw (e, f, count_request) refl

-- One counter of the table goes up by one.
pub record Counts (rows rows' : List (List ℕ)) : Type 0 where
  pub wide : Wide rows'
  pub long : length rows' ≡ 9
  pub more : counted rows' ≡ counted rows + 1

member-le : (xs : List ℕ) (i n : ℕ) → get_elem? xs i ≡ some n → n ≤ total self xs
member-le [] i n e = cc
member-le (x ∷ xs) zero n e = let same : x ≡ n = cc in omega (arith, same)
member-le (x ∷ xs) (suc i) n e = omega (arith, member-le xs i n e)

row-le :
    (rows : List (List ℕ)) (i : ℕ) (row : List ℕ)
    → get_elem? rows i ≡ some row
    → total self row ≤ counted rows
row-le [] i row e = cc
row-le (r ∷ rows) zero row e = let same : r ≡ row = cc in omega (arith, ap (total self) same)
row-le (r ∷ rows) (suc i) row e = omega (arith, row-le rows i row e)

pub count_request-Counts :
    (rows : List (List ℕ)) (m c : ℕ)
    → Wide rows
    → length rows ≡ 9
    → m < 9
    → c < 5
    → counted rows + 1 < 2 ^ 64
    → Counts rows (count_request rows m c)
count_request-Counts rows m c w l hm hc small =
    let (row, here) = get_elem?-here rows m (omega arith) in
    let wide = Wide-row rows m row w here in
    let (n, there) = get_elem?-here row c (omega arith) in
    let exact : fetch_add n 1 ≡ n + 1 =
      omega (arith, member-le row c n there, row-le rows m row here) in
    rw (count_request-there rows m c row n here there, exact)
      (record {
        wide = Wide-set rows m (set row c (n + 1)) w (length-set row c (n + 1) ∙ wide);
        long = length-set rows m (set row c (n + 1)) ∙ l;
        more = omega (
          arith,
          total-set (total self) rows m row (set row c (n + 1)) here,
          total-set self row c n (n + 1) there,
        );
      })

pub method_index-lt : (method : Text) → method_index method < 9
unfolding method_index
method_index-lt method = position-lt method methods 0 (omega arith)
