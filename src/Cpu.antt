-- ===== src/Cpu.antt =====
-- src/cpu.rs: the number of workers from the cores and the cgroup quota. Floating point numbers, their
-- parser, quotient and rounding, and the files of the cgroup are parameters.
pub mod Workers
mod Tests
use oxide_http.Prelude.{
  ℕ, min, max, Text, codes, text_eq, trim, Option, none, some, List, [], ◌∷◌, ◌++◌, Bool, true,
  false, ◌||◌, if◌then◌else◌, is_space, unwrap_or,
}

-- `f64`: `parse`, `<= 0.0`, `>= 1.0`, `/`, and `ceil() as usize`.
pub record F64 : Type 1 where
  pub Float : Type 0
  pub parse : Text → Option Float
  pub not_positive : Float → Bool
  pub at_least_one : Float → Bool
  pub quotient : Float → Float → Float
  pub ceil : Float → ℕ

-- What `read_to_string` gives for each file, and `available_parallelism`.
pub record Machine : Type 0 where
  pub cpu_max : Option Text
  pub cfs_quota : Option Text
  pub cfs_period : Option Text
  pub parallelism : Option ℕ

infixl 5 ◌>>=◌
abbrev ◌>>=◌ {ℓ κ} : {A : Type ℓ} {B : Type κ} → Option A → (A → Option B) → Option B
none >>= f = none
some a >>= f = f a

word_from : Text → Text → List Text
word_from [] [] = []
word_from (c ∷ cur) [] = (c ∷ cur) ∷ []
word_from cur (c ∷ s) =
    let rest = word_from [] s in
    let same = word_from (cur ++ c ∷ []) s in
    if is_space c then (elim cur [ [] ↦ rest | x ∷ xs ↦ (x ∷ xs) ∷ rest ]) else same

-- `split_whitespace`.
unfoldable pub words : Text → List Text
unfolding word_from
words s = word_from [] s

abbrev head? : List Text → Option Text
head? [] = none
head? (w ∷ ws) = some w

abbrev rest : List Text → List Text
rest [] = []
rest (w ∷ ws) = ws

module _ (f64 : F64) (machine : Machine) where
  -- Both numbers above 0, and their quotient.
  quota_over : f64.Float → f64.Float → Option f64.Float
  quota_over quota period =
      if f64.not_positive quota then none else some (f64.quotient quota period)

  unfoldable pub cgroup_v2 : Option f64.Float
  unfolding words quota_over
  cgroup_v2 = do
    raw ← machine.cpu_max
    quota ← head? (words raw)
    period_text ← head? (rest (words raw))
    period ← f64.parse period_text
    (if text_eq quota (codes "max") || f64.not_positive period
        then none
        else f64.parse quota >>= λ q. quota_over q period)

  unfoldable pub cgroup_v1 : Option f64.Float
  unfolding trim quota_over
  cgroup_v1 = do
    quota_text ← machine.cfs_quota
    quota ← f64.parse (trim quota_text)
    period_text ← machine.cfs_period
    period ← f64.parse (trim period_text)
    (if f64.not_positive quota || f64.not_positive period
        then none
        else some (f64.quotient quota period))

  unfoldable pub cgroup_cpu_quota : Option f64.Float
  unfolding cgroup_v2 cgroup_v1
  cgroup_cpu_quota = elim cgroup_v2 [ some q ↦ some q | none ↦ cgroup_v1 ]

  abbrev pub cores : ℕ
  cores = unwrap_or machine.parallelism 1

  unfoldable pub worker_threads_auto : ℕ
  unfolding cgroup_cpu_quota
  worker_threads_auto = elim cgroup_cpu_quota [
    | none ↦ cores
    | some q ↦ if f64.at_least_one q then max (min (f64.ceil q) cores) 1 else 1
  ]
