-- ===== src/Cpu/Tests.antt =====
-- src/cpu.rs: a limit of two and a half cores on a machine of eight. A float is a fraction here.
use oxide_http.Prelude.{
  ℕ, ◌+◌, ◌-◌, ◌*◌, ◌/◌, codes, parse_u64, text_eq, none, some, leb, ◌==◌, ◌≡◌, refl,
}
use mathlib.Core.Option
use oxide_http.Cpu.{F64, Machine, worker_threads_auto}

abbrev fractions : F64
fractions = record {
  Float = ℕ × ℕ;
  parse = λ s. Option.map (λ (n : ℕ). (n, 1)) (parse_u64 s);
  not_positive = λ x. x.0 == 0;
  at_least_one = λ x. leb x.1 x.0;
  quotient = λ x y. (x.0 * y.1, x.1 * y.0);
  ceil = λ x. (x.0 + x.1 - 1) / x.1;
}

abbrev pod : Machine
pod = record {
  cpu_max = some (codes "250000 100000\n");
  cfs_quota = none;
  cfs_period = none;
  parallelism = some 8;
}

three_workers : worker_threads_auto fractions pod ≡ 3
unfolding worker_threads_auto parse_u64 text_eq
three_workers = refl
