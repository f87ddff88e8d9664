-- ===== src/Cpu/Workers.antt =====
-- src/cpu.rs, `worker_threads_auto`: how many workers are started.
use oxide_http.Prelude.{◌≤◌, ◌<◌, Bool-cases, Option-cases, inl, inr, arith}
use oxide_http.Cpu.{F64, Machine, cgroup_cpu_quota, cores, worker_threads_auto}

module _ (f64 : F64) (machine : Machine) where
  -- Whatever the files of the cgroup hold, there is at least one worker, and no more than there are
  -- cores.
  pub worker_threads_auto-Between :
      0 < cores f64 machine
      → (1 ≤ worker_threads_auto f64 machine)
        × (worker_threads_auto f64 machine ≤ cores f64 machine)
  unfolding worker_threads_auto
  worker_threads_auto-Between h = elim (Option-cases (cgroup_cpu_quota f64 machine)) [
    | inl no_quota ↦ rw (no_quota, worker_threads_auto) (omega arith, omega arith)
    | inr (q, quota) ↦ elim (Bool-cases (f64.at_least_one q)) [
      | inl whole ↦ rw (quota, whole, worker_threads_auto) (omega arith, omega arith)
      | inr part ↦ rw (quota, part, worker_threads_auto) (omega arith, omega arith)
    ]
  ]
