-- ===== src/Pool/Examples.antt =====
-- The thread pool of 2.3.1-coroutine/server_mulport_epoll.c on concrete runs, and the theorems at
-- them.
use test_linux.Base.{times, ℕ, ◌+◌, ◌≡◌, ◌<◌, refl, inr, arith, some, [], ◌∷◌}
use test_linux.Pool.Workers.{
  top, looking, Pool, at, turn_at, worker_turn, workqueue_add_job, work, add, Reach, here, next,
  start,
}
use test_linux.Pool.Safety.{mutual_exclusion, jobs_kept}
use test_linux.Pool.Progress.{some_worker_goes_on}

-- A job is added, and worker 0 gets as far as the end of its inner loop.
abbrev queued : Pool
queued = record (start 2) { jobs = 5 ∷ []; added = 5 ∷ []; pc = at (start 2).pc 0 top }

abbrev locked : Pool
locked = record queued { owner = some 0; pc = at queued.pc 0 looking }

queued-Reach : Reach (start 2) queued
unfolding workqueue_add_job
queued-Reach = next here (add 5 0 (inr (λ i e. cc)) refl)

locked-Reach : Reach (start 2) locked
unfolding worker_turn turn_at
locked-Reach = next queued-Reach (work 0 (omega arith) refl)

mutual_exclusion_example : ◌≡◌ {A = ℕ} 0 0
mutual_exclusion_example = mutual_exclusion 0 0 locked-Reach refl refl

jobs_kept_example :
    times locked.added 5 ≡ times locked.jobs 5 + times locked.taken 5 + times locked.dropped 5
jobs_kept_example = jobs_kept 5 locked-Reach

some_worker_goes_on_example :
    (i : ℕ) × (t : Pool) × (i < locked.num_workers) × (worker_turn locked i ≡ some t)
some_worker_goes_on_example = some_worker_goes_on 5 [] (omega arith) locked-Reach (λ i. refl) refl
