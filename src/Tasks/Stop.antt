-- ===== src/Tasks/Stop.antt =====
-- What `stop` of test3/threadpool.h can leave behind.
use test_linux.Base.{ℕ, ◌<◌, ◌≡◌, refl, true, false, none, arith}
use test_linux.Tasks.Pool.{
  testing, blocking, asleep, running, finished, ThreadPool, at, turn_from, worker_turn, wake,
  stop_store, notify_all, turns, stores, notifies, Reach, steps,
}

module _ {pool_size : ℕ} {s : ThreadPool} (i : ℕ) (r : Reach pool_size s)
    (few : i < s.num_thread) where
  -- From every reachable state in which a worker has found its predicate false, and has not blocked
  -- yet, there is a run in which `stop` sets the flag and notifies all in between: then the pool is
  -- not active, all have been notified, and the worker is blocked with no turn of its own.
  pub stop-lost :
      s.pc i ≡ blocking
      → (t : ThreadPool) × Reach pool_size t
        × (t.active_flag ≡ false)
        × (t.notified ≡ true)
        × (t.pc i ≡ asleep)
        × (worker_turn t i ≡ none)
  unfolding worker_turn turn_from stop_store notify_all
  stop-lost stands = (
    last,
    steps (steps (steps r stores) (notifies refl)) (turns i few (ground (arith, stands))),
    refl,
    refl,
    slept,
    rw slept refl,
  )
    where
      last : ThreadPool
      last = record (notify_all (stop_store s)) {
        owner = none;
        pc = at (λ j. wake (s.pc j)) i asleep;
      }

      slept : at (λ j. wake (s.pc j)) i asleep i ≡ asleep
      slept = ground arith

  -- From every reachable state in which a worker is in a task, there is a run in which `stop` sets
  -- the flag: then the worker has ended, without a look at the queue, which is as it was.
  pub stop-drops :
      (task : ℕ)
      → s.pc i ≡ running task
      → (t : ThreadPool) × Reach pool_size t
        × (t.tasks ≡ s.tasks)
        × (t.pc i ≡ finished)
        × (worker_turn t i ≡ none)
  unfolding worker_turn turn_from stop_store
  stop-drops task stands = (
    last,
    steps (steps (steps r stores) (turns {t = mid} i few (ground (arith, stands))))
        (turns {s = mid} i few (ground (arith, stands))),
    refl,
    over,
    rw over refl,
  )
    where
      mid : ThreadPool
      mid = record (stop_store s) { pc = at s.pc i testing }

      last : ThreadPool
      last = record (stop_store s) { pc = at (at s.pc i testing) i finished }

      over : at (at s.pc i testing) i finished i ≡ finished
      over = ground arith
