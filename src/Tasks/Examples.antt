-- ===== src/Tasks/Examples.antt =====
-- A pool of one worker for test3/threadpool.h.
use test_linux.Base.{ℕ, ◌+◌, times, ◌≡◌, refl, true, false, none, some, [], ◌∷◌, ◌++◌, arith}
use test_linux.Tasks.Pool.{
  locking, holding, woken, blocking, asleep, carrying, ThreadPool, start, at, goes, take_task,
  turn_from, worker_turn, submit_check, submit_push, turns, checks, pushes, Reach, begins, steps,
}
use test_linux.Tasks.Carried.{carried}
use test_linux.Tasks.Safety.{tasks_in_order}
use test_linux.Tasks.Stop.{stop-lost}

-- The worker finds no task.
abbrev at_lock : ThreadPool
at_lock = goes (start 1) 0 locking

abbrev at_wait : ThreadPool
at_wait = record at_lock { owner = some 0; pc = at at_lock.pc 0 holding }

abbrev no_task : ThreadPool
no_task = goes at_wait 0 blocking

no_task-Reach : Reach 1 no_task
unfolding worker_turn turn_from
no_task-Reach =
    steps
      (steps (steps begins (turns {t = at_lock} 0 (omega arith) refl))
        (turns {s = at_lock} {t = at_wait} 0 (omega arith) refl))
      (turns {s = at_wait} {t = no_task} 0 (omega arith) refl)

-- The tasks 7 and 8 are put in, and the worker takes the first.
abbrev one_checked : ThreadPool
one_checked = record (start 1) { checked = 7 ∷ [] }

abbrev one_pushed : ThreadPool
one_pushed = record (start 1) { tasks = 7 ∷ []; submitted = 7 ∷ [] }

abbrev two_checked : ThreadPool
two_checked = record one_pushed { checked = 8 ∷ [] }

abbrev two_pushed : ThreadPool
two_pushed = record (start 1) { tasks = 7 ∷ 8 ∷ []; submitted = 7 ∷ 8 ∷ [] }

abbrev to_lock : ThreadPool
to_lock = goes two_pushed 0 locking

abbrev to_wait : ThreadPool
to_wait = record to_lock { owner = some 0; pc = at to_lock.pc 0 holding }

abbrev to_take : ThreadPool
to_take = goes to_wait 0 woken

abbrev one_taken : ThreadPool
one_taken = record to_take {
  owner = none;
  tasks = 8 ∷ [];
  popped = 7 ∷ [];
  pc = at to_take.pc 0 (carrying 7);
}

one_taken-Reach : Reach 1 one_taken
unfolding worker_turn turn_from take_task submit_check submit_push
one_taken-Reach =
    steps
      (steps
        (steps
          (steps
            (steps
              (steps
                (steps (steps begins (checks {t = one_checked} 7 refl))
                  (pushes {s = one_checked} {t = one_pushed} 7 [] [] refl refl))
                (checks {s = one_pushed} {t = two_checked} 8 refl))
              (pushes {s = two_checked} {t = two_pushed} 8 [] [] refl refl))
            (turns {s = two_pushed} {t = to_lock} 0 (omega arith) refl))
          (turns {s = to_lock} {t = to_wait} 0 (omega arith) refl))
        (turns {s = to_wait} {t = to_take} 0 (omega arith) refl))
      (turns {s = to_take} {t = one_taken} 0 (omega arith) refl)

tasks_in_order_example :
    (one_taken.popped ++ one_taken.tasks ≡ one_taken.submitted)
    × ((task : ℕ)
        → times one_taken.popped task ≡ times one_taken.started task + carried 1 one_taken.pc task)
tasks_in_order_example = tasks_in_order one_taken-Reach

stop-lost_example :
    (t : ThreadPool) × Reach 1 t
    × (t.active_flag ≡ false)
    × (t.notified ≡ true)
    × (t.pc 0 ≡ asleep)
    × (worker_turn t 0 ≡ none)
stop-lost_example = stop-lost 0 no_task-Reach (omega arith) refl
