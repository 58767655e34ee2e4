-- ===== src/Tasks/Safety.antt =====
-- What holds in every run of test3/threadpool.h.
use test_linux.Base.{
  ℕ, ◌≡◌, ◌+◌, ◌<◌, times, times-append, refl, sym, ap, ◌∙◌, Bool, true, false, some, List, [], ◌∷◌,
  ◌++◌, append_assoc, arith,
}
use test_linux.Tasks.Carried.{carried, carried-at, carried-wake, carried-one_woken, carried-start}
use test_linux.Tasks.Pool.{
  Pc, testing, locking, holding, woken, blocking, asleep, carrying, running, finished, ThreadPool,
  take_task, turn_from, worker_turn, submit_check, submit_push, wake, stop_store, notify_all, Step,
  turns, checks, pushes, wakes, stores, notifies, Reach, begins, steps,
}

-- Whether a worker is inside the critical section.
abbrev pub inside : Pc → Bool
inside holding = true
inside woken = true
inside blocking = true
inside testing = false
inside locking = false
inside asleep = false
inside (carrying task) = false
inside (running task) = false
inside finished = false

-- Only the thread that the mutex belongs to is inside.
abbrev Owned : ThreadPool → Type 0
Owned s = (i : ℕ) → inside (s.pc i) ≡ true → s.owner ≡ some i

-- The tasks have been taken in the order of their submission, and the queue has those that have
-- not.
abbrev Queued : ThreadPool → Type 0
Queued s = s.popped ++ s.tasks ≡ s.submitted

-- Each task that was taken is begun, or with a worker that has not begun it.
abbrev Begun : ThreadPool → Type 0
Begun s = (task : ℕ) → times s.popped task ≡ times s.started task + carried s.num_thread s.pc task

record Inv (s : ThreadPool) : Type 0 where
  owned : Owned s
  queued : Queued s
  begun : Begun s

turn_from-Owned :
    (p : Pc) (s t : ThreadPool) (i : ℕ) → s.pc i ≡ p → turn_from p s i ≡ some t → Owned s → Owned t
unfolding turn_from take_task
turn_from-Owned testing s t i stands e o k h = ground (arith, o k, o i)
turn_from-Owned locking s t i stands e o k h = ground (arith, o k, o i)
turn_from-Owned holding s t i stands e o k h = ground (arith, o k, o i)
turn_from-Owned woken s t i stands e o k h = ground (arith, o k, o i)
turn_from-Owned blocking s t i stands e o k h = ground (arith, o k, o i)
turn_from-Owned asleep s t i stands e o k h = cc
turn_from-Owned (carrying task) s t i stands e o k h = ground (arith, o k, o i)
turn_from-Owned (running task) s t i stands e o k h = ground (arith, o k, o i)
turn_from-Owned finished s t i stands e o k h = cc

take_task-Queued :
    (s : ThreadPool) (i : ℕ) (tasks : List ℕ) → s.tasks ≡ tasks → Queued s → Queued (take_task s i)
unfolding take_task
take_task-Queued s i [] e k = rw e (ap (λ (l : List ℕ). s.popped ++ l) (sym e) ∙ k)
take_task-Queued s i (t ∷ ts) e k =
    rw e (append_assoc s.popped (t ∷ []) ts ∙ (ap (λ (l : List ℕ). s.popped ++ l) (sym e) ∙ k))

turn_from-Queued :
    (p : Pc) (s t : ThreadPool) (i : ℕ) → turn_from p s i ≡ some t → Queued s → Queued t
unfolding turn_from
turn_from-Queued testing s t i e k = ground (arith, k)
turn_from-Queued locking s t i e k = ground (arith, k)
turn_from-Queued holding s t i e k = ground (arith, k)
turn_from-Queued woken s t i e k = ground (arith, take_task-Queued s i s.tasks refl k)
turn_from-Queued blocking s t i e k = ground (arith, k)
turn_from-Queued asleep s t i e k = cc
turn_from-Queued (carrying task) s t i e k = ground (arith, k)
turn_from-Queued (running task) s t i e k = ground (arith, k)
turn_from-Queued finished s t i e k = cc

take_task-Begun :
    (s : ThreadPool) (i : ℕ) (tasks : List ℕ)
    → i < s.num_thread
    → s.pc i ≡ woken
    → s.tasks ≡ tasks
    → Begun s
    → Begun (take_task s i)
unfolding take_task
take_task-Begun s i [] few stands e o k = rw e (
    ground (
      arith,
      o k,
      carried-at s.num_thread i s.pc testing k few,
      carried-at s.num_thread i s.pc finished k few,
    ))
take_task-Begun s i (t ∷ ts) few stands e o k = rw e (
    ground (
      arith,
      o k,
      carried-at s.num_thread i s.pc (carrying t) k few,
      times-append s.popped (t ∷ []) k,
    ))

module _ (s t : ThreadPool) (i : ℕ) (few : i < s.num_thread) where
  turn_from-Begun : (p : Pc) → s.pc i ≡ p → turn_from p s i ≡ some t → Begun s → Begun t
  unfolding turn_from
  turn_from-Begun testing stands e o k = ground (
    arith,
    o k,
    carried-at s.num_thread i s.pc locking k few,
    carried-at s.num_thread i s.pc finished k few,
  )
  turn_from-Begun locking stands e o k =
      ground (arith, o k, carried-at s.num_thread i s.pc holding k few)
  turn_from-Begun holding stands e o k = ground (
    arith,
    o k,
    carried-at s.num_thread i s.pc woken k few,
    carried-at s.num_thread i s.pc blocking k few,
  )
  turn_from-Begun woken stands e o k =
      let b = take_task-Begun s i s.tasks few stands refl o in ground (arith, b k)
  turn_from-Begun blocking stands e o k =
      ground (arith, o k, carried-at s.num_thread i s.pc asleep k few)
  turn_from-Begun asleep stands e o k = cc
  turn_from-Begun (carrying task) stands e o k = ground (
    arith,
    o k,
    carried-at s.num_thread i s.pc (running task) k few,
    times-append s.started (task ∷ []) k,
  )
  turn_from-Begun (running task) stands e o k =
      ground (arith, o k, carried-at s.num_thread i s.pc testing k few)
  turn_from-Begun finished stands e o k = cc

inside-wake : (p : Pc) → inside (wake p) ≡ inside p
inside-wake testing = refl
inside-wake locking = refl
inside-wake holding = refl
inside-wake woken = refl
inside-wake blocking = refl
inside-wake asleep = refl
inside-wake (carrying task) = refl
inside-wake (running task) = refl
inside-wake finished = refl

pushed-Queued :
    (s : ThreadPool) (task : ℕ)
    → Queued s
    → s.popped ++ (s.tasks ++ task ∷ []) ≡ s.submitted ++ task ∷ []
pushed-Queued s task k =
    sym (append_assoc s.popped s.tasks (task ∷ [])) ∙ ap (λ (l : List ℕ). l ++ task ∷ []) k

Step-Inv : {s t : ThreadPool} → Step s t → Inv s → Inv t
unfolding worker_turn submit_check submit_push stop_store notify_all
Step-Inv {s} (turns {t} i few e) inv = record {
  owned = turn_from-Owned (s.pc i) s t i refl e inv.owned;
  queued = turn_from-Queued (s.pc i) s t i e inv.queued;
  begun = turn_from-Begun s t i few (s.pc i) refl e inv.begun;
}
Step-Inv {s} (checks task e) inv = record {
  owned = λ i h. ground (arith, inv.owned i);
  queued = ground (arith, inv.queued);
  begun = λ k. ground (arith, inv.begun k);
}
Step-Inv {s} (pushes task front back in_checked e) inv = record {
  owned = λ i h. ground (arith, inv.owned i);
  queued = ground (arith, pushed-Queued s task inv.queued);
  begun = λ k. ground (arith, inv.begun k);
}
Step-Inv {s} (wakes i) inv = record {
  owned = λ k h. ground (arith, inv.owned k, inv.owned i, inside-wake (s.pc i));
  queued = inv.queued;
  begun = λ k. ground (arith, inv.begun k, carried-one_woken s.num_thread i s.pc k);
}
Step-Inv {s} stores inv = record { owned = inv.owned; queued = inv.queued; begun = inv.begun }
Step-Inv {s} (notifies off) inv = record {
  owned = λ i h. inv.owned i (sym (inside-wake (s.pc i)) ∙ h);
  queued = inv.queued;
  begun = λ k. ground (arith, inv.begun k, carried-wake s.num_thread s.pc k);
}

Reach-Inv : {pool_size : ℕ} {s : ThreadPool} → Reach pool_size s → Inv s
Reach-Inv {pool_size} begins = record {
  owned = λ i h. ground arith;
  queued = refl;
  begun = λ k. omega (arith, carried-start pool_size k);
}
Reach-Inv (steps r step) = Step-Inv step (Reach-Inv r)

-- In every run: the workers take the tasks out of the queue in the order in which they were
-- submitted, each once, and those not taken are in the queue; and each task is begun, outside the
-- critical section and so perhaps in another order, as often as it was taken, less the workers that
-- have taken it and not begun it yet.
pub tasks_in_order :
    {pool_size : ℕ} {s : ThreadPool}
    → Reach pool_size s
    → (s.popped ++ s.tasks ≡ s.submitted)
      × ((task : ℕ) → times s.popped task ≡ times s.started task + carried s.num_thread s.pc task)
tasks_in_order r = let inv = Reach-Inv r in (inv.queued, inv.begun)

-- In every run at most one worker is inside the critical section.
pub one_worker_inside :
    {pool_size : ℕ} {s : ThreadPool} (i j : ℕ)
    → Reach pool_size s
    → inside (s.pc i) ≡ true
    → inside (s.pc j) ≡ true
    → i ≡ j
one_worker_inside i j r h k = ground (arith, (Reach-Inv r).owned i h, (Reach-Inv r).owned j k)
