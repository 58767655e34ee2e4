-- ===== src/Pool/Workers.antt =====
-- The workers of 2.3.1-coroutine/server_mulport_epoll.c at work: `worker_function`,
-- `workqueue_add_job` and `workqueue_shutdown`. A turn of a worker is what it does between two
-- points where another thread can interfere. `waiting_jobs` is the list of the jobs in the queue,
-- the head first; a job is a number. The critical sections of the thread that calls the queue's
-- functions are one turn each, made while no one holds `jobs_mutex`. `pthread_cond_signal` wakes
-- one worker that waits, if there is one; a wait may also end for no reason, as POSIX allows.
use test_linux.Base.{
  ℕ, Bool, true, false, Option, none, some, List, [], ◌∷◌, ◌++◌, ◌==◌, if◌then◌else◌, ◌≡◌, ◌≢◌, ◌<◌,
  ◌⊎◌,
}

-- Where a worker stands.
pub data Pc : Type 0 where
  top : Pc  -- before `pthread_mutex_lock`
  looking : Pc  -- at the test of the inner `while`, with the mutex
  waiting : Pc  -- in `pthread_cond_wait`, without the mutex
  signalled : Pc  -- woken there, before it has the mutex again
  leaving : Pc  -- after the inner `while`, with the mutex
  running : (job : ℕ) → Pc  -- in `job->job_function(job)`, without the mutex
  gone : Pc  -- after `pthread_exit`

pub record Pool : Type 0 where
  pub num_workers : ℕ
  pub owner : Option ℕ  -- who holds `jobs_mutex`
  pub jobs : List ℕ
  pub terminate : ℕ → Bool
  pub pc : ℕ → Pc
  -- The history, for the theorems: jobs added, taken by a worker, run to the end, and dropped.
  pub added : List ℕ
  pub taken : List ℕ
  pub finished : List ℕ
  pub dropped : List ℕ

abbrev pub at {ℓ} : {A : Type ℓ} → (ℕ → A) → ℕ → A → ℕ → A
at f i a j = if j == i then a else f j

abbrev move : Pool → ℕ → Pc → Pool
move s i p = record s { pc = at s.pc i p }

-- `pthread_mutex_lock`, at `top` and at the end of the wait.
unfoldable pub acquire : Pool → ℕ → Option Pool
acquire s i = elim (s.owner) [
  | none ↦ some (record s { owner = some i; pc = at s.pc i looking })
  | some _ ↦ none
]

-- The inner `while` and its `break`; the wait gives the mutex up.
unfoldable pub look : List ℕ → Pool → ℕ → Pool
look [] s i =
    if s.terminate i then move s i leaving else record s { owner = none; pc = at s.pc i waiting }
look (j ∷ js) s i = move s i leaving

-- From there to the end of the critical section: `break` out of the loop, with the mutex held, or
-- take the first job, if there is one.
unfoldable pub take_job : List ℕ → Pool → ℕ → Pool
take_job [] s i =
    if s.terminate i then move s i gone else record s { owner = none; pc = at s.pc i top }
take_job (j ∷ js) s i =
    if s.terminate i
    then move s i gone
    else record s { owner = none; jobs = js; pc = at s.pc i (running j); taken = j ∷ s.taken }

-- A turn of worker `i` that stands at the given place; none if it cannot go on.
unfoldable pub turn_at : Pc → Pool → ℕ → Option Pool
unfolding acquire look take_job
turn_at top s i = acquire s i
turn_at looking s i = some (look s.jobs s i)
turn_at waiting s i = none
turn_at signalled s i = acquire s i
turn_at leaving s i = some (take_job s.jobs s i)
turn_at (running j) s i = some (record s { pc = at s.pc i top; finished = j ∷ s.finished })
turn_at gone s i = none

unfoldable pub worker_turn : Pool → ℕ → Option Pool
unfolding turn_at
worker_turn s i = turn_at (s.pc i) s i

abbrev pub wake : Pc → Pc
wake waiting = signalled
wake p = p

-- The job is put in front, and `pthread_cond_signal` wakes `chosen`.
unfoldable pub workqueue_add_job : Pool → (job chosen : ℕ) → Option Pool
workqueue_add_job s j chosen = elim (s.owner) [
  | none ↦ some (record s {
    jobs = j ∷ s.jobs;
    pc = at s.pc chosen (wake (s.pc chosen));
    added = j ∷ s.added;
  })
  | some _ ↦ none
]

-- Whom `pthread_cond_signal` may wake: a worker that waits, if any does.
abbrev pub MayWake : Pool → (chosen : ℕ) → Type 0
MayWake s chosen = (chosen < s.num_workers) × (s.pc chosen ≡ waiting) ⊎ ((i : ℕ) → s.pc i ≢ waiting)

-- The first part of `workqueue_shutdown`: `worker->terminate = 1`, without the mutex.
unfoldable pub set_terminate : Pool → ℕ → Pool
set_terminate s i = record s { terminate = at s.terminate i true }

-- The second part, in the mutex: both lists are emptied, and `pthread_cond_broadcast` wakes all.
unfoldable pub drop_jobs : Pool → Option Pool
drop_jobs s = elim (s.owner) [
  | none ↦ some (record s { jobs = []; pc = λ i. wake (s.pc i); dropped = s.jobs ++ s.dropped })
  | some _ ↦ none
]

-- One turn of some thread.
pub data Step (s : Pool) : Pool → Type 0 where
  work : (i : ℕ) {t : Pool} → i < s.num_workers → worker_turn s i ≡ some t → Step s t
  add :
      (j chosen : ℕ) {t : Pool}
      → MayWake s chosen
      → workqueue_add_job s j chosen ≡ some t
      → Step s t
  wakes : (i : ℕ) → Step s (move s i (wake (s.pc i)))
  stop : (i : ℕ) → Step s (set_terminate s i)
  clear : {t : Pool} → drop_jobs s ≡ some t → Step s t

pub data Reach (s : Pool) : Pool → Type 0 where
  here : Reach s s
  next : {t u : Pool} → Reach s t → Step t u → Reach s u

-- After `workqueue_init` has started all workers.
abbrev pub start : (num_workers : ℕ) → Pool
start num_workers = record {
  num_workers = num_workers;
  owner = none;
  jobs = [];
  terminate = λ _. false;
  pc = λ _. top;
  added = [];
  taken = [];
  finished = [];
  dropped = [];
}
