-- ===== src/Tasks/Pool.antt =====
-- `ThreadPool` of test3/threadpool.h as steps of its workers and its clients. A task is a number.
use test_linux.Base.{
  ℕ, ◌≡◌, ◌<◌, Bool, true, false, not, ◌||◌, Option, none, some, List, [], ◌∷◌, ◌++◌, ◌==◌,
  if◌then◌else◌,
}

-- Where a worker stands: at the test of `while`, at the lock, at the predicate of `wait`, behind it
-- with a predicate that held, behind it with one that did not and the mutex still held, blocked, behind
-- the critical section with a task that it has not begun, in a task, or at its end.
pub data Pc : Type 0 where
  testing : Pc
  locking : Pc
  holding : Pc
  woken : Pc
  blocking : Pc
  asleep : Pc
  carrying : (task : ℕ) → Pc
  running : (task : ℕ) → Pc
  finished : Pc

-- `checked` are the tasks whose `submit` has seen the pool active; `submitted`, `popped` and `started`
-- are those that have ever been put in, taken out, and begun.
pub record ThreadPool : Type 0 where
  pub active_flag : Bool
  pub num_thread : ℕ
  pub owner : Option ℕ
  pub tasks : List ℕ
  pub pc : ℕ → Pc
  pub checked : List ℕ
  pub notified : Bool
  pub submitted : List ℕ
  pub popped : List ℕ
  pub started : List ℕ

-- `start` has created the threads.
abbrev pub start : (pool_size : ℕ) → ThreadPool
start pool_size = record {
  active_flag = true;
  num_thread = pool_size;
  owner = none;
  tasks = [];
  pc = λ i. testing;
  checked = [];
  notified = false;
  submitted = [];
  popped = [];
  started = [];
}

abbrev pub is_empty : List ℕ → Bool
is_empty [] = true
is_empty (t ∷ ts) = false

abbrev pub at : (ℕ → Pc) → ℕ → Pc → ℕ → Pc
at pc i p j = if j == i then p else pc j

abbrev pub goes : ThreadPool → ℕ → Pc → ThreadPool
goes s i p = record s { pc = at s.pc i p }

-- The rest of the critical section; the task is begun later, without the mutex.
unfoldable pub take_task : ThreadPool → ℕ → ThreadPool
take_task s i = elim s.tasks [
  | [] ↦ record s { owner = none; pc = at s.pc i (if s.active_flag then testing else finished) }
  | t ∷ ts ↦ record s {
    owner = none;
    tasks = ts;
    popped = s.popped ++ t ∷ [];
    pc = at s.pc i (carrying t);
  }
]

-- The next move of a worker, none if it has to wait.
unfoldable pub turn_from : Pc → ThreadPool → ℕ → Option ThreadPool
unfolding take_task
turn_from testing s i = some (goes s i (if s.active_flag then locking else finished))
turn_from locking s i = elim s.owner [
  | none ↦ some (record s { owner = some i; pc = at s.pc i holding })
  | some _ ↦ none
]
turn_from holding s i =
    some (goes s i (if not (is_empty s.tasks) || not s.active_flag then woken else blocking))
turn_from woken s i = some (take_task s i)
turn_from blocking s i = some (record s { owner = none; pc = at s.pc i asleep })
turn_from asleep s i = none
turn_from (carrying task) s i =
    some (record s { started = s.started ++ task ∷ []; pc = at s.pc i (running task) })
turn_from (running task) s i = some (goes s i testing)
turn_from finished s i = none

unfoldable pub worker_turn : ThreadPool → ℕ → Option ThreadPool
unfolding turn_from
worker_turn s i = turn_from (s.pc i) s i

-- The test of `submit`; none is its exception.
unfoldable pub submit_check : ℕ → ThreadPool → Option ThreadPool
submit_check task s = if s.active_flag then some (record s { checked = task ∷ s.checked }) else none

-- The push of `submit`, with the mutex.
unfoldable pub submit_push : ℕ → List ℕ → ThreadPool → Option ThreadPool
submit_push task rest s = elim s.owner [
  | some _ ↦ none
  | none ↦ some (record s {
    checked = rest;
    tasks = s.tasks ++ task ∷ [];
    submitted = s.submitted ++ task ∷ [];
  })
]

abbrev pub wake : Pc → Pc
wake asleep = locking
wake p = p

-- `stop` sets the flag without the mutex, then wakes all.
unfoldable pub stop_store : ThreadPool → ThreadPool
stop_store s = record s { active_flag = false }

unfoldable pub notify_all : ThreadPool → ThreadPool
notify_all s = record s { pc = λ i. wake (s.pc i); notified = true }

-- `notify_one` and a wake-up for no reason both wake one worker.
pub data Step : ThreadPool → ThreadPool → Type 0 where
  turns : {s t : ThreadPool} (i : ℕ) → i < s.num_thread → worker_turn s i ≡ some t → Step s t
  checks : {s t : ThreadPool} (task : ℕ) → submit_check task s ≡ some t → Step s t
  pushes :
      {s t : ThreadPool} (task : ℕ) (front back : List ℕ)
      → s.checked ≡ front ++ task ∷ back
      → submit_push task (front ++ back) s ≡ some t
      → Step s t
  wakes : {s : ThreadPool} (i : ℕ) → Step s (record s { pc = at s.pc i (wake (s.pc i)) })
  stores : {s : ThreadPool} → Step s (stop_store s)
  notifies : {s : ThreadPool} → s.active_flag ≡ false → Step s (notify_all s)

pub data Reach (pool_size : ℕ) : ThreadPool → Type 0 where
  begins : Reach pool_size (start pool_size)
  steps : {s t : ThreadPool} → Reach pool_size s → Step s t → Reach pool_size t
