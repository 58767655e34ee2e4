-- ===== src/Tasks/Carried.antt =====
-- How many workers of test3/threadpool.h have taken a task that they have not begun.
use native.Mathlib.Decide.{dec_lt}
use test_linux.Base.{ℕ, zero, suc, ◌+◌, ◌≤◌, ◌<◌, ◌≡◌, refl, ◌==◌, ne→==, if◌then◌else◌, arith}
use test_linux.Tasks.Pool.{
  Pc, testing, locking, holding, woken, blocking, asleep, carrying, running, finished, at, wake,
}

-- How many workers have a task that they have not begun.
abbrev pub carries : Pc → (task : ℕ) → ℕ
carries testing task = 0
carries locking task = 0
carries holding task = 0
carries woken task = 0
carries blocking task = 0
carries asleep task = 0
carries (carrying t) task = if t == task then 1 else 0
carries (running t) task = 0
carries finished task = 0

abbrev pub carried : (num_thread : ℕ) → (ℕ → Pc) → (task : ℕ) → ℕ
carried zero pc task = 0
carried (suc n) pc task = carries (pc n) task + carried n pc task

-- A worker that is not counted, and one that is, at a new place.
carried-beyond :
    (n i : ℕ) (pc : ℕ → Pc) (p : Pc) (task : ℕ)
    → n ≤ i
    → carried n (at pc i p) task ≡ carried n pc task
carried-beyond zero i pc p task h = refl
carried-beyond (suc n) i pc p task h = ground (arith, carried-beyond n i pc p task, ne→== n i)

pub carried-at :
    (n i : ℕ) (pc : ℕ → Pc) (p : Pc) (task : ℕ)
    → i < n
    → carried n (at pc i p) task + carries (pc i) task ≡ carried n pc task + carries p task
carried-at zero i pc p task h = absurd (omega arith)
carried-at (suc n) i pc p task h =
    ground (arith, carried-at n i pc p task, carried-beyond n i pc p task)

carries-wake : (p : Pc) (task : ℕ) → carries (wake p) task ≡ carries p task
carries-wake testing task = refl
carries-wake locking task = refl
carries-wake holding task = refl
carries-wake woken task = refl
carries-wake blocking task = refl
carries-wake asleep task = refl
carries-wake (carrying t) task = refl
carries-wake (running t) task = refl
carries-wake finished task = refl

pub carried-wake :
    (n : ℕ) (pc : ℕ → Pc) (task : ℕ) → carried n (λ i. wake (pc i)) task ≡ carried n pc task
carried-wake zero pc task = refl
carried-wake (suc n) pc task = omega (arith, carries-wake (pc n) task, carried-wake n pc task)

pub carried-one_woken :
    (n i : ℕ) (pc : ℕ → Pc) (task : ℕ) → carried n (at pc i (wake (pc i))) task ≡ carried n pc task
carried-one_woken n i pc task = elim (dec_lt i n) [
  | yes h ↦ omega (arith, carried-at n i pc (wake (pc i)) task h, carries-wake (pc i) task)
  | no h ↦ carried-beyond n i pc (wake (pc i)) task (omega arith)
]

pub carried-start : (n : ℕ) (task : ℕ) → carried n (λ i. testing) task ≡ 0
carried-start zero task = refl
carried-start (suc n) task = omega (arith, carried-start n task)
