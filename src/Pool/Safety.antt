-- ===== src/Pool/Safety.antt =====
-- What holds of the pool of 2.3.1-coroutine/server_mulport_epoll.c in every reachable state, and
-- what a worker that exits leaves behind.
use test_linux.Base.{times, times-append, ℕ, ◌+◌, ◌≡◌, refl, Bool, true, false, some, arith}
use test_linux.Pool.Workers.{
  Pc, top, looking, waiting, signalled, leaving, running, gone, Pool, worker_turn, turn_at,
  workqueue_add_job, set_terminate, drop_jobs, Step, work, add, wakes, wake, stop, clear, Reach,
  here, next, start,
}

-- The places where a worker holds `jobs_mutex`: a worker that has exited is one.
abbrev pub holds : Pc → Bool
holds looking = true
holds leaving = true
holds gone = true
holds _ = false

abbrev Owned : Pool → Type 0
Owned s = (i : ℕ) → holds (s.pc i) ≡ true → s.owner ≡ some i

abbrev Kept : Pool → Type 0
Kept s = (j : ℕ) → times s.added j ≡ times s.jobs j + times s.taken j + times s.dropped j

record Inv (s : Pool) : Type 0 where
  owned : Owned s
  kept : Kept s

turn_at-Owned :
    (p : Pc) (s t : Pool) (i : ℕ) → s.pc i ≡ p → turn_at p s i ≡ some t → Owned s → Owned t
unfolding turn_at
turn_at-Owned top s t i stands e o k h = ground (arith, o k, o i)
turn_at-Owned looking s t i stands e o k h = ground (arith, o k, o i)
turn_at-Owned waiting s t i stands e o k h = cc
turn_at-Owned signalled s t i stands e o k h = ground (arith, o k, o i)
turn_at-Owned leaving s t i stands e o k h = ground (arith, o k, o i)
turn_at-Owned (running j) s t i stands e o k h = ground (arith, o k, o i)
turn_at-Owned gone s t i stands e o k h = cc

turn_at-Kept : (p : Pc) (s t : Pool) (i : ℕ) → turn_at p s i ≡ some t → Kept s → Kept t
unfolding turn_at
turn_at-Kept top s t i e o k = ground (arith, o k)
turn_at-Kept looking s t i e o k = ground (arith, o k)
turn_at-Kept waiting s t i e o k = cc
turn_at-Kept signalled s t i e o k = ground (arith, o k)
turn_at-Kept leaving s t i e o k = ground (arith, o k)
turn_at-Kept (running j) s t i e o k = ground (arith, o k)
turn_at-Kept gone s t i e o k = cc

pub holds-wake : (p : Pc) → holds (wake p) ≡ holds p
holds-wake top = refl
holds-wake looking = refl
holds-wake waiting = refl
holds-wake signalled = refl
holds-wake leaving = refl
holds-wake (running j) = refl
holds-wake gone = refl

Step-Inv : {s t : Pool} → Step s t → Inv s → Inv t
unfolding worker_turn workqueue_add_job set_terminate drop_jobs
Step-Inv {s} (work i {t} few e) inv = record {
  owned = turn_at-Owned (s.pc i) s t i refl e inv.owned;
  kept = turn_at-Kept (s.pc i) s t i e inv.kept;
}
Step-Inv {s} (add j chosen may e) inv = record {
  owned = λ i h. ground (arith, inv.owned i, inv.owned chosen, holds-wake (s.pc chosen));
  kept = λ k. ground (arith, inv.kept k);
}
Step-Inv {s} (wakes i) inv = record {
  owned = λ k h. ground (arith, inv.owned k, inv.owned i, holds-wake (s.pc i));
  kept = inv.kept;
}
Step-Inv {s} (stop i) inv = record { owned = inv.owned; kept = inv.kept }
Step-Inv {s} (clear e) inv = record {
  owned = λ i h. ground (arith, inv.owned i, holds-wake (s.pc i));
  kept = λ k. ground (arith, inv.kept k, times-append s.jobs s.dropped k);
}

Inv-start : {num_workers : ℕ} → Inv (start num_workers)
Inv-start = record { owned = λ i h. cc; kept = λ j. refl }

Reach-Inv : {s t : Pool} → Inv s → Reach s t → Inv t
Reach-Inv inv here = inv
Reach-Inv inv (next r st) = Step-Inv st (Reach-Inv inv r)

-- In every run from the start, two workers are never both between taking `jobs_mutex` and giving it
-- up.
pub mutual_exclusion :
    {num_workers : ℕ} {s : Pool} (i j : ℕ)
    → Reach (start num_workers) s
    → holds (s.pc i) ≡ true
    → holds (s.pc j) ≡ true
    → i ≡ j
mutual_exclusion i j r in_i in_j = let o = (Reach-Inv Inv-start r).owned in ground (arith, o i, o j)

-- In every run from the start, no job is lost or taken twice: every job is as often in the queue,
-- with a worker, or dropped by the shutdown as it was added.
pub jobs_kept :
    {num_workers : ℕ} {s : Pool} (j : ℕ)
    → Reach (start num_workers) s
    → times s.added j ≡ times s.jobs j + times s.taken j + times s.dropped j
jobs_kept j r = (Reach-Inv Inv-start r).kept j

-- What stays as it is once worker `i` has exited.
record Frozen (i : ℕ) (s t : Pool) : Type 0 where
  pub owner : t.owner ≡ some i
  pub exited : t.pc i ≡ gone
  pub jobs : t.jobs ≡ s.jobs
  pub taken : t.taken ≡ s.taken
  pub added : t.added ≡ s.added

turn_at-Frozen :
    (p : Pc) (s t u : Pool) (i k : ℕ)
    → t.pc k ≡ p
    → turn_at p t k ≡ some u
    → Owned t
    → Frozen i s t
    → Frozen i s u
unfolding turn_at
turn_at-Frozen top s t u i k stands e o f = ground arith
turn_at-Frozen looking s t u i k stands e o f = ground (arith, o k)
turn_at-Frozen waiting s t u i k stands e o f = cc
turn_at-Frozen signalled s t u i k stands e o f = ground arith
turn_at-Frozen leaving s t u i k stands e o f = ground (arith, o k)
turn_at-Frozen (running j) s t u i k stands e o f = ground arith
turn_at-Frozen gone s t u i k stands e o f = cc

Step-Frozen : {s t u : Pool} {i : ℕ} → Step t u → Inv t → Frozen i s t → Frozen i s u
unfolding worker_turn workqueue_add_job set_terminate drop_jobs
Step-Frozen {s} {t} {i} (work k {t = u} few e) inv f =
    turn_at-Frozen (t.pc k) s t u i k refl e inv.owned f
Step-Frozen (add j chosen may e) inv f = ground arith
Step-Frozen {t} {i} (wakes k) inv f = record {
  owner = f.owner;
  exited = ground (arith, f.exited);
  jobs = f.jobs;
  taken = f.taken;
  added = f.added;
}
Step-Frozen (stop k) inv f = record {
  owner = f.owner;
  exited = f.exited;
  jobs = f.jobs;
  taken = f.taken;
  added = f.added;
}
Step-Frozen (clear e) inv f = ground arith

Reach-Frozen : {s t : Pool} {i : ℕ} → Inv s → Reach s t → s.pc i ≡ gone → Frozen i s t
Reach-Frozen {i} inv here e = record {
  owner = inv.owned i (rw e);
  exited = e;
  jobs = refl;
  taken = refl;
  added = refl;
}
Reach-Frozen inv (next r st) e = Step-Frozen st (Reach-Inv inv r) (Reach-Frozen inv r e)

-- A worker that exits on `terminate` takes `jobs_mutex` with it: from then on, whatever the threads
-- do, it stays the owner, no job is added, taken or dropped, and no other worker ever exits.
pub exit-keeps_mutex :
    {num_workers : ℕ} {s t : Pool} (i : ℕ)
    → Reach (start num_workers) s
    → s.pc i ≡ gone
    → Reach s t
    → (t.owner ≡ some i)
      × (t.jobs ≡ s.jobs)
      × (t.taken ≡ s.taken)
      × (t.added ≡ s.added)
      × ((j : ℕ) → t.pc j ≡ gone → j ≡ i)
exit-keeps_mutex {s} {t} i r e r' =
    (f.owner, f.jobs, f.taken, f.added, λ j e'. ground (arith, f.owner, (Reach-Inv inv r').owned j))
  where
    inv : Inv s
    inv = Reach-Inv Inv-start r

    f : Frozen i s t
    f = Reach-Frozen inv r' e
