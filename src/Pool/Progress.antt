-- ===== src/Pool/Progress.antt =====
-- That the workers of 2.3.1-coroutine/server_mulport_epoll.c never all stand still while a job is
-- queued: what the signal of `workqueue_add_job` is for.
use test_linux.Base.{
  ℕ, ◌<◌, ◌≡◌, ◌≢◌, refl, ◌∙◌, ◌⊎◌, inl, inr, Bool, true, false, Option, none, some, List, [], ◌∷◌,
  arith,
}
use test_linux.Pool.Workers.{
  Pc, top, looking, waiting, signalled, leaving, running, gone, Pool, at, wake, worker_turn,
  turn_at, workqueue_add_job, set_terminate, drop_jobs, Step, work, add, wakes, stop, clear, Reach,
  here, next, start,
}
use test_linux.Pool.Safety.{holds, holds-wake}

abbrev waits : Pc → Bool
waits waiting = true
waits _ = false

abbrev is_gone : Pc → Bool
is_gone gone = true
is_gone _ = false

-- While a job is queued, some worker does not wait.
abbrev Watched : Pool → Type 0
Watched s = (s.jobs ≡ []) ⊎ (i : ℕ) × (i < s.num_workers) × (waits (s.pc i) ≡ false)

-- The mutex belongs to a worker that is where it holds the mutex, and only a worker that is told to
-- terminate has exited.
record Inv (s : Pool) : Type 0 where
  holder : (i : ℕ) → s.owner ≡ some i → (i < s.num_workers) × (holds (s.pc i) ≡ true)
  told : (i : ℕ) → is_gone (s.pc i) ≡ true → s.terminate i ≡ true
  watched : Watched s

module _ (s t : Pool) (i : ℕ) (few : i < s.num_workers) where
  turn_at-holder :
      (p : Pc)
      → s.pc i ≡ p
      → turn_at p s i ≡ some t
      → ((k : ℕ) → s.owner ≡ some k → (k < s.num_workers) × (holds (s.pc k) ≡ true))
      → (k : ℕ) → t.owner ≡ some k
      → (k < t.num_workers) × (holds (t.pc k) ≡ true)
  unfolding turn_at
  turn_at-holder top stands e o k h = (ground (arith, o k), ground (arith, o k))
  turn_at-holder looking stands e o k h = (ground (arith, o k), ground (arith, o k))
  turn_at-holder waiting stands e o k h = cc
  turn_at-holder signalled stands e o k h = (ground (arith, o k), ground (arith, o k))
  turn_at-holder leaving stands e o k h = (ground (arith, o k), ground (arith, o k))
  turn_at-holder (running j) stands e o k h = (ground (arith, o k), ground (arith, o k))
  turn_at-holder gone stands e o k h = cc

  turn_at-told :
      (p : Pc)
      → s.pc i ≡ p
      → turn_at p s i ≡ some t
      → ((k : ℕ) → is_gone (s.pc k) ≡ true → s.terminate k ≡ true)
      → (k : ℕ) → is_gone (t.pc k) ≡ true
      → t.terminate k ≡ true
  unfolding turn_at
  turn_at-told top stands e o k h = ground (arith, o k)
  turn_at-told looking stands e o k h = ground (arith, o k)
  turn_at-told waiting stands e o k h = cc
  turn_at-told signalled stands e o k h = ground (arith, o k)
  turn_at-told leaving stands e o k h = ground (arith, o k)
  turn_at-told (running j) stands e o k h = ground (arith, o k)
  turn_at-told gone stands e o k h = cc

  -- After its turn a worker does not wait, unless it has seen no job.
  turn_at-watched :
      (p : Pc)
      → turn_at p s i ≡ some t
      → (t.jobs ≡ []) ⊎ (i < t.num_workers) × (waits (t.pc i) ≡ false)
  unfolding turn_at
  turn_at-watched top e = inr (ground arith, ground arith)
  turn_at-watched looking e = looked s.jobs refl
    where
      looked :
          (js : List ℕ)
          → s.jobs ≡ js
          → (t.jobs ≡ []) ⊎ (i < t.num_workers) × (waits (t.pc i) ≡ false)
      looked [] none_left = inl (ground arith)
      looked (j ∷ js) queued = inr (ground arith, ground arith)
  turn_at-watched waiting e = cc
  turn_at-watched signalled e = inr (ground arith, ground arith)
  turn_at-watched leaving e = inr (ground arith, ground arith)
  turn_at-watched (running j) e = inr (ground arith, ground arith)
  turn_at-watched gone e = cc

waits-wake : (p : Pc) → waits (wake p) ≡ false
waits-wake top = refl
waits-wake looking = refl
waits-wake waiting = refl
waits-wake signalled = refl
waits-wake leaving = refl
waits-wake (running j) = refl
waits-wake gone = refl

is_gone-wake : (p : Pc) → is_gone (wake p) ≡ is_gone p
is_gone-wake top = refl
is_gone-wake looking = refl
is_gone-wake waiting = refl
is_gone-wake signalled = refl
is_gone-wake leaving = refl
is_gone-wake (running j) = refl
is_gone-wake gone = refl

-- The worker that the signal wakes does not wait, or none did.
chosen_watched :
    (s : Pool) (chosen : ℕ)
    → 0 < s.num_workers
    → (chosen < s.num_workers) × (s.pc chosen ≡ waiting) ⊎ ((i : ℕ) → s.pc i ≢ waiting)
    → (i : ℕ) × (i < s.num_workers) × (waits (at s.pc chosen (wake (s.pc chosen)) i) ≡ false)
chosen_watched s chosen some_worker (inl (few, asleep)) =
    (chosen, few, ground (arith, waits-wake (s.pc chosen)))
chosen_watched s chosen some_worker (inr none_waits) =
    (0, some_worker, ground (arith, waits-wake (s.pc chosen), stands (s.pc 0) (none_waits 0)))
  where
    stands : (p : Pc) → p ≢ waiting → waits p ≡ false
    stands waiting ne = absurd (ne refl)
    stands top ne = refl
    stands looking ne = refl
    stands signalled ne = refl
    stands leaving ne = refl
    stands (running j) ne = refl
    stands gone ne = refl

wake-Watched :
    (s : Pool) (i : ℕ) → Watched s → Watched (record s { pc = at s.pc i (wake (s.pc i)) })
wake-Watched s i (inl empty) = inl empty
wake-Watched s i (inr (k, few, awake)) = inr (k, few, ground (arith, awake, waits-wake (s.pc i)))

worker_turn-num_workers :
    (p : Pc) (s t : Pool) (i : ℕ) → turn_at p s i ≡ some t → t.num_workers ≡ s.num_workers
unfolding turn_at
worker_turn-num_workers top s t i e = ground arith
worker_turn-num_workers looking s t i e = ground arith
worker_turn-num_workers waiting s t i e = cc
worker_turn-num_workers signalled s t i e = ground arith
worker_turn-num_workers leaving s t i e = ground arith
worker_turn-num_workers (running j) s t i e = ground arith
worker_turn-num_workers gone s t i e = cc

turn-Watched :
    (t : Pool) (i : ℕ) → (t.jobs ≡ []) ⊎ (i < t.num_workers) × (waits (t.pc i) ≡ false) → Watched t
turn-Watched t i (inl empty) = inl empty
turn-Watched t i (inr (few, awake)) = inr (i, few, awake)

added-Inv :
    (s t : Pool) (j chosen : ℕ)
    → 0 < s.num_workers
    → (chosen < s.num_workers) × (s.pc chosen ≡ waiting) ⊎ ((i : ℕ) → s.pc i ≢ waiting)
    → workqueue_add_job s j chosen ≡ some t
    → Inv s
    → Inv t
unfolding workqueue_add_job
added-Inv s t j chosen some_worker may e inv =
    let (k, few, awake) = chosen_watched s chosen some_worker may in
    record {
      holder = λ i h. (ground (arith, inv.holder i), ground (arith, inv.holder i));
      told = λ i h. ground (arith, inv.told i, inv.told chosen, is_gone-wake (s.pc chosen));
      watched = inr (k, ground arith, ground arith);
    }

Step-Inv : {s t : Pool} → 0 < s.num_workers → Step s t → Inv s → Inv t
unfolding worker_turn set_terminate drop_jobs
Step-Inv {s} some_worker (work i {t} few e) inv = record {
  holder = turn_at-holder s t i few (s.pc i) refl e inv.holder;
  told = turn_at-told s t i few (s.pc i) refl e inv.told;
  watched = turn-Watched t i (turn_at-watched s t i few (s.pc i) e);
}
Step-Inv {s} some_worker (add j chosen {t} may e) inv = added-Inv s t j chosen some_worker may e inv
Step-Inv {s} some_worker (wakes i) inv = record {
  holder = λ k h. (ground (arith, inv.holder k), ground (arith, inv.holder k, holds-wake (s.pc i)));
  told = λ k h. ground (arith, inv.told k, inv.told i, is_gone-wake (s.pc i));
  watched = wake-Watched s i inv.watched;
}
Step-Inv {s} some_worker (stop i) inv = record {
  holder = inv.holder;
  told = λ k h. ground (arith, inv.told k);
  watched = inv.watched;
}
Step-Inv {s} some_worker (clear {t} e) inv = record {
  holder = λ k h. (ground (arith, inv.holder k), ground (arith, inv.holder k));
  told = λ k h. ground (arith, inv.told k, is_gone-wake (s.pc k));
  watched = inl (ground arith);
}

Step-num_workers : {s t : Pool} → Step s t → t.num_workers ≡ s.num_workers
unfolding worker_turn workqueue_add_job set_terminate drop_jobs
Step-num_workers {s} (work i {t} few e) = worker_turn-num_workers (s.pc i) s t i e
Step-num_workers (add j chosen may e) = ground arith
Step-num_workers (wakes i) = refl
Step-num_workers (stop i) = refl
Step-num_workers (clear e) = ground arith

Reach-num_workers :
    {num_workers : ℕ} {s : Pool} → Reach (start num_workers) s → s.num_workers ≡ num_workers
Reach-num_workers here = refl
Reach-num_workers (next r st) = Step-num_workers st ∙ Reach-num_workers r

Reach-Inv : {num_workers : ℕ} {s : Pool} → 0 < num_workers → Reach (start num_workers) s → Inv s
Reach-Inv some_worker here = record { holder = λ i h. cc; told = λ i h. cc; watched = inl refl }
Reach-Inv some_worker (next r st) =
    Step-Inv (omega (arith, Reach-num_workers r)) st (Reach-Inv some_worker r)

-- A worker has a turn where the mutex is its own, or is free and it does not wait.
turn_at-some :
    (p : Pc) (s : Pool) (i : ℕ)
    → is_gone p ≡ false
    → (s.owner ≡ none) × (waits p ≡ false) ⊎ (holds p ≡ true)
    → (t : Pool) × (turn_at p s i ≡ some t)
unfolding turn_at
turn_at-some top s i stays (inl (free, awake)) =
    (record s { owner = some i; pc = at s.pc i looking }, rw free refl)
turn_at-some signalled s i stays (inl (free, awake)) =
    (record s { owner = some i; pc = at s.pc i looking }, rw free refl)
turn_at-some top s i stays (inr h) = cc
turn_at-some signalled s i stays (inr h) = cc
turn_at-some looking s i stays h = (_, refl)
turn_at-some waiting s i stays (inl (free, awake)) = cc
turn_at-some waiting s i stays (inr h) = cc
turn_at-some leaving s i stays h = (_, refl)
turn_at-some (running j) s i stays h = (_, refl)
turn_at-some gone s i stays h = cc

may_turn :
    (s : Pool) (i : ℕ)
    → is_gone (s.pc i) ≡ false
    → (s.owner ≡ none) × (waits (s.pc i) ≡ false) ⊎ (holds (s.pc i) ≡ true)
    → i < s.num_workers
    → (i : ℕ) × (t : Pool) × (i < s.num_workers) × (worker_turn s i ≡ some t)
unfolding worker_turn
may_turn s i stays can few = let (t, e) = turn_at-some (s.pc i) s i stays can in (i, t, few, e)

-- In every run of a pool with at least one worker, as long as no worker is told to terminate: while a
-- job is queued, some worker has a turn, without a wait that ends for no reason. So the workers never
-- all wait for a signal, or for the mutex, while a job is queued.
pub some_worker_goes_on :
    {num_workers : ℕ} {s : Pool} (j : ℕ) (js : List ℕ)
    → 0 < num_workers
    → Reach (start num_workers) s
    → ((i : ℕ) → s.terminate i ≡ false)
    → s.jobs ≡ j ∷ js
    → (i : ℕ) × (t : Pool) × (i < s.num_workers) × (worker_turn s i ≡ some t)
some_worker_goes_on {s} j js some_worker r stay queued = by_owner s.owner refl
  where
    inv : Inv s
    inv = Reach-Inv some_worker r

    stays : (i : ℕ) → is_gone (s.pc i) ≡ false
    stays i = ground (arith, inv.told i, stay i)

    awake :
        s.owner ≡ none
        → Watched s
        → (i : ℕ) × (t : Pool) × (i < s.num_workers) × (worker_turn s i ≡ some t)
    awake free (inl empty) = cc
    awake free (inr (i, few, up)) = may_turn s i (stays i) (inl (free, up)) few

    by_owner :
        (o : Option ℕ)
        → s.owner ≡ o
        → (i : ℕ) × (t : Pool) × (i < s.num_workers) × (worker_turn s i ≡ some t)
    by_owner none free = awake free inv.watched
    by_owner (some i) owned =
        let (few, h) = inv.holder i owned in may_turn s i (stays i) (inr h) few
