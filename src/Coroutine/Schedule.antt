-- ===== src/Coroutine/Schedule.antt =====
-- 2.3.1-coroutine/ucontext-backup.c: three coroutines that share `count`, and the scheduler that
-- resumes them in turn. The bound of the loops, 30 in the program, is a parameter.
use test_linux.Base.{
  ℕ, zero, suc, ◌+◌, ◌%◌, true, false, List, [], ◌∷◌, ◌==◌, ltb, leb, if◌then◌else◌, Run, ok, fault,
  out_of_fuel, ◌>>=◌,
}

-- What `swapcontext` into a context finds: a function that has not begun, one that waits behind its
-- own `swapcontext`, or one that has returned, which must not be resumed.
pub data Context : Type 0 where
  fresh : Context
  suspended : Context
  returned : Context

pub record Program : Type 0 where
  pub count : ℕ
  pub ctx : ℕ → Context
  pub printed : List ℕ  -- the newest first

abbrev pub put : (ℕ → Context) → ℕ → Context → ℕ → Context
put f i c j = if j == i then c else f j

module _ (limit : ℕ) where
  -- From `while (count ++ < limit)` of the i-th function to its next `swapcontext`, or its end.
  unfoldable pub turn : ℕ → Program → Program
  turn i s =
      if ltb s.count limit
      then record s {
        count = suc s.count;
        ctx = put s.ctx i suspended;
        printed = suc i ∷ s.printed;
      }
      else record s { count = suc s.count; ctx = put s.ctx i returned }

  -- `swapcontext(&main_ctx, &ctx[i])`.
  unfoldable pub resume : ℕ → Program → Run Program
  unfolding turn
  resume i s = elim (s.ctx i) [
    | fresh ↦ ok (turn i s)
    | suspended ↦ ok (turn i (record s { printed = (i + 4) ∷ s.printed }))
    | returned ↦ fault
  ]

  -- `while (count <= limit)` of `main`.
  unfoldable pub schedule : ℕ → Program → Run Program
  unfolding resume
  schedule zero s = out_of_fuel
  schedule (suc f) s = elim (leb s.count limit) [
    | true ↦ do s ← resume (s.count % 3) s; schedule f s
    | false ↦ ok s
  ]

abbrev pub begin : Program
begin = record { count = 0; ctx = λ _. fresh; printed = [] }
