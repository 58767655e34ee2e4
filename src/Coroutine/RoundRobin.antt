-- ===== src/Coroutine/RoundRobin.antt =====
-- What the scheduler of 2.3.1-coroutine/ucontext-backup.c does to its coroutines.
use test_linux.Base.{
  ℕ, zero, suc, ◌+◌, ◌-◌, ◌%◌, ◌≤◌, ◌<◌, ◌≡◌, refl, false, inl, inr, List, [], ◌∷◌, ltb, leb,
  if◌then◌else◌, ok, ◌>>=◌, arith, le→leb, Bool-cases,
}
use test_linux.Coroutine.Schedule.{
  fresh, suspended, returned, Program, turn, resume, schedule, begin,
}

-- How many lines of the first kind, printed before a coroutine gives way, and of the second, after
-- it has been resumed.
abbrev pub before : List ℕ → ℕ
before [] = 0
before (k ∷ ks) = if ltb k 4 then suc (before ks) else before ks

abbrev pub after : List ℕ → ℕ
after [] = 0
after (k ∷ ks) = if ltb k 4 then after ks else suc (after ks)

-- In the loop, `count` coroutines have been entered, and all of them wait.
record Turns (s : Program) : Type 0 where
  waiting : (j : ℕ) → j < 3 → s.ctx j ≡ (if ltb j s.count then suspended else fresh)
  entered : before s.printed ≡ s.count
  resumed : after s.printed ≡ s.count - 3

-- The end: one coroutine has returned.
pub record Over (limit : ℕ) (s : Program) : Type 0 where
  pub counted : s.count ≡ suc limit
  pub entered : before s.printed ≡ limit
  pub resumed : after s.printed ≡ limit + 1 - 3
  pub one : s.ctx (limit % 3) ≡ returned

module _ (limit : ℕ) where
  resume-suspended :
      (i : ℕ) (s : Program)
      → s.ctx i ≡ suspended
      → resume limit i s ≡ ok (turn limit i (record s { printed = (i + 4) ∷ s.printed }))
  unfolding resume
  resume-suspended i s e = rw (e, resume) refl

  resume-fresh : (i : ℕ) (s : Program) → s.ctx i ≡ fresh → resume limit i s ≡ ok (turn limit i s)
  unfolding resume
  resume-fresh i s e = rw (e, resume) refl

  resume-Turns :
      (s : Program)
      → Turns s
      → s.count < limit
      → (t : Program) × (resume limit (s.count % 3) s ≡ ok t) × Turns t × (t.count ≡ suc s.count)
  unfolding resume turn
  resume-Turns s inv h = elim (Bool-cases (ltb (s.count % 3) s.count)) [
    | inl old ↦ (
      turn limit (s.count % 3) (record s { printed = (s.count % 3 + 4) ∷ s.printed }),
      resume-suspended (s.count % 3) s (ground (arith, inv.waiting (s.count % 3))),
      record {
        waiting = λ j small. ground (arith, inv.waiting j small);
        entered = ground (arith, inv.entered);
        resumed = ground (arith, inv.resumed);
      },
      ground arith,
    )
    | inr new ↦ (
      turn limit (s.count % 3) s,
      resume-fresh (s.count % 3) s (ground (arith, inv.waiting (s.count % 3))),
      record {
        waiting = λ j small. ground (arith, inv.waiting j small);
        entered = ground (arith, inv.entered);
        resumed = ground (arith, inv.resumed);
      },
      ground arith,
    )
  ]

  resume-Over :
      (s : Program)
      → Turns s
      → s.count ≡ limit
      → (t : Program) × (resume limit (s.count % 3) s ≡ ok t) × Over limit t
  unfolding resume turn
  resume-Over s inv h = elim (Bool-cases (ltb (s.count % 3) s.count)) [
    | inl old ↦ (
      turn limit (s.count % 3) (record s { printed = (s.count % 3 + 4) ∷ s.printed }),
      resume-suspended (s.count % 3) s (ground (arith, inv.waiting (s.count % 3))),
      record {
        counted = ground arith;
        entered = ground (arith, inv.entered);
        resumed = ground (arith, inv.resumed);
        one = ground arith;
      },
    )
    | inr new ↦ (
      turn limit (s.count % 3) s,
      resume-fresh (s.count % 3) s (ground (arith, inv.waiting (s.count % 3))),
      record {
        counted = ground arith;
        entered = ground (arith, inv.entered);
        resumed = ground (arith, inv.resumed);
        one = ground arith;
      },
    )
  ]

  schedule-from :
      (f : ℕ) (s : Program)
      → Turns s
      → s.count ≤ limit
      → limit + 1 ≡ s.count + f
      → (t : Program) × (schedule limit (suc f) s ≡ ok t) × Over limit t
  unfolding schedule
  schedule-from zero s inv h e = absurd (omega arith)
  schedule-from (suc f) s inv h e = elim (Bool-cases (ltb s.count limit)) [
    | inl more ↦
        let (t, e₁, inv', next) = resume-Turns s inv (ground arith) in
        let (u, e₂, over) = schedule-from f t inv' (ground arith) (ground arith) in
        (u, rw (le→leb s.count limit h, schedule, e₁, ◌>>=◌) e₂, over)
    | inr last ↦
        let (t, e₁, over) = resume-Over s inv (ground arith) in
        (t, rw (le→leb s.count limit h, schedule, e₁, ◌>>=◌) (stops t over f), over)
  ]
    where
      stops : (t : Program) → Over limit t → (f : ℕ) → schedule limit (suc f) t ≡ ok t
      stops t over f =
          let e' : leb t.count limit ≡ false = ground (arith, over.counted) in
          rw (e', schedule) refl

  -- Whatever the bound, the scheduler ends, in `limit + 2` tests of its loop, without resuming a
  -- coroutine that has returned. `count` is then one above the bound, as many lines as the bound
  -- were printed before a coroutine gave way, all but two after one was resumed, and the coroutine
  -- that is the bound's in the cycle has returned.
  pub schedule-Over : (t : Program) × (schedule limit (limit + 2) begin ≡ ok t) × Over limit t
  schedule-Over =
      let e : limit + 2 ≡ suc (limit + 1) = omega arith in
      rw e (
        schedule-from (limit + 1) begin
          (record { waiting = λ j h. ground arith; entered = refl; resumed = omega arith })
          (omega arith) (omega arith))
