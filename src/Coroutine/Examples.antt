-- ===== src/Coroutine/Examples.antt =====
-- The scheduler of 2.3.1-coroutine/ucontext-backup.c with small bounds.
use test_linux.Base.{◌≡◌, ok}
use test_linux.Coroutine.Schedule.{Program, schedule, begin}
use test_linux.Coroutine.RoundRobin.{Over, schedule-Over}

schedule-Over_example : (t : Program) × (schedule 30 32 begin ≡ ok t) × Over 30 t
schedule-Over_example = schedule-Over 30
