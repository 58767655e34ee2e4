-- ===== src/Kcp/Clock.antt =====
-- The clock and the sleep of 2.2.3-udp-kcp-quic/server.c; client.c and delay.c have the same. The
-- time of day is given, in seconds and microseconds.
use test_linux.Base.{ℕ, ◌+◌, ◌-◌, ◌*◌, ◌/◌, ◌%◌, ◌^◌, ◌<◌, ◌≡◌, arith}

unfoldable pub iclock64 : (sec usec : ℕ) → ℕ
iclock64 sec usec = sec * 1000 + usec / 1000

unfoldable pub iclock : (sec usec : ℕ) → ℕ
unfolding iclock64
iclock sec usec = iclock64 sec usec % 2 ^ 32

-- A shift of an `unsigned long`, and a difference of two.
abbrev shifted : ℕ → ℕ → ℕ
shifted x n = x * 2 ^ n % 2 ^ 64

abbrev minus : ℕ → ℕ → ℕ
minus x y = (x + 2 ^ 64 - y) % 2 ^ 64

-- The microseconds that `usleep` is called with: its argument has 32 bits.
unfoldable pub isleep : ℕ → ℕ
isleep millisecond =
    minus (minus (shifted millisecond 10) (shifted millisecond 4)) (shifted millisecond 3) % 2 ^ 32

-- For every 64-bit number of milliseconds the three shifts make a thousand times as many
-- microseconds, modulo the 32 bits of `usleep`, although they may wrap around on the way.
pub isleep-thousand : (ms : ℕ) → ms < 2 ^ 64 → isleep ms ≡ ms * 1000 % 2 ^ 32
unfolding isleep
isleep-thousand ms h = omega arith
