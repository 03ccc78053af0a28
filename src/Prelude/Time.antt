-- ===== src/Prelude/Time.antt =====
-- Time. An instant is a number of nanoseconds on the process's monotonic clock, which `time.Now`
-- and `time.Since` read; a `time.Duration` is a signed number of nanoseconds.
use infrawatch.Prelude.Int.{ℤ, sub_ℕ}
use Prim.Native.Nat.{ℕ, ◌*◌}

abbrev pub Instant : Type 0
Instant = ℕ

-- The zero `time.Time`, of a field that was never set.
abbrev pub zero_time : Instant
zero_time = 0

-- `time.Since(t)`, when the clock reads `now`.
abbrev pub since : Instant → Instant → ℤ
since now t = sub_ℕ now t

-- Whole seconds and minutes, in nanoseconds.
abbrev pub seconds : ℕ → ℕ
seconds n = n * 1_000_000_000

abbrev pub minutes : ℕ → ℕ
minutes n = n * 60_000_000_000
