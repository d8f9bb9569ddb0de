-- ===== src/Prelude/Clock.antt =====
-- Instants and durations: both are numbers of microseconds, the resolution of a Python datetime.
-- Code that subtracts a duration is written with a sum on the other side of the comparison.
use Prim.Native.Nat.{ℕ, ◌*◌}

-- `timedelta(seconds=n)`
abbrev pub seconds : ℕ → ℕ
seconds n = n * 1000000

-- `timedelta(minutes=n)`
abbrev pub minutes : ℕ → ℕ
minutes n = n * 60000000

-- `timedelta(hours=n)`
abbrev pub hours : ℕ → ℕ
hours n = n * 3600000000

-- `timedelta(days=n)`
abbrev pub days : ℕ → ℕ
days n = n * 86400000000
