-- ===== src/Cli/Timeout.antt =====
-- The timeout of the command line, as a duration.
use kibertas.Prelude.{ℕ, ◌≤◌, ◌<◌, arith}
use kibertas.Healthy.{IsLong}
use kibertas.Cli.{timeout_duration}

-- From two minutes up to 153722867, the duration is longer than a minute, and not negative as an int64.
pub timeout_duration-IsLong :
    (minutes : ℕ) → 1 < minutes → minutes ≤ 153722867 → IsLong (timeout_duration minutes)
unfolding timeout_duration
timeout_duration-IsLong minutes h k = record {
  minute_lt = omega (arith, h, k);
  bounded = omega (arith, h, k);
}
