-- ===== src/Backoff.antt =====
-- internal/supervisor/backoff.go: the delay before a restart. `draw` is the number that `Float64` of package
-- `math/rand` gives; durations are nanoseconds.
use go_ffmpeg_hls_swarm.Common.{ℕ, suc, ℤ, pos, Float, if◌then◌else◌}
mod Delays
mod Recovery
mod Examples

-- `BackoffConfig`.
pub record BackoffConfig (R : Type 0) : Type 0 where
  pub initial : ℤ
  pub max : ℤ
  pub multiplier : R
  pub jitter_pct : R

-- `Backoff`, without its source of random numbers.
pub record Backoff (R : Type 0) : Type 0 where
  pub config : BackoffConfig R
  pub attempts : ℕ

-- `Reset`.
unfoldable pub reset : {R : Type 0} → Backoff R → Backoff R
reset b = record b { attempts = 0 }

-- `SetAttempts`.
unfoldable pub set_attempts : {R : Type 0} → ℕ → Backoff R → Backoff R
set_attempts n b = record b { attempts = n }

-- `NewBackoff`.
unfoldable pub new_backoff : {R : Type 0} → BackoffConfig R → Backoff R
new_backoff cfg = record { config = cfg; attempts = 0 }

module _ (F : Float) where
  -- `DefaultBackoffConfig`.
  unfoldable pub default_backoff_config : BackoffConfig F.F
  default_backoff_config = record {
    initial = pos 250000000;
    max = pos 5000000000;
    multiplier = F.lit 17 1;
    jitter_pct = F.lit 4 1;
  }

  -- `initial * multiplier^attempts`.
  abbrev pub uncapped_delay : Backoff F.F → F.F
  uncapped_delay b = F.mul (F.of_int b.config.initial) (F.pow b.config.multiplier b.attempts)

  -- The delay up to the cap at the maximum.
  unfoldable pub capped_delay : Backoff F.F → F.F
  capped_delay b =
      let max = F.of_int b.config.max in
      if F.lt max (uncapped_delay b) then max else uncapped_delay b

  -- The delay with the jitter, which is off at 0 and below.
  unfoldable pub jittered_delay : F.F → Backoff F.F → F.F
  unfolding capped_delay
  jittered_delay draw b =
      let delay = capped_delay b in
      let jitter_range = F.mul delay b.config.jitter_pct in
      let jitter = F.sub (F.mul jitter_range draw) (F.div jitter_range (F.lit 2 0)) in
      if F.lt (F.lit 0 0) b.config.jitter_pct then F.add delay jitter else delay

  -- `Calculate`.
  unfoldable pub calculate : F.F → Backoff F.F → ℤ
  unfolding jittered_delay
  calculate draw b =
      let delay = jittered_delay draw b in
      F.to_int (if F.lt delay (F.lit 0 0) then F.lit 0 0 else delay)

  -- `Next`.
  unfoldable pub next : F.F → Backoff F.F → ℤ × Backoff F.F
  unfolding calculate
  next draw b = (calculate draw b, record b { attempts = suc b.attempts })
