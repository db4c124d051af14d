-- ===== src/Ramp/Delays.antt =====
-- ramp_scheduler.go: the delay before a client starts.
use go_ffmpeg_hls_swarm.Common.{ℕ, zero, suc, ◌≤ℤ◌, ◌+◌, ◌/◌, ◌≤◌, ◌<◌, ℤ, pos, negsuc, arith}
use go_ffmpeg_hls_swarm.Ramp.{
  RampScheduler, base_delay, effective_jitter, client_jitter, total_delay,
}

-- What package `math/rand` documents of `Int63n`.
abbrev pub InRange : (ℕ → ℕ → ℕ) → Type 0
InRange draw = (id n : ℕ) → 0 < n → draw id n < n

module _ (draw : ℕ → ℕ → ℕ) (in_range : InRange draw) where
  client_jitter-bound : (id n : ℕ) (max : ℤ) → max ≤ℤ pos n → client_jitter draw id max ≤ n
  unfolding client_jitter
  client_jitter-bound id n (pos zero) h = omega arith
  client_jitter-bound id n (pos (suc m)) h = omega (arith, in_range id (suc m) (omega arith))
  client_jitter-bound id n (negsuc m) h = omega arith

  -- Where clients start at a rate at which there is time between two of them, a client waits at least as
  -- long as the rate says, and at most half as long again; the jitter is below any bound of the jitter configured.
  pub total_delay-bounds :
      (r : RampScheduler) (id n : ℕ)
      → 0 < base_delay r
      → r.max_jitter ≤ℤ pos n
      → (base_delay r ≤ total_delay draw r id)
        × (total_delay draw r id ≤ base_delay r + base_delay r / 2)
        × (total_delay draw r id ≤ base_delay r + n)
  unfolding total_delay effective_jitter
  total_delay-bounds r id n h k = ground (
    arith,
    client_jitter-bound id (base_delay r / 2) (effective_jitter r) (ground arith),
    client_jitter-bound id n (effective_jitter r) (ground arith),
  )
