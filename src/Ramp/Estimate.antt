-- ===== src/Ramp/Estimate.antt =====
-- ramp_scheduler.go, `EstimatedRampDuration`: the estimate beside the ramp.
use native.Mathlib.Nat.{le-div_iff_mul-le, div-mul-le_self, mul-le-mul, mul_assoc}
use go_ffmpeg_hls_swarm.Common.{
  ℕ, zero, suc, ◌+◌, ◌*◌, ◌/◌, ◌≤◌, ◌<◌, ◌≡◌, refl, ℤ, pos, negsuc, ◌≤ℤ◌, ◌+ℤ◌, arith, Bool, none,
  All,
}
use go_ffmpeg_hls_swarm.Ramp.{
  RampScheduler, base_delay, second, total_delay, ramp_from, ramp_up, is_done,
  estimated_ramp_duration,
}
use go_ffmpeg_hls_swarm.Ramp.Delays.{InRange, total_delay-bounds}
use go_ffmpeg_hls_swarm.Ramp.Starts.{lost, ramp_from-free}

-- A client starts at most one jitter for each client before it, and what is lost, later than the estimate.
abbrev Estimated : RampScheduler → ℕ → (ℕ → ℕ) → ℕ → ℕ → ℕ × ℕ → Type 0
Estimated r clients lost_by start n (i, t) =
    pos t ≤ℤ pos (start + i * n + lost_by i) +ℤ estimated_ramp_duration r clients

-- What the delays of clients in a row come to.
abbrev Late : ℕ → (ℕ → ℕ) → ℕ → ℕ → ℕ × ℕ → Type 0
Late base lost_by start n (i, t) = t ≤ start + i * (base + n) + lost_by i

turns_estimate : (i clients a m : ℕ) → 0 < a → i ≤ clients → i * (m / a) ≤ clients * m / a
turns_estimate i clients a m z h =
    (le-div_iff_mul-le z).1 (rw (mul_assoc i (m / a) a) (mul-le-mul h (div-mul-le_self m a)))

module _ (draw : ℕ → ℕ → ℕ) (late spent : ℕ → ℕ) (in_range : InRange draw) where
  module _ (r : RampScheduler) (n : ℕ) (timed : 0 < base_delay r)
      (jitter : r.max_jitter ≡ pos n) where
    -- The estimate leaves each client the time that the rate gives it.
    estimate-turns :
        (rate : ℤ) (clients i : ℕ)
        → r.rate ≡ rate
        → i ≤ clients
        → pos (i * base_delay r) ≤ℤ estimated_ramp_duration r clients
    unfolding base_delay estimated_ramp_duration ◌+ℤ◌
    estimate-turns (pos zero) clients i e h = ground (arith, timed, jitter)
    estimate-turns (pos (suc a)) clients i e h =
        ground (arith, jitter, turns_estimate i clients (suc a) second (omega arith) h)
    estimate-turns (negsuc a) clients i e h = ground (arith, timed, jitter)

    Late-Estimated :
        (clients start i t : ℕ)
        → i ≤ clients
        → Late (base_delay r) (lost late spent) start n (i, t)
        → Estimated r clients (lost late spent) start n (i, t)
    unfolding ◌+ℤ◌
    Late-Estimated clients start i t h l =
        let turns = estimate-turns r.rate clients i refl h in ground (arith, turns, l)

    ramp_from-Estimated :
        (tie : Bool) (clients start left j now : ℕ)
        → j + left ≤ clients
        → Late (base_delay r) (lost late spent) start n (j, now)
        → All
            (Estimated r clients (lost late spent) start n)
            (ramp_from draw late spent none tie r (suc j) left (now + spent j))
    unfolding ramp_from
    ramp_from-Estimated tie clients start zero j now h l = tt
    ramp_from-Estimated tie clients start (suc left) j now h l =
        let later = now + spent j + total_delay draw r (suc j) + late (suc j) in
        let bound = total_delay-bounds draw in_range r (suc j) n timed (ground (arith, jitter)) in
        let next : Late (base_delay r) (lost late spent) start n (suc j, later) =
          omega (arith, bound, l) in
        rw (ramp_from-free draw late spent in_range tie r j left (now + spent j) timed) (
          Late-Estimated clients start (suc j) later (omega arith) next,
          ramp_from-Estimated tie clients start left (suc j) later (omega arith) next,
        )

    -- A ramp that is not cancelled, at a rate that leaves time between two clients, keeps to the estimate up to the
    -- jitter: the i-th client starts at most i times the jitter configured after the time estimated for all, and what
    -- the timers and the starts before it take beyond what is asked.
    ramp_up-Estimated :
        (tie : Bool) (clients start : ℕ)
        → All
            (Estimated r clients (lost late spent) start n)
            (ramp_up draw late spent none tie r clients start)
    unfolding ramp_up ramp_from is_done
    ramp_up-Estimated tie zero start = tt
    ramp_up-Estimated tie (suc clients) start =
        let first : Late (base_delay r) (lost late spent) start n (0, start) = omega arith in
        (
          Late-Estimated (suc clients) start 0 start (omega arith) first,
          ramp_from-Estimated tie (suc clients) start clients 0 start (omega arith) first,
        )
