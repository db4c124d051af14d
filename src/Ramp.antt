-- ===== src/Ramp.antt =====
-- internal/orchestrator/ramp_scheduler.go, `ClientJitter` of internal/supervisor/jitter.go, and `rampUp` of
-- internal/orchestrator/orchestrator.go. Times are nanoseconds. `draw id n` is the first number that
-- `Int63n(n)` of package `math/rand` gives with the seed of client `id`.
use go_ffmpeg_hls_swarm.Common.{
  ℕ, zero, suc, ◌+◌, ◌*◌, ◌/◌, Bool, true, false, ◌&&◌, if◌then◌else◌, List, [], ◌∷◌, Option, none,
  some, ℤ, pos, negsuc, ltb_ℤ, ltb, ◌==◌, ◌+ℤ◌, quot_ℤ,
}
mod Delays
pub mod Starts
mod Estimate
mod Examples

-- `RampScheduler`, without its source of jitter.
pub record RampScheduler : Type 0 where
  pub rate : ℤ
  pub max_jitter : ℤ

abbrev pub second : ℕ
second = 1000000000

unfoldable pub base_delay : RampScheduler → ℕ
base_delay r = elim r.rate [ pos n ↦ (if n == 0 then 0 else second / n) | negsuc n ↦ 0 ]

-- The jitter that `Schedule` asks for at most.
unfoldable pub effective_jitter : RampScheduler → ℤ
unfolding base_delay
effective_jitter r =
    let base = base_delay r in
    if ltb 0 base && ltb_ℤ (pos (base / 2)) r.max_jitter then pos (base / 2) else r.max_jitter

-- `EstimatedRampDuration`.
unfoldable pub estimated_ramp_duration : RampScheduler → ℕ → ℤ
estimated_ramp_duration r clients = elim r.rate [
  | pos n ↦ if n == 0 then pos 0 else pos (clients * second / n) +ℤ quot_ℤ r.max_jitter 2
  | negsuc n ↦ pos 0
]

module _ (draw : ℕ → ℕ → ℕ) where
  -- `ClientJitter`.
  unfoldable pub client_jitter : ℕ → ℤ → ℕ
  client_jitter id (pos zero) = 0
  client_jitter id (pos (suc n)) = draw id (suc n)
  client_jitter id (negsuc n) = 0

  unfoldable pub total_delay : RampScheduler → ℕ → ℕ
  unfolding client_jitter base_delay effective_jitter
  total_delay r id = base_delay r + client_jitter id (effective_jitter r)

-- `late id` is how much later than asked the timer of client `id` fires, `spent id` the time that `StartClient` and the
-- rest of the loop's body take for it.
module _ (draw : ℕ → ℕ → ℕ) (late spent : ℕ → ℕ) where
  -- `Schedule` from the time `now` on: the time at which it returns, if it is not cancelled. `tie` says which of two
  -- channels that are ready at once `select` takes.
  unfoldable pub schedule : Option ℕ → Bool → RampScheduler → ℕ → ℕ → Option ℕ
  unfolding total_delay
  schedule cancel tie r id now =
      let delay = total_delay draw r id in
      let later = now + delay + late id in
      if delay == 0 then some now else elim cancel [
        | none ↦ some later
        | some c ↦ if ltb c later then none else if c == later && tie then none else some later
      ]

  -- Whether the context is done.
  unfoldable pub is_done : Option ℕ → ℕ → Bool
  is_done none now = false
  is_done (some c) now = if ltb now c then false else true

  -- The loop of `rampUp` from client `i` on, with the number of clients that are left: the clients started, with their
  -- times.
  unfoldable pub ramp_from : Option ℕ → Bool → RampScheduler → ℕ → ℕ → ℕ → List (ℕ × ℕ)
  unfolding schedule is_done
  ramp_from cancel tie r i zero now = []
  ramp_from cancel tie r i (suc left) now =
      if is_done cancel now
      then []
      else elim (if ltb 0 i then schedule cancel tie r i now else some now) [
        | none ↦ []
        | some later ↦ (i, later) ∷ ramp_from cancel tie r (suc i) left (later + spent i)
      ]

  -- `rampUp`.
  unfoldable pub ramp_up : Option ℕ → Bool → RampScheduler → ℕ → ℕ → List (ℕ × ℕ)
  unfolding ramp_from
  ramp_up cancel tie r clients now = ramp_from cancel tie r 0 clients now
