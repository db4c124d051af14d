-- ===== src/Ramp/Starts.antt =====
-- orchestrator.go, `rampUp`: which clients start, and when.
use native.Mathlib.Nat.{le-div_iff_mul-le}
use go_ffmpeg_hls_swarm.Common.{
  ℕ, zero, suc, ◌+◌, ◌*◌, ◌/◌, ◌≤◌, ◌<◌, ◌≡◌, refl, pos, ◌≤ℤ◌, arith, ltb, if◌then◌else◌, List, [],
  ◌∷◌, Bool, ap, Bool-cases, Option-cases, inl, inr, Option, none, some, All, map, subst,
}
use go_ffmpeg_hls_swarm.Ramp.{
  RampScheduler, base_delay, total_delay, schedule, is_done, ramp_from, ramp_up,
}
use go_ffmpeg_hls_swarm.Ramp.Delays.{InRange, total_delay-bounds}

-- The clients from the i-th on.
abbrev pub from : ℕ → ℕ → List ℕ
from i zero = []
from i (suc left) = i ∷ from (suc i) left

-- The time that the timers and the starts before a client take beyond what they are asked.
abbrev pub lost : (ℕ → ℕ) → (ℕ → ℕ) → ℕ → ℕ
lost late spent zero = 0
lost late spent (suc i) = lost late spent i + spent i + late (suc i)

-- The i-th client starts i turns after the start at the earliest, and at most half as late again and what is lost.
abbrev InTurn : ℕ → (ℕ → ℕ) → ℕ → ℕ × ℕ → Type 0
InTurn turn lost_by start (i, t) =
    (start + i * turn ≤ t) × (t ≤ start + i * (turn + turn / 2) + lost_by i)

-- With so many clients in a second of 10^9 ns.
abbrev pub OnTime : ℕ → (ℕ → ℕ) → ℕ → ℕ × ℕ → Type 0
OnTime rate lost_by start s = InTurn (1000000000 / rate) lost_by start s

abbrev pub NoLater : ℕ → ℕ × ℕ → Type 0
NoLater c (i, t) = t ≤ c

module _ (draw : ℕ → ℕ → ℕ) (late spent : ℕ → ℕ) (in_range : InRange draw) where
  pub ramp_from-free :
      (tie : Bool) (r : RampScheduler) (j left now : ℕ)
      → 0 < base_delay r
      → let later = now + total_delay draw r (suc j) + late (suc j) in
        ramp_from draw late spent none tie r (suc j) (suc left) now
        ≡ (suc j, later)
          ∷ ramp_from draw late spent none tie r (suc (suc j)) left (later + spent (suc j))
  unfolding ramp_from is_done schedule total_delay
  ramp_from-free tie r j left now h = ground arith

  ramp_from-InTurn :
      (tie : Bool) (r : RampScheduler) (start n left t j : ℕ)
      → 0 < base_delay r
      → r.max_jitter ≤ℤ pos n
      → InTurn (base_delay r) (lost late spent) start (j, t)
      → let starts = ramp_from draw late spent none tie r (suc j) left (t + spent j) in
        All (InTurn (base_delay r) (lost late spent) start) starts
        × (map (λ s. s.0) starts ≡ from (suc j) left)
  unfolding ramp_from
  ramp_from-InTurn tie r start n zero t j h k o = (tt, refl)
  ramp_from-InTurn tie r start n (suc left) t j h k o =
      let later = t + spent j + total_delay draw r (suc j) + late (suc j) in
      let b = total_delay-bounds draw in_range r (suc j) n h k in
      let next : InTurn (base_delay r) (lost late spent) start (suc j, later) =
        (omega (arith, b, o), omega (arith, b, o)) in
      let ih = ramp_from-InTurn tie r start n left later (suc j) h k next in
      rw (ramp_from-free tie r j left (t + spent j) h) ((next, ih.0), ap (λ ids. suc j ∷ ids) ih.1)

  ramp_up-InTurn :
      (tie : Bool) (r : RampScheduler) (clients start n : ℕ)
      → 0 < base_delay r
      → r.max_jitter ≤ℤ pos n
      → let starts = ramp_up draw late spent none tie r clients start in
        All (InTurn (base_delay r) (lost late spent) start) starts
        × (map (λ s. s.0) starts ≡ from 0 clients)
  unfolding ramp_up ramp_from is_done
  ramp_up-InTurn tie r zero start n h k = (tt, refl)
  ramp_up-InTurn tie r (suc clients) start n h k =
      let first : InTurn (base_delay r) (lost late spent) start (0, start) =
        (omega arith, omega arith) in
      let rest = ramp_from-InTurn tie r start n clients start 0 h k first in
      ((first, rest.0), ap (λ ids. 0 ∷ ids) rest.1)

  base_delay-rate :
      (r : RampScheduler) (rate : ℕ)
      → r.rate ≡ pos rate
      → 0 < rate
      → base_delay r ≡ 1000000000 / rate
  unfolding base_delay
  base_delay-rate r rate e h = ground (arith, e)

  -- A ramp that is not cancelled, of 1 to 10^9 clients in a second, starts all its clients in order, the i-th no earlier
  -- than i times a second over the rate after the start, and at most half as late again and the time that the timers and
  -- the starts before it take beyond what is asked.
  pub ramp_up-OnTime :
      (tie : Bool) (r : RampScheduler) (rate clients start n : ℕ)
      → r.rate ≡ pos rate
      → 0 < rate
      → rate ≤ 1000000000
      → r.max_jitter ≤ℤ pos n
      → let starts = ramp_up draw late spent none tie r clients start in
        All (OnTime rate (lost late spent) start) starts × (map (λ s. s.0) starts ≡ from 0 clients)
  ramp_up-OnTime tie r rate clients start n e z h k =
      let turn = base_delay-rate r rate e z in
      let timed : 0 < 1000000000 / rate = (le-div_iff_mul-le z).1 (omega arith) in
      let starts = ramp_up draw late spent none tie r clients start in
      subst
        (λ turn.
          All (InTurn turn (lost late spent) start) starts
          × (map (λ s. s.0) starts ≡ from 0 clients))
        turn (ramp_up-InTurn tie r clients start n (rw turn timed) k)

module _ (draw : ℕ → ℕ → ℕ) (late spent : ℕ → ℕ) where
  -- The time at which a client of the loop starts.
  abbrev start_time : Option ℕ → Bool → RampScheduler → ℕ → ℕ → Option ℕ
  start_time cancel tie r i now =
      if ltb 0 i then schedule draw late spent cancel tie r i now else some now

  start_time-NoLater :
      (c : ℕ) (tie : Bool) (r : RampScheduler) (i now later : ℕ)
      → now ≤ c
      → start_time (some c) tie r i now ≡ some later
      → later ≤ c
  unfolding schedule
  start_time-NoLater c tie r i now later h e = ground arith

  ramp_from-NoLater :
      (c : ℕ) (tie : Bool) (r : RampScheduler) (left i now : ℕ)
      → All (NoLater c) (ramp_from draw late spent (some c) tie r i left now)
  unfolding ramp_from is_done
  ramp_from-NoLater c tie r zero i now = tt
  ramp_from-NoLater c tie r (suc left) i now = elim (Bool-cases (ltb now c)) [
    | inl early ↦ elim (Option-cases (start_time (some c) tie r i now)) [
      | inl cancelled ↦ ground arith
      | inr (later, e) ↦ ground (
        arith,
        start_time-NoLater c tie r i now later (ground arith) e,
        ramp_from-NoLater c tie r left (suc i) (later + spent i),
      )
    ]
    | inr done ↦ ground arith
  ]

  -- No client starts after the context is cancelled.
  ramp_up-NoLater :
      (c : ℕ) (tie : Bool) (r : RampScheduler) (clients now : ℕ)
      → All (NoLater c) (ramp_up draw late spent (some c) tie r clients now)
  unfolding ramp_up
  ramp_up-NoLater c tie r clients now = ramp_from-NoLater c tie r clients 0 now
