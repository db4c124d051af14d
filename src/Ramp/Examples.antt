-- ===== src/Ramp/Examples.antt =====
-- A ramp of three clients, five in a second, and the theorems at it.
use go_ffmpeg_hls_swarm.Common.{
  ℕ, ◌/◌, ◌≡◌, pos, arith, All, map, ◌+ℤ◌, none, some, false, refl, get_elem?,
}
use go_ffmpeg_hls_swarm.Ramp.{RampScheduler, ramp_up, estimated_ramp_duration}
use go_ffmpeg_hls_swarm.Ramp.Delays.{InRange}
use go_ffmpeg_hls_swarm.Ramp.Starts.{OnTime, lost, from, ramp_up-OnTime}

abbrev five : RampScheduler
five = record { rate = pos 5; max_jitter = pos 300000000 }

abbrev draw : ℕ → ℕ → ℕ
draw id n = n / 2

draw-InRange : InRange draw
draw-InRange id n h = omega arith

-- Each timer fires 1 ms late, and each start takes 3 ms.
abbrev late : ℕ → ℕ
late id = 1000000

abbrev spent : ℕ → ℕ
spent id = 3000000

ramp_up-OnTime_example :
    let starts = ramp_up draw late spent none false five 3 0 in
    All (OnTime 5 (lost late spent) 0) starts × (map (λ s. s.0) starts ≡ from 0 3)
ramp_up-OnTime_example =
    ramp_up-OnTime draw late spent draw-InRange false five 5 3 0 300000000 refl (omega arith)
      (omega arith) (omega arith)

abbrev never : ℕ → ℕ
never id = 0

-- Ten clients are estimated at 2.15 s. With the average jitter of 50 ms for each, the last starts after 2.25 s.
ten_estimate : estimated_ramp_duration five 10 ≡ pos 2150000000
unfolding estimated_ramp_duration ◌+ℤ◌
ten_estimate = refl

ten_last : get_elem? (ramp_up draw never never none false five 10 0) 9 ≡ some (9, 2250000000)
unfolding ramp_up
ten_last = refl
