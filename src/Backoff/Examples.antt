-- ===== src/Backoff/Examples.antt =====
-- Delays computed in the integers.
use go_ffmpeg_hls_swarm.Common.{
  ◌≡◌, refl, ◌⊎◌, true, ℤ, pos, negsuc, ◌≤ℤ◌, arith, List, [], ◌∷◌, All, ◌*ℤ◌, ◌-ℤ◌, ◌+ℤ◌, ltb_ℤ,
}
use go_ffmpeg_hls_swarm.Common.WholeFloats.{whole, power}
use go_ffmpeg_hls_swarm.Backoff.{Backoff, capped_delay, jittered_delay, calculate, next}
use go_ffmpeg_hls_swarm.Backoff.Delays.{Laws, AllInRange, delays, delays-bounds}

abbrev low : ℤ
low = negsuc 1000000

abbrev high : ℤ
high = pos 1000000

-- Doubled from 4 up to 10, and less by half of itself, for jitter of its own size and a draw of 0.
abbrev backoff : Backoff ℤ
backoff = record {
  config = record { initial = pos 4; max = pos 10; multiplier = pos 2; jitter_pct = pos 1 };
  attempts = 0;
}

abbrev draws : List ℤ
draws = pos 0 ∷ pos 0 ∷ pos 0 ∷ []

whole-Laws : Laws whole low high (pos 10)
whole-Laws = record {
  lt-false = λ a b h k l. ground arith;
  le_self = λ a b h. (ground arith, ground arith);
  to_int_mono = λ a b h k l. ground arith;
  low_zero = refl;
  to_int-zero = refl;
  limit_high = refl;
  to_int-limit = refl;
}

doubled_delays : delays whole low high draws backoff ≡ pos 2 ∷ pos 4 ∷ pos 5 ∷ []
unfolding next calculate jittered_delay capped_delay ◌*ℤ◌ ◌-ℤ◌ ◌+ℤ◌ power
doubled_delays = refl

draws-AllInRange : AllInRange whole low high draws backoff
unfolding next calculate jittered_delay capped_delay ◌*ℤ◌ ◌-ℤ◌ ◌+ℤ◌ power
draws-AllInRange = ((refl, refl, refl), ((refl, refl, refl), ((refl, refl, refl), tt)))

delays-bounds_example :
    All
      (λ delay. (pos 0 ≤ℤ delay) × ((ltb_ℤ (pos 0) (pos 1) ≡ true) ⊎ (delay ≤ℤ pos 10)))
      (delays whole low high draws backoff)
delays-bounds_example =
    delays-bounds whole low high draws backoff whole-Laws (omega arith) draws-AllInRange
