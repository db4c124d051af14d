-- ===== src/Throughput/Examples.antt =====
-- A short history of a tracker, and the theorems of the siblings at it.
use go_ffmpeg_hls_swarm.Common.{ℕ, ◌≡◌, refl, List, [], ◌∷◌, some, pos}
use go_ffmpeg_hls_swarm.Ring.{Ring, push}
use go_ffmpeg_hls_swarm.Throughput.{
  Sample, Op, adds, samples_now, run, step, new_tracker, base_sample,
}

abbrev seconds : List (ℕ × Op)
seconds = (11, adds (pos 100)) ∷ (12, samples_now) ∷ (13, adds (pos 50)) ∷ (14, samples_now) ∷ []

abbrev sampled : Ring Sample
sampled = record {
  items =
      record { timestamp = 10; bytes = 0 }
      ∷ record { timestamp = 12; bytes = 100 }
      ∷ record { timestamp = 14; bytes = 150 }
      ∷ [];
  write_idx = 0;
}

samples_lem : (run seconds (new_tracker 10)).samples ≡ sampled
unfolding run step new_tracker push
samples_lem = refl

base_of_two : base_sample (pos 13) sampled ≡ some (record { timestamp = 12; bytes = 100 })
unfolding base_sample
base_of_two = refl
