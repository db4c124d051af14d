-- ===== src/Samples/Examples.antt =====
-- Some durations, and the theorem of the sibling at them.
use go_ffmpeg_hls_swarm.Common.{◌≡◌, refl, pos, negsuc}
use go_ffmpeg_hls_swarm.Samples.{no_samples, add_sample}

-- A negative duration reads as an unset minimum, and is forgotten at the next sample.
negative_min_lost : (add_sample (pos 7) (add_sample (negsuc 4) no_samples)).min ≡ pos 7
unfolding add_sample no_samples
negative_min_lost = refl
