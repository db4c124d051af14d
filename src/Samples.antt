-- ===== src/Samples.antt =====
-- The running figures that internal/parser/debug_events.go keeps of each kind of duration (segment
-- and manifest downloads, TCP connects): a count, a sum, the extremes and a ring of the last 100.
-- Durations are whole nanoseconds and may be negative, where log timestamps go back.
pub mod Exact
mod Examples
use go_ffmpeg_hls_swarm.Common.{
  ℕ, suc, ◌+◌, List, [], Bool, true, false, ◌||◌, if◌then◌else◌, ℤ, pos, negsuc, ◌+ℤ◌, ltb_ℤ,
}
use go_ffmpeg_hls_swarm.Ring.{Ring, push, empty}

-- `defaultRingSize`.
abbrev pub default_ring_size : ℕ
default_ring_size = 100

pub record Samples : Type 0 where
  pub count : ℕ
  pub sum : ℤ
  pub max : ℤ
  pub min : ℤ
  pub times : Ring ℤ

-- The zero values of the constructor, and -1 for a minimum that is not set.
unfoldable pub no_samples : Samples
unfolding empty
no_samples = record { count = 0; sum = pos 0; max = pos 0; min = negsuc 0; times = empty }

-- `if min < 0 || ns < min { min = ns }` and `if ns > max { max = ns }`.
abbrev pub new_min : ℤ → ℤ → ℤ
new_min ns min = if ltb_ℤ min (pos 0) || ltb_ℤ ns min then ns else min

abbrev pub new_max : ℤ → ℤ → ℤ
new_max ns max = if ltb_ℤ max ns then ns else max

-- `recordTCPConnect`, and the same lines in the handlers of segments and manifests.
unfoldable pub add_sample : ℤ → Samples → Samples
add_sample ns s = record {
  count = suc s.count;
  sum = s.sum +ℤ ns;
  min = new_min ns s.min;
  max = new_max ns s.max;
  times = push default_ring_size ns s.times;
}
