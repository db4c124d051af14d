-- ===== src/Throughput.antt =====
-- internal/timeseries/throughput_tracker.go: cumulative bytes and their rolling averages. A time is
-- a number of nanoseconds; the clock's answer is an argument of each operation. `totalBytes` is a
-- 64-bit counter of positive amounts, taken as unbounded.
pub mod Averages
pub mod History
mod Examples
use go_ffmpeg_hls_swarm.Common.{
  ℕ, suc, ◌+◌, ◌-◌, ◌*◌, ◌≤◌, ◌≡◌, List, [], ◌∷◌, ◌++◌, Bool, true, false, ltb, leb, if◌then◌else◌,
  Option, none, some, length, get_elem?, ℤ, pos, negsuc, sub_ℕ, Float,
}
use go_ffmpeg_hls_swarm.Ring.{Ring, push}

-- `ringBufferSize`.
abbrev pub ring_buffer_size : ℕ
ring_buffer_size = 300

pub record Sample : Type 0 where
  pub timestamp : ℕ
  pub bytes : ℕ

-- `ThroughputTracker`.
pub record Tracker : Type 0 where
  pub total_bytes : ℕ
  pub samples : Ring Sample
  pub start_time : ℕ

-- `NewThroughputTrackerWithClock`; `Reset` makes the same state of a tracker that there is.
unfoldable pub new_tracker : ℕ → Tracker
new_tracker now = record {
  total_bytes = 0;
  samples = record { items = record { timestamp = now; bytes = 0 } ∷ []; write_idx = 0 };
  start_time = now;
}

unfoldable pub reset : ℕ → Tracker → Tracker
reset now t = record t {
  total_bytes = 0;
  samples = record { items = record { timestamp = now; bytes = 0 } ∷ []; write_idx = 0 };
  start_time = now;
}

-- `AddBytes`.
unfoldable pub add_bytes : ℤ → Tracker → Tracker
add_bytes (pos n) t = if ltb 0 n then record t { total_bytes = t.total_bytes + n } else t
add_bytes (negsuc n) t = t

-- `RecordSample`.
unfoldable pub record_sample : ℕ → Tracker → Tracker
record_sample now t = record t {
  samples = push ring_buffer_size (record { timestamp = now; bytes = t.total_bytes }) t.samples;
}

-- The loop of `avgOverWindow`, over the samples not yet seen, with `bestSample` so far. `target` is
-- `now - window`, and may lie before time 0.
abbrev after : ℕ → ℤ → Bool
after t (pos target) = ltb target t
after t (negsuc target) = true

abbrev distance : ℤ → ℕ → ℕ
distance (pos target) t = target - t
distance (negsuc target) t = 0

pub best_before : ℤ → Option Sample → List Sample → Option Sample
best_before target best [] = best
best_before target best (s ∷ more) =
    best_before target
      (if after s.timestamp target then best else elim best [
        | none ↦ some s
        | some b ↦
            if ltb (distance target s.timestamp) (distance target b.timestamp)
            then some s
            else some b
      ])
      more

-- `oldestSample`.
pub oldest_sample : Ring Sample → Option Sample
oldest_sample r =
    if ltb 0 (length r.items)
    then (if ltb (length r.items) ring_buffer_size
        then get_elem? r.items 0
        else get_elem? r.items r.write_idx)
    else none

-- The sample from which `avgOverWindow` counts.
pub base_sample : ℤ → Ring Sample → Option Sample
unfolding best_before oldest_sample
base_sample target r = elim (best_before target none r.items) [
  | none ↦ oldest_sample r
  | some s ↦ some s
]

module _ (fl : Float) where
  open fl use {F, lit, of_int, le, div}

  -- `Duration.Seconds`, a conversion of the library; `per_second` is the last part of
  -- `avgOverWindow`: no rate without time.
  per_second : (ℤ → F) → ℤ → ℤ → F
  per_second seconds bytes elapsed =
      if le (seconds elapsed) (lit 0 0) then lit 0 0 else div (of_int bytes) (seconds elapsed)

  -- `avgOverWindow`.
  pub avg_over_window : (ℤ → F) → ℕ → ℕ → ℕ → Tracker → F
  unfolding base_sample per_second
  avg_over_window seconds now current_bytes window t =
      elim (base_sample (sub_ℕ now window) t.samples) [
        | none ↦ lit 0 0
        | some s ↦ per_second seconds (sub_ℕ current_bytes s.bytes) (sub_ℕ now s.timestamp)
      ]

  pub record Stats : Type 0 where
    pub total : ℕ
    pub avg_1s : F
    pub avg_30s : F
    pub avg_60s : F
    pub avg_300s : F
    pub avg_overall : F

  -- `GetStats`.
  pub get_stats : (ℤ → F) → ℕ → Tracker → Stats
  unfolding per_second
  get_stats seconds now t = record {
    total = t.total_bytes;
    avg_1s = avg_over_window seconds now t.total_bytes 1000000000 t;
    avg_30s = avg_over_window seconds now t.total_bytes 30000000000 t;
    avg_60s = avg_over_window seconds now t.total_bytes 60000000000 t;
    avg_300s = avg_over_window seconds now t.total_bytes 300000000000 t;
    avg_overall = per_second seconds (pos t.total_bytes) (sub_ℕ now t.start_time);
  }

-- The operations that change a tracker, each at its time.
pub data Op : Type 0 where
  adds : ℤ → Op
  samples_now : Op
  resets : Op

pub step : ℕ × Op → Tracker → Tracker
unfolding add_bytes record_sample reset
step (now, adds n) t = add_bytes n t
step (now, samples_now) t = record_sample now t
step (now, resets) t = reset now t

pub run : List (ℕ × Op) → Tracker → Tracker
run [] t = t
run (o ∷ ops) t = run ops (step o t)
