-- ===== src/Client.antt =====
-- internal/stats/client_stats.go: what is recorded of one client. The atomics are fields, the methods
-- functions on the record; `R` is the type of its floating-point numbers.
use go_ffmpeg_hls_swarm.Common.{
  ℕ, suc, ◌+◌, ◌-◌, ◌/◌, ◌%◌, Bool, false, ◌&&◌, if◌then◌else◌, List, [], ◌∷◌, ◌++◌, ℤ, pos,
  pos_part, ◌+ℤ◌, ◌-ℤ◌, ◌*ℤ◌, ltb_ℤ, set, take, get_or, replicate, ltb, leb, ◌==◌, Float, sub_ℕ,
}
mod Bytes
mod Errors
mod Speed
mod Sizes
mod Examples

abbrev pub segment_size_ring_size : ℕ
segment_size_ring_size = 100

-- `StallDuration`, in nanoseconds.
abbrev pub stall_duration : ℕ
stall_duration = 5000000000

pub record ClientStats (R : Type 0) : Type 0 where
  pub start_time : ℕ
  pub manifest_requests : ℕ
  pub segment_requests : ℕ
  pub init_requests : ℕ
  pub unknown_requests : ℕ
  pub reconnections : ℕ
  pub timeouts : ℕ
  pub bytes_from_previous_runs : ℤ
  pub current_process_bytes : ℤ
  pub http_error_counts : List ℕ
  pub segment_sizes : List ℤ
  pub segment_size_idx : ℕ
  pub speed : R
  pub below_threshold_at : ℕ
  pub last_playback_time : ℤ
  pub current_drift : ℤ
  pub max_drift : ℤ
  pub progress_lines_dropped : ℕ
  pub stderr_lines_dropped : ℕ
  pub progress_lines_read : ℕ
  pub stderr_lines_read : ℕ
  pub peak_drop_rate : R

-- `NewClientStats`; `zero` is the number 0, and 0 the time that is not set.
unfoldable pub new_client_stats : {R : Type 0} → R → ℕ → ClientStats R
new_client_stats zero now = record {
  start_time = now;
  manifest_requests = 0;
  segment_requests = 0;
  init_requests = 0;
  unknown_requests = 0;
  reconnections = 0;
  timeouts = 0;
  bytes_from_previous_runs = pos 0;
  current_process_bytes = pos 0;
  http_error_counts = replicate 201 0;
  segment_sizes = replicate segment_size_ring_size (pos 0);
  segment_size_idx = 0;
  speed = zero;
  below_threshold_at = 0;
  last_playback_time = pos 0;
  current_drift = pos 0;
  max_drift = pos 0;
  progress_lines_dropped = 0;
  stderr_lines_dropped = 0;
  progress_lines_read = 0;
  stderr_lines_read = 0;
  peak_drop_rate = zero;
}

-- The counter of `RecordHTTPError` for a code.
unfoldable pub error_index : ℕ → ℕ
error_index code = if leb 400 code && leb code 599 then code - 400 else 200

-- `GetAverageSegmentSize`: the loop's `sum` and `count`, which only grow.
unfoldable pub sum_positive : List ℤ → ℕ
sum_positive [] = 0
sum_positive (size ∷ sizes) = pos_part size + sum_positive sizes

unfoldable pub count_positive : List ℤ → ℕ
count_positive [] = 0
count_positive (size ∷ sizes) = (if ltb_ℤ (pos 0) size then 1 else 0) + count_positive sizes

-- `GetHTTPErrors`: the loop over the codes, with `counts` those from `code` on.
unfoldable pub errors_from : ℕ → List ℕ → List (ℕ × ℕ)
errors_from code [] = []
errors_from code (count ∷ counts) =
    let more = errors_from (suc code) counts in if ltb 0 count then (code, count) ∷ more else more

module _ {R : Type 0} where
  -- `IncrementManifestRequests`, `IncrementSegmentRequests`, `IncrementInitRequests` and `IncrementUnknownRequests`.
  unfoldable pub increment_manifest_requests : ClientStats R → ClientStats R
  increment_manifest_requests s = record s { manifest_requests = suc s.manifest_requests }

  unfoldable pub increment_segment_requests : ClientStats R → ClientStats R
  increment_segment_requests s = record s { segment_requests = suc s.segment_requests }

  unfoldable pub increment_init_requests : ClientStats R → ClientStats R
  increment_init_requests s = record s { init_requests = suc s.init_requests }

  unfoldable pub increment_unknown_requests : ClientStats R → ClientStats R
  increment_unknown_requests s = record s { unknown_requests = suc s.unknown_requests }

  -- `RecordReconnection`.
  unfoldable pub record_reconnection : ClientStats R → ClientStats R
  record_reconnection s = record s { reconnections = suc s.reconnections }

  -- `RecordTimeout`.
  unfoldable pub record_timeout : ClientStats R → ClientStats R
  record_timeout s = record s { timeouts = suc s.timeouts }

  -- `OnProcessStart`.
  unfoldable pub on_process_start : ClientStats R → ClientStats R
  on_process_start s = record s {
    bytes_from_previous_runs = s.bytes_from_previous_runs +ℤ s.current_process_bytes;
    current_process_bytes = pos 0;
  }

  -- `UpdateCurrentBytes`.
  unfoldable pub update_current_bytes : ℤ → ClientStats R → ClientStats R
  update_current_bytes total_size s = record s { current_process_bytes = total_size }

  -- `TotalBytes`.
  unfoldable pub total_bytes : ClientStats R → ℤ
  total_bytes s = s.bytes_from_previous_runs +ℤ s.current_process_bytes

  -- `RecordHTTPError`.
  unfoldable pub record_http_error : ℕ → ClientStats R → ClientStats R
  unfolding error_index
  record_http_error code s = record s {
    http_error_counts =
        set s.http_error_counts (error_index code)
          (suc (get_or s.http_error_counts (error_index code) 0));
  }

  -- `UpdateDrift` at the time `now`, in nanoseconds; the loop around the swap of the maximum ends at
  -- its first round where no other goroutine writes.
  unfoldable pub update_drift : ℕ → ℤ → ClientStats R → ClientStats R
  update_drift now out_time_us s =
      let playback_time = out_time_us *ℤ pos 1000 in
      let current = sub_ℕ now s.start_time -ℤ playback_time in
      if ltb_ℤ (pos 0) out_time_us
      then record s {
        last_playback_time = playback_time;
        current_drift = current;
        max_drift = if ltb_ℤ s.max_drift current then current else s.max_drift;
      }
      else s

  -- `HasHighDrift`.
  unfoldable pub has_high_drift : ClientStats R → Bool
  has_high_drift s = ltb_ℤ (pos 5000000000) s.current_drift

  -- `IsStalled` at the time `now`.
  unfoldable pub is_stalled : ℕ → ClientStats R → Bool
  is_stalled now s =
      if s.below_threshold_at == 0
      then false
      else ltb_ℤ (pos stall_duration) (sub_ℕ now s.below_threshold_at)

  -- `RecordSegmentSize`.
  unfoldable pub record_segment_size : ℤ → ClientStats R → ClientStats R
  record_segment_size size s =
      let new_idx = (s.segment_size_idx + 1) % segment_size_ring_size in
      record s { segment_size_idx = new_idx; segment_sizes = set s.segment_sizes new_idx size }

  -- `GetAverageSegmentSize`.
  unfoldable pub get_average_segment_size : ClientStats R → ℕ
  unfolding sum_positive count_positive
  get_average_segment_size s =
      if count_positive s.segment_sizes == 0
      then 0
      else sum_positive s.segment_sizes / count_positive s.segment_sizes

  -- `GetHTTPErrors`.
  unfoldable pub get_http_errors : ClientStats R → List (ℕ × ℕ)
  unfolding errors_from
  get_http_errors s =
      let other = get_or s.http_error_counts 200 0 in
      errors_from 400 (take 200 s.http_error_counts)
      ++ (if ltb 0 other then (0, other) ∷ [] else [])

module _ (F : Float) where
  -- `StallThreshold`.
  abbrev pub stall_threshold : F.F
  stall_threshold = F.lit 9 1

  -- `UpdateSpeed` at the time `now`.
  unfoldable pub update_speed : ℕ → F.F → ClientStats F.F → ClientStats F.F
  update_speed now speed s = record s {
    speed = speed;
    below_threshold_at =
        if F.lt (F.lit 0 0) speed && F.lt speed stall_threshold
        then (if F.le stall_threshold s.speed then now else s.below_threshold_at)
        else 0;
  }

  -- `CurrentDropRate`.
  unfoldable pub current_drop_rate : ClientStats F.F → F.F
  current_drop_rate s =
      let total_read = s.progress_lines_read + s.stderr_lines_read in
      let total_dropped = s.progress_lines_dropped + s.stderr_lines_dropped in
      if total_read == 0
      then F.lit 0 0
      else F.div (F.of_int (pos total_dropped)) (F.of_int (pos total_read))

  -- `RecordDroppedLines`.
  unfoldable pub record_dropped_lines : ℕ → ℕ → ℕ → ℕ → ClientStats F.F → ClientStats F.F
  unfolding current_drop_rate
  record_dropped_lines progress_read progress_dropped stderr_read stderr_dropped s =
      let s' = record s {
        progress_lines_read = progress_read;
        progress_lines_dropped = progress_dropped;
        stderr_lines_read = stderr_read;
        stderr_lines_dropped = stderr_dropped;
      } in
      let rate = current_drop_rate s' in
      if F.le rate s.peak_drop_rate then s' else record s' { peak_drop_rate = rate }

  -- `MetricsDegraded`.
  unfoldable pub metrics_degraded : F.F → ClientStats F.F → Bool
  unfolding current_drop_rate
  metrics_degraded threshold s = F.lt threshold (current_drop_rate s)
