-- ===== src/Debug/Figures.antt =====
-- `Stats` of internal/parser/debug_events.go: what a parser reports of itself. `quantile` is the `Quantile` of
-- the T-digest library, converted to a duration, on the samples that a digest was given; its first argument is in hundredths.
use go_ffmpeg_hls_swarm.Common.{ℕ, ◌+◌, ◌-◌, if◌then◌else◌, ltb, ltb_ℤ, List, ℤ, pos, Float}
use go_ffmpeg_hls_swarm.Samples.{Samples}
use go_ffmpeg_hls_swarm.Debug.State.{Parser}

-- The mean, least and greatest duration in milliseconds.
pub record Times (R : Type 0) : Type 0 where
  pub avg_ms : R
  pub min_ms : R
  pub max_ms : R

pub record Percentiles : Type 0 where
  pub p25 : ℤ
  pub p50 : ℤ
  pub p75 : ℤ
  pub p95 : ℤ
  pub p99 : ℤ

-- `DebugStats`.
pub record DebugStats (R : Type 0) : Type 0 where
  pub lines_processed : ℕ
  pub timestamps_used : ℕ
  pub manifest_bandwidth : ℕ
  pub segment_count : ℕ
  pub segment_times : Times R
  pub segment_percentiles : Percentiles
  pub manifest_count : ℕ
  pub manifest_times : Times R
  pub manifest_percentiles : Percentiles
  pub tcp_connect_count : ℕ
  pub tcp_connect_times : Times R
  pub tcp_success_count : ℕ
  pub tcp_failure_count : ℕ
  pub tcp_timeout_count : ℕ
  pub tcp_refused_count : ℕ
  pub tcp_health_ratio : R
  pub playlist_refreshes : ℕ
  pub playlist_late_count : ℕ
  pub playlist_avg_jitter_ms : R
  pub playlist_max_jitter_ms : R
  pub sequence_skips : ℕ
  pub http_error_count : ℕ
  pub http_4xx_count : ℕ
  pub http_5xx_count : ℕ
  pub reconnect_count : ℕ
  pub segment_failed_count : ℕ
  pub segment_skipped_count : ℕ
  pub playlist_failed_count : ℕ
  pub segments_expired_sum : ℕ
  pub error_rate : R
  pub http_open_count : ℕ
  pub bytes_downloaded : ℕ
  pub segment_bytes_downloaded : ℕ
  pub size_lookup_attempts : ℕ
  pub size_lookup_successes : ℕ

module _ (F : Float) where
  abbrev pub nothing : F.F
  nothing = F.lit 0 0

  -- Nanoseconds as milliseconds.
  abbrev millis : ℤ → F.F
  millis d = F.div (F.of_int d) (F.lit 1000000 0)

  unfoldable pub times_of : Samples → Times F.F
  times_of s =
      if ltb 0 s.count
      then record {
        avg_ms = F.div (F.div (F.of_int s.sum) (F.of_int (pos s.count))) (F.lit 1000000 0);
        min_ms = if ltb_ℤ s.min (pos 0) then nothing else millis s.min;
        max_ms = millis s.max;
      }
      else record { avg_ms = nothing; min_ms = nothing; max_ms = nothing }

  unfoldable pub percentiles_of : (ℕ → List ℤ → ℤ) → ℕ → List ℤ → Percentiles
  percentiles_of quantile count digest =
      if ltb 0 count
      then record {
        p25 = quantile 25 digest;
        p50 = quantile 50 digest;
        p75 = quantile 75 digest;
        p95 = quantile 95 digest;
        p99 = quantile 99 digest;
      }
      else record { p25 = pos 0; p50 = pos 0; p75 = pos 0; p95 = pos 0; p99 = pos 0 }

  -- `Stats`.
  unfoldable pub stats : (ℕ → List ℤ → ℤ) → Parser → DebugStats F.F
  unfolding times_of percentiles_of
  stats quantile p =
      let tcp_total = p.tcp_success_count + p.tcp_failure_count in
      record {
        lines_processed = p.lines_processed;
        timestamps_used = p.timestamps_used;
        manifest_bandwidth = p.manifest_bandwidth;
        segment_count = p.segments.count;
        segment_times = times_of p.segments;
        segment_percentiles = percentiles_of quantile p.segments.count p.segment_digest;
        manifest_count = p.manifests.count;
        manifest_times = times_of p.manifests;
        manifest_percentiles = percentiles_of quantile p.manifests.count p.manifest_digest;
        tcp_connect_count = p.tcp_connects.count;
        tcp_connect_times = times_of p.tcp_connects;
        tcp_success_count = p.tcp_success_count;
        tcp_failure_count = p.tcp_failure_count;
        tcp_timeout_count = p.tcp_timeout_count;
        tcp_refused_count = p.tcp_refused_count;
        tcp_health_ratio =
            if ltb 0 tcp_total
            then F.div (F.of_int (pos p.tcp_success_count)) (F.of_int (pos tcp_total))
            else F.lit 1 0;
        playlist_refreshes = p.playlist_refreshes;
        playlist_late_count = p.playlist_late_count;
        playlist_avg_jitter_ms =
            if ltb 1 p.playlist_refreshes
            then F.div
                (F.div (F.of_int p.playlist_jitter_sum) (F.of_int (pos (p.playlist_refreshes - 1))))
                (F.lit 1000000 0)
            else nothing;
        playlist_max_jitter_ms =
            if ltb 1 p.playlist_refreshes then millis p.playlist_jitter_max else nothing;
        sequence_skips = p.sequence_skips;
        http_error_count = p.http_error_count;
        http_4xx_count = p.http_4xx_count;
        http_5xx_count = p.http_5xx_count;
        reconnect_count = p.reconnect_count;
        segment_failed_count = p.segment_failed_count;
        segment_skipped_count = p.segment_skipped_count;
        playlist_failed_count = p.playlist_failed_count;
        segments_expired_sum = p.segments_expired_sum;
        error_rate =
            if ltb 0 p.http_open_count
            then F.div (F.of_int (pos (p.http_error_count + p.segment_failed_count)))
                (F.of_int (pos p.http_open_count))
            else nothing;
        http_open_count = p.http_open_count;
        bytes_downloaded = p.bytes_downloaded;
        segment_bytes_downloaded = p.segment_bytes_downloaded;
        size_lookup_attempts = p.size_lookup_attempts;
        size_lookup_successes = p.size_lookup_successes;
      }
