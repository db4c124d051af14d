-- ===== src/Manager/Debugging.antt =====
-- client_manager.go: `computeDebugStats` and its cache. `quantile` is what `Stats` of a parser takes; the rolling averages of
-- the throughput tracker, which it copies, are left out.
use go_ffmpeg_hls_swarm.Common.{
  ℕ, ◌+◌, ◌-◌, ◌&&◌, ◌||◌, if◌then◌else◌, ltb, Option, none, some, List, [], ◌∷◌, ℤ, pos, ltb_ℤ,
  sub_ℕ, length, Float,
}
use go_ffmpeg_hls_swarm.Debug.State.{Parser}
use go_ffmpeg_hls_swarm.Debug.Figures.{DebugStats, Percentiles, stats, nothing}

-- `debugRateSnapshot`.
pub record DebugRateSnapshot : Type 0 where
  pub timestamp : ℕ
  pub segments : ℕ
  pub playlists : ℕ
  pub http_requests : ℕ
  pub tcp_connects : ℕ

-- The part of `DebugStatsAggregate` that the loop over the parsers writes, with its accumulators.
pub record DebugTotals (R : Type 0) : Type 0 where
  pub segments_downloaded : ℕ
  pub segments_failed : ℕ
  pub segments_skipped : ℕ
  pub segments_expired : ℕ
  pub playlists_refreshed : ℕ
  pub playlists_failed : ℕ
  pub playlist_late_count : ℕ
  pub sequence_skips : ℕ
  pub total_seg_wall_time : R
  pub seg_wall_time_count : ℕ
  pub segment_wall_time_max : R
  pub segment_wall_time_min : R
  pub segment_percentiles : Percentiles
  pub manifest_count : ℕ
  pub manifest_wall_time_avg : R
  pub manifest_wall_time_max : R
  pub manifest_wall_time_min : R
  pub manifest_percentiles : Percentiles
  pub playlist_jitter_max : R
  pub http_open_count : ℕ
  pub http_4xx_count : ℕ
  pub http_5xx_count : ℕ
  pub reconnect_count : ℕ
  pub tcp_connect_count : ℕ
  pub tcp_success_count : ℕ
  pub tcp_refused_count : ℕ
  pub tcp_timeout_count : ℕ
  pub total_tcp_connect : R
  pub tcp_connect_max_ms : R
  pub tcp_connect_min_ms : R
  pub timestamps_used : ℕ
  pub lines_processed : ℕ
  pub total_segment_bytes : ℕ
  pub lookup_attempts : ℕ
  pub lookup_successes : ℕ

-- `DebugStatsAggregate`.
pub record DebugStatsAggregate (R : Type 0) : Type 0 where
  pub clients_with_debug_stats : ℕ
  pub totals : DebugTotals R
  pub segment_wall_time_avg : R
  pub tcp_connect_avg_ms : R
  pub tcp_health_ratio : R
  pub error_rate : R
  pub instant_segments_rate : R
  pub instant_playlists_rate : R
  pub instant_http_requests_rate : R
  pub instant_tcp_connects_rate : R

-- `debugParsers`, `prevDebugSnapshot`, `cachedDebugStats` and `debugStatsCacheTTL`.
pub record DebugManager (R : Type 0) : Type 0 where
  pub debug_parsers : List (ℕ × Parser)
  pub prev_debug_snapshot : DebugRateSnapshot
  pub cached_debug_stats : Option (ℕ × DebugStatsAggregate R)
  pub debug_stats_cache_ttl : ℤ

abbrev pub no_percentiles : Percentiles
no_percentiles = record { p25 = pos 0; p50 = pos 0; p75 = pos 0; p95 = pos 0; p99 = pos 0 }

abbrev greater_ℤ : ℤ → ℤ → ℤ
greater_ℤ a b = if ltb_ℤ a b then b else a

-- Of each percentile the greater.
abbrev pub max_percentiles : Percentiles → Percentiles → Percentiles
max_percentiles a b = record {
  p25 = greater_ℤ a.p25 b.p25;
  p50 = greater_ℤ a.p50 b.p50;
  p75 = greater_ℤ a.p75 b.p75;
  p95 = greater_ℤ a.p95 b.p95;
  p99 = greater_ℤ a.p99 b.p99;
}

module _ (F : Float) where
  abbrev greater : F.F → F.F → F.F
  greater a b = if F.lt a b then b else a

  -- The least so far, where 0 is taken for unset.
  abbrev lesser : F.F → F.F → F.F
  lesser a b = if (F.le a (nothing F) && F.le (nothing F) a) || F.lt b a then b else a

  abbrev number : ℕ → F.F
  number n = F.of_int (pos n)

  unfoldable pub no_debug_totals : DebugTotals F.F
  no_debug_totals = record {
    segments_downloaded = 0;
    segments_failed = 0;
    segments_skipped = 0;
    segments_expired = 0;
    playlists_refreshed = 0;
    playlists_failed = 0;
    playlist_late_count = 0;
    sequence_skips = 0;
    total_seg_wall_time = nothing F;
    seg_wall_time_count = 0;
    segment_wall_time_max = nothing F;
    segment_wall_time_min = nothing F;
    segment_percentiles = no_percentiles;
    manifest_count = 0;
    manifest_wall_time_avg = nothing F;
    manifest_wall_time_max = nothing F;
    manifest_wall_time_min = nothing F;
    manifest_percentiles = no_percentiles;
    playlist_jitter_max = nothing F;
    http_open_count = 0;
    http_4xx_count = 0;
    http_5xx_count = 0;
    reconnect_count = 0;
    tcp_connect_count = 0;
    tcp_success_count = 0;
    tcp_refused_count = 0;
    tcp_timeout_count = 0;
    total_tcp_connect = nothing F;
    tcp_connect_max_ms = nothing F;
    tcp_connect_min_ms = nothing F;
    timestamps_used = 0;
    lines_processed = 0;
    total_segment_bytes = 0;
    lookup_attempts = 0;
    lookup_successes = 0;
  }

  -- The loop of `computeDebugStats` on the statistics of one parser.
  unfoldable pub note_stats : DebugStats F.F → DebugTotals F.F → DebugTotals F.F
  note_stats s t =
      let timed = ltb 0 s.segment_count in
      let refreshed = ltb 0 s.manifest_count in
      let connected = ltb 0 s.tcp_connect_count in
      let manifests = t.manifest_count + s.manifest_count in
      record {
        segments_downloaded = t.segments_downloaded + s.segment_count;
        segments_failed = t.segments_failed + s.segment_failed_count;
        segments_skipped = t.segments_skipped + s.segment_skipped_count;
        segments_expired = t.segments_expired + s.segments_expired_sum;
        playlists_refreshed = t.playlists_refreshed + s.playlist_refreshes;
        playlists_failed = t.playlists_failed + s.playlist_failed_count;
        playlist_late_count = t.playlist_late_count + s.playlist_late_count;
        sequence_skips = t.sequence_skips + s.sequence_skips;
        total_seg_wall_time =
            if timed
            then F.add t.total_seg_wall_time (F.mul s.segment_times.avg_ms (number s.segment_count))
            else t.total_seg_wall_time;
        seg_wall_time_count = t.seg_wall_time_count + (if timed then s.segment_count else 0);
        segment_wall_time_max =
            if timed
            then greater t.segment_wall_time_max s.segment_times.max_ms
            else t.segment_wall_time_max;
        segment_wall_time_min =
            if timed
            then lesser t.segment_wall_time_min s.segment_times.min_ms
            else t.segment_wall_time_min;
        segment_percentiles =
            if timed
            then max_percentiles t.segment_percentiles s.segment_percentiles
            else t.segment_percentiles;
        manifest_count = manifests;
        manifest_wall_time_avg =
            if refreshed
            then F.div
                (F.add (F.mul t.manifest_wall_time_avg (number (manifests - s.manifest_count)))
                  (F.mul s.manifest_times.avg_ms (number s.manifest_count)))
                (number manifests)
            else t.manifest_wall_time_avg;
        manifest_wall_time_max =
            if refreshed
            then greater t.manifest_wall_time_max s.manifest_times.max_ms
            else t.manifest_wall_time_max;
        manifest_wall_time_min =
            if refreshed
            then lesser t.manifest_wall_time_min s.manifest_times.min_ms
            else t.manifest_wall_time_min;
        manifest_percentiles =
            if refreshed
            then max_percentiles t.manifest_percentiles s.manifest_percentiles
            else t.manifest_percentiles;
        playlist_jitter_max = greater t.playlist_jitter_max s.playlist_max_jitter_ms;
        http_open_count = t.http_open_count + s.http_open_count;
        http_4xx_count = t.http_4xx_count + s.http_4xx_count;
        http_5xx_count = t.http_5xx_count + s.http_5xx_count;
        reconnect_count = t.reconnect_count + s.reconnect_count;
        tcp_connect_count = t.tcp_connect_count + s.tcp_connect_count;
        tcp_success_count = t.tcp_success_count + s.tcp_success_count;
        tcp_refused_count = t.tcp_refused_count + s.tcp_refused_count;
        tcp_timeout_count = t.tcp_timeout_count + s.tcp_timeout_count;
        total_tcp_connect =
            if connected
            then F.add t.total_tcp_connect
                (F.mul s.tcp_connect_times.avg_ms (number s.tcp_connect_count))
            else t.total_tcp_connect;
        tcp_connect_max_ms =
            if connected
            then greater t.tcp_connect_max_ms s.tcp_connect_times.max_ms
            else t.tcp_connect_max_ms;
        tcp_connect_min_ms =
            if connected
            then lesser t.tcp_connect_min_ms s.tcp_connect_times.min_ms
            else t.tcp_connect_min_ms;
        timestamps_used = t.timestamps_used + s.timestamps_used;
        lines_processed = t.lines_processed + s.lines_processed;
        total_segment_bytes = t.total_segment_bytes + s.segment_bytes_downloaded;
        lookup_attempts = t.lookup_attempts + s.size_lookup_attempts;
        lookup_successes = t.lookup_successes + s.size_lookup_successes;
      }

  abbrev quotient_or : F.F → ℕ → F.F → F.F
  quotient_or n d default = if ltb 0 d then F.div n (number d) else default

  module _ (seconds : ℤ → F.F) (quantile : ℕ → List ℤ → ℤ) where
    unfoldable pub note_parsers : List (ℕ × Parser) → DebugTotals F.F → DebugTotals F.F
    unfolding note_stats stats
    note_parsers [] t = t
    note_parsers ((id, p) ∷ parsers) t = note_parsers parsers (note_stats (stats F quantile p) t)

    abbrev change_rate : ℕ → ℕ → F.F → F.F
    change_rate n before elapsed =
        if F.lt (nothing F) elapsed then F.div (F.of_int (sub_ℕ n before)) elapsed else nothing F

    -- `computeDebugStats` at the time `now`.
    unfoldable pub compute_debug_stats :
        ℕ → DebugManager F.F → DebugStatsAggregate F.F × DebugManager F.F
    unfolding note_parsers no_debug_totals
    compute_debug_stats now m =
        let t = note_parsers m.debug_parsers no_debug_totals in
        let prev = m.prev_debug_snapshot in
        let elapsed = seconds (sub_ℕ now prev.timestamp) in
        let total_tcp = t.tcp_success_count + t.tcp_refused_count + t.tcp_timeout_count in
        let agg : DebugStatsAggregate F.F = record {
          clients_with_debug_stats = length m.debug_parsers;
          totals = t;
          segment_wall_time_avg =
              quotient_or t.total_seg_wall_time t.seg_wall_time_count (nothing F);
          tcp_connect_avg_ms = quotient_or t.total_tcp_connect t.tcp_connect_count (nothing F);
          tcp_health_ratio = quotient_or (number t.tcp_success_count) total_tcp (F.lit 1 0);
          error_rate =
              quotient_or (number (t.http_4xx_count + t.http_5xx_count + t.segments_failed))
                t.http_open_count (nothing F);
          instant_segments_rate = change_rate t.segments_downloaded prev.segments elapsed;
          instant_playlists_rate = change_rate t.playlists_refreshed prev.playlists elapsed;
          instant_http_requests_rate = change_rate t.http_open_count prev.http_requests elapsed;
          instant_tcp_connects_rate = change_rate t.tcp_connect_count prev.tcp_connects elapsed;
        } in
        (
          agg,
          record m {
            prev_debug_snapshot = record {
              timestamp = now;
              segments = t.segments_downloaded;
              playlists = t.playlists_refreshed;
              http_requests = t.http_open_count;
              tcp_connects = t.tcp_connect_count;
            };
            cached_debug_stats = some (now, agg);
          },
        )

    -- `GetDebugStats` at the time `now`.
    unfoldable pub get_debug_stats :
        ℕ → DebugManager F.F → DebugStatsAggregate F.F × DebugManager F.F
    unfolding compute_debug_stats
    get_debug_stats now m =
        let computed = compute_debug_stats now m in
        elim m.cached_debug_stats [
          | none ↦ computed
          | some (stamp, agg) ↦
              if ltb_ℤ (sub_ℕ now stamp) m.debug_stats_cache_ttl then (agg, m) else computed
        ]
