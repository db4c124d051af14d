-- ===== src/Collector/Events.antt =====
-- collector.go: the collector at its start, and the methods that record events.
use go_ffmpeg_hls_swarm.Common.{
  ℕ, suc, if◌then◌else◌, List, [], ◌∷◌, ◌++◌, ℤ, pos, negsuc, ◌-ℤ◌, ltb_ℤ, is_zero, Text, codes,
  format_int, Float,
}
use go_ffmpeg_hls_swarm.Aggregator.{seconds}
use go_ffmpeg_hls_swarm.Collector.Metrics.{
  Counter, Gauge, Histogram, Call, set_gauge, add_counter, observe, delete_values, CollectorConfig,
  Collector,
}
use go_ffmpeg_hls_swarm.Collector.Updates.{max_ℤ}

-- `c.exitCodes[code]++`.
unfoldable pub count_exit : ℤ → List (ℤ × ℕ) → List (ℤ × ℕ)
count_exit code [] = (code, 1) ∷ []
count_exit code ((c, n) ∷ m) =
    if is_zero (c -ℤ code) then (c, suc n) ∷ m else (c, n) ∷ count_exit code m

unfoldable pub exit_category : ℤ → Text
exit_category code =
    if is_zero code
    then codes "success"
    else if ltb_ℤ (pos 128) code
    then codes "signal"
    else codes "error"

abbrev remove_id : ℤ → List ℤ → List ℤ
remove_id id [] = []
remove_id id (j ∷ ids) = if is_zero (j -ℤ id) then ids else j ∷ remove_id id ids

-- The collector that `NewCollectorWithRegistry` makes at the time `now`.
unfoldable pub empty_collector : ℕ → CollectorConfig → Collector
empty_collector now cfg = record {
  per_client_enabled = cfg.per_client_metrics;
  target_clients = cfg.target_clients;
  test_duration = cfg.test_duration;
  stream_url = cfg.stream_url;
  variant = cfg.variant;
  start_time = now;
  prev_manifest_reqs = pos 0;
  prev_segment_reqs = pos 0;
  prev_init_reqs = pos 0;
  prev_unknown_reqs = pos 0;
  prev_bytes = pos 0;
  prev_segment_bytes = pos 0;
  prev_timeouts = pos 0;
  prev_reconnections = pos 0;
  prev_http_errors = [];
  prev_progress_dropped = pos 0;
  prev_stderr_dropped = pos 0;
  prev_progress_parsed = pos 0;
  prev_stderr_parsed = pos 0;
  peak_active = pos 0;
  total_starts = 0;
  total_restarts = 0;
  exit_codes = [];
  uptimes = [];
  registered_client_ids = [];
}

module _ (F : Float) where
  -- The calls of `NewCollectorWithRegistry` once the metrics are registered, with the collector.
  unfoldable pub new_collector : ℕ → CollectorConfig → List (Call F.F) × Collector
  unfolding empty_collector
  new_collector now cfg = (
    set_gauge Gauge.swarm_info (codes "1.0" ∷ cfg.stream_url ∷ cfg.variant ∷ []) (F.of_int (pos 1))
        ∷ set_gauge Gauge.target_clients [] (F.of_int cfg.target_clients)
        ∷ set_gauge Gauge.test_duration_seconds [] (seconds F cfg.test_duration)
        ∷ set_gauge Gauge.test_remaining_seconds [] (F.of_int (negsuc 0))
        ∷ [],
    empty_collector now cfg,
  )

  unfoldable pub record_latency : ℤ → Collector → List (Call F.F) × Collector
  record_latency d c = (observe Histogram.inferred_latency_seconds (seconds F d) ∷ [], c)

  unfoldable pub client_started : Collector → List (Call F.F) × Collector
  client_started c = (
    add_counter Counter.client_starts_total [] (pos 1) ∷ [],
    record c { total_starts = suc c.total_starts },
  )

  unfoldable pub client_restarted : Collector → List (Call F.F) × Collector
  client_restarted c = (
    add_counter Counter.client_restarts_total [] (pos 1) ∷ [],
    record c { total_restarts = suc c.total_restarts },
  )

  unfoldable pub record_exit : ℤ → ℤ → Collector → List (Call F.F) × Collector
  unfolding count_exit exit_category
  record_exit code uptime c = (
    add_counter Counter.client_exits_total (exit_category code) (pos 1)
        ∷ observe Histogram.client_uptime_seconds (seconds F uptime)
        ∷ [],
    record c { exit_codes = count_exit code c.exit_codes; uptimes = c.uptimes ++ uptime ∷ [] },
  )

  unfoldable pub set_active_count : ℤ → Collector → List (Call F.F) × Collector
  set_active_count count c = (
    set_gauge Gauge.active_clients [] (F.of_int count) ∷ [],
    record c { peak_active = max_ℤ c.peak_active count },
  )

  unfoldable pub set_ramp_progress : F.F → Collector → List (Call F.F) × Collector
  set_ramp_progress progress c = (set_gauge Gauge.ramp_progress [] progress ∷ [], c)

  unfoldable pub remove_client : ℤ → Collector → List (Call F.F) × Collector
  remove_client id c =
      if c.per_client_enabled
      then (
        delete_values Gauge.client_speed (format_int id)
            ∷ delete_values Gauge.client_drift (format_int id)
            ∷ delete_values Gauge.client_bytes (format_int id)
            ∷ [],
        record c { registered_client_ids = remove_id id c.registered_client_ids },
      )
      else ([], c)
