-- ===== src/Collector/Updates.antt =====
-- collector.go: the methods that update the metrics.
use go_ffmpeg_hls_swarm.Common.{
  ℕ, if◌then◌else◌, ◌==◌, List, [], ◌∷◌, ◌++◌, ℤ, pos, ◌-ℤ◌, ltb_ℤ, sub_ℕ, is_zero, Text, codes,
  format_int, Float,
}
use go_ffmpeg_hls_swarm.Aggregator.{seconds}
use go_ffmpeg_hls_swarm.Collector.Metrics.{
  Counter, Gauge, Call, set_gauge, add_counter, PerClientStatsUpdate, AggregatedStatsUpdate,
  Collector,
}

-- `Add(float64(total - prev))` where that is positive.
unfoldable pub add_delta : {R : Type 0} → Counter → Text → ℤ → ℤ → List (Call R)
add_delta counter label total prev =
    if ltb_ℤ (pos 0) (total -ℤ prev) then add_counter counter label (total -ℤ prev) ∷ [] else []

abbrev set_to : {R : Type 0} → Gauge → R → Call R
set_to gauge v = set_gauge gauge [] v

-- `c.prevHTTPErrors[code]`, and the write of it.
unfoldable pub previous_errors : ℕ → List (ℕ × ℤ) → ℤ
previous_errors code [] = pos 0
previous_errors code ((c, n) ∷ m) = if c == code then n else previous_errors code m

unfoldable pub store_errors : ℕ → ℤ → List (ℕ × ℤ) → List (ℕ × ℤ)
store_errors code n [] = (code, n) ∷ []
store_errors code n ((c, k) ∷ m) =
    if c == code then (code, n) ∷ m else (c, k) ∷ store_errors code n m

unfoldable pub error_label : ℕ → Text
error_label code = if code == 0 then codes "other" else format_int (pos code)

-- The loop over the errors: the calls, and `prevHTTPErrors` after it.
unfoldable pub record_errors :
    {R : Type 0} → List (ℕ × ℤ) → List (ℕ × ℤ) → List (Call R) × List (ℕ × ℤ)
unfolding previous_errors store_errors error_label add_delta
record_errors [] prev = ([], prev)
record_errors ((code, count) ∷ errors) prev =
    let (calls, after) = record_errors errors (store_errors code count prev) in
    (
      add_delta Counter.http_errors_total (error_label code) count (previous_errors code prev)
          ++ calls,
      after,
    )

abbrev add_id : ℤ → List ℤ → List ℤ
add_id id [] = id ∷ []
add_id id (j ∷ ids) = if is_zero (j -ℤ id) then j ∷ ids else j ∷ add_id id ids

unfoldable pub register_clients : {R : Type 0} → List (PerClientStatsUpdate R) → List ℤ → List ℤ
register_clients [] ids = ids
register_clients (cs ∷ more) ids = register_clients more (add_id cs.client_id ids)

abbrev pub max_ℤ : ℤ → ℤ → ℤ
max_ℤ a b = if ltb_ℤ a b then b else a

module _ (F : Float) where
  abbrev set_int : Gauge → ℤ → Call F.F
  set_int gauge n = set_to gauge (F.of_int n)

  abbrev set_seconds : Gauge → ℤ → Call F.F
  set_seconds gauge d = set_to gauge (seconds F d)

  -- The part of `RecordStats` for each panel.
  unfoldable pub overview : ℕ → AggregatedStatsUpdate F.F → Collector → List (Call F.F)
  overview now s c =
      let progress = F.div (F.of_int s.active_clients) (F.of_int c.target_clients) in
      let elapsed = sub_ℕ now c.start_time in
      let remaining = c.test_duration -ℤ elapsed in
      set_int Gauge.active_clients s.active_clients
      ∷ set_to Gauge.ramp_progress (
          if ltb_ℤ (pos 0) c.target_clients
          then if F.lt (F.lit 1 0) progress then F.lit 1 0 else progress
          else F.lit 0 0)
      ∷ set_seconds Gauge.test_elapsed_seconds elapsed
      ∷ (if ltb_ℤ (pos 0) c.test_duration
          then set_seconds Gauge.test_remaining_seconds
              (if ltb_ℤ remaining (pos 0) then pos 0 else remaining)
            ∷ []
          else [])

  unfoldable pub request_rates : AggregatedStatsUpdate F.F → Collector → List (Call F.F)
  unfolding add_delta
  request_rates s c =
      add_delta Counter.manifest_requests_total [] s.total_manifest_reqs c.prev_manifest_reqs
      ++ (add_delta Counter.segment_requests_total [] s.total_segment_reqs c.prev_segment_reqs
          ++ (add_delta Counter.init_requests_total [] s.total_init_reqs c.prev_init_reqs
              ++ (add_delta Counter.unknown_requests_total [] s.total_unknown_reqs
                    c.prev_unknown_reqs
                  ++ (add_delta Counter.bytes_downloaded_total [] s.total_bytes c.prev_bytes
                      ++ set_to Gauge.manifest_requests_per_sec s.manifest_req_rate
                        ∷ set_to Gauge.segment_requests_per_sec s.segment_req_rate
                        ∷ set_to Gauge.throughput_bytes_per_sec s.throughput_bytes_per_sec
                        ∷ []))))

  unfoldable pub segment_throughput : AggregatedStatsUpdate F.F → Collector → List (Call F.F)
  unfolding add_delta
  segment_throughput s c =
      add_delta Counter.segment_bytes_downloaded_total [] s.total_segment_bytes c.prev_segment_bytes
      ++ set_to Gauge.segment_throughput_avg_1s s.segment_throughput_avg_1s
        ∷ set_to Gauge.segment_throughput_avg_30s s.segment_throughput_avg_30s
        ∷ set_to Gauge.segment_throughput_avg_60s s.segment_throughput_avg_60s
        ∷ set_to Gauge.segment_throughput_avg_300s s.segment_throughput_avg_300s
        ∷ []

  unfoldable pub latency_and_health : AggregatedStatsUpdate F.F → List (Call F.F)
  latency_and_health s =
      set_seconds Gauge.latency_p50_seconds s.inferred_latency_p50
      ∷ set_seconds Gauge.latency_p95_seconds s.inferred_latency_p95
      ∷ set_seconds Gauge.latency_p99_seconds s.inferred_latency_p99
      ∷ set_seconds Gauge.latency_max_seconds s.inferred_latency_max
      ∷ set_int Gauge.clients_above_realtime s.clients_above_realtime
      ∷ set_int Gauge.clients_below_realtime s.clients_below_realtime
      ∷ set_int Gauge.stalled_clients s.stalled_clients
      ∷ set_to Gauge.average_speed s.average_speed
      ∷ set_int Gauge.high_drift_clients s.clients_with_high_drift
      ∷ set_seconds Gauge.average_drift_seconds s.average_drift
      ∷ set_seconds Gauge.max_drift_seconds s.max_drift
      ∷ []

  unfoldable pub errors : AggregatedStatsUpdate F.F → Collector → List (Call F.F)
  unfolding add_delta record_errors
  errors s c =
      (record_errors s.total_http_errors c.prev_http_errors).0
      ++ (add_delta Counter.timeouts_total [] s.total_timeouts c.prev_timeouts
          ++ (add_delta Counter.reconnections_total [] s.total_reconnections c.prev_reconnections
              ++ set_to Gauge.error_rate s.error_rate ∷ []))

  unfoldable pub pipeline_health : AggregatedStatsUpdate F.F → Collector → List (Call F.F)
  unfolding add_delta
  pipeline_health s c =
      add_delta Counter.lines_dropped_total (codes "progress") s.progress_lines_dropped
        c.prev_progress_dropped
      ++ (add_delta Counter.lines_parsed_total (codes "progress")
            (s.progress_lines_read -ℤ s.progress_lines_dropped) c.prev_progress_parsed
          ++ (add_delta Counter.lines_dropped_total (codes "stderr") s.stderr_lines_dropped
                c.prev_stderr_dropped
              ++ (add_delta Counter.lines_parsed_total (codes "stderr")
                    (s.stderr_lines_read -ℤ s.stderr_lines_dropped) c.prev_stderr_parsed
                  ++ set_int Gauge.clients_degraded s.clients_with_drops
                    ∷ set_to Gauge.drop_rate (
                        if ltb_ℤ (pos 0) s.total_lines_read
                        then F.div (F.of_int s.total_lines_dropped) (F.of_int s.total_lines_read)
                        else F.lit 0 0)
                    ∷ set_to Gauge.peak_drop_rate s.peak_drop_rate
                    ∷ [])))

  unfoldable pub uptime_percentiles : AggregatedStatsUpdate F.F → List (Call F.F)
  uptime_percentiles s =
      set_seconds Gauge.uptime_p50_seconds s.uptime_p50
      ∷ set_seconds Gauge.uptime_p95_seconds s.uptime_p95
      ∷ set_seconds Gauge.uptime_p99_seconds s.uptime_p99
      ∷ []

  unfoldable pub per_client : List (PerClientStatsUpdate F.F) → List (Call F.F)
  per_client [] = []
  per_client (cs ∷ more) =
      let label = format_int cs.client_id in
      set_gauge Gauge.client_speed (label ∷ []) cs.current_speed
      ∷ set_gauge Gauge.client_drift (label ∷ []) (seconds F cs.current_drift)
      ∷ set_gauge Gauge.client_bytes (label ∷ []) (F.of_int cs.total_bytes)
      ∷ per_client more

  -- `RecordStats` at the time `now`.
  unfoldable pub record_stats :
      ℕ → AggregatedStatsUpdate F.F → Collector → List (Call F.F) × Collector
  unfolding overview request_rates segment_throughput latency_and_health errors pipeline_health
      uptime_percentiles per_client record_errors register_clients
  record_stats now s c = (
    overview now s c
        ++ (request_rates s c
            ++ (segment_throughput s c
                ++ (latency_and_health s
                    ++ (errors s c
                        ++ (pipeline_health s c
                            ++ (uptime_percentiles s
                                ++ (if c.per_client_enabled
                                    then per_client s.per_client_stats
                                    else []))))))),
    record c {
      peak_active = max_ℤ c.peak_active s.active_clients;
      prev_manifest_reqs = s.total_manifest_reqs;
      prev_segment_reqs = s.total_segment_reqs;
      prev_init_reqs = s.total_init_reqs;
      prev_unknown_reqs = s.total_unknown_reqs;
      prev_bytes = s.total_bytes;
      prev_segment_bytes = s.total_segment_bytes;
      prev_http_errors = (record_errors {R = F.F} s.total_http_errors c.prev_http_errors).1;
      prev_timeouts = s.total_timeouts;
      prev_reconnections = s.total_reconnections;
      prev_progress_dropped = s.progress_lines_dropped;
      prev_progress_parsed = s.progress_lines_read -ℤ s.progress_lines_dropped;
      prev_stderr_dropped = s.stderr_lines_dropped;
      prev_stderr_parsed = s.stderr_lines_read -ℤ s.stderr_lines_dropped;
      registered_client_ids =
          if c.per_client_enabled
          then register_clients s.per_client_stats c.registered_client_ids
          else c.registered_client_ids;
    },
  )
