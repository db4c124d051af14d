-- ===== src/Collector/Metrics.antt =====
-- collector.go: the metrics, the calls of the Prometheus library, and the data that the collector reads.
use go_ffmpeg_hls_swarm.Common.{ℕ, Bool, List, ℤ, Text}

-- The counters. A label is that of the counters with one: the status code, the stream or the category.
pub data Counter : Type 0 where
  manifest_requests_total : Counter
  segment_requests_total : Counter
  init_requests_total : Counter
  unknown_requests_total : Counter
  bytes_downloaded_total : Counter
  segment_bytes_downloaded_total : Counter
  http_errors_total : Counter
  timeouts_total : Counter
  reconnections_total : Counter
  client_starts_total : Counter
  client_restarts_total : Counter
  client_exits_total : Counter
  lines_dropped_total : Counter
  lines_parsed_total : Counter

pub data Gauge : Type 0 where
  swarm_info : Gauge
  target_clients : Gauge
  test_duration_seconds : Gauge
  active_clients : Gauge
  ramp_progress : Gauge
  test_elapsed_seconds : Gauge
  test_remaining_seconds : Gauge
  manifest_requests_per_sec : Gauge
  segment_requests_per_sec : Gauge
  throughput_bytes_per_sec : Gauge
  segment_throughput_avg_1s : Gauge
  segment_throughput_avg_30s : Gauge
  segment_throughput_avg_60s : Gauge
  segment_throughput_avg_300s : Gauge
  latency_p50_seconds : Gauge
  latency_p95_seconds : Gauge
  latency_p99_seconds : Gauge
  latency_max_seconds : Gauge
  clients_above_realtime : Gauge
  clients_below_realtime : Gauge
  stalled_clients : Gauge
  average_speed : Gauge
  high_drift_clients : Gauge
  average_drift_seconds : Gauge
  max_drift_seconds : Gauge
  error_rate : Gauge
  clients_degraded : Gauge
  drop_rate : Gauge
  peak_drop_rate : Gauge
  uptime_p50_seconds : Gauge
  uptime_p95_seconds : Gauge
  uptime_p99_seconds : Gauge
  client_speed : Gauge
  client_drift : Gauge
  client_bytes : Gauge

pub data Histogram : Type 0 where
  inferred_latency_seconds : Histogram
  client_uptime_seconds : Histogram

-- Calls of the library: `WithLabelValues(labels).Set(v)`, `WithLabelValues(label).Add(float64(n))` or `Inc`,
-- `Observe(v)` and `DeleteLabelValues(label)`.
pub data Call (R : Type 0) : Type 0 where
  set_gauge : Gauge → List Text → R → Call R
  add_counter : Counter → Text → ℤ → Call R
  observe : Histogram → R → Call R
  delete_values : Gauge → Text → Call R

-- `PerClientStatsUpdate`.
pub record PerClientStatsUpdate (R : Type 0) : Type 0 where
  pub client_id : ℤ
  pub current_speed : R
  pub current_drift : ℤ
  pub total_bytes : ℤ

-- `AggregatedStatsUpdate`.
pub record AggregatedStatsUpdate (R : Type 0) : Type 0 where
  pub active_clients : ℤ
  pub stalled_clients : ℤ
  pub total_manifest_reqs : ℤ
  pub total_segment_reqs : ℤ
  pub total_init_reqs : ℤ
  pub total_unknown_reqs : ℤ
  pub total_bytes : ℤ
  pub manifest_req_rate : R
  pub segment_req_rate : R
  pub throughput_bytes_per_sec : R
  -- The map, as a list in the order in which the loop meets its entries.
  pub total_http_errors : List (ℕ × ℤ)
  pub total_reconnections : ℤ
  pub total_timeouts : ℤ
  pub error_rate : R
  pub inferred_latency_p50 : ℤ
  pub inferred_latency_p95 : ℤ
  pub inferred_latency_p99 : ℤ
  pub inferred_latency_max : ℤ
  pub clients_above_realtime : ℤ
  pub clients_below_realtime : ℤ
  pub average_speed : R
  pub clients_with_high_drift : ℤ
  pub average_drift : ℤ
  pub max_drift : ℤ
  pub total_lines_dropped : ℤ
  pub total_lines_read : ℤ
  pub clients_with_drops : ℤ
  pub metrics_degraded : Bool
  pub peak_drop_rate : R
  pub progress_lines_dropped : ℤ
  pub progress_lines_read : ℤ
  pub stderr_lines_dropped : ℤ
  pub stderr_lines_read : ℤ
  pub uptime_p50 : ℤ
  pub uptime_p95 : ℤ
  pub uptime_p99 : ℤ
  pub total_segment_bytes : ℤ
  pub segment_throughput_avg_1s : R
  pub segment_throughput_avg_30s : R
  pub segment_throughput_avg_60s : R
  pub segment_throughput_avg_300s : R
  pub per_client_stats : List (PerClientStatsUpdate R)

-- `CollectorConfig`.
pub record CollectorConfig : Type 0 where
  pub target_clients : ℤ
  pub test_duration : ℤ
  pub stream_url : Text
  pub variant : Text
  pub per_client_metrics : Bool

-- `Collector`.
pub record Collector : Type 0 where
  pub per_client_enabled : Bool
  pub target_clients : ℤ
  pub test_duration : ℤ
  pub stream_url : Text
  pub variant : Text
  pub start_time : ℕ
  pub prev_manifest_reqs : ℤ
  pub prev_segment_reqs : ℤ
  pub prev_init_reqs : ℤ
  pub prev_unknown_reqs : ℤ
  pub prev_bytes : ℤ
  pub prev_segment_bytes : ℤ
  pub prev_timeouts : ℤ
  pub prev_reconnections : ℤ
  pub prev_http_errors : List (ℕ × ℤ)
  pub prev_progress_dropped : ℤ
  pub prev_stderr_dropped : ℤ
  pub prev_progress_parsed : ℤ
  pub prev_stderr_parsed : ℤ
  pub peak_active : ℤ
  pub total_starts : ℕ
  pub total_restarts : ℕ
  pub exit_codes : List (ℤ × ℕ)
  pub uptimes : List ℤ
  pub registered_client_ids : List ℤ
