-- ===== src/Collector/Examples.antt =====
-- A collector that gets three updates, with a total that falls, and the theorems at it.
use mathlib.Core.List.{Mem}
use go_ffmpeg_hls_swarm.Common.{
  ℕ, ◌*◌, ◌/◌, ◌^◌, ◌≡◌, refl, false, true, List, [], ◌∷◌, map, ℤ, pos, negsuc, ◌*ℤ◌, ◌-ℤ◌, ◌≤ℤ◌,
  quot_ℤ, All, codes, text_eq, Float, arith,
}
use go_ffmpeg_hls_swarm.Common.WholeFloats.{whole}
use go_ffmpeg_hls_swarm.Collector.Metrics.{
  Counter, AggregatedStatsUpdate, CollectorConfig, Collector,
}
use go_ffmpeg_hls_swarm.Collector.Updates.{record_stats, error_label}
use go_ffmpeg_hls_swarm.Collector.Events.{new_collector}
use go_ffmpeg_hls_swarm.Collector.Summaries.{generate_summary, sort_durations}
use go_ffmpeg_hls_swarm.Collector.Values.{value}
use go_ffmpeg_hls_swarm.Collector.Counters.{rises, record_all, mirrors, record_all-rises}
use go_ffmpeg_hls_swarm.Collector.Errors.{counts_of, record_all-errors}
use go_ffmpeg_hls_swarm.Collector.Agreement.{
  Method, stats, started, restarted, exited, active, removed,
}
use go_ffmpeg_hls_swarm.Collector.Quantiles.{KeepsOrder, generate_summary-percentiles}

abbrev cfg : CollectorConfig
cfg = record {
  target_clients = pos 10;
  test_duration = pos 0;
  stream_url = codes "http://origin/live.m3u8";
  variant = codes "all";
  per_client_metrics = true;
}

-- An update with a total of bytes and errors.
abbrev update : ℤ → List (ℕ × ℤ) → AggregatedStatsUpdate ℤ
update bytes errors = record {
  active_clients = pos 3;
  stalled_clients = pos 0;
  total_manifest_reqs = pos 4;
  total_segment_reqs = pos 8;
  total_init_reqs = pos 0;
  total_unknown_reqs = pos 0;
  total_bytes = bytes;
  manifest_req_rate = pos 1;
  segment_req_rate = pos 2;
  throughput_bytes_per_sec = pos 5;
  total_http_errors = errors;
  total_reconnections = pos 0;
  total_timeouts = pos 0;
  error_rate = pos 0;
  inferred_latency_p50 = pos 0;
  inferred_latency_p95 = pos 0;
  inferred_latency_p99 = pos 0;
  inferred_latency_max = pos 0;
  clients_above_realtime = pos 3;
  clients_below_realtime = pos 0;
  average_speed = pos 1;
  clients_with_high_drift = pos 0;
  average_drift = pos 0;
  max_drift = pos 0;
  total_lines_dropped = pos 0;
  total_lines_read = pos 100;
  clients_with_drops = pos 0;
  metrics_degraded = false;
  peak_drop_rate = pos 0;
  progress_lines_dropped = pos 0;
  progress_lines_read = pos 60;
  stderr_lines_dropped = pos 0;
  stderr_lines_read = pos 40;
  uptime_p50 = pos 0;
  uptime_p95 = pos 0;
  uptime_p99 = pos 0;
  total_segment_bytes = pos 0;
  segment_throughput_avg_1s = pos 0;
  segment_throughput_avg_30s = pos 0;
  segment_throughput_avg_60s = pos 0;
  segment_throughput_avg_300s = pos 0;
  per_client_stats =
      record {
        client_id = pos 2;
        current_speed = pos 1;
        current_drift = pos 0;
        total_bytes = pos 7;
      }
      ∷ [];
}

abbrev updates : List (ℕ × AggregatedStatsUpdate ℤ)
updates =
    (1, update (pos 10) ((404, pos 2) ∷ (0, pos 1) ∷ []))
    ∷ (2, update (pos 4) ((0, pos 3) ∷ (404, pos 2) ∷ []))
    ∷ (3, update (pos 10) ((404, pos 5) ∷ (0, pos 3) ∷ []))
    ∷ []

record_all-rises_example :
    All
      (λ m.
        value m.0 m.1 (record_all whole updates (new_collector whole 0 cfg).1).0
        ≡ rises (pos 0) (map (λ u. m.2 u.1) updates))
      (mirrors whole)
record_all-rises_example = record_all-rises whole 0 cfg updates

-- Bytes that are lost from the total and come again are counted twice: 16 where the total was never above 10.
record_all_recounts :
    value Counter.bytes_downloaded_total []
      (record_all whole updates (new_collector whole 0 cfg).1).0
    ≡ 16
unfolding record_stats new_collector text_eq ◌-ℤ◌
record_all_recounts = refl

record_all-errors_example :
    value Counter.http_errors_total
      (error_label 404)
      (record_all whole updates (new_collector whole 0 cfg).1).0
    ≡ rises (pos 0) (counts_of whole 404 updates)
record_all-errors_example = record_all-errors whole 0 cfg updates 404 (omega arith) (ground arith)

abbrev methods : List (Method ℤ)
methods =
    started
    ∷ active (pos 1)
    ∷ stats 1 (update (pos 10) [])
    ∷ exited (pos 137) (pos 50)
    ∷ restarted
    ∷ exited (pos 0) (pos 20)
    ∷ exited (negsuc 0) (pos 90)
    ∷ removed (pos 2)
    ∷ []

-- Numbers with two decimals, rounded down.
abbrev hundredths : Float
hundredths = record whole {
  lit = λ m k. pos (m * 100 / 10 ^ k);
  of_int = λ n. n *ℤ pos 100;
  to_int = λ a. quot_ℤ a 100;
  mul = λ a b. quot_ℤ (a *ℤ b) 100;
}

hundredths-KeepsOrder : KeepsOrder hundredths
unfolding ◌*ℤ◌
hundredths-KeepsOrder = record { p50_p95 = λ n. ground arith; p95_p99 = λ n. ground arith }

abbrev ended : Collector
ended = record (new_collector hundredths 0 cfg).1 { uptimes = pos 50 ∷ pos 20 ∷ pos 90 ∷ [] }

generate_summary-percentiles_example :
    let s = generate_summary hundredths 200 ended in
    Mem s.uptime_p50 ended.uptimes
    × Mem s.uptime_p95 ended.uptimes
    × Mem s.uptime_p99 ended.uptimes
    × (s.uptime_p50 ≤ℤ s.uptime_p95)
    × (s.uptime_p95 ≤ℤ s.uptime_p99)
generate_summary-percentiles_example =
    generate_summary-percentiles hundredths hundredths-KeepsOrder 200 ended (λ e. cc)

sort_durations_three :
    sort_durations (pos 50 ∷ pos 20 ∷ pos 90 ∷ []) ≡ pos 20 ∷ pos 50 ∷ pos 90 ∷ []
unfolding sort_durations
sort_durations_three = refl

generate_summary_median : (generate_summary hundredths 200 ended).uptime_p50 ≡ pos 50
unfolding generate_summary new_collector ◌*ℤ◌
generate_summary_median = refl
