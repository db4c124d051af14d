-- ===== src/Collector/Deltas.antt =====
-- collector.go: the calls of one `RecordStats`, counter by counter.
use go_ffmpeg_hls_swarm.Common.{
  ℕ, ◌+◌, ◌≡◌, refl, ◌∙◌, Bool, true, false, ◌&&◌, if◌then◌else◌, ◌==◌, List, [], ◌∷◌, ℤ, ◌-ℤ◌,
  Text, codes, text_eq, Float, arith,
}
use go_ffmpeg_hls_swarm.Collector.Metrics.{
  Counter, PerClientStatsUpdate, AggregatedStatsUpdate, Collector,
}
use go_ffmpeg_hls_swarm.Collector.Updates.{
  record_errors, previous_errors, store_errors, error_label, overview, request_rates,
  segment_throughput, latency_and_health, errors, pipeline_health, uptime_percentiles, per_client,
  record_stats,
}
use go_ffmpeg_hls_swarm.Collector.Values.{
  index, value, Raises, rise, value-append, Raises-append, value-add_delta, add_delta-Raises,
}

-- The terms of a counter: its rise if it is the one that is asked for.
abbrev pub term : Counter → Text → Counter → Text → ℤ → ℤ → ℕ
term c label d l total prev = if index d == index c && text_eq l label then rise prev total else 0

module _ (F : Float) where
  value-per_client :
      (c : Counter) (label : Text) (more : List (PerClientStatsUpdate F.F))
      → value c label (per_client F more) ≡ 0
  unfolding per_client
  value-per_client c label [] = refl
  value-per_client c label (cs ∷ more) = value-per_client c label more

  value-enabled :
      (c : Counter) (label : Text) (enabled : Bool) (more : List (PerClientStatsUpdate F.F))
      → value c label (if enabled then per_client F more else []) ≡ 0
  value-enabled c label true more = value-per_client c label more
  value-enabled c label false more = refl

  per_client-Raises : (more : List (PerClientStatsUpdate F.F)) → Raises (per_client F more)
  unfolding per_client
  per_client-Raises [] = tt
  per_client-Raises (cs ∷ more) = per_client-Raises more

  value-overview :
      (c : Counter) (label : Text) (now : ℕ) (s : AggregatedStatsUpdate F.F) (k : Collector)
      → value c label (overview F now s k) ≡ 0
  unfolding overview
  value-overview c label now s k = ground arith

  pub value-request_rates :
      (c : Counter) (label : Text) (s : AggregatedStatsUpdate F.F) (k : Collector)
      → value c label (request_rates F s k)
        ≡ term c label Counter.manifest_requests_total [] s.total_manifest_reqs k.prev_manifest_reqs
          + (term c label Counter.segment_requests_total [] s.total_segment_reqs k.prev_segment_reqs
              + (term c label Counter.init_requests_total [] s.total_init_reqs k.prev_init_reqs
                  + (term c label Counter.unknown_requests_total [] s.total_unknown_reqs
                        k.prev_unknown_reqs
                      + (term c label Counter.bytes_downloaded_total [] s.total_bytes k.prev_bytes
                          + 0))))
  unfolding request_rates
  value-request_rates c label s k = simp (value-add_delta)

  pub value-segment_throughput :
      (c : Counter) (label : Text) (s : AggregatedStatsUpdate F.F) (k : Collector)
      → value c label (segment_throughput F s k)
        ≡ term c label Counter.segment_bytes_downloaded_total [] s.total_segment_bytes
            k.prev_segment_bytes
          + 0
  unfolding segment_throughput
  value-segment_throughput c label s k = simp (value-add_delta)

  pub value-errors :
      (c : Counter) (label : Text) (s : AggregatedStatsUpdate F.F) (k : Collector)
      → value c label (errors F s k)
        ≡ value c label (record_errors {R = F.F} s.total_http_errors k.prev_http_errors).0
          + (term c label Counter.timeouts_total [] s.total_timeouts k.prev_timeouts
              + (term c label Counter.reconnections_total [] s.total_reconnections
                    k.prev_reconnections
                  + 0))
  unfolding errors
  value-errors c label s k =
      value-append c label (record_errors {R = F.F} s.total_http_errors k.prev_http_errors).0 _
      ∙ simp (value-add_delta)

  pub value-pipeline_health :
      (c : Counter) (label : Text) (s : AggregatedStatsUpdate F.F) (k : Collector)
      → value c label (pipeline_health F s k)
        ≡ term c label Counter.lines_dropped_total
            (codes "progress")
            s.progress_lines_dropped
            k.prev_progress_dropped
          + (term c label Counter.lines_parsed_total
                (codes "progress")
                (s.progress_lines_read -ℤ s.progress_lines_dropped)
                k.prev_progress_parsed
              + (term c label Counter.lines_dropped_total
                    (codes "stderr")
                    s.stderr_lines_dropped
                    k.prev_stderr_dropped
                  + (term c label Counter.lines_parsed_total
                        (codes "stderr")
                        (s.stderr_lines_read -ℤ s.stderr_lines_dropped)
                        k.prev_stderr_parsed
                      + 0)))
  unfolding pipeline_health
  value-pipeline_health c label s k = simp (value-add_delta)

  value-uptimes :
      (c : Counter) (label : Text) (s : AggregatedStatsUpdate F.F)
      → value c label (latency_and_health F s) + value c label (uptime_percentiles F s) ≡ 0
  unfolding latency_and_health uptime_percentiles
  value-uptimes c label s = refl

  -- What one call of `RecordStats` adds to a counter comes from four of the panels.
  pub value-record_stats :
      (c : Counter) (label : Text) (now : ℕ) (s : AggregatedStatsUpdate F.F) (k : Collector)
      → value c label (record_stats F now s k).0
        ≡ value c label (request_rates F s k)
          + value c label (segment_throughput F s k)
          + value c label (errors F s k)
          + value c label (pipeline_health F s k)
  unfolding record_stats
  value-record_stats c label now s k =
      simp (value-append, value-overview, value-enabled) (omega (arith, value-uptimes c label s))

  record_errors-Raises :
      (counts prev : List (ℕ × ℤ)) → Raises (record_errors {R = F.F} counts prev).0
  unfolding record_errors
  record_errors-Raises [] prev = tt
  record_errors-Raises ((code, count) ∷ counts) prev =
      add_delta-Raises Counter.http_errors_total (error_label code) count
        (previous_errors code prev) (record_errors counts (store_errors code count prev)).0
        (record_errors-Raises counts (store_errors code count prev))

  enabled-Raises :
      (enabled : Bool) (more : List (PerClientStatsUpdate F.F))
      → Raises (if enabled then per_client F more else [])
  enabled-Raises true more = per_client-Raises more
  enabled-Raises false more = tt

  overview-Raises :
      (now : ℕ) (s : AggregatedStatsUpdate F.F) (k : Collector) → Raises (overview F now s k)
  unfolding overview
  overview-Raises now s k = ground arith

  request_rates-Raises :
      (s : AggregatedStatsUpdate F.F) (k : Collector) → Raises (request_rates F s k)
  unfolding request_rates
  request_rates-Raises s k = search (add_delta-Raises, tt) depth 7

  segment_throughput-Raises :
      (s : AggregatedStatsUpdate F.F) (k : Collector) → Raises (segment_throughput F s k)
  unfolding segment_throughput
  segment_throughput-Raises s k = search (add_delta-Raises, tt)

  errors-Raises : (s : AggregatedStatsUpdate F.F) (k : Collector) → Raises (errors F s k)
  unfolding errors
  errors-Raises s k =
      Raises-append (record_errors s.total_http_errors k.prev_http_errors).0 _
        (record_errors-Raises s.total_http_errors k.prev_http_errors)
        (search (add_delta-Raises, tt))

  pipeline_health-Raises :
      (s : AggregatedStatsUpdate F.F) (k : Collector) → Raises (pipeline_health F s k)
  unfolding pipeline_health
  pipeline_health-Raises s k = search (add_delta-Raises, tt)

  -- `RecordStats` lowers no counter, so the library does not panic.
  pub record_stats-Raises :
      (now : ℕ) (s : AggregatedStatsUpdate F.F) (k : Collector) → Raises (record_stats F now s k).0
  unfolding record_stats latency_and_health uptime_percentiles
  record_stats-Raises now s k = Raises-append (overview F now s k) _ (overview-Raises now s k) (
      Raises-append (request_rates F s k) _ (request_rates-Raises s k) (
        Raises-append (segment_throughput F s k) _ (segment_throughput-Raises s k) (
          Raises-append (errors F s k) _ (errors-Raises s k) (
            Raises-append (pipeline_health F s k) _ (pipeline_health-Raises s k)
              (enabled-Raises k.per_client_enabled s.per_client_stats)))))
