-- ===== src/Collector/Counters.antt =====
-- collector.go: the counters after any number of calls of `RecordStats`.
use go_ffmpeg_hls_swarm.Common.{
  ℕ, ◌+◌, ◌≡◌, refl, ◌∙◌, ap, false, ◌==◌, List, [], ◌∷◌, ◌++◌, map, ℤ, pos, ◌-ℤ◌, All, Text, codes,
  text_eq, Float, arith,
}
use go_ffmpeg_hls_swarm.Collector.Metrics.{
  Counter, Call, AggregatedStatsUpdate, CollectorConfig, Collector,
}
use go_ffmpeg_hls_swarm.Collector.Updates.{
  record_errors, record_stats, error_label, previous_errors, store_errors,
}
use go_ffmpeg_hls_swarm.Collector.Events.{new_collector}
use go_ffmpeg_hls_swarm.Collector.Values.{index, value, rise, value-append, value-add_delta}
use go_ffmpeg_hls_swarm.Collector.Deltas.{
  value-record_stats, value-request_rates, value-segment_throughput, value-errors,
  value-pipeline_health, term,
}

-- How much a total has grown in all, falls not counted.
abbrev pub rises : ℤ → List ℤ → ℕ
rises prev [] = 0
rises prev (total ∷ totals) = rise prev total + rises total totals

value-record_errors_other :
    (R : Type 0) (c : Counter) (label : Text) (counts prev : List (ℕ × ℤ))
    → (6 == index c) ≡ false
    → value c label (record_errors {R = R} counts prev).0 ≡ 0
unfolding record_errors
value-record_errors_other R c label [] prev h = refl
value-record_errors_other R c label ((code, count) ∷ counts) prev h =
    value-add_delta c Counter.http_errors_total label (error_label code) count
      (previous_errors code prev) (record_errors {R = R} counts (store_errors code count prev)).0
    ∙ rw h
        (omega (arith, value-record_errors_other R c label counts (store_errors code count prev) h))

module _ (F : Float) where
  -- Calls of `RecordStats`, each with its time.
  abbrev pub record_all :
      List (ℕ × AggregatedStatsUpdate F.F) → Collector → List (Call F.F) × Collector
  record_all [] k = ([], k)
  record_all ((now, s) ∷ updates) k =
      let (calls, k') = record_stats F now s k in
      let (more, after) = record_all updates k' in (calls ++ more, after)

  -- The counters but those of HTTP errors, with the total of an update that each stands for.
  abbrev pub mirrors : List (Counter × Text × (AggregatedStatsUpdate F.F → ℤ))
  mirrors =
      (Counter.manifest_requests_total, [], λ s. s.total_manifest_reqs)
      ∷ (Counter.segment_requests_total, [], λ s. s.total_segment_reqs)
      ∷ (Counter.init_requests_total, [], λ s. s.total_init_reqs)
      ∷ (Counter.unknown_requests_total, [], λ s. s.total_unknown_reqs)
      ∷ (Counter.bytes_downloaded_total, [], λ s. s.total_bytes)
      ∷ (Counter.segment_bytes_downloaded_total, [], λ s. s.total_segment_bytes)
      ∷ (Counter.timeouts_total, [], λ s. s.total_timeouts)
      ∷ (Counter.reconnections_total, [], λ s. s.total_reconnections)
      ∷ (Counter.lines_dropped_total, codes "progress", λ s. s.progress_lines_dropped)
      ∷ (
        Counter.lines_parsed_total,
        codes "progress",
        λ s. s.progress_lines_read -ℤ s.progress_lines_dropped,
      )
      ∷ (Counter.lines_dropped_total, codes "stderr", λ s. s.stderr_lines_dropped)
      ∷ (
        Counter.lines_parsed_total,
        codes "stderr",
        λ s. s.stderr_lines_read -ℤ s.stderr_lines_dropped,
      )
      ∷ []

  pub value-step :
      (c : Counter) (label : Text) (now : ℕ) (s : AggregatedStatsUpdate F.F) (k : Collector)
      → (6 == index c) ≡ false
      → value c label (record_stats F now s k).0
        ≡ term c label Counter.manifest_requests_total [] s.total_manifest_reqs k.prev_manifest_reqs
          + term c label Counter.segment_requests_total [] s.total_segment_reqs k.prev_segment_reqs
          + term c label Counter.init_requests_total [] s.total_init_reqs k.prev_init_reqs
          + term c label Counter.unknown_requests_total [] s.total_unknown_reqs k.prev_unknown_reqs
          + term c label Counter.bytes_downloaded_total [] s.total_bytes k.prev_bytes
          + term c label Counter.segment_bytes_downloaded_total [] s.total_segment_bytes
              k.prev_segment_bytes
          + term c label Counter.timeouts_total [] s.total_timeouts k.prev_timeouts
          + term c label Counter.reconnections_total [] s.total_reconnections k.prev_reconnections
          + term c label Counter.lines_dropped_total
              (codes "progress")
              s.progress_lines_dropped
              k.prev_progress_dropped
          + term c label Counter.lines_parsed_total
              (codes "progress")
              (s.progress_lines_read -ℤ s.progress_lines_dropped)
              k.prev_progress_parsed
          + term c label Counter.lines_dropped_total
              (codes "stderr")
              s.stderr_lines_dropped
              k.prev_stderr_dropped
          + term c label Counter.lines_parsed_total
              (codes "stderr")
              (s.stderr_lines_read -ℤ s.stderr_lines_dropped)
              k.prev_stderr_parsed
  value-step c label now s k h = omega (
    arith,
    value-record_stats F c label now s k,
    value-request_rates F c label s k,
    value-segment_throughput F c label s k,
    value-errors F c label s k,
    value-pipeline_health F c label s k,
    value-record_errors_other F.F c label s.total_http_errors k.prev_http_errors h,
  )

  value-record_all :
      (c : Counter) (label : Text) (total : AggregatedStatsUpdate F.F → ℤ) (prev : Collector → ℤ)
      → ((now : ℕ) (s : AggregatedStatsUpdate F.F) (k : Collector)
          → value c label (record_stats F now s k).0 ≡ rise (prev k) (total s))
      → ((now : ℕ) (s : AggregatedStatsUpdate F.F) (k : Collector)
          → prev (record_stats F now s k).1 ≡ total s)
      → (updates : List (ℕ × AggregatedStatsUpdate F.F)) (k : Collector)
      → value c label (record_all updates k).0 ≡ rises (prev k) (map (λ u. total u.1) updates)
  value-record_all c label total prev h g [] k = refl
  value-record_all c label total prev h g ((now, s) ∷ updates) k =
      value-append c label (record_stats F now s k).0 _
      ∙ ap (λ n. n + value c label (record_all updates (record_stats F now s k).1).0) (h now s k)
      ∙ ap (λ n. rise (prev k) (total s) + n)
          (value-record_all c label total prev h g updates (record_stats F now s k).1
            ∙ ap (λ p. rises p (map (λ u. total u.1) updates)) (g now s k))

  -- However often `RecordStats` is called on a new collector, each of twelve counters is what the
  -- total that it stands for has grown by since 0, call by call, falls not counted.
  pub record_all-rises :
      (start : ℕ) (cfg : CollectorConfig) (updates : List (ℕ × AggregatedStatsUpdate F.F))
      → All
          (λ m.
            value m.0 m.1 (record_all updates (new_collector F start cfg).1).0
            ≡ rises (pos 0) (map (λ u. m.2 u.1) updates))
          mirrors
  unfolding new_collector record_stats text_eq
  record_all-rises start cfg updates =
      let k = (new_collector F start cfg).1 in
      (
        value-record_all Counter.manifest_requests_total [] (λ s. s.total_manifest_reqs)
            (λ k. k.prev_manifest_reqs)
            (λ now s k. value-step Counter.manifest_requests_total [] now s k refl ∙ omega arith)
            (λ now s k. refl) updates k,
        (
          value-record_all Counter.segment_requests_total [] (λ s. s.total_segment_reqs)
              (λ k. k.prev_segment_reqs)
              (λ now s k. value-step Counter.segment_requests_total [] now s k refl ∙ omega arith)
              (λ now s k. refl) updates k,
          (
            value-record_all Counter.init_requests_total [] (λ s. s.total_init_reqs)
                (λ k. k.prev_init_reqs)
                (λ now s k. value-step Counter.init_requests_total [] now s k refl ∙ omega arith)
                (λ now s k. refl) updates k,
            (
              value-record_all Counter.unknown_requests_total [] (λ s. s.total_unknown_reqs)
                  (λ k. k.prev_unknown_reqs)
                  (λ now s k.
                    value-step Counter.unknown_requests_total [] now s k refl ∙ omega arith)
                  (λ now s k. refl) updates k,
              (
                value-record_all Counter.bytes_downloaded_total [] (λ s. s.total_bytes)
                    (λ k. k.prev_bytes)
                    (λ now s k.
                      value-step Counter.bytes_downloaded_total [] now s k refl ∙ omega arith)
                    (λ now s k. refl) updates k,
                (
                  value-record_all Counter.segment_bytes_downloaded_total []
                      (λ s. s.total_segment_bytes) (λ k. k.prev_segment_bytes)
                      (λ now s k.
                        value-step Counter.segment_bytes_downloaded_total [] now s k refl
                        ∙ omega arith)
                      (λ now s k. refl) updates k,
                  (
                    value-record_all Counter.timeouts_total [] (λ s. s.total_timeouts)
                        (λ k. k.prev_timeouts)
                        (λ now s k. value-step Counter.timeouts_total [] now s k refl ∙ omega arith)
                        (λ now s k. refl) updates k,
                    (
                      value-record_all Counter.reconnections_total [] (λ s. s.total_reconnections)
                          (λ k. k.prev_reconnections)
                          (λ now s k.
                            value-step Counter.reconnections_total [] now s k refl ∙ omega arith)
                          (λ now s k. refl) updates k,
                      (
                        value-record_all Counter.lines_dropped_total (codes "progress")
                            (λ s. s.progress_lines_dropped) (λ k. k.prev_progress_dropped)
                            (λ now s k.
                              value-step Counter.lines_dropped_total (codes "progress") now s k refl
                              ∙ omega arith)
                            (λ now s k. refl) updates k,
                        (
                          value-record_all Counter.lines_parsed_total (codes "progress")
                              (λ s. s.progress_lines_read -ℤ s.progress_lines_dropped)
                              (λ k. k.prev_progress_parsed)
                              (λ now s k.
                                value-step Counter.lines_parsed_total (codes "progress") now s k
                                  refl
                                ∙ omega arith)
                              (λ now s k. refl) updates k,
                          (
                            value-record_all Counter.lines_dropped_total (codes "stderr")
                                (λ s. s.stderr_lines_dropped) (λ k. k.prev_stderr_dropped)
                                (λ now s k.
                                  value-step Counter.lines_dropped_total (codes "stderr") now s k
                                    refl
                                  ∙ omega arith)
                                (λ now s k. refl) updates k,
                            (
                              value-record_all Counter.lines_parsed_total (codes "stderr")
                                  (λ s. s.stderr_lines_read -ℤ s.stderr_lines_dropped)
                                  (λ k. k.prev_stderr_parsed)
                                  (λ now s k.
                                    value-step Counter.lines_parsed_total (codes "stderr") now s k
                                      refl
                                    ∙ omega arith)
                                  (λ now s k. refl) updates k,
                              tt,
                            ),
                          ),
                        ),
                      ),
                    ),
                  ),
                ),
              ),
            ),
          ),
        ),
      )
