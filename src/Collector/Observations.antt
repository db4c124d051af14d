-- ===== src/Collector/Observations.antt =====
-- collector.go: the values that calls observe on the histogram of uptimes.
use go_ffmpeg_hls_swarm.Common.{
  ℕ, ◌≡◌, refl, ◌∙◌, ap, Bool, true, false, if◌then◌else◌, List, [], ◌∷◌, ◌++◌, ℤ, Text, Float,
  arith,
}
use go_ffmpeg_hls_swarm.Collector.Metrics.{
  Counter, Histogram, Call, set_gauge, add_counter, observe, delete_values, PerClientStatsUpdate,
  AggregatedStatsUpdate, Collector,
}
use go_ffmpeg_hls_swarm.Collector.Updates.{
  add_delta, store_errors, record_errors, overview, request_rates, segment_throughput,
  latency_and_health, errors, pipeline_health, uptime_percentiles, per_client, record_stats,
}

-- The uptimes that the library has been told, oldest first.
abbrev pub observed : {R : Type 0} → List (Call R) → List R
observed [] = []
observed (observe Histogram.client_uptime_seconds v ∷ calls) = v ∷ observed calls
observed (observe Histogram.inferred_latency_seconds v ∷ calls) = observed calls
observed (set_gauge g l v ∷ calls) = observed calls
observed (add_counter d l n ∷ calls) = observed calls
observed (delete_values g l ∷ calls) = observed calls

module _ {R : Type 0} where
  pub observed-append :
      (calls more : List (Call R)) → observed (calls ++ more) ≡ observed calls ++ observed more
  observed-append [] more = refl
  observed-append (observe Histogram.client_uptime_seconds v ∷ calls) more =
      ap (λ l. v ∷ l) (observed-append calls more)
  observed-append (observe Histogram.inferred_latency_seconds v ∷ calls) more =
      observed-append calls more
  observed-append (set_gauge g l v ∷ calls) more = observed-append calls more
  observed-append (add_counter d l n ∷ calls) more = observed-append calls more
  observed-append (delete_values g l ∷ calls) more = observed-append calls more

  -- Calls that observe nothing, before others.
  quiet-append :
      (calls more : List (Call R))
      → observed calls ≡ []
      → observed more ≡ []
      → observed (calls ++ more) ≡ []
  quiet-append calls more h k = observed-append calls more ∙ ap (λ l. l ++ observed more) h ∙ k

  add_delta-observed :
      (d : Counter) (l : Text) (total prev : ℤ) → observed (add_delta {R = R} d l total prev) ≡ []
  unfolding add_delta
  add_delta-observed d l total prev = ground arith

  record_errors-observed :
      (counts prev : List (ℕ × ℤ)) → observed (record_errors {R = R} counts prev).0 ≡ []
  unfolding record_errors
  record_errors-observed [] prev = refl
  record_errors-observed ((code, count) ∷ counts) prev =
      let rest = record_errors-observed counts (store_errors code count prev) in
      search (quiet-append, add_delta-observed, rest)

module _ (F : Float) where
  per_client-observed : (more : List (PerClientStatsUpdate F.F)) → observed (per_client F more) ≡ []
  unfolding per_client
  per_client-observed [] = refl
  per_client-observed (cs ∷ more) = per_client-observed more

  enabled-observed :
      (enabled : Bool) (more : List (PerClientStatsUpdate F.F))
      → observed (if enabled then per_client F more else []) ≡ []
  enabled-observed true more = per_client-observed more
  enabled-observed false more = refl

  overview-observed :
      (now : ℕ) (s : AggregatedStatsUpdate F.F) (k : Collector) → observed (overview F now s k) ≡ []
  unfolding overview
  overview-observed now s k = ground arith

  request_rates-observed :
      (s : AggregatedStatsUpdate F.F) (k : Collector) → observed (request_rates F s k) ≡ []
  unfolding request_rates
  request_rates-observed s k = search (quiet-append, add_delta-observed) depth 12

  segment_throughput-observed :
      (s : AggregatedStatsUpdate F.F) (k : Collector) → observed (segment_throughput F s k) ≡ []
  unfolding segment_throughput
  segment_throughput-observed s k = search (quiet-append, add_delta-observed) depth 12

  errors-observed : (s : AggregatedStatsUpdate F.F) (k : Collector) → observed (errors F s k) ≡ []
  unfolding errors
  errors-observed s k = search (quiet-append, record_errors-observed, add_delta-observed) depth 12

  pipeline_health-observed :
      (s : AggregatedStatsUpdate F.F) (k : Collector) → observed (pipeline_health F s k) ≡ []
  unfolding pipeline_health
  pipeline_health-observed s k = search (quiet-append, add_delta-observed) depth 12

  -- `RecordStats` observes no uptime.
  pub record_stats-observed :
      (now : ℕ) (s : AggregatedStatsUpdate F.F) (k : Collector)
      → observed (record_stats F now s k).0 ≡ []
  unfolding record_stats latency_and_health uptime_percentiles
  record_stats-observed now s k =
      search
        (
          quiet-append, overview-observed, request_rates-observed, segment_throughput-observed,
          errors-observed, pipeline_health-observed, enabled-observed,
        )
        depth 12
