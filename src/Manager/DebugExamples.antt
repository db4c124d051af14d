-- ===== src/Manager/DebugExamples.antt =====
-- Samples of two parsers' bytes, one of which is gone at the last, and the figures of all parsers.
use go_ffmpeg_hls_swarm.Common.{ℕ, ◌≡◌, refl, none, List, [], ◌∷◌, ℤ, pos}
use go_ffmpeg_hls_swarm.Common.WholeFloats.{whole}
use go_ffmpeg_hls_swarm.Debug.State.{Parser, new_parser}
use go_ffmpeg_hls_swarm.Manager.Sampling.{
  sample_all, new_sampler, greatest_total, sample_all-total_bytes,
}
use go_ffmpeg_hls_swarm.Manager.Debugging.{DebugManager, compute_debug_stats, get_debug_stats}
use go_ffmpeg_hls_swarm.Manager.DebugSums.{TotalsOf, compute_debug_stats-TotalsOf}

abbrev parser : ℕ → Parser
parser bytes = record (new_parser (pos 2) none) {
  segment_bytes_downloaded = bytes;
  http_open_count = 4;
  http_4xx_count = 1;
}

abbrev samples : List (ℕ × List (ℕ × Parser))
samples =
    (1, (0, parser 100) ∷ (1, parser 50) ∷ [])
    ∷ (2, (0, parser 300) ∷ (1, parser 50) ∷ [])
    ∷ (3, (1, parser 60) ∷ [])
    ∷ []

sample_all-total_bytes_example :
    (sample_all samples (new_sampler 0)).tracker.total_bytes ≡ greatest_total 0 samples
sample_all-total_bytes_example = sample_all-total_bytes 0 samples

abbrev manager : DebugManager ℤ
manager = record {
  debug_parsers = (0, parser 100) ∷ (1, parser 50) ∷ [];
  prev_debug_snapshot = record {
    timestamp = 10;
    segments = 0;
    playlists = 0;
    http_requests = 2;
    tcp_connects = 0;
  };
  cached_debug_stats = none;
  debug_stats_cache_ttl = pos 5;
}

abbrev first_percentile : ℕ → List ℤ → ℤ
first_percentile n digest = pos n

compute_debug_stats-TotalsOf_example :
    let (agg, m') = compute_debug_stats whole (λ d. d) first_percentile 12 manager in
    TotalsOf manager.debug_parsers agg.totals
    × (get_debug_stats whole (λ d. d) first_percentile 15 m' ≡ (agg, m'))
compute_debug_stats-TotalsOf_example =
    compute_debug_stats-TotalsOf whole (λ d. d) first_percentile 12 15 manager refl

-- Six requests in two time units.
compute_debug_stats_rate :
    (compute_debug_stats whole (λ d. d) first_percentile 12 manager).0.instant_http_requests_rate
    ≡ pos 3
unfolding compute_debug_stats
compute_debug_stats_rate = refl
