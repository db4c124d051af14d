-- ===== src/Manager/DebugSums.antt =====
-- client_manager.go: the totals of `computeDebugStats` as sums over the parsers, and its cache.
use go_ffmpeg_hls_swarm.Common.{
  ℕ, ◌+◌, ◌≡◌, refl, true, some, List, [], ◌∷◌, ℤ, ltb_ℤ, sub_ℕ, Float, arith,
}
use go_ffmpeg_hls_swarm.Debug.State.{Parser}
use go_ffmpeg_hls_swarm.Debug.Figures.{stats}
use go_ffmpeg_hls_swarm.Manager.Debugging.{
  DebugTotals, DebugManager, DebugStatsAggregate, no_debug_totals, note_stats, note_parsers,
  compute_debug_stats, get_debug_stats,
}

abbrev pub sum_parsers : (Parser → ℕ) → List (ℕ × Parser) → ℕ
sum_parsers f [] = 0
sum_parsers f ((id, p) ∷ parsers) = f p + sum_parsers f parsers

-- Each total is the sum of the parsers' counters.
pub record TotalsOf {R : Type 0} (parsers : List (ℕ × Parser)) (t : DebugTotals R) : Type 0 where
  pub sum_segments_downloaded : t.segments_downloaded ≡ sum_parsers (λ p. p.segments.count) parsers
  pub sum_segments_failed : t.segments_failed ≡ sum_parsers (λ p. p.segment_failed_count) parsers
  pub sum_segments_skipped : t.segments_skipped ≡ sum_parsers (λ p. p.segment_skipped_count) parsers
  pub sum_segments_expired : t.segments_expired ≡ sum_parsers (λ p. p.segments_expired_sum) parsers
  pub sum_playlists_refreshed :
      t.playlists_refreshed ≡ sum_parsers (λ p. p.playlist_refreshes) parsers
  pub sum_playlists_failed : t.playlists_failed ≡ sum_parsers (λ p. p.playlist_failed_count) parsers
  pub sum_playlist_late_count :
      t.playlist_late_count ≡ sum_parsers (λ p. p.playlist_late_count) parsers
  pub sum_sequence_skips : t.sequence_skips ≡ sum_parsers (λ p. p.sequence_skips) parsers
  pub sum_manifest_count : t.manifest_count ≡ sum_parsers (λ p. p.manifests.count) parsers
  pub sum_http_open_count : t.http_open_count ≡ sum_parsers (λ p. p.http_open_count) parsers
  pub sum_http_4xx_count : t.http_4xx_count ≡ sum_parsers (λ p. p.http_4xx_count) parsers
  pub sum_http_5xx_count : t.http_5xx_count ≡ sum_parsers (λ p. p.http_5xx_count) parsers
  pub sum_reconnect_count : t.reconnect_count ≡ sum_parsers (λ p. p.reconnect_count) parsers
  pub sum_tcp_connect_count : t.tcp_connect_count ≡ sum_parsers (λ p. p.tcp_connects.count) parsers
  pub sum_tcp_success_count : t.tcp_success_count ≡ sum_parsers (λ p. p.tcp_success_count) parsers
  pub sum_tcp_refused_count : t.tcp_refused_count ≡ sum_parsers (λ p. p.tcp_refused_count) parsers
  pub sum_tcp_timeout_count : t.tcp_timeout_count ≡ sum_parsers (λ p. p.tcp_timeout_count) parsers
  pub sum_timestamps_used : t.timestamps_used ≡ sum_parsers (λ p. p.timestamps_used) parsers
  pub sum_lines_processed : t.lines_processed ≡ sum_parsers (λ p. p.lines_processed) parsers
  pub sum_total_segment_bytes :
      t.total_segment_bytes ≡ sum_parsers (λ p. p.segment_bytes_downloaded) parsers
  pub sum_lookup_attempts : t.lookup_attempts ≡ sum_parsers (λ p. p.size_lookup_attempts) parsers
  pub sum_lookup_successes : t.lookup_successes ≡ sum_parsers (λ p. p.size_lookup_successes) parsers
  pub sum_timed : t.seg_wall_time_count ≡ sum_parsers (λ p. p.segments.count) parsers

module _ (F : Float) (seconds : ℤ → F.F) (quantile : ℕ → List ℤ → ℤ) where
  note_parsers-sum :
      (field : DebugTotals F.F → ℕ) (f : Parser → ℕ)
      → ((p : Parser) (t : DebugTotals F.F)
          → field (note_stats F (stats F quantile p) t) ≡ field t + f p)
      → (parsers : List (ℕ × Parser)) (t : DebugTotals F.F)
      → field (note_parsers F seconds quantile parsers t) ≡ field t + sum_parsers f parsers
  unfolding note_parsers
  note_parsers-sum field f h [] t = omega arith
  note_parsers-sum field f h ((id, p) ∷ parsers) t =
      omega (arith, note_parsers-sum field f h parsers (note_stats F (stats F quantile p) t), h p t)

  note_parsers-total :
      (field : DebugTotals F.F → ℕ) (f : Parser → ℕ)
      → ((p : Parser) (t : DebugTotals F.F)
          → field (note_stats F (stats F quantile p) t) ≡ field t + f p)
      → field (no_debug_totals F) ≡ 0
      → (parsers : List (ℕ × Parser))
      → field (note_parsers F seconds quantile parsers (no_debug_totals F)) ≡ sum_parsers f parsers
  note_parsers-total field f h k parsers =
      omega (arith, note_parsers-sum field f h parsers (no_debug_totals F), k)

  -- A positive count or nothing is added.
  timed_count :
      (p : Parser) (t : DebugTotals F.F)
      → (note_stats F (stats F quantile p) t).seg_wall_time_count
        ≡ t.seg_wall_time_count + p.segments.count
  unfolding note_stats stats
  timed_count p t = ground arith

  get_debug_stats-fresh :
      (now later : ℕ) (agg : DebugStatsAggregate F.F) (m : DebugManager F.F)
      → m.cached_debug_stats ≡ some (now, agg)
      → ltb_ℤ (sub_ℕ later now) m.debug_stats_cache_ttl ≡ true
      → get_debug_stats F seconds quantile later m ≡ (agg, m)
  unfolding get_debug_stats
  get_debug_stats-fresh now later agg m h fresh = ground (arith, h, fresh)

  -- The totals that `computeDebugStats` keeps of all clients are the sums of the parsers' counters, and the number of downloads
  -- by which it divides their time together is the sum of all downloads. Asked again before the
  -- cached figures have grown old, `GetDebugStats` gives the same figures and changes nothing.
  pub compute_debug_stats-TotalsOf :
      (now later : ℕ) (m : DebugManager F.F)
      → ltb_ℤ (sub_ℕ later now) m.debug_stats_cache_ttl ≡ true
      → let (agg, m') = compute_debug_stats F seconds quantile now m in
        TotalsOf m.debug_parsers agg.totals
        × (get_debug_stats F seconds quantile later m' ≡ (agg, m'))
  unfolding compute_debug_stats note_stats stats no_debug_totals
  compute_debug_stats-TotalsOf now later m fresh = (
    record {
      sum_segments_downloaded =
          note_parsers-total (λ t. t.segments_downloaded) (λ p. p.segments.count) (λ p t. refl) refl
            m.debug_parsers;
      sum_segments_failed =
          note_parsers-total (λ t. t.segments_failed) (λ p. p.segment_failed_count) (λ p t. refl)
            refl m.debug_parsers;
      sum_segments_skipped =
          note_parsers-total (λ t. t.segments_skipped) (λ p. p.segment_skipped_count) (λ p t. refl)
            refl m.debug_parsers;
      sum_segments_expired =
          note_parsers-total (λ t. t.segments_expired) (λ p. p.segments_expired_sum) (λ p t. refl)
            refl m.debug_parsers;
      sum_playlists_refreshed =
          note_parsers-total (λ t. t.playlists_refreshed) (λ p. p.playlist_refreshes) (λ p t. refl)
            refl m.debug_parsers;
      sum_playlists_failed =
          note_parsers-total (λ t. t.playlists_failed) (λ p. p.playlist_failed_count) (λ p t. refl)
            refl m.debug_parsers;
      sum_playlist_late_count =
          note_parsers-total (λ t. t.playlist_late_count) (λ p. p.playlist_late_count) (λ p t. refl)
            refl m.debug_parsers;
      sum_sequence_skips =
          note_parsers-total (λ t. t.sequence_skips) (λ p. p.sequence_skips) (λ p t. refl) refl
            m.debug_parsers;
      sum_manifest_count =
          note_parsers-total (λ t. t.manifest_count) (λ p. p.manifests.count) (λ p t. refl) refl
            m.debug_parsers;
      sum_http_open_count =
          note_parsers-total (λ t. t.http_open_count) (λ p. p.http_open_count) (λ p t. refl) refl
            m.debug_parsers;
      sum_http_4xx_count =
          note_parsers-total (λ t. t.http_4xx_count) (λ p. p.http_4xx_count) (λ p t. refl) refl
            m.debug_parsers;
      sum_http_5xx_count =
          note_parsers-total (λ t. t.http_5xx_count) (λ p. p.http_5xx_count) (λ p t. refl) refl
            m.debug_parsers;
      sum_reconnect_count =
          note_parsers-total (λ t. t.reconnect_count) (λ p. p.reconnect_count) (λ p t. refl) refl
            m.debug_parsers;
      sum_tcp_connect_count =
          note_parsers-total (λ t. t.tcp_connect_count) (λ p. p.tcp_connects.count) (λ p t. refl)
            refl m.debug_parsers;
      sum_tcp_success_count =
          note_parsers-total (λ t. t.tcp_success_count) (λ p. p.tcp_success_count) (λ p t. refl)
            refl m.debug_parsers;
      sum_tcp_refused_count =
          note_parsers-total (λ t. t.tcp_refused_count) (λ p. p.tcp_refused_count) (λ p t. refl)
            refl m.debug_parsers;
      sum_tcp_timeout_count =
          note_parsers-total (λ t. t.tcp_timeout_count) (λ p. p.tcp_timeout_count) (λ p t. refl)
            refl m.debug_parsers;
      sum_timestamps_used =
          note_parsers-total (λ t. t.timestamps_used) (λ p. p.timestamps_used) (λ p t. refl) refl
            m.debug_parsers;
      sum_lines_processed =
          note_parsers-total (λ t. t.lines_processed) (λ p. p.lines_processed) (λ p t. refl) refl
            m.debug_parsers;
      sum_total_segment_bytes =
          note_parsers-total (λ t. t.total_segment_bytes) (λ p. p.segment_bytes_downloaded)
            (λ p t. refl) refl m.debug_parsers;
      sum_lookup_attempts =
          note_parsers-total (λ t. t.lookup_attempts) (λ p. p.size_lookup_attempts) (λ p t. refl)
            refl m.debug_parsers;
      sum_lookup_successes =
          note_parsers-total (λ t. t.lookup_successes) (λ p. p.size_lookup_successes) (λ p t. refl)
            refl m.debug_parsers;
      sum_timed =
          note_parsers-total (λ t. t.seg_wall_time_count) (λ p. p.segments.count) timed_count refl
            m.debug_parsers;
    },
    get_debug_stats-fresh now later (compute_debug_stats F seconds quantile now m).0
        (compute_debug_stats F seconds quantile now m).1 refl fresh,
  )
