-- ===== src/Debug/Timing.antt =====
-- debug_events.go: the counters that timing a download leaves alone.
use go_ffmpeg_hls_swarm.Common.{ℕ, ◌≤◌, ◌≡◌, Text, arith, Option-cases, inl, inr}
use go_ffmpeg_hls_swarm.Debug.State.{Parser, extract_segment_name}
use go_ffmpeg_hls_swarm.Debug.Download.{
  track_segment_from_http, complete, count_bytes, record_segment, start_segment, oldest,
}

-- What timing the downloads leaves alone, and what it keeps.
pub record Apart (p q : Parser) : Type 0 where
  pub http_open_count : q.http_open_count ≡ p.http_open_count
  pub tcp_success_count : q.tcp_success_count ≡ p.tcp_success_count
  pub tcp_failure_count : q.tcp_failure_count ≡ p.tcp_failure_count
  pub playlist_refreshes : q.playlist_refreshes ≡ p.playlist_refreshes
  pub http_error_count : q.http_error_count ≡ p.http_error_count
  pub reconnect_count : q.reconnect_count ≡ p.reconnect_count
  pub segment_failed_count : q.segment_failed_count ≡ p.segment_failed_count
  pub segment_skipped_count : q.segment_skipped_count ≡ p.segment_skipped_count
  pub playlist_failed_count : q.playlist_failed_count ≡ p.playlist_failed_count
  pub segments_expired_sum : q.segments_expired_sum ≡ p.segments_expired_sum
  pub bytes_downloaded : q.bytes_downloaded ≡ p.bytes_downloaded
  pub events : q.events ≡ p.events
  pub http_4xx_count : q.http_4xx_count ≡ p.http_4xx_count
  pub http_5xx_count : q.http_5xx_count ≡ p.http_5xx_count
  pub tcp_refused_count : q.tcp_refused_count ≡ p.tcp_refused_count
  pub tcp_timeout_count : q.tcp_timeout_count ≡ p.tcp_timeout_count
  pub tcp_connects : q.tcp_connects ≡ p.tcp_connects
  pub playlist_late_count : q.playlist_late_count ≡ p.playlist_late_count
  pub timestamps_used : q.timestamps_used ≡ p.timestamps_used
  pub lines_processed : q.lines_processed ≡ p.lines_processed
  pub lookups :
      p.size_lookup_successes ≤ p.size_lookup_attempts
      → q.size_lookup_successes ≤ q.size_lookup_attempts

count_bytes-Apart : (url : Text) (p : Parser) → Apart p (count_bytes url p)
unfolding count_bytes
count_bytes-Apart url p = elim (Option-cases p.size_lookup) [
  | inl h ↦ ground arith
  | inr (sizes, h) ↦ elim (Option-cases (sizes (extract_segment_name url))) [
    | inl none_found ↦ ground arith
    | inr (n, found) ↦ ground arith
  ]
]

pub complete-Apart : (now : ℕ) (e : Text × ℕ) (p : Parser) → Apart p (complete now e p)
unfolding complete record_segment
complete-Apart now (url, start) p = ground (arith, count_bytes-Apart url (record_segment _ url p))

pub track_segment_from_http-Apart :
    (now : ℕ) (url : Text) (p : Parser) → Apart p (track_segment_from_http now url p)
unfolding track_segment_from_http start_segment
track_segment_from_http-Apart now url p = elim (Option-cases (oldest p.pending_segments)) [
  | inl h ↦ ground arith
  | inr (e, h) ↦ ground (arith, complete-Apart now e p)
]
