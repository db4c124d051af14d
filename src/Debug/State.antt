-- ===== src/Debug/State.antt =====
-- The state of `DebugEventParser` of internal/parser/debug_events.go, and its events. A time is a number
-- of nanoseconds, 0 the zero `time.Time`; texts are bytes.
use go_ffmpeg_hls_swarm.Common.{
  ℕ, List, [], ◌∷◌, if◌then◌else◌, Option, ℤ, pos, ltb_ℤ, ◌==◌, Text, Map,
}
use go_ffmpeg_hls_swarm.Samples.{Samples, no_samples}

-- `DebugEvent`, a constructor for each type that the handlers emit. `http_open` has a URL, or the bytes of a
-- Content-Length header, for which `ParseLine` uses the type again.
pub data Event : Type 0 where
  hls_request : ℕ → Text → Event
  http_open : ℕ → Text → ℕ → Event
  tcp_start tcp_connected : ℕ → Text → ℕ → Event
  tcp_failed : ℕ → Text → Event
  playlist_open : ℕ → Text → Event
  sequence_change : ℕ → ℕ → ℕ → Event
  http_error : ℕ → ℕ → Text → Event
  reconnect : ℕ → Event
  segment_failed segment_skipped : ℕ → ℕ → ℕ → Event
  playlist_failed : ℕ → ℕ → Event
  segments_expired : ℕ → ℕ → Event
  bandwidth : ℕ → ℕ → Event

-- `DebugEventParser`. The T-digests are the samples given to them, newest first; `events` are the
-- calls of the callback, newest first.
pub record Parser : Type 0 where
  pub target_duration : ℤ
  pub size_lookup : Option (Text → Option ℕ)
  pub manifest_bandwidth : ℕ
  pub pending_segments : Map ℕ
  pub segments : Samples
  pub segment_digest : List ℤ
  pub pending_manifests : Map ℕ
  pub manifests : Samples
  pub manifest_digest : List ℤ
  pub pending_tcp_connect : Map ℕ
  pub tcp_connects : Samples
  pub timestamps_used : ℕ
  pub tcp_success_count : ℕ
  pub tcp_failure_count : ℕ
  pub tcp_timeout_count : ℕ
  pub tcp_refused_count : ℕ
  pub last_playlist_refresh : ℕ
  pub playlist_refreshes : ℕ
  pub playlist_late_count : ℕ
  pub playlist_jitter_sum : ℤ
  pub playlist_jitter_max : ℤ
  pub last_sequence : ℕ
  pub sequence_skips : ℕ
  pub http_error_count : ℕ
  pub http_4xx_count : ℕ
  pub http_5xx_count : ℕ
  pub reconnect_count : ℕ
  pub segment_failed_count : ℕ
  pub segment_skipped_count : ℕ
  pub playlist_failed_count : ℕ
  pub segments_expired_sum : ℕ
  pub pending_http_open : Map ℕ
  pub http_open_count : ℕ
  pub bytes_downloaded : ℕ
  pub segment_bytes_downloaded : ℕ
  pub size_lookup_attempts : ℕ
  pub size_lookup_successes : ℕ
  pub lines_processed : ℕ
  pub events : List Event

-- `NewDebugEventParserWithSizeLookup`.
unfoldable pub new_parser : ℤ → Option (Text → Option ℕ) → Parser
new_parser target sizes = record {
  target_duration = if ltb_ℤ (pos 0) target then target else pos 2000000000;
  size_lookup = sizes;
  manifest_bandwidth = 0;
  pending_segments = [];
  segments = no_samples;
  segment_digest = [];
  pending_manifests = [];
  manifests = no_samples;
  manifest_digest = [];
  pending_tcp_connect = [];
  tcp_connects = no_samples;
  timestamps_used = 0;
  tcp_success_count = 0;
  tcp_failure_count = 0;
  tcp_timeout_count = 0;
  tcp_refused_count = 0;
  last_playlist_refresh = 0;
  playlist_refreshes = 0;
  playlist_late_count = 0;
  playlist_jitter_sum = pos 0;
  playlist_jitter_max = pos 0;
  last_sequence = 0;
  sequence_skips = 0;
  http_error_count = 0;
  http_4xx_count = 0;
  http_5xx_count = 0;
  reconnect_count = 0;
  segment_failed_count = 0;
  segment_skipped_count = 0;
  playlist_failed_count = 0;
  segments_expired_sum = 0;
  pending_http_open = [];
  http_open_count = 0;
  bytes_downloaded = 0;
  segment_bytes_downloaded = 0;
  size_lookup_attempts = 0;
  size_lookup_successes = 0;
  lines_processed = 0;
  events = [];
}

unfoldable pub emit : Event → Parser → Parser
emit e p = record p { events = e ∷ p.events }

-- `extractSegmentName`: what stands behind the last slash, or all of it.
unfoldable pub name_from : Text → Text → Text
name_from best [] = best
name_from best (c ∷ rest) = name_from (if c == b'/' then rest else best) rest

unfoldable pub extract_segment_name : Text → Text
unfolding name_from
extract_segment_name url = name_from url url
