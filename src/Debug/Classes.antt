-- ===== src/Debug/Classes.antt =====
-- debug_events.go: the counters that classify, against the counters of what they classify.
use go_ffmpeg_hls_swarm.Common.{
  ℕ, suc, ◌+◌, ◌≤◌, List, [], ◌∷◌, Option, none, some, ℤ, Text, arith, Option-cases, inl, inr,
}
use go_ffmpeg_hls_swarm.Samples.{add_sample, no_samples}
use go_ffmpeg_hls_swarm.Debug.State.{Parser, emit, new_parser}
use go_ffmpeg_hls_swarm.Debug.Download.{
  handle_hls_request, handle_http_open, handle_http_request_get, handle_playlist_open,
  handle_sequence_change, handle_format_probed, note_refresh, start_segment, oldest,
}
use go_ffmpeg_hls_swarm.Debug.Network.{
  handle_tcp_start, handle_tcp_connected, handle_tcp_failed, handle_http_error, handle_reconnect,
  handle_segment_failed, handle_segment_skipped, handle_playlist_failed, handle_segments_expired,
  note_bandwidth, note_content_length, time_connect,
}
use go_ffmpeg_hls_swarm.Debug.Lines.{
  Line, LogLine, dispatch, parse_line, parse_lines, use_stamp, time_of, hls_request_line,
  http_open_line, http_request_get_line, tcp_connected_line, tcp_start_line, tcp_failed_line,
  playlist_open_line, sequence_change_line, format_probed_line, manifest_skip_line, bandwidth_line,
  http_error_line, content_length_line, reconnect_line, segment_failed_line, segment_skipped_line,
  playlist_failed_line, segments_expired_line, no_match,
}
use go_ffmpeg_hls_swarm.Debug.Timing.{complete-Apart, track_segment_from_http-Apart}

-- The counters that classify do not exceed what they classify.
record Consistent (p : Parser) : Type 0 where
  classes : p.http_4xx_count + p.http_5xx_count ≤ p.http_error_count
  reasons : p.tcp_refused_count + p.tcp_timeout_count ≤ p.tcp_failure_count
  connections : p.tcp_connects.count ≤ p.tcp_success_count
  late : p.playlist_late_count ≤ p.playlist_refreshes
  lookups : p.size_lookup_successes ≤ p.size_lookup_attempts
  stamps : p.timestamps_used ≤ p.lines_processed

handle_hls_request-Consistent :
    (now : ℕ) (url : Text) (p : Parser) → Consistent p → Consistent (handle_hls_request now url p)
unfolding handle_hls_request start_segment emit
handle_hls_request-Consistent now url p r = elim (Option-cases (oldest p.pending_segments)) [
  | inl h ↦ ground arith
  | inr (e, h) ↦ ground (arith, complete-Apart now e p)
]

handle_http_open-Consistent :
    (now : ℕ) (url : Text) (p : Parser) → Consistent p → Consistent (handle_http_open now url p)
unfolding handle_http_open emit
handle_http_open-Consistent now url p r = ground (
  arith,
  track_segment_from_http-Apart now url (record p { http_open_count = suc p.http_open_count }),
)

dispatch-Consistent :
    (now : ℕ) (line : Line) (p : Parser) → Consistent p → Consistent (dispatch now line p)
unfolding dispatch handle_http_request_get handle_tcp_start handle_tcp_connected time_connect
    handle_tcp_failed handle_http_error handle_reconnect handle_segment_failed
    handle_segment_skipped handle_playlist_failed handle_segments_expired note_bandwidth
    note_content_length handle_playlist_open handle_sequence_change handle_format_probed
    note_refresh emit add_sample
dispatch-Consistent now (tcp_connected_line ip port_str port) p r = ground arith
dispatch-Consistent now (hls_request_line url) p r = handle_hls_request-Consistent now url p r
dispatch-Consistent now (http_open_line url) p r = handle_http_open-Consistent now url p r
dispatch-Consistent now (http_request_get_line path) p r =
    ground (arith, track_segment_from_http-Apart now path p)
dispatch-Consistent now (tcp_start_line ip port_str port) p r = ground arith
dispatch-Consistent now (tcp_failed_line reason) p r = ground arith
dispatch-Consistent now (playlist_open_line url) p r = ground arith
dispatch-Consistent now (sequence_change_line old_seq new_seq) p r = ground arith
dispatch-Consistent now format_probed_line p r = ground arith
dispatch-Consistent now manifest_skip_line p r = ground arith
dispatch-Consistent now (bandwidth_line bw) p r = ground arith
dispatch-Consistent now (http_error_line code message) p r = ground arith
dispatch-Consistent now (content_length_line size) p r = ground arith
dispatch-Consistent now reconnect_line p r = ground arith
dispatch-Consistent now (segment_failed_line segment playlist) p r = ground arith
dispatch-Consistent now (segment_skipped_line segment playlist) p r = ground arith
dispatch-Consistent now (playlist_failed_line playlist) p r = ground arith
dispatch-Consistent now (segments_expired_line count) p r = ground arith
dispatch-Consistent now no_match p r = ground arith

use_stamp-Consistent :
    (stamp : Option ℕ) (p : Parser)
    → Consistent p
    → Consistent (use_stamp stamp (record p { lines_processed = suc p.lines_processed }))
unfolding use_stamp
use_stamp-Consistent none p r = ground arith
use_stamp-Consistent (some stamp) p r = ground arith

parse_line-Consistent : (l : LogLine) (p : Parser) → Consistent p → Consistent (parse_line l p)
unfolding parse_line
parse_line-Consistent l p r = elim (Option-cases l.content) [
  | inl h ↦ ground arith
  | inr (line, h) ↦
      ground (arith, dispatch-Consistent (time_of l) line _ (use_stamp-Consistent l.stamp p r))
]

parse_lines-Consistent :
    (lines : List LogLine) (p : Parser) → Consistent p → Consistent (parse_lines lines p)
unfolding parse_lines
parse_lines-Consistent [] p r = r
parse_lines-Consistent (l ∷ more) p r =
    parse_lines-Consistent more (parse_line l p) (parse_line-Consistent l p r)

-- Whatever the debug log says, the counters that classify HTTP errors, connection failures, timed
-- connections, late refreshes, found sizes and stamped lines do not exceed the counters of what they classify.
parse_lines-new-Consistent :
    (target : ℤ) (sizes : Option (Text → Option ℕ)) (lines : List LogLine)
    → Consistent (parse_lines lines (new_parser target sizes))
unfolding new_parser no_samples
parse_lines-new-Consistent target sizes lines =
    parse_lines-Consistent lines (new_parser target sizes) (ground arith)
