-- ===== src/Debug/Counters.antt =====
-- debug_events.go: the counters against the events that the callback gets.
use go_ffmpeg_hls_swarm.Common.{
  ℕ, suc, ◌+◌, ◌≤◌, ◌≡◌, List, [], ◌∷◌, Option, none, some, ℤ, Text, arith, Option-cases, inl, inr,
}
use go_ffmpeg_hls_swarm.Samples.{add_sample}
use go_ffmpeg_hls_swarm.Debug.State.{
  Parser, Event, emit, new_parser, http_open, tcp_connected, tcp_failed, playlist_open, http_error,
  reconnect, segment_failed, segment_skipped, playlist_failed, segments_expired,
}
use go_ffmpeg_hls_swarm.Debug.Download.{
  handle_hls_request, handle_http_open, handle_http_request_get, handle_playlist_open,
  handle_sequence_change, handle_format_probed, note_refresh, start_segment, oldest,
}
use go_ffmpeg_hls_swarm.Debug.Network.{
  handle_tcp_start, handle_tcp_connected, handle_tcp_failed, handle_http_error, handle_reconnect,
  handle_segment_failed, handle_segment_skipped, handle_playlist_failed, handle_segments_expired,
  note_bandwidth, note_content_length, time_connect,
}
use go_ffmpeg_hls_swarm.Debug.Lines.{
  Line, LogLine, dispatch, parse_line, parse_lines, use_stamp, time_of, hls_request_line,
  http_open_line, http_request_get_line, tcp_connected_line, tcp_start_line, tcp_failed_line,
  playlist_open_line, sequence_change_line, format_probed_line, manifest_skip_line, bandwidth_line,
  http_error_line, content_length_line, reconnect_line, segment_failed_line, segment_skipped_line,
  playlist_failed_line, segments_expired_line, no_match,
}
use go_ffmpeg_hls_swarm.Debug.Timing.{complete-Apart, track_segment_from_http-Apart}

-- What an event adds to each of the counters.
abbrev pub opens : Event → ℕ
opens (http_open t url size) = 1
opens _ = 0

abbrev pub connects : Event → ℕ
connects (tcp_connected t ip port) = 1
connects _ = 0

abbrev pub failures : Event → ℕ
failures (tcp_failed t reason) = 1
failures _ = 0

abbrev pub refreshes : Event → ℕ
refreshes (playlist_open t url) = 1
refreshes _ = 0

abbrev pub http_errors : Event → ℕ
http_errors (http_error t code message) = 1
http_errors _ = 0

abbrev pub reconnects : Event → ℕ
reconnects (reconnect t) = 1
reconnects _ = 0

abbrev pub lost_segments : Event → ℕ
lost_segments (segment_failed t s p) = 1
lost_segments _ = 0

abbrev pub skipped_segments : Event → ℕ
skipped_segments (segment_skipped t s p) = 1
skipped_segments _ = 0

abbrev pub lost_playlists : Event → ℕ
lost_playlists (playlist_failed t p) = 1
lost_playlists _ = 0

abbrev pub expired : Event → ℕ
expired (segments_expired t count) = count
expired _ = 0

abbrev pub announced_bytes : Event → ℕ
announced_bytes (http_open t url size) = size
announced_bytes _ = 0

abbrev pub tally : (Event → ℕ) → List Event → ℕ
tally f [] = 0
tally f (e ∷ events) = tally f events + f e

-- Each counter is what the events that were reported add up to, but that of opened URLs, since events of the same type also
-- report the lengths of bodies.
pub record Reported (p : Parser) : Type 0 where
  pub http_opens : p.http_open_count ≤ tally opens p.events
  pub tcp_successes : p.tcp_success_count ≡ tally connects p.events
  pub tcp_failures : p.tcp_failure_count ≡ tally failures p.events
  pub playlists : p.playlist_refreshes ≡ tally refreshes p.events
  pub errors : p.http_error_count ≡ tally http_errors p.events
  pub reconnections : p.reconnect_count ≡ tally reconnects p.events
  pub failed : p.segment_failed_count ≡ tally lost_segments p.events
  pub skipped : p.segment_skipped_count ≡ tally skipped_segments p.events
  pub failed_playlists : p.playlist_failed_count ≡ tally lost_playlists p.events
  pub expiries : p.segments_expired_sum ≡ tally expired p.events
  pub bytes : p.bytes_downloaded ≡ tally announced_bytes p.events

handle_hls_request-Reported :
    (now : ℕ) (url : Text) (p : Parser) → Reported p → Reported (handle_hls_request now url p)
unfolding handle_hls_request start_segment emit
handle_hls_request-Reported now url p r = elim (Option-cases (oldest p.pending_segments)) [
  | inl h ↦ ground arith
  | inr (e, h) ↦ ground (arith, complete-Apart now e p)
]

handle_http_open-Reported :
    (now : ℕ) (url : Text) (p : Parser) → Reported p → Reported (handle_http_open now url p)
unfolding handle_http_open emit
handle_http_open-Reported now url p r = ground (
  arith,
  track_segment_from_http-Apart now url (record p { http_open_count = suc p.http_open_count }),
)

dispatch-Reported :
    (now : ℕ) (line : Line) (p : Parser) → Reported p → Reported (dispatch now line p)
unfolding dispatch handle_http_request_get handle_tcp_start handle_tcp_connected time_connect
    handle_tcp_failed handle_http_error handle_reconnect handle_segment_failed
    handle_segment_skipped handle_playlist_failed handle_segments_expired note_bandwidth
    note_content_length handle_playlist_open handle_sequence_change handle_format_probed
    note_refresh emit add_sample
dispatch-Reported now (tcp_connected_line ip port_str port) p r = ground arith
dispatch-Reported now (hls_request_line url) p r = handle_hls_request-Reported now url p r
dispatch-Reported now (http_open_line url) p r = handle_http_open-Reported now url p r
dispatch-Reported now (http_request_get_line path) p r =
    ground (arith, track_segment_from_http-Apart now path p)
dispatch-Reported now (tcp_start_line ip port_str port) p r = ground arith
dispatch-Reported now (tcp_failed_line reason) p r = ground arith
dispatch-Reported now (playlist_open_line url) p r = ground arith
dispatch-Reported now (sequence_change_line old_seq new_seq) p r = ground arith
dispatch-Reported now format_probed_line p r = ground arith
dispatch-Reported now manifest_skip_line p r = ground arith
dispatch-Reported now (bandwidth_line bw) p r = ground arith
dispatch-Reported now (http_error_line code message) p r = ground arith
dispatch-Reported now (content_length_line size) p r = ground arith
dispatch-Reported now reconnect_line p r = ground arith
dispatch-Reported now (segment_failed_line segment playlist) p r = ground arith
dispatch-Reported now (segment_skipped_line segment playlist) p r = ground arith
dispatch-Reported now (playlist_failed_line playlist) p r = ground arith
dispatch-Reported now (segments_expired_line count) p r = ground arith
dispatch-Reported now no_match p r = ground arith

use_stamp-Reported :
    (stamp : Option ℕ) (p : Parser)
    → Reported p
    → Reported (use_stamp stamp (record p { lines_processed = suc p.lines_processed }))
unfolding use_stamp
use_stamp-Reported none p r = ground arith
use_stamp-Reported (some stamp) p r = ground arith

parse_line-Reported : (l : LogLine) (p : Parser) → Reported p → Reported (parse_line l p)
unfolding parse_line
parse_line-Reported l p r = elim (Option-cases l.content) [
  | inl h ↦ ground arith
  | inr (line, h) ↦
      ground (arith, dispatch-Reported (time_of l) line _ (use_stamp-Reported l.stamp p r))
]

parse_lines-Reported :
    (lines : List LogLine) (p : Parser) → Reported p → Reported (parse_lines lines p)
unfolding parse_lines
parse_lines-Reported [] p r = r
parse_lines-Reported (l ∷ more) p r =
    parse_lines-Reported more (parse_line l p) (parse_line-Reported l p r)

-- Whatever the debug log says, each of ten counters of the parser is the sum of what the events
-- reported to the callback say, and opened URLs are at most as many as the events of their type.
pub parse_lines-new-Reported :
    (target : ℤ) (sizes : Option (Text → Option ℕ)) (lines : List LogLine)
    → Reported (parse_lines lines (new_parser target sizes))
unfolding new_parser
parse_lines-new-Reported target sizes lines =
    parse_lines-Reported lines (new_parser target sizes) (ground arith)
