-- ===== src/Debug/Lines.antt =====
-- `ParseLine` of internal/parser/debug_events.go, from what its filter and regular expressions find.
use go_ffmpeg_hls_swarm.Common.{ℕ, suc, Option, none, some, Text, List, [], ◌∷◌}
use go_ffmpeg_hls_swarm.Debug.State.{Parser}
use go_ffmpeg_hls_swarm.Debug.Download.{
  handle_hls_request, handle_http_open, handle_http_request_get, handle_playlist_open,
  handle_sequence_change, handle_format_probed,
}
use go_ffmpeg_hls_swarm.Debug.Network.{
  handle_tcp_start, handle_tcp_connected, handle_tcp_failed, handle_http_error, handle_reconnect,
  handle_segment_failed, handle_segment_skipped, handle_playlist_failed, handle_segments_expired,
  note_bandwidth, note_content_length,
}

-- A constructor for each pattern, in the order in which `ParseLine` tries them, with the groups that
-- it uses as texts or as the numbers that `strconv` makes of them. `no_match` passes the filter of
-- key words and fits no pattern, or has a Content-Length that is no 64-bit number.
pub data Line : Type 0 where
  tcp_connected_line : Text → Text → ℕ → Line
  hls_request_line : Text → Line
  http_open_line : Text → Line
  http_request_get_line : Text → Line
  tcp_start_line : Text → Text → ℕ → Line
  tcp_failed_line : Text → Line
  playlist_open_line : Text → Line
  sequence_change_line : ℕ → ℕ → Line
  format_probed_line : Line
  manifest_skip_line : Line
  bandwidth_line : ℕ → Line
  http_error_line : ℕ → Text → Line
  content_length_line : ℕ → Line
  reconnect_line : Line
  segment_failed_line : ℕ → ℕ → Line
  segment_skipped_line : ℕ → ℕ → Line
  playlist_failed_line : ℕ → Line
  segments_expired_line : ℕ → Line
  no_match : Line

unfoldable pub dispatch : ℕ → Line → Parser → Parser
dispatch now (tcp_connected_line ip port_str port) p = handle_tcp_connected now ip port_str port p
dispatch now (hls_request_line url) p = handle_hls_request now url p
dispatch now (http_open_line url) p = handle_http_open now url p
dispatch now (http_request_get_line path) p = handle_http_request_get now path p
dispatch now (tcp_start_line ip port_str port) p = handle_tcp_start now ip port_str port p
dispatch now (tcp_failed_line reason) p = handle_tcp_failed now reason p
dispatch now (playlist_open_line url) p = handle_playlist_open now url p
dispatch now (sequence_change_line old_seq new_seq) p = handle_sequence_change now old_seq new_seq p
dispatch now format_probed_line p = handle_format_probed now p
dispatch now manifest_skip_line p = handle_format_probed now p
dispatch now (bandwidth_line bw) p = note_bandwidth now bw p
dispatch now (http_error_line code message) p = handle_http_error now code message p
dispatch now (content_length_line size) p = note_content_length now size p
dispatch now reconnect_line p = handle_reconnect now p
dispatch now (segment_failed_line segment playlist) p = handle_segment_failed now segment playlist p
dispatch now (segment_skipped_line segment playlist) p =
    handle_segment_skipped now segment playlist p
dispatch now (playlist_failed_line playlist) p = handle_playlist_failed now playlist p
dispatch now (segments_expired_line count) p = handle_segments_expired now count p
dispatch now no_match p = p

-- A line of the log: what it matches (`none`: the filter of key words skips it), the time stamp that
-- it carries, if it carries one, and the time at which it is handled.
pub record LogLine : Type 0 where
  pub content : Option Line
  pub stamp : Option ℕ
  pub clock : ℕ

unfoldable pub use_stamp : Option ℕ → Parser → Parser
use_stamp none p = p
use_stamp (some stamp) p = record p { timestamps_used = suc p.timestamps_used }

abbrev pub time_of : LogLine → ℕ
time_of l = elim l.stamp [ none ↦ l.clock | some stamp ↦ stamp ]

-- `ParseLine`.
unfoldable pub parse_line : LogLine → Parser → Parser
unfolding use_stamp
parse_line l p =
    let p' = record p { lines_processed = suc p.lines_processed } in
    elim l.content [ none ↦ p' | some line ↦ dispatch (time_of l) line (use_stamp l.stamp p') ]

unfoldable pub parse_lines : List LogLine → Parser → Parser
parse_lines [] p = p
parse_lines (l ∷ more) p = parse_lines more (parse_line l p)
