-- ===== src/Debug/Examples.antt =====
-- A debug log, and the theorems on the parser at it.
use go_ffmpeg_hls_swarm.Common.{ℕ, refl, List, [], ◌∷◌, Option, some, pos, Text, codes, has_suffix}
use go_ffmpeg_hls_swarm.Debug.State.{new_parser, extract_segment_name}
use go_ffmpeg_hls_swarm.Debug.Download.{is_segment_url}
use go_ffmpeg_hls_swarm.Debug.Lines.{
  Line, LogLine, parse_lines, hls_request_line, http_open_line, http_error_line,
  segment_failed_line, tcp_start_line, tcp_connected_line,
}
use go_ffmpeg_hls_swarm.Debug.Segments.{parse_lines-Counted}
use go_ffmpeg_hls_swarm.Debug.Pending.{Counted}
use go_ffmpeg_hls_swarm.Debug.Counters.{Reported, parse_lines-new-Reported}

abbrev sizes : Option (Text → Option ℕ)
sizes = some (λ name. some 1000)

abbrev at : ℕ → Line → LogLine
at t l = record { content = some l; stamp = some t; clock = 0 }

abbrev log : List LogLine
log =
    at 1 (tcp_start_line (codes "10.0.0.1") (codes "80") 80)
    ∷ at 3 (tcp_connected_line (codes "10.0.0.1") (codes "80") 80)
    ∷ at 5 (hls_request_line (codes "http://h/seg1.ts"))
    ∷ at 6 (http_open_line (codes "http://h/seg1.ts"))
    ∷ at 7 (http_error_line 503 (codes "Service Unavailable"))
    ∷ at 8 (segment_failed_line 1 0)
    ∷ at 9 (hls_request_line (codes "http://h/seg2.ts"))
    ∷ []

-- Of the two segments of the log the first is counted, with its bytes, though it failed.
parse_lines-Counted_example : Counted (parse_lines log (new_parser (pos 2) sizes)) 1 1000 1
unfolding is_segment_url has_suffix extract_segment_name
parse_lines-Counted_example =
    parse_lines-Counted (pos 2) sizes log (tt, (tt, (refl, (tt, (tt, (tt, (refl, tt)))))))

parse_lines-new-Reported_example : Reported (parse_lines log (new_parser (pos 2) sizes))
parse_lines-new-Reported_example = parse_lines-new-Reported (pos 2) sizes log
