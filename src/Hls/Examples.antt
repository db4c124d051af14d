-- ===== src/Hls/Examples.antt =====
-- Lines of FFmpeg's messages, and completions of requests in flight.
use go_ffmpeg_hls_swarm.Common.{text_eq}
use go_ffmpeg_hls_swarm.Common.{◌≡◌, refl, some, true, [], ◌∷◌, pos, codes, Map, arith, ℕ}
use go_ffmpeg_hls_swarm.Hls.{
  HlsEventParser, UrlType, new_hls_event_parser, parse_line, complete_oldest_segment, event_request,
  classify_url, url_segment, find_http_error, is_timeout,
}
use go_ffmpeg_hls_swarm.Hls.Urls.{opening_line, HasType, parse_line-calls}
use go_ffmpeg_hls_swarm.Hls.Inflight.{IsCompletion, complete_oldest_segment-IsCompletion}

parse_line-calls_example :
    (t : UrlType) × ((parse_line 5
        (opening_line (codes "[hls @ 0x55] ") (codes "http://h/Seg1.TS?token=a") (codes "\n"))
        new_hls_event_parser).calls
      ≡ event_request 5 (codes "http://h/Seg1.TS?token=a") t ∷ [])
    × HasType (codes "http://h/Seg1.TS") t
unfolding new_hls_event_parser
parse_line-calls_example =
    parse_line-calls 5 (codes "[hls @ 0x55] ") b'h' (codes "ttp://h/Seg1.TS")
      (some (codes "token=a")) (codes "\n") new_hls_event_parser (ground arith) (ground arith)
      (ground arith)

classify_url_segment : classify_url (codes "http://h/Seg1.TS?x=.m3u8") ≡ url_segment
unfolding classify_url
classify_url_segment = refl

find_http_error_code : find_http_error (codes "Server returned 404 Not Found") ≡ some 404
unfolding find_http_error
find_http_error_code = refl

is_timeout_mixed : is_timeout (codes "Connection Timed Out") ≡ true
unfolding is_timeout
is_timeout_mixed = refl

-- One request hangs, and of the other two the second is older.
abbrev inflight : Map ℕ
inflight =
    (codes "http://h/1.ts", 5)
    ∷ (codes "http://h/3.ts", 80000000000)
    ∷ (codes "http://h/2.ts", 70000000000)
    ∷ []

abbrev parser : HlsEventParser
parser = record new_hls_event_parser { inflight_requests = inflight }

complete_oldest_segment-IsCompletion_example :
    IsCompletion 90000000000 parser (complete_oldest_segment 90000000000 parser)
unfolding text_eq
complete_oldest_segment-IsCompletion_example =
    complete_oldest_segment-IsCompletion 90000000000 parser
      ((refl, (refl, tt)), ((refl, tt), (tt, tt)))

complete_oldest_segment_second : (complete_oldest_segment 90000000000 parser).0 ≡ pos 20000000000
unfolding complete_oldest_segment
complete_oldest_segment_second = refl
