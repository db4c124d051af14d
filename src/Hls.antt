-- ===== src/Hls.antt =====
-- internal/parser/hls_events.go: the parser of FFmpeg's messages on HLS. Its regular expressions are functions
-- on the bytes of a line; times are nanoseconds, and the calls of the callback are kept in order.
use go_ffmpeg_hls_swarm.Common.{
  ℕ, suc, ◌+◌, ◌-◌, ◌*◌, Bool, true, false, not, ◌&&◌, ◌||◌, if◌then◌else◌, ltb, leb, ◌==◌,
  is_digit, Option, none, some, List, [], ◌∷◌, ◌++◌, ℤ, pos, sub_ℕ, length, drop, Text, codes,
  text_eq, to_lower, has_prefix, has_suffix, contains, cut, Map, put, delete,
}
mod Urls
mod Latencies
mod Inflight
mod Examples

-- `URLType`.
pub data UrlType : Type 0 where
  url_unknown : UrlType
  url_manifest : UrlType
  url_segment : UrlType
  url_init : UrlType

-- `HLSEvent`, with the fields that its type has.
pub data HlsEvent : Type 0 where
  event_request : ℕ → Text → UrlType → HlsEvent
  event_http_error : ℕ → ℕ → HlsEvent
  event_reconnect : ℕ → HlsEvent
  event_timeout : ℕ → HlsEvent

-- `HLSEventParser`.
pub record HlsEventParser : Type 0 where
  pub manifest_requests : ℕ
  pub segment_requests : ℕ
  pub init_requests : ℕ
  pub unknown_requests : ℕ
  pub reconnections : ℕ
  pub timeouts : ℕ
  pub http_errors : List (ℕ × ℕ)
  pub inflight_requests : Map ℕ
  pub latencies : List ℤ
  pub lines_processed : ℕ
  pub events_emitted : ℕ
  pub calls : List HlsEvent

-- `NewHLSEventParser`.
unfoldable pub new_hls_event_parser : HlsEventParser
new_hls_event_parser = record {
  manifest_requests = 0;
  segment_requests = 0;
  init_requests = 0;
  unknown_requests = 0;
  reconnections = 0;
  timeouts = 0;
  http_errors = [];
  inflight_requests = [];
  latencies = [];
  lines_processed = 0;
  events_emitted = 0;
  calls = [];
}

-- `classifyURL`.
abbrev pub path_of : Option (Text × Text) → Text → Text
path_of none lower = lower
path_of (some ([], query)) lower = lower
path_of (some (c ∷ path, query)) lower = c ∷ path

unfoldable pub classify_path : Text → UrlType
unfolding has_suffix
classify_path path =
    if has_suffix path (codes ".m3u8")
    then url_manifest
    else if has_suffix path (codes ".ts")
    then url_segment
    else if has_suffix path (codes ".mp4")
    then url_init
    else url_unknown

unfoldable pub classify_url : Text → UrlType
unfolding cut classify_path
classify_url url = classify_path (path_of (cut b'?' (to_lower url)) (to_lower url))

-- `Opening '([^']+)' for reading` at the start of a text, from what stands before and behind its first quote.
abbrev pub quoted : Option (Text × Text) → Option Text
quoted none = none
quoted (some ([], rest)) = none
quoted (some (c ∷ url, rest)) =
    if has_prefix rest (codes " for reading") then some (c ∷ url) else none

unfoldable pub find_opening : Text → Option Text
unfolding has_prefix cut
find_opening [] = none
find_opening (a ∷ s) =
    let later = find_opening s in
    if has_prefix (a ∷ s) (codes "Opening '")
    then elim (quoted (cut 39 (drop 9 (a ∷ s)))) [ none ↦ later | some url ↦ some url ]
    else later

-- `Server returned (\d{3})`, with the number of the three digits.
abbrev pub three_digits : Text → Option ℕ
three_digits (a ∷ b ∷ c ∷ s) =
    if is_digit a && is_digit b && is_digit c
    then some ((a - b'0') * 100 + (b - b'0') * 10 + (c - b'0'))
    else none
three_digits _ = none

unfoldable pub find_http_error : Text → Option ℕ
unfolding has_prefix
find_http_error [] = none
find_http_error (a ∷ s) =
    let later = find_http_error s in
    if has_prefix (a ∷ s) (codes "Server returned ")
    then elim (three_digits (drop 16 (a ∷ s))) [ none ↦ later | some code ↦ some code ]
    else later

-- `(?i)(timed? ?out|timeout)`.
unfoldable pub is_timeout : Text → Bool
unfolding contains
is_timeout line =
    let lower = to_lower line in
    contains lower (codes "timeout")
    || contains lower (codes "timedout")
    || contains lower (codes "time out")
    || contains lower (codes "timed out")

-- `emitEvent`.
unfoldable pub emit_event : HlsEvent → HlsEventParser → HlsEventParser
emit_event e p = record p { events_emitted = suc p.events_emitted; calls = p.calls ++ e ∷ [] }

-- `httpErrors[code]++`.
unfoldable pub increment : ℕ → List (ℕ × ℕ) → List (ℕ × ℕ)
increment code [] = (code, 1) ∷ []
increment code ((c, n) ∷ m) = if c == code then (c, suc n) ∷ m else (c, n) ∷ increment code m

unfoldable pub count_request : ℕ → Text → UrlType → HlsEventParser → HlsEventParser
unfolding put
count_request now url url_manifest p = record p { manifest_requests = suc p.manifest_requests }
count_request now url url_segment p = record p {
  segment_requests = suc p.segment_requests;
  inflight_requests = put url now p.inflight_requests;
}
count_request now url url_init p = record p { init_requests = suc p.init_requests }
count_request now url url_unknown p = record p { unknown_requests = suc p.unknown_requests }

-- `parseLine` at the time `now`.
unfoldable pub parse_line : ℕ → Text → HlsEventParser → HlsEventParser
unfolding find_opening find_http_error is_timeout contains emit_event increment count_request
    classify_url
parse_line now line p =
    let p' = record p { lines_processed = suc p.lines_processed } in
    elim (find_opening line) [
      | some url ↦
          emit_event (event_request now url (classify_url url))
            (count_request now url (classify_url url) p')
      | none ↦ elim (find_http_error line) [
        | some code ↦
            emit_event (event_http_error now code)
              (record p' { http_errors = increment code p.http_errors })
        | none ↦
            if contains line (codes "Reconnecting")
            then emit_event (event_reconnect now)
                (record p' { reconnections = suc p.reconnections })
            else if is_timeout line
            then emit_event (event_timeout now) (record p' { timeouts = suc p.timeouts })
            else p'
      ]
    ]

-- `HangingRequestTTL`.
abbrev pub hanging_request_ttl : ℕ
hanging_request_ttl = 60000000000

abbrev pub is_hanging : ℕ → ℕ → Bool
is_hanging now start_time = ltb (start_time + hanging_request_ttl) now

unfoldable pub is_ts : Text → Bool
unfolding has_suffix contains
is_ts url = has_suffix (to_lower url) (codes ".ts") || contains (to_lower url) (codes ".ts?")

-- The loop of `CompleteOldestSegment`: the oldest segment so far, and the hanging requests.
abbrev pub older : Text → ℕ → Option (Text × ℕ) → Option (Text × ℕ)
older url start_time none = some (url, start_time)
older url start_time (some (u, t)) =
    if ltb start_time t then some (url, start_time) else some (u, t)

unfoldable pub scan_inflight : ℕ → Map ℕ → Option (Text × ℕ) → Option (Text × ℕ)
unfolding is_ts
scan_inflight now [] oldest = oldest
scan_inflight now ((url, start_time) ∷ m) oldest =
    let next =
      if is_hanging now start_time
      then oldest
      else if is_ts url
      then older url start_time oldest
      else oldest in
    scan_inflight now m next

unfoldable pub hanging_urls : ℕ → Map ℕ → List Text
hanging_urls now [] = []
hanging_urls now ((url, start_time) ∷ m) =
    let more = hanging_urls now m in if is_hanging now start_time then url ∷ more else more

unfoldable pub time_out : List Text → HlsEventParser → HlsEventParser
unfolding delete
time_out [] p = p
time_out (url ∷ urls) p =
    time_out urls
      (record p { inflight_requests = delete url p.inflight_requests; timeouts = suc p.timeouts })

-- `recordLatency`.
unfoldable pub record_latency : ℤ → HlsEventParser → HlsEventParser
record_latency latency p = record p {
  latencies =
      if leb 1000 (length p.latencies)
      then drop 1 p.latencies ++ latency ∷ []
      else p.latencies ++ latency ∷ [];
}

-- `CompleteOldestSegment` at the time `now`; the latency is 0 where there is no segment.
abbrev pub complete : ℕ → Option (Text × ℕ) → HlsEventParser → ℤ × HlsEventParser
complete now none p = (pos 0, p)
complete now (some (url, start_time)) p =
    let latency = sub_ℕ now start_time in
    (
      latency,
      record_latency latency (record p { inflight_requests = delete url p.inflight_requests }),
    )

unfoldable pub complete_oldest_segment : ℕ → HlsEventParser → ℤ × HlsEventParser
unfolding scan_inflight hanging_urls time_out record_latency delete
complete_oldest_segment now p =
    complete now (scan_inflight now p.inflight_requests none)
      (time_out (hanging_urls now p.inflight_requests) p)
