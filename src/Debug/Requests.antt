-- ===== src/Debug/Requests.antt =====
-- debug_events.go: the downloads that the requests of a log start and finish, and what is to be counted of them.
use go_ffmpeg_hls_swarm.Common.{
  ℕ, ◌+◌, ◌≡◌, List, [], ◌∷◌, length, false, Option, none, some, Text, if◌then◌else◌,
}
use go_ffmpeg_hls_swarm.Debug.State.{Parser}
use go_ffmpeg_hls_swarm.Debug.Download.{is_empty, is_segment_url}
use go_ffmpeg_hls_swarm.Debug.Lines.{
  Line, LogLine, hls_request_line, http_open_line, http_request_get_line,
}
use go_ffmpeg_hls_swarm.Debug.Pending.{Tracks, size_of, lookups_of, Counted, ended_by_http}

-- A request for a segment: by the HLS demuxer, which always asks for the next one, or by the HTTP
-- layer, which may ask for the same one again.
pub data Request : Type 0 where
  by_hls by_http : Text → Request

-- The segment under way, and those that are finished, newest first.
pub record Downloads : Type 0 where
  pub under_way : Option Text
  pub finished : List Text

abbrev pub add_ended : Option Text → List Text → List Text
add_ended none done = done
add_ended (some old) done = old ∷ done

abbrev pub follow : Request → Downloads → Downloads
follow (by_hls url) d = record { under_way = some url; finished = add_ended d.under_way d.finished }
follow (by_http url) d = record {
  under_way = some url;
  finished = add_ended (ended_by_http url d.under_way) d.finished;
}

-- The request that a line of the log tells of.
abbrev pub request_of : Line → Option Request
request_of (hls_request_line url) = some (by_hls url)
request_of (http_open_line url) = if is_segment_url url then some (by_http url) else none
request_of (http_request_get_line url) = if is_segment_url url then some (by_http url) else none
request_of _ = none

abbrev pub follow_line : Line → Downloads → Downloads
follow_line line d = elim (request_of line) [ none ↦ d | some r ↦ follow r d ]

abbrev pub follow_lines : List LogLine → Downloads → Downloads
follow_lines [] d = d
follow_lines (l ∷ more) d =
    follow_lines more (elim l.content [ none ↦ d | some line ↦ follow_line line d ])

abbrev pub sizes_of : Option (Text → Option ℕ) → List Text → ℕ
sizes_of sizes [] = 0
sizes_of sizes (url ∷ more) = sizes_of sizes more + size_of sizes url

abbrev pub lookups_for : Option (Text → Option ℕ) → List Text → ℕ
lookups_for sizes [] = 0
lookups_for sizes (url ∷ more) = lookups_for sizes more + lookups_of sizes

-- The counters of a parser are those of the downloads.
pub record Books (sizes : Option (Text → Option ℕ)) (d : Downloads) (p : Parser) : Type 0 where
  pub tracks : Tracks d.under_way p
  pub looks_up : p.size_lookup ≡ sizes
  pub counted :
      Counted p (length d.finished) (sizes_of sizes d.finished) (lookups_for sizes d.finished)

-- What the regular expressions capture is not empty.
abbrev pub Named : Line → Type 0
Named (hls_request_line url) = is_empty url ≡ false
Named _ = Unit {0}

abbrev pub Captures : Option Line → Type 0
Captures none = Unit {0}
Captures (some line) = Named line
