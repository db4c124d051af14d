-- ===== src/Debug/Segments.antt =====
-- debug_events.go: which segments are counted, against the sequence of the requests in the log.
use go_ffmpeg_hls_swarm.Common.{
  ℕ, suc, ◌≡◌, refl, ◌∙◌, subst, List, [], ◌∷◌, length, true, false, Option, none, some, ℤ, Text,
  arith, Bool-cases, Option-cases, inl, inr, All, has_suffix, contains, has_prefix,
}
use go_ffmpeg_hls_swarm.Samples.{no_samples}
use go_ffmpeg_hls_swarm.Debug.State.{Parser, emit, new_parser}
use go_ffmpeg_hls_swarm.Debug.Download.{
  is_empty, is_segment_url, handle_hls_request, handle_http_open, handle_http_request_get,
  track_segment_from_http, handle_playlist_open, handle_sequence_change, handle_format_probed,
  note_refresh,
}
use go_ffmpeg_hls_swarm.Debug.Network.{
  handle_tcp_start, handle_tcp_connected, handle_tcp_failed, handle_http_error, handle_reconnect,
  handle_segment_failed, handle_segment_skipped, handle_playlist_failed, handle_segments_expired,
  note_bandwidth, note_content_length, time_connect,
}
use go_ffmpeg_hls_swarm.Debug.Lines.{
  Line, LogLine, dispatch, parse_line, parse_lines, use_stamp, hls_request_line, http_open_line,
  http_request_get_line, tcp_connected_line, tcp_start_line, tcp_failed_line, playlist_open_line,
  sequence_change_line, format_probed_line, manifest_skip_line, bandwidth_line, http_error_line,
  content_length_line, reconnect_line, segment_failed_line, segment_skipped_line,
  playlist_failed_line, segments_expired_line, no_match, time_of,
}
use go_ffmpeg_hls_swarm.Debug.Pending.{
  Tracks, Counted, GoesOn, ended_by_http, handle_hls_request-Ends, track_segment_from_http-Ends,
}
use go_ffmpeg_hls_swarm.Debug.Requests.{
  by_hls, by_http, Downloads, add_ended, follow, request_of, follow_line, follow_lines, sizes_of,
  lookups_for, Books, Named, Captures,
}

GoesOn-Books :
    (sizes : Option (Text → Option ℕ)) (o ended : Option Text) (done : List Text) (p q : Parser)
    (now : ℕ) (url : Text)
    → is_empty url ≡ false
    → Books sizes (record { under_way = o; finished = done }) p
    → GoesOn url now ended p q
    → Books sizes (record { under_way = some url; finished = add_ended ended done }) q
GoesOn-Books sizes o none done p q now url e b g = record {
  tracks = ((now, g.0), e);
  looks_up = ground arith;
  counted = ground arith;
}
GoesOn-Books sizes o (some old) done p q now url e b g = record {
  tracks = ((now, g.0), e);
  looks_up = ground arith;
  counted = ground (arith, b.looks_up, b.counted);
}

-- The fields that `Books` is about stay as they are.
abbrev pub Leaves : Parser → Parser → Type 0
Leaves p q =
    (q.pending_segments ≡ p.pending_segments)
    × (q.size_lookup ≡ p.size_lookup)
    × Counted q p.segments.count p.segment_bytes_downloaded p.size_lookup_attempts

Leaves-Tracks : (o : Option Text) (p q : Parser) → Tracks o p → Leaves p q → Tracks o q
Leaves-Tracks none p q t g = g.0 ∙ t
Leaves-Tracks (some url) p q t g = ((t.0.0, g.0 ∙ t.0.1), t.1)

Leaves-Books :
    (sizes : Option (Text → Option ℕ)) (d : Downloads) (p q : Parser)
    → Books sizes d p
    → Leaves p q
    → Books sizes d q
Leaves-Books sizes d p q b g = record {
  tracks = Leaves-Tracks d.under_way p q b.tracks g;
  looks_up = ground (arith, b.looks_up);
  counted = ground (arith, b.counted);
}

dispatch-Leaves :
    (now : ℕ) (line : Line) (p : Parser) → request_of line ≡ none → Leaves p (dispatch now line p)
unfolding dispatch handle_http_open handle_http_request_get handle_tcp_start handle_tcp_connected
    time_connect handle_tcp_failed handle_http_error handle_reconnect handle_segment_failed
    handle_segment_skipped handle_playlist_failed handle_segments_expired note_bandwidth
    note_content_length handle_playlist_open handle_sequence_change handle_format_probed
    note_refresh emit
dispatch-Leaves now (tcp_connected_line ip port_str port) p h = ground arith
dispatch-Leaves now (hls_request_line url) p h = ground arith
dispatch-Leaves now (http_open_line url) p h = ground arith
dispatch-Leaves now (http_request_get_line path) p h = ground arith
dispatch-Leaves now (tcp_start_line ip port_str port) p h = ground arith
dispatch-Leaves now (tcp_failed_line reason) p h = ground arith
dispatch-Leaves now (playlist_open_line url) p h = ground arith
dispatch-Leaves now (sequence_change_line old_seq new_seq) p h = ground arith
dispatch-Leaves now format_probed_line p h = ground arith
dispatch-Leaves now manifest_skip_line p h = ground arith
dispatch-Leaves now (bandwidth_line bw) p h = ground arith
dispatch-Leaves now (http_error_line code message) p h = ground arith
dispatch-Leaves now (content_length_line size) p h = ground arith
dispatch-Leaves now reconnect_line p h = ground arith
dispatch-Leaves now (segment_failed_line segment playlist) p h = ground arith
dispatch-Leaves now (segment_skipped_line segment playlist) p h = ground arith
dispatch-Leaves now (playlist_failed_line playlist) p h = ground arith
dispatch-Leaves now (segments_expired_line count) p h = ground arith
dispatch-Leaves now no_match p h = ground arith

is_segment_url-nonempty : (url : Text) → is_segment_url url ≡ true → is_empty url ≡ false
unfolding is_segment_url has_suffix contains has_prefix
is_segment_url-nonempty [] h = ground arith
is_segment_url-nonempty (c ∷ url) h = refl

handle_hls_request-Books :
    (sizes : Option (Text → Option ℕ)) (d : Downloads) (p : Parser) (now : ℕ) (url : Text)
    → is_empty url ≡ false
    → Books sizes d p
    → Books sizes (follow (by_hls url) d) (handle_hls_request now url p)
handle_hls_request-Books sizes d p now url e b =
    GoesOn-Books sizes d.under_way d.under_way d.finished p (handle_hls_request now url p) now url e
      b (handle_hls_request-Ends d.under_way now url p b.tracks)

track_segment_from_http-Books :
    (sizes : Option (Text → Option ℕ)) (d : Downloads) (p : Parser) (now : ℕ) (url : Text)
    → is_empty url ≡ false
    → Books sizes d p
    → Books sizes (follow (by_http url) d) (track_segment_from_http now url p)
track_segment_from_http-Books sizes d p now url e b =
    GoesOn-Books sizes d.under_way (ended_by_http url d.under_way) d.finished p
      (track_segment_from_http now url p) now url e b
      (track_segment_from_http-Ends d.under_way now url p b.tracks)

handle_http_open-Books :
    (sizes : Option (Text → Option ℕ)) (d : Downloads) (p : Parser) (now : ℕ) (url : Text)
    → is_segment_url url ≡ true
    → Books sizes d p
    → Books sizes (follow (by_http url) d) (handle_http_open now url p)
unfolding handle_http_open emit
handle_http_open-Books sizes d p now url h b =
    let p' = record p { http_open_count = suc p.http_open_count } in
    Leaves-Books sizes (follow (by_http url) d) (track_segment_from_http now url p')
      (handle_http_open now url p)
      (track_segment_from_http-Books sizes d p' now url (is_segment_url-nonempty url h)
        (Leaves-Books sizes d p p' b (refl, refl, (refl, refl, refl))))
      (ground arith)

dispatch-Books :
    (sizes : Option (Text → Option ℕ)) (d : Downloads) (p : Parser) (now : ℕ) (line : Line)
    → Named line
    → Books sizes d p
    → Books sizes (follow_line line d) (dispatch now line p)
unfolding dispatch handle_http_request_get
dispatch-Books sizes d p now (hls_request_line url) n b =
    handle_hls_request-Books sizes d p now url n b
dispatch-Books sizes d p now (http_open_line url) n b = elim (Bool-cases (is_segment_url url)) [
  | inl h ↦ rw (h, follow_line) (handle_http_open-Books sizes d p now url h b)
  | inr h ↦
      rw (h, follow_line)
        (Leaves-Books sizes d p (handle_http_open now url p) b
          (dispatch-Leaves now (http_open_line url) p (rw h)))
]
dispatch-Books sizes d p now (http_request_get_line url) n b =
    elim (Bool-cases (is_segment_url url)) [
      | inl h ↦
          rw (h, follow_line)
            (track_segment_from_http-Books sizes d p now url (is_segment_url-nonempty url h) b)
      | inr h ↦ rw (h, follow_line) b
    ]
dispatch-Books sizes d p now line n b =
    Leaves-Books sizes d p (dispatch now line p) b (dispatch-Leaves now line p refl)

use_stamp-Leaves :
    (stamp : Option ℕ) (p : Parser)
    → Leaves p (use_stamp stamp (record p { lines_processed = suc p.lines_processed }))
unfolding use_stamp
use_stamp-Leaves none p = (refl, refl, (refl, refl, refl))
use_stamp-Leaves (some stamp) p = (refl, refl, (refl, refl, refl))

parse_line-Books :
    (sizes : Option (Text → Option ℕ)) (d : Downloads) (p : Parser) (l : LogLine)
    → Captures l.content
    → Books sizes d p
    → Books sizes (elim l.content [ none ↦ d | some line ↦ follow_line line d ]) (parse_line l p)
unfolding parse_line use_stamp
parse_line-Books sizes d p l n b = elim (Option-cases l.content) [
  | inl h ↦ rw h (Leaves-Books sizes d p _ b (refl, refl, (refl, refl, refl)))
  | inr (line, h) ↦ rw h (
      dispatch-Books sizes d _ (time_of l) line (subst Captures h n)
        (Leaves-Books sizes d p _ b (use_stamp-Leaves l.stamp p)))
]

parse_lines-Books :
    (sizes : Option (Text → Option ℕ)) (lines : List LogLine) (d : Downloads) (p : Parser)
    → All (λ l. Captures l.content) lines
    → Books sizes d p
    → Books sizes (follow_lines lines d) (parse_lines lines p)
unfolding parse_lines
parse_lines-Books sizes [] d p h b = b
parse_lines-Books sizes (l ∷ more) d p (h, hs) b =
    parse_lines-Books sizes more _ (parse_line l p) hs (parse_line-Books sizes d p l h b)

-- Whatever the debug log says, the parser counts as segments the downloads that the log's requests
-- finish, and as bytes the sum of what the size lookup knows of them; it looks each of them up
-- once. A download is finished by the next request of the demuxer, or by the next request of the HTTP layer for a
-- segment of another name. The condition is that no demuxer request has an empty URL.
pub parse_lines-Counted :
    (target : ℤ) (sizes : Option (Text → Option ℕ)) (lines : List LogLine)
    → All (λ l. Captures l.content) lines
    → let done = (follow_lines lines (record { under_way = none; finished = [] })).finished in
      Counted
        (parse_lines lines (new_parser target sizes))
        (length done)
        (sizes_of sizes done)
        (lookups_for sizes done)
unfolding new_parser no_samples
parse_lines-Counted target sizes lines h =
    (parse_lines-Books sizes lines (record { under_way = none; finished = [] })
      (new_parser target sizes) h
      (record { tracks = refl; looks_up = refl; counted = (refl, refl, refl) })).counted
