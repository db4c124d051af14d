-- ===== src/Debug/Network.antt =====
-- The handlers of internal/parser/debug_events.go for connections and errors.
use go_ffmpeg_hls_swarm.Common.{
  ℕ, suc, ◌+◌, Bool, ◌||◌, ◌&&◌, if◌then◌else◌, Option, none, some, sub_ℕ, ltb, leb, Text, codes,
  contains, to_lower, lookup, put, delete, ◌++◌, [], ◌∷◌,
}
use go_ffmpeg_hls_swarm.Samples.{add_sample}
use go_ffmpeg_hls_swarm.Debug.State.{
  Parser, tcp_start, tcp_connected, tcp_failed, http_error, reconnect, segment_failed,
  segment_skipped, playlist_failed, segments_expired, http_open, bandwidth, emit,
}

-- `ip + ":" + portStr`.
abbrev pub tcp_key : Text → Text → Text
tcp_key ip port_str = ip ++ (b':' ∷ port_str)

-- `handleTCPStart`; `port` is what `strconv.Atoi` makes of `portStr`.
unfoldable pub handle_tcp_start : ℕ → Text → Text → ℕ → Parser → Parser
unfolding emit
handle_tcp_start now ip port_str port p =
    emit (tcp_start now ip port)
      (record p { pending_tcp_connect = put (tcp_key ip port_str) now p.pending_tcp_connect })

-- The lines of `handleTCPConnected` on the pending connection, if there is one.
unfoldable pub time_connect : ℕ → Text → Option ℕ → Parser → Parser
time_connect now key none p = p
time_connect now key (some start) p = record p {
  pending_tcp_connect = delete key p.pending_tcp_connect;
  tcp_connects = add_sample (sub_ℕ now start) p.tcp_connects;
}

-- `handleTCPConnected`.
unfoldable pub handle_tcp_connected : ℕ → Text → Text → ℕ → Parser → Parser
unfolding time_connect emit
handle_tcp_connected now ip port_str port p =
    let key = tcp_key ip port_str in
    emit (tcp_connected now ip port) (
      time_connect now key (lookup key p.pending_tcp_connect)
        (record p { tcp_success_count = suc p.tcp_success_count }))

abbrev pub is_refused : Text → Bool
is_refused reason = contains (to_lower reason) (codes "refused")

abbrev pub is_timeout : Text → Bool
is_timeout reason =
    contains (to_lower reason) (codes "timeout") || contains (to_lower reason) (codes "timed out")

-- `handleTCPFailed`.
unfoldable pub handle_tcp_failed : ℕ → Text → Parser → Parser
unfolding emit
handle_tcp_failed now reason p =
    let p' = record p { tcp_failure_count = suc p.tcp_failure_count } in
    if is_refused reason
    then emit (tcp_failed now (codes "refused"))
        (record p' { tcp_refused_count = suc p.tcp_refused_count })
    else if is_timeout reason
    then emit (tcp_failed now (codes "timeout"))
        (record p' { tcp_timeout_count = suc p.tcp_timeout_count })
    else emit (tcp_failed now (codes "error")) p'

-- `handleHTTPError`.
unfoldable pub handle_http_error : ℕ → ℕ → Text → Parser → Parser
unfolding emit
handle_http_error now code message p =
    let p' = record p { http_error_count = suc p.http_error_count } in
    emit (http_error now code message) (
      if leb 400 code && ltb code 500
      then record p' { http_4xx_count = suc p.http_4xx_count }
      else if leb 500 code
      then record p' { http_5xx_count = suc p.http_5xx_count }
      else p')

-- `handleReconnect`.
unfoldable pub handle_reconnect : ℕ → Parser → Parser
unfolding emit
handle_reconnect now p = emit (reconnect now) (record p { reconnect_count = suc p.reconnect_count })

-- `handleSegmentFailed`.
unfoldable pub handle_segment_failed : ℕ → ℕ → ℕ → Parser → Parser
unfolding emit
handle_segment_failed now segment_id playlist_id p =
    emit (segment_failed now segment_id playlist_id)
      (record p { segment_failed_count = suc p.segment_failed_count })

-- `handleSegmentSkipped`.
unfoldable pub handle_segment_skipped : ℕ → ℕ → ℕ → Parser → Parser
unfolding emit
handle_segment_skipped now segment_id playlist_id p =
    emit (segment_skipped now segment_id playlist_id)
      (record p { segment_skipped_count = suc p.segment_skipped_count })

-- `handlePlaylistFailed`.
unfoldable pub handle_playlist_failed : ℕ → ℕ → Parser → Parser
unfolding emit
handle_playlist_failed now playlist_id p =
    emit (playlist_failed now playlist_id)
      (record p { playlist_failed_count = suc p.playlist_failed_count })

-- `handleSegmentsExpired`.
unfoldable pub handle_segments_expired : ℕ → ℕ → Parser → Parser
unfolding emit
handle_segments_expired now skip_count p =
    emit (segments_expired now skip_count)
      (record p { segments_expired_sum = p.segments_expired_sum + skip_count })

-- The cases of `ParseLine` that have no handler of their own.
unfoldable pub note_bandwidth : ℕ → ℕ → Parser → Parser
unfolding emit
note_bandwidth now bw p = emit (bandwidth now bw) (record p { manifest_bandwidth = bw })

unfoldable pub note_content_length : ℕ → ℕ → Parser → Parser
unfolding emit
note_content_length now size p =
    emit (http_open now [] size) (record p { bytes_downloaded = p.bytes_downloaded + size })
