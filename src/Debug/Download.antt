-- ===== src/Debug/Download.antt =====
-- The handlers of internal/parser/debug_events.go that time the downloads of segments and manifests.
use go_ffmpeg_hls_swarm.Common.{
  ℕ, suc, ◌+◌, [], ◌∷◌, Bool, true, false, ◌||◌, if◌then◌else◌, Option, none, some, ℤ, pos, negsuc,
  ◌+ℤ◌, ◌-ℤ◌, ltb_ℤ, sub_ℕ, ltb, ◌==◌, Text, codes, text_eq, has_suffix, contains, Map, lookup, put,
  delete,
}
use go_ffmpeg_hls_swarm.Samples.{add_sample}
use go_ffmpeg_hls_swarm.Debug.State.{
  Parser, hls_request, http_open, playlist_open, sequence_change, emit, extract_segment_name,
}

-- The loop that the handlers write out over a map of start times: the entry with the least time, an
-- unset time (0) counting as none. Go visits the entries in any order, here they stand in one.
unfoldable pub oldest_from : Text × ℕ → Map ℕ → Text × ℕ
oldest_from best [] = best
oldest_from best (e ∷ m) = oldest_from (if (best.1 == 0) || ltb e.1 best.1 then e else best) m

abbrev pub is_empty : Text → Bool
is_empty [] = true
is_empty (c ∷ t) = false

-- The entry that is to be completed: none where the URL found is empty.
unfoldable pub oldest : Map ℕ → Option (Text × ℕ)
unfolding oldest_from
oldest m = let best = oldest_from ([], 0) m in if is_empty best.0 then none else some best

-- Bytes are counted when a segment is completed, if its size is known.
unfoldable pub count_bytes : Text → Parser → Parser
count_bytes url p = elim p.size_lookup [
  | none ↦ p
  | some sizes ↦ elim (sizes (extract_segment_name url)) [
    | none ↦ record p { size_lookup_attempts = suc p.size_lookup_attempts }
    | some size ↦ record p {
      size_lookup_attempts = suc p.size_lookup_attempts;
      segment_bytes_downloaded = p.segment_bytes_downloaded + size;
      size_lookup_successes = suc p.size_lookup_successes;
    }
  ]
]

-- The lines of `CompleteSegmentWithTimestamp` behind its test.
unfoldable pub record_segment : ℤ → Text → Parser → Parser
record_segment wall_time url p = record p {
  pending_segments = delete url p.pending_segments;
  segments = add_sample wall_time p.segments;
  segment_digest = wall_time ∷ p.segment_digest;
}

-- What `handleHLSRequest` and `trackSegmentFromHTTP` do with a segment that ends.
unfoldable pub complete : ℕ → Text × ℕ → Parser → Parser
unfolding record_segment count_bytes
complete now (url, start) p = count_bytes url (record_segment (sub_ℕ now start) url p)

unfoldable pub start_segment : ℕ → Text → Parser → Parser
start_segment now url p = record p { pending_segments = put url now p.pending_segments }

-- `handleHLSRequest`.
unfoldable pub handle_hls_request : ℕ → Text → Parser → Parser
unfolding complete start_segment emit
handle_hls_request now url p =
    let p' : Parser = elim (oldest p.pending_segments) [ none ↦ p | some e ↦ complete now e p ] in
    emit (hls_request now url) (start_segment now url p')

-- `trackSegmentFromHTTP`: the same segment again only moves its start.
unfoldable pub track_segment_from_http : ℕ → Text → Parser → Parser
unfolding complete start_segment
track_segment_from_http now url p = elim (oldest p.pending_segments) [
  | none ↦ start_segment now url p
  | some e ↦
      if text_eq (extract_segment_name e.0) (extract_segment_name url)
      then start_segment now url (record p { pending_segments = delete e.0 p.pending_segments })
      else start_segment now url (complete now e p)
]

-- `strings.HasSuffix(url, ".ts") || strings.Contains(url, ".ts?")`.
unfoldable pub is_segment_url : Text → Bool
is_segment_url url = has_suffix url (codes ".ts") || contains url (codes ".ts?")

-- `handleHTTPOpen`.
unfoldable pub handle_http_open : ℕ → Text → Parser → Parser
unfolding emit
handle_http_open now url p =
    let p' = record p { http_open_count = suc p.http_open_count } in
    let q = if is_segment_url url then track_segment_from_http now url p' else p' in
    emit (http_open now url 0) (record q { pending_http_open = put url now q.pending_http_open })

-- `handleHTTPRequestGET`.
unfoldable pub handle_http_request_get : ℕ → Text → Parser → Parser
handle_http_request_get now path p =
    if is_segment_url path then track_segment_from_http now path p else p

-- `CompleteSegmentWithTimestamp`: it counts no bytes.
unfoldable pub complete_segment : Text → ℕ → Parser → Parser
unfolding record_segment
complete_segment url end_time p = elim (lookup url p.pending_segments) [
  | none ↦ p
  | some start ↦ record_segment (sub_ℕ end_time start) url p
]

-- `handleFormatProbed`.
unfoldable pub handle_format_probed : ℕ → Parser → Parser
handle_format_probed now p = elim (oldest p.pending_manifests) [
  | none ↦ p
  | some e ↦ record p {
    pending_manifests = delete e.0 p.pending_manifests;
    manifests = add_sample (sub_ℕ now e.1) p.manifests;
    manifest_digest = sub_ℕ now e.1 ∷ p.manifest_digest;
  }
]

abbrev pub abs_ℤ : ℤ → ℤ
abs_ℤ (pos n) = pos n
abs_ℤ (negsuc n) = pos (suc n)

-- The jitter part of `handlePlaylistOpen`.
unfoldable pub note_refresh : ℕ → Parser → Parser
note_refresh now p =
    let jitter = sub_ℕ now p.last_playlist_refresh -ℤ p.target_duration in
    if p.last_playlist_refresh == 0 then record p { last_playlist_refresh = now } else record p {
      playlist_jitter_sum = p.playlist_jitter_sum +ℤ jitter;
      playlist_jitter_max =
          if ltb_ℤ p.playlist_jitter_max (abs_ℤ jitter)
          then abs_ℤ jitter
          else p.playlist_jitter_max;
      playlist_late_count =
          if ltb_ℤ (pos 0) jitter then suc p.playlist_late_count else p.playlist_late_count;
      last_playlist_refresh = now;
    }

-- `handlePlaylistOpen`.
unfoldable pub handle_playlist_open : ℕ → Text → Parser → Parser
unfolding note_refresh emit
handle_playlist_open now url p = emit (playlist_open now url) (
    note_refresh now (record p {
      playlist_refreshes = suc p.playlist_refreshes;
      pending_manifests = put url now p.pending_manifests;
    }))

-- `handleSequenceChange`.
unfoldable pub handle_sequence_change : ℕ → ℕ → ℕ → Parser → Parser
unfolding emit
handle_sequence_change now old_seq new_seq p =
    emit (sequence_change now old_seq new_seq) (record p {
      sequence_skips =
          if ltb 0 p.last_sequence
          then (if new_seq == p.last_sequence + 1 then p.sequence_skips else suc p.sequence_skips)
          else p.sequence_skips;
      last_sequence = new_seq;
    })
