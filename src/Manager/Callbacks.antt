-- ===== src/Manager/Callbacks.antt =====
-- client_manager.go, `createDebugEventCallback`: what the events of a client's debug parser do to its statistics.
use go_ffmpeg_hls_swarm.Common.{ℕ, if◌then◌else◌, List, [], ◌∷◌, ltb, ℤ, pos, ◌+ℤ◌, text_eq, codes}
use go_ffmpeg_hls_swarm.Debug.State.{
  Event, hls_request, http_open, tcp_failed, playlist_open, http_error, reconnect,
}
use go_ffmpeg_hls_swarm.Client.{
  ClientStats, update_current_bytes, total_bytes, increment_segment_requests,
  increment_manifest_requests, record_http_error, record_reconnection, record_timeout,
}

module _ {R : Type 0} where
  -- What an event of some bytes stores: `TotalBytes` is loaded before. The progress callback stores the same field from another
  -- goroutine, and may come in between.
  unfoldable pub load_bytes : ℕ → ClientStats R → ℤ
  unfolding total_bytes
  load_bytes size s = total_bytes s +ℤ pos size

  unfoldable pub store_bytes : ℕ → ℤ → ClientStats R → ClientStats R
  unfolding update_current_bytes
  store_bytes size bytes s = if ltb 0 size then update_current_bytes bytes s else s

  -- The load and the store, where no progress update comes in between.
  unfoldable pub add_event_bytes : ℕ → ClientStats R → ClientStats R
  unfolding load_bytes store_bytes
  add_event_bytes size s = store_bytes size (load_bytes size s) s

  -- The callback in one piece; the events that it only logs, and those that it has no case for, leave the statistics.
  unfoldable pub note_event : Event → ClientStats R → ClientStats R
  unfolding add_event_bytes increment_segment_requests increment_manifest_requests record_http_error
      record_reconnection record_timeout
  note_event (http_open now url size) s = add_event_bytes size s
  note_event (hls_request now url) s = increment_segment_requests s
  note_event (playlist_open now url) s = increment_manifest_requests s
  note_event (http_error now code message) s = record_http_error code s
  note_event (reconnect now) s = record_reconnection s
  note_event (tcp_failed now reason) s =
      if text_eq reason (codes "timeout") then record_timeout s else s
  note_event _ s = s

  -- The callback up to the load, and from the store on.
  unfoldable pub begin_event : Event → ClientStats R → ℤ
  unfolding load_bytes
  begin_event (http_open now url size) s = load_bytes size s
  begin_event _ s = load_bytes 0 s

  unfoldable pub finish_event : Event → ℤ → ClientStats R → ClientStats R
  unfolding store_bytes note_event
  finish_event (http_open now url size) bytes s = store_bytes size bytes s
  finish_event e bytes s = note_event e s

  -- The calls for all the events, newest first.
  unfoldable pub note_events : List Event → ClientStats R → ClientStats R
  note_events [] s = s
  note_events (e ∷ earlier) s = note_event e (note_events earlier s)
