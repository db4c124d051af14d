-- ===== src/Manager/Statistics.antt =====
-- client_manager.go: the statistics of a client agree with the counters of its debug parser.
use go_ffmpeg_hls_swarm.Common.{ℕ, ◌≡◌, refl, List, [], ◌∷◌, Option, ℤ, pos, ◌+ℤ◌, Text, arith}
use go_ffmpeg_hls_swarm.Debug.State.{Event, new_parser, http_open}
use go_ffmpeg_hls_swarm.Debug.Lines.{LogLine, parse_lines}
use go_ffmpeg_hls_swarm.Debug.Counters.{
  tally, announced_bytes, refreshes, reconnects, parse_lines-new-Reported,
}
use go_ffmpeg_hls_swarm.Client.{
  ClientStats, new_client_stats, total_bytes, update_current_bytes, increment_segment_requests,
  increment_manifest_requests, record_http_error, record_reconnection, record_timeout,
}
use go_ffmpeg_hls_swarm.Manager.Callbacks.{
  note_event, note_events, add_event_bytes, load_bytes, store_bytes,
}

-- The statistics hold what the events say.
pub record Agrees {R : Type 0} (events : List Event) (s : ClientStats R) : Type 0 where
  pub no_previous : s.bytes_from_previous_runs ≡ pos 0
  pub bytes : s.current_process_bytes ≡ pos (tally announced_bytes events)
  pub manifests : s.manifest_requests ≡ tally refreshes events
  pub reconnected : s.reconnections ≡ tally reconnects events

module _ {R : Type 0} where
  add_event_bytes-Agrees :
      (t size : ℕ) (url : Text) (events : List Event) (s : ClientStats R)
      → Agrees events s
      → Agrees (http_open t url size ∷ events) (add_event_bytes size s)
  unfolding add_event_bytes load_bytes store_bytes update_current_bytes total_bytes ◌+ℤ◌
  add_event_bytes-Agrees t size url events s a = ground (arith, a.no_previous, a.bytes)

  note_event-Agrees :
      (e : Event) (events : List Event) (s : ClientStats R)
      → Agrees events s
      → Agrees (e ∷ events) (note_event e s)
  unfolding note_event increment_segment_requests increment_manifest_requests record_http_error
      record_reconnection record_timeout
  note_event-Agrees (http_open t url size) events s a = add_event_bytes-Agrees t size url events s a
  note_event-Agrees e events s a = ground arith

  note_events-Agrees :
      (nothing : R) (now : ℕ) (events : List Event)
      → Agrees events (note_events events (new_client_stats nothing now))
  unfolding note_events new_client_stats
  note_events-Agrees nothing now [] = record {
    no_previous = refl;
    bytes = refl;
    manifests = refl;
    reconnected = refl;
  }
  note_events-Agrees nothing now (e ∷ events) =
      note_event-Agrees e events (note_events events (new_client_stats nothing now))
        (note_events-Agrees nothing now events)

  -- Whatever the debug log of a new client says: when its callback has been called with all the events that the parser reports,
  -- the client's bytes in all, manifest requests and reconnections are the parser's counts of bytes, of playlist refreshes
  -- and of reconnections.
  pub parse_lines-note_events :
      (target : ℤ) (sizes : Option (Text → Option ℕ)) (lines : List LogLine) (nothing : R) (now : ℕ)
      → let p = parse_lines lines (new_parser target sizes) in
        let s = note_events p.events (new_client_stats nothing now) in
        (total_bytes s ≡ pos p.bytes_downloaded)
        × (s.manifest_requests ≡ p.playlist_refreshes)
        × (s.reconnections ≡ p.reconnect_count)
  unfolding total_bytes ◌+ℤ◌
  parse_lines-note_events target sizes lines nothing now =
      let p = parse_lines lines (new_parser target sizes) in
      let a = note_events-Agrees nothing now p.events in
      let r = parse_lines-new-Reported target sizes lines in
      ground (
        arith, a.no_previous, a.bytes, a.manifests, a.reconnected, r.bytes, r.playlists,
        r.reconnections,
      )
