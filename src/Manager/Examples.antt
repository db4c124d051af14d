-- ===== src/Manager/Examples.antt =====
-- Two clients whose callbacks interleave, and a client's log.
use go_ffmpeg_hls_swarm.Common.{ℕ, zero, suc, ◌≡◌, refl, List, [], ◌∷◌, pos, arith, get_elem?, some}
use go_ffmpeg_hls_swarm.Common.{none, codes, true, false}
use go_ffmpeg_hls_swarm.Debug.State.{new_parser}
use go_ffmpeg_hls_swarm.Debug.Lines.{
  LogLine, parse_lines, playlist_open_line, content_length_line, reconnect_line,
}
use go_ffmpeg_hls_swarm.Client.{new_client_stats, total_bytes}
use go_ffmpeg_hls_swarm.Manager.Callbacks.{note_events}
use go_ffmpeg_hls_swarm.Manager.Statistics.{parse_lines-note_events}
use go_ffmpeg_hls_swarm.Supervisor.{State, created, starting, running, backoff, Event, state_change}
use go_ffmpeg_hls_swarm.Supervisor.Transitions.{IsPath, first_launch, launched, ended}
use go_ffmpeg_hls_swarm.Manager.{handle_all, new_client_manager}
use go_ffmpeg_hls_swarm.Manager.Clients.{
  no_clients, start_client, client_count, shutdown, run_returned, context_done, all_clients_stopped,
  shutdown_timeout,
}
use go_ffmpeg_hls_swarm.Manager.Progress.{put_client}
use go_ffmpeg_hls_swarm.Manager.Active.{events_of, count_running, handle_all-active}

abbrev states : List State
states = running ∷ backoff ∷ []

abbrev events : List (ℕ × Event)
events =
    (1, state_change running backoff)
    ∷ (0, state_change starting running)
    ∷ (1, state_change starting running)
    ∷ (0, state_change created starting)
    ∷ (1, state_change created starting)
    ∷ []

states-IsPath : (i : ℕ) (s : State) → get_elem? states i ≡ some s → IsPath (events_of i events) s
states-IsPath zero s h = (ground arith, launched, (refl, first_launch, refl))
states-IsPath (suc zero) s h = (ground arith, ended, (refl, launched, (refl, first_launch, refl)))
states-IsPath (suc (suc i)) s h = ground arith

handle_all-active_example :
    (handle_all events new_client_manager).active_count ≡ pos (count_running states)
handle_all-active_example = handle_all-active events states (record {
  path = states-IsPath;
  known = (omega arith, (omega arith, (omega arith, (omega arith, (omega arith, tt)))));
})

-- A log with a playlist, a Content-Length of 500 and a reconnection.
abbrev lines : List LogLine
lines =
    record {
      content = some (playlist_open_line (codes "http://h/a.m3u8"));
      stamp = some 3;
      clock = 0;
    }
    ∷ record { content = some (content_length_line 500); stamp = some 4; clock = 0 }
    ∷ record { content = some reconnect_line; stamp = none; clock = 9 }
    ∷ []

parse_lines-note_events_example :
    let p = parse_lines lines (new_parser (pos 2000000000) none) in
    let s = note_events p.events (new_client_stats (pos 0) 100) in
    (total_bytes s ≡ pos p.bytes_downloaded)
    × (s.manifest_requests ≡ p.playlist_refreshes)
    × (s.reconnections ≡ p.reconnect_count)
parse_lines-note_events_example = parse_lines-note_events (pos 2000000000) none lines (pos 0) 100

-- Of two clients the second has not ended when the context of `Shutdown` is done.
shutdown_one_left :
    shutdown false (run_returned 0 ∷ context_done ∷ []) (1 ∷ 0 ∷ []) ≡ some shutdown_timeout
unfolding shutdown
shutdown_one_left = refl

shutdown_both :
    shutdown false (run_returned 0 ∷ run_returned 1 ∷ []) (1 ∷ 0 ∷ []) ≡ some all_clients_stopped
unfolding shutdown
shutdown_both = refl

-- A client that is started twice is one client, and two calls of `Run` are waited for.
start_twice : client_count (start_client 5 (start_client 5 (no_clients true))) ≡ 1
unfolding client_count start_client no_clients put_client
start_twice = refl
