-- ===== src/Manager/Interplay.antt =====
-- client_manager.go: the bytes of a client whose progress and debug callbacks run in two goroutines.
use go_ffmpeg_hls_swarm.Common.{
  ℕ, ◌≡◌, refl, List, [], ◌∷◌, ℤ, pos, ◌+ℤ◌, ltb, if◌then◌else◌, Float, arith,
}
use go_ffmpeg_hls_swarm.Progress.{ProgressUpdate}
use go_ffmpeg_hls_swarm.Debug.State.{Event, http_open}
use go_ffmpeg_hls_swarm.Debug.Counters.{announced_bytes}
use go_ffmpeg_hls_swarm.Client.{
  ClientStats, new_client_stats, total_bytes, update_current_bytes, update_speed, update_drift,
  increment_segment_requests, increment_manifest_requests, record_http_error, record_reconnection,
  record_timeout,
}
use go_ffmpeg_hls_swarm.Manager.Callbacks.{
  note_event, load_bytes, store_bytes, begin_event, finish_event,
}
use go_ffmpeg_hls_swarm.Manager.Progress.{note_update}

-- How the callbacks of the two goroutines interleave: a progress update, or a debug event with the updates that come between
-- its load of the bytes and its store. The events come from one goroutine, one after another.
pub data Turn (R : Type 0) : Type 0 where
  update : ℕ → ProgressUpdate R → Turn R
  event : Event → List (ℕ × ProgressUpdate R) → Turn R

-- The size of the last of some updates.
abbrev pub last_size : {R : Type 0} → List (ℕ × ProgressUpdate R) → ℤ → ℤ
last_size [] bytes = bytes
last_size ((now, u) ∷ updates) bytes = last_size updates u.total_size

-- The size of the latest update, and the bytes of the events after it; the newest turn stands first. The updates within an
-- event that has bytes are lost.
abbrev pub bytes_since_update : {R : Type 0} → List (Turn R) → ℤ
bytes_since_update [] = pos 0
bytes_since_update (update now u ∷ earlier) = u.total_size
bytes_since_update (event e within ∷ earlier) =
    let before = bytes_since_update earlier in
    if ltb 0 (announced_bytes e) then before +ℤ pos (announced_bytes e) else last_size within before

module _ (F : Float) where
  abbrev pub note_updates : List (ℕ × ProgressUpdate F.F) → ClientStats F.F → ClientStats F.F
  note_updates [] s = s
  note_updates ((now, u) ∷ updates) s = note_updates updates (note_update F now u s)

  abbrev pub take_turn : Turn F.F → ClientStats F.F → ClientStats F.F
  take_turn (update now u) s = note_update F now u s
  take_turn (event e within) s = finish_event e (begin_event e s) (note_updates within s)

  -- A schedule of the two goroutines, the newest turn first.
  abbrev pub take_turns : List (Turn F.F) → ClientStats F.F → ClientStats F.F
  take_turns [] s = s
  take_turns (t ∷ earlier) s = take_turn t (take_turns earlier s)

  Keeps : ClientStats F.F → ℤ → Type 0
  Keeps s bytes = (s.bytes_from_previous_runs ≡ pos 0) × (s.current_process_bytes ≡ bytes)

  note_update-Keeps :
      (now : ℕ) (u : ProgressUpdate F.F) (s : ClientStats F.F) (bytes : ℤ)
      → Keeps s bytes
      → Keeps (note_update F now u s) u.total_size
  unfolding Keeps note_update update_current_bytes update_speed update_drift
  note_update-Keeps now u s bytes h = ground arith

  note_updates-Keeps :
      (updates : List (ℕ × ProgressUpdate F.F)) (s : ClientStats F.F) (bytes : ℤ)
      → Keeps s bytes
      → Keeps (note_updates updates s) (last_size updates bytes)
  note_updates-Keeps [] s bytes h = h
  note_updates-Keeps ((now, u) ∷ updates) s bytes h =
      note_updates-Keeps updates (note_update F now u s) u.total_size
        (note_update-Keeps now u s bytes h)

  -- An event that has no bytes loads and stores none.
  finish_event-Keeps :
      (e : Event) (s t : ClientStats F.F) (before now : ℤ)
      → Keeps s before
      → Keeps t now
      → Keeps
          (finish_event e (begin_event e s) t)
          (if ltb 0 (announced_bytes e) then before +ℤ pos (announced_bytes e) else now)
  unfolding Keeps begin_event finish_event load_bytes store_bytes note_event update_current_bytes
      total_bytes increment_segment_requests increment_manifest_requests record_http_error
      record_reconnection record_timeout ◌+ℤ◌
  finish_event-Keeps (http_open t url size) s u before now h k = ground (arith, h, k)
  finish_event-Keeps e s t before now h k = ground (arith, k)

  take_turns-Keeps :
      (zero : F.F) (origin : ℕ) (turns : List (Turn F.F))
      → Keeps (take_turns turns (new_client_stats zero origin)) (bytes_since_update turns)
  unfolding Keeps new_client_stats
  take_turns-Keeps zero origin [] = (refl, refl)
  take_turns-Keeps zero origin (update now u ∷ earlier) =
      note_update-Keeps now u _ _ (take_turns-Keeps zero origin earlier)
  take_turns-Keeps zero origin (event e within ∷ earlier) =
      let h = take_turns-Keeps zero origin earlier in
      finish_event-Keeps e _ _ _ _ h (note_updates-Keeps within _ _ h)

  -- In every interleaving of the progress and debug callbacks of a new client, its bytes in all are the size of the latest
  -- update together with the bytes of the events that came after it. What came before that update is not counted any
  -- more, and an update that comes between the load and the store of an event with bytes is lost.
  pub take_turns-total_bytes :
      (zero : F.F) (origin : ℕ) (turns : List (Turn F.F))
      → total_bytes (take_turns turns (new_client_stats zero origin)) ≡ bytes_since_update turns
  unfolding total_bytes Keeps ◌+ℤ◌
  take_turns-total_bytes zero origin turns = ground (arith, take_turns-Keeps zero origin turns)
