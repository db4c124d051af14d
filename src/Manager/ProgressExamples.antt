-- ===== src/Manager/ProgressExamples.antt =====
-- Progress updates of a client over two processes, and updates of a live stream between debug events.
use go_ffmpeg_hls_swarm.Common.{◌≡◌, refl, List, [], ◌∷◌, ℤ, pos, ◌+ℤ◌, ◌-ℤ◌, codes, arith}
use go_ffmpeg_hls_swarm.Common.WholeFloats.{whole}
use go_ffmpeg_hls_swarm.Progress.{empty_update}
use go_ffmpeg_hls_swarm.Debug.State.{http_open}
use go_ffmpeg_hls_swarm.Client.{new_client_stats, total_bytes}
use go_ffmpeg_hls_swarm.Manager.Progress.{
  ClientProgress, get_progress_stats, get_client, note_progress,
}
use go_ffmpeg_hls_swarm.Manager.Downloads.{
  Run, report_runs, sum_missed, sum_last_sizes, report_runs-downloaded,
}
use go_ffmpeg_hls_swarm.Manager.Interplay.{
  Turn, event, update, take_turns, bytes_since_update, take_turns-total_bytes,
}

-- Client 2 has reported 40 bytes.
abbrev before : ClientProgress ℤ
before = record {
  total_bytes_downloaded = pos 40;
  total_progress_updates = 1;
  latest_progress = (2, record (empty_update whole) { total_size = pos 40; speed = pos 1 }) ∷ [];
}

-- The first process of client 7 ends at 100 bytes; the second starts at 30 and ends at 70.
abbrev runs : List Run
runs = (10, 100 ∷ []) ∷ (30, 70 ∷ []) ∷ []

-- Client 2 plays; two reports of client 7 make it known with the speed 0.
get_progress_stats_known :
    let stats = get_progress_stats whole (report_runs whole 7 runs before) in
    (stats.clients_with_progress ≡ 2)
    × (stats.average_speed ≡ pos 1)
    × (stats.total_bytes_downloaded ≡ pos 180)
unfolding get_progress_stats note_progress empty_update ◌+ℤ◌ ◌-ℤ◌
get_progress_stats_known = (refl, refl, refl)

report_runs-downloaded_example :
    (report_runs whole 7 runs before).total_bytes_downloaded +ℤ pos (sum_missed 0 runs)
    ≡ pos 40 +ℤ pos (sum_last_sizes runs)
unfolding get_client
report_runs-downloaded_example = report_runs-downloaded whole 7 runs before refl (ground arith)

-- A live stream, which has no sizes, between two bodies of 500 bytes, and an update of 2000 bytes that comes in between
-- the load and the store of a third: it is lost.
abbrev turns : List (Turn ℤ)
turns =
    event (http_open 8 (codes "http://h/c.ts") 500)
      ((8, record (empty_update whole) { total_size = pos 2000 }) ∷ [])
    ∷ event (http_open 6 (codes "http://h/b.ts") 500) []
    ∷ update 5 (empty_update whole)
    ∷ event (http_open 3 (codes "http://h/a.ts") 500) []
    ∷ []

take_turns-total_bytes_example :
    total_bytes (take_turns whole turns (new_client_stats (pos 0) 100)) ≡ bytes_since_update turns
take_turns-total_bytes_example = take_turns-total_bytes whole (pos 0) 100 turns

update_lost : bytes_since_update turns ≡ pos 1000
unfolding ◌+ℤ◌ empty_update
update_lost = refl
