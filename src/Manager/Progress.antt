-- ===== src/Manager/Progress.antt =====
-- client_manager.go: `createProgressCallback` and `GetProgressStats`. The clients are keyed by their
-- numbers; the statistics are those of the client that reports.
use go_ffmpeg_hls_swarm.Common.{
  ℕ, suc, ◌==◌, if◌then◌else◌, Option, none, some, List, [], ◌∷◌, ℤ, pos, ◌+ℤ◌, ◌-ℤ◌, ltb, ltb_ℤ,
  length, Float,
}
use go_ffmpeg_hls_swarm.Progress.{ProgressUpdate, is_stalling}
use go_ffmpeg_hls_swarm.Client.{ClientStats, update_current_bytes, update_speed, update_drift}

-- The counters and `latestProgress`.
pub record ClientProgress (R : Type 0) : Type 0 where
  pub total_bytes_downloaded : ℤ
  pub total_progress_updates : ℕ
  pub latest_progress : List (ℕ × ProgressUpdate R)

-- `ProgressStats`.
pub record ProgressStats (R : Type 0) : Type 0 where
  pub total_bytes_downloaded : ℤ
  pub total_progress_updates : ℕ
  pub clients_with_progress : ℕ
  pub stalling_clients : ℕ
  pub average_speed : R

module _ {A : Type 0} where
  -- `m[id]` and `m[id] = a` on a map with clients as keys.
  unfoldable pub get_client : ℕ → List (ℕ × A) → Option A
  get_client id [] = none
  get_client id ((j, a) ∷ m) = if j == id then some a else get_client id m

  unfoldable pub put_client : ℕ → A → List (ℕ × A) → List (ℕ × A)
  put_client id a [] = (id, a) ∷ []
  put_client id a ((j, b) ∷ m) = if j == id then (id, a) ∷ m else (j, b) ∷ put_client id a m

-- The bytes that an update adds, with the size that the client reported before.
unfoldable pub bytes_delta : Option ℤ → ℤ → ℤ
bytes_delta none size = if ltb_ℤ (pos 0) size then size else pos 0
bytes_delta (some prev) size = if ltb_ℤ prev size then size -ℤ prev else pos 0

module _ (F : Float) where
  abbrev pub previous_size : Option (ProgressUpdate F.F) → Option ℤ
  previous_size none = none
  previous_size (some u) = some u.total_size

  -- The callback on the manager.
  unfoldable pub note_progress : ℕ → ProgressUpdate F.F → ClientProgress F.F → ClientProgress F.F
  unfolding bytes_delta get_client put_client
  note_progress id update m = record m {
    total_progress_updates = suc m.total_progress_updates;
    total_bytes_downloaded =
        m.total_bytes_downloaded
        +ℤ bytes_delta (previous_size (get_client id m.latest_progress)) update.total_size;
    latest_progress = put_client id update m.latest_progress;
  }

  -- The callback on the statistics of the client, at the time `now`.
  unfoldable pub note_update : ℕ → ProgressUpdate F.F → ClientStats F.F → ClientStats F.F
  unfolding update_current_bytes update_speed update_drift
  note_update now update s =
      update_drift now update.out_time_us
        (update_speed F now update.speed (update_current_bytes update.total_size s))

  -- The loop of `GetProgressStats`: the sum and the number of the speeds above 0, and the number of
  -- stalling clients.
  unfoldable pub sum_progress : List (ℕ × ProgressUpdate F.F) → F.F × ℕ × ℕ → F.F × ℕ × ℕ
  unfolding is_stalling
  sum_progress [] sums = sums
  sum_progress ((id, progress) ∷ more) (total_speed, speed_count, stalling) =
      let moving = F.lt (F.lit 0 0) progress.speed in
      sum_progress more (
        if moving then F.add total_speed progress.speed else total_speed,
        if moving then suc speed_count else speed_count,
        if is_stalling F progress then suc stalling else stalling,
      )

  -- `GetProgressStats`.
  unfoldable pub get_progress_stats : ClientProgress F.F → ProgressStats F.F
  unfolding sum_progress
  get_progress_stats m =
      let (total_speed, speed_count, stalling) = sum_progress m.latest_progress (F.lit 0 0, 0, 0) in
      record {
        total_bytes_downloaded = m.total_bytes_downloaded;
        total_progress_updates = m.total_progress_updates;
        clients_with_progress = length m.latest_progress;
        stalling_clients = stalling;
        average_speed =
            if ltb 0 speed_count then F.div total_speed (F.of_int (pos speed_count)) else F.lit 0 0;
      }
