-- ===== src/Aggregator.antt =====
-- internal/stats/aggregator.go: the statistics of all clients together. The map of the clients is a list in
-- the order in which the loop meets them; times and durations are nanoseconds.
use go_ffmpeg_hls_swarm.Common.{
  ℕ, suc, ◌+◌, Bool, true, false, ◌||◌, if◌then◌else◌, ltb, ◌==◌, List, [], ◌∷◌, ℤ, pos, pos_part,
  ◌+ℤ◌, ◌-ℤ◌, ltb_ℤ, sub_ℕ, quot_ℤ, rem_ℤ, is_zero, length, Option, some, none, Float,
}
use go_ffmpeg_hls_swarm.Client
use go_ffmpeg_hls_swarm.Client.{ClientStats, get_http_errors, is_stalled, has_high_drift}
mod Sums
mod Same
mod Order
mod Examples

-- `rateSnapshot`.
pub record RateSnapshot : Type 0 where
  pub timestamp : ℕ
  pub manifest_reqs : ℕ
  pub segment_reqs : ℕ
  pub bytes : ℤ

-- `StatsAggregator`.
pub record StatsAggregator (R : Type 0) : Type 0 where
  pub clients : List (ℕ × ClientStats R)
  pub start_time : ℕ
  pub prev_snapshot : RateSnapshot
  pub drop_threshold : R
  pub peak_drop_rate : R

-- The part of `AggregatedStats` that the loop over the clients writes, with its accumulators.
pub record Totals (R : Type 0) : Type 0 where
  pub active_clients : ℕ
  pub stalled_clients : ℕ
  pub total_manifest_reqs : ℕ
  pub total_segment_reqs : ℕ
  pub total_init_reqs : ℕ
  pub total_unknown_reqs : ℕ
  pub total_bytes : ℤ
  pub total_http_errors : List (ℕ × ℕ)
  pub total_reconnections : ℕ
  pub total_timeouts : ℕ
  pub clients_above_realtime : ℕ
  pub clients_below_realtime : ℕ
  pub max_drift : ℤ
  pub clients_with_high_drift : ℕ
  pub total_lines_dropped : ℕ
  pub total_lines_read : ℕ
  pub clients_with_drops : ℕ
  pub peak_drop_rate : R
  pub min_uptime : ℤ
  pub max_uptime : ℤ
  pub total_speed : R
  pub speed_count : ℕ
  pub total_drift : ℤ
  pub drift_count : ℕ
  pub total_uptime : ℤ

-- The rest of `AggregatedStats`.
pub record AggregatedStats (R : Type 0) : Type 0 where
  pub timestamp : ℕ
  pub total_clients : ℕ
  pub totals : Totals R
  pub manifest_req_rate : R
  pub segment_req_rate : R
  pub throughput_bytes_per_sec : R
  pub instant_manifest_rate : R
  pub instant_segment_rate : R
  pub instant_throughput_rate : R
  pub error_rate : R
  pub average_speed : R
  pub average_drift : ℤ
  pub metrics_degraded : Bool
  pub avg_uptime : ℤ

-- `m[code] += count`.
unfoldable pub add_count : ℕ → ℕ → List (ℕ × ℕ) → List (ℕ × ℕ)
add_count code count [] = (code, count) ∷ []
add_count code count ((c, n) ∷ m) =
    if c == code then (c, n + count) ∷ m else (c, n) ∷ add_count code count m

unfoldable pub add_counts : List (ℕ × ℕ) → List (ℕ × ℕ) → List (ℕ × ℕ)
unfolding add_count
add_counts [] m = m
add_counts ((code, count) ∷ counts) m = add_counts counts (add_count code count m)

abbrev pub sum_counts : List (ℕ × ℕ) → ℕ
sum_counts [] = 0
sum_counts ((code, count) ∷ m) = count + sum_counts m

module _ {R : Type 0} where
  -- `AddClient`, `RemoveClient` and `GetClient`.
  unfoldable pub store_client :
      ℕ → ClientStats R → List (ℕ × ClientStats R) → List (ℕ × ClientStats R)
  store_client id s [] = (id, s) ∷ []
  store_client id s ((j, t) ∷ m) = if j == id then (id, s) ∷ m else (j, t) ∷ store_client id s m

  unfoldable pub delete_client : ℕ → List (ℕ × ClientStats R) → List (ℕ × ClientStats R)
  delete_client id [] = []
  delete_client id ((j, t) ∷ m) = if j == id then m else (j, t) ∷ delete_client id m

  unfoldable pub load_client : ℕ → List (ℕ × ClientStats R) → Option (ClientStats R)
  load_client id [] = none
  load_client id ((j, t) ∷ m) = if j == id then some t else load_client id m

  unfoldable pub add_client : ℕ → ClientStats R → StatsAggregator R → StatsAggregator R
  unfolding store_client
  add_client id s a = record a { clients = store_client id s a.clients }

  unfoldable pub remove_client : ℕ → StatsAggregator R → StatsAggregator R
  unfolding delete_client
  remove_client id a = record a { clients = delete_client id a.clients }

  unfoldable pub get_client : ℕ → StatsAggregator R → Option (ClientStats R)
  unfolding load_client
  get_client id a = load_client id a.clients

  -- `Uptime` of a client.
  unfoldable pub uptime : ℕ → ClientStats R → ℤ
  uptime now s = sub_ℕ now s.start_time

abbrev pub empty_snapshot : ℕ → RateSnapshot
empty_snapshot now = record { timestamp = now; manifest_reqs = 0; segment_reqs = 0; bytes = pos 0 }

module _ (F : Float) where
  -- `NewStatsAggregator`.
  unfoldable pub new_stats_aggregator : ℕ → F.F → StatsAggregator F.F
  new_stats_aggregator now drop_threshold = record {
    clients = [];
    start_time = now;
    prev_snapshot = empty_snapshot now;
    drop_threshold = if F.le drop_threshold (F.lit 0 0) then F.lit 1 2 else drop_threshold;
    peak_drop_rate = F.lit 0 0;
  }

  -- `Reset`.
  unfoldable pub reset : ℕ → StatsAggregator F.F → StatsAggregator F.F
  reset now a = record a {
    clients = [];
    start_time = now;
    prev_snapshot = empty_snapshot now;
    peak_drop_rate = F.lit 0 0;
  }

  unfoldable pub no_totals : Totals F.F
  no_totals = record {
    active_clients = 0;
    stalled_clients = 0;
    total_manifest_reqs = 0;
    total_segment_reqs = 0;
    total_init_reqs = 0;
    total_unknown_reqs = 0;
    total_bytes = pos 0;
    total_http_errors = [];
    total_reconnections = 0;
    total_timeouts = 0;
    clients_above_realtime = 0;
    clients_below_realtime = 0;
    max_drift = pos 0;
    clients_with_high_drift = 0;
    total_lines_dropped = 0;
    total_lines_read = 0;
    clients_with_drops = 0;
    peak_drop_rate = F.lit 0 0;
    min_uptime = pos 0;
    max_uptime = pos 0;
    total_speed = F.lit 0 0;
    speed_count = 0;
    total_drift = pos 0;
    drift_count = 0;
    total_uptime = pos 0;
  }

  -- The loop of `Aggregate` on one client.
  unfoldable pub note_client : ℕ → ClientStats F.F → Totals F.F → Totals F.F
  unfolding Client.total_bytes get_http_errors add_counts is_stalled has_high_drift uptime
  note_client now c t =
      let moving = F.lt (F.lit 0 0) c.speed in
      let realtime = F.le (F.lit 1 0) c.speed in
      let drops = ltb 0 c.progress_lines_dropped || ltb 0 c.stderr_lines_dropped in
      record {
        active_clients = suc t.active_clients;
        stalled_clients = t.stalled_clients + (if is_stalled now c then 1 else 0);
        total_manifest_reqs = t.total_manifest_reqs + c.manifest_requests;
        total_segment_reqs = t.total_segment_reqs + c.segment_requests;
        total_init_reqs = t.total_init_reqs + c.init_requests;
        total_unknown_reqs = t.total_unknown_reqs + c.unknown_requests;
        total_bytes = t.total_bytes +ℤ Client.total_bytes c;
        total_http_errors = add_counts (get_http_errors c) t.total_http_errors;
        total_reconnections = t.total_reconnections + c.reconnections;
        total_timeouts = t.total_timeouts + c.timeouts;
        clients_above_realtime =
            t.clients_above_realtime + (if moving then (if realtime then 1 else 0) else 0);
        clients_below_realtime =
            t.clients_below_realtime + (if moving then (if realtime then 0 else 1) else 0);
        max_drift = if ltb_ℤ t.max_drift c.max_drift then c.max_drift else t.max_drift;
        clients_with_high_drift = t.clients_with_high_drift + (if has_high_drift c then 1 else 0);
        total_lines_dropped =
            t.total_lines_dropped + (c.progress_lines_dropped + c.stderr_lines_dropped);
        total_lines_read = t.total_lines_read + (c.progress_lines_read + c.stderr_lines_read);
        clients_with_drops = t.clients_with_drops + (if drops then 1 else 0);
        peak_drop_rate =
            if F.lt t.peak_drop_rate c.peak_drop_rate then c.peak_drop_rate else t.peak_drop_rate;
        min_uptime =
            if is_zero t.min_uptime || ltb_ℤ (uptime now c) t.min_uptime
            then uptime now c
            else t.min_uptime;
        max_uptime = if ltb_ℤ t.max_uptime (uptime now c) then uptime now c else t.max_uptime;
        total_speed = if moving then F.add t.total_speed c.speed else t.total_speed;
        speed_count = t.speed_count + (if moving then 1 else 0);
        total_drift =
            t.total_drift +ℤ (if ltb_ℤ (pos 0) c.current_drift then c.current_drift else pos 0);
        drift_count = t.drift_count + (if ltb_ℤ (pos 0) c.current_drift then 1 else 0);
        total_uptime = t.total_uptime +ℤ uptime now c;
      }

  unfoldable pub note_clients : ℕ → List (ℕ × ClientStats F.F) → Totals F.F → Totals F.F
  note_clients now [] t = t
  note_clients now ((id, c) ∷ clients) t = note_clients now clients (note_client now c t)

  -- `Seconds` of a duration.
  abbrev pub seconds : ℤ → F.F
  seconds d =
      F.add (F.of_int (quot_ℤ d 1000000000))
        (F.div (F.of_int (rem_ℤ d 1000000000)) (F.of_int (pos 1000000000)))

  -- `n / elapsed`, or 0 if that time is not positive.
  abbrev rate : ℤ → F.F → F.F
  rate n elapsed = if F.lt (F.lit 0 0) elapsed then F.div (F.of_int n) elapsed else F.lit 0 0

  abbrev ratio : ℕ → ℕ → F.F
  ratio n d = if ltb 0 d then F.div (F.of_int (pos n)) (F.of_int (pos d)) else F.lit 0 0

  -- `Aggregate` at the time `now`: the statistics, and the aggregator after it. The loop around the swap of the
  -- peak ends at its first round where no other goroutine writes.
  unfoldable pub aggregate : ℕ → StatsAggregator F.F → AggregatedStats F.F × StatsAggregator F.F
  unfolding note_clients no_totals
  aggregate now a =
      let t = note_clients now a.clients no_totals in
      let prev = a.prev_snapshot in
      let elapsed = seconds (sub_ℕ now a.start_time) in
      let snap_elapsed = seconds (sub_ℕ now prev.timestamp) in
      let total_reqs = t.total_manifest_reqs + t.total_segment_reqs + t.total_init_reqs in
      let total_errors = sum_counts t.total_http_errors + t.total_timeouts in
      (
        record {
          timestamp = now;
          total_clients = length a.clients;
          totals = t;
          manifest_req_rate = rate (pos t.total_manifest_reqs) elapsed;
          segment_req_rate = rate (pos t.total_segment_reqs) elapsed;
          throughput_bytes_per_sec = rate t.total_bytes elapsed;
          instant_manifest_rate =
              rate (sub_ℕ t.total_manifest_reqs prev.manifest_reqs) snap_elapsed;
          instant_segment_rate = rate (sub_ℕ t.total_segment_reqs prev.segment_reqs) snap_elapsed;
          instant_throughput_rate = rate (t.total_bytes -ℤ prev.bytes) snap_elapsed;
          error_rate = ratio total_errors total_reqs;
          average_speed =
              if ltb 0 t.speed_count
              then F.div t.total_speed (F.of_int (pos t.speed_count))
              else F.lit 0 0;
          average_drift = if ltb 0 t.drift_count then quot_ℤ t.total_drift t.drift_count else pos 0;
          metrics_degraded =
              if ltb 0 t.total_lines_read
              then F.lt a.drop_threshold (ratio t.total_lines_dropped t.total_lines_read)
              else false;
          avg_uptime =
              if ltb 0 t.active_clients then quot_ℤ t.total_uptime t.active_clients else pos 0;
        },
        record a {
          peak_drop_rate =
              if F.le t.peak_drop_rate a.peak_drop_rate then a.peak_drop_rate else t.peak_drop_rate;
          prev_snapshot = record {
            timestamp = now;
            manifest_reqs = t.total_manifest_reqs;
            segment_reqs = t.total_segment_reqs;
            bytes = t.total_bytes;
          };
        },
      )
