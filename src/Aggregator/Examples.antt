-- ===== src/Aggregator/Examples.antt =====
-- An aggregator with two clients, one of which has just started.
use mathlib.Core.List.{Permᴰ}
use go_ffmpeg_hls_swarm.Aggregator.{note_client}
use go_ffmpeg_hls_swarm.Common.{◌≡◌, refl, List, [], ◌∷◌, ℤ, pos, none, ℕ}
use go_ffmpeg_hls_swarm.Common.WholeFloats.{whole}
use go_ffmpeg_hls_swarm.Client.{ClientStats, new_client_stats, record_http_error}
use go_ffmpeg_hls_swarm.Aggregator.{
  StatsAggregator, new_stats_aggregator, add_client, remove_client, get_client, reset, aggregate,
}
use go_ffmpeg_hls_swarm.Aggregator.Sums.{SumsUp, aggregate-SumsUp}
use go_ffmpeg_hls_swarm.Aggregator.Order.{SameStats, aggregate-SameStats}

abbrev old_client : ClientStats ℤ
old_client = record (record_http_error 404 (new_client_stats (pos 0) 100)) {
  segment_requests = 3;
  speed = pos 1;
}

abbrev young_client : ClientStats ℤ
young_client = record (new_client_stats (pos 0) 107) { segment_requests = 1; speed = pos 1 }

abbrev aggregator : StatsAggregator ℤ
aggregator =
    add_client 2 young_client (add_client 1 old_client (new_stats_aggregator whole 90 (pos 0)))

abbrev reordered : List (ℕ × ClientStats ℤ)
reordered = (2, young_client) ∷ (1, old_client) ∷ []

aggregate-SumsUp_example :
    SumsUp whole 107 aggregator.clients (aggregate whole 107 aggregator).0.totals
aggregate-SumsUp_example = aggregate-SumsUp whole 107 aggregator

aggregate-SameStats_example :
    let (r, b) = aggregate whole 107 aggregator in
    let (r', b') = aggregate whole 107 (record aggregator { clients = reordered }) in
    SameStats whole r r' × (b.prev_snapshot ≡ b'.prev_snapshot)
unfolding add_client new_stats_aggregator
aggregate-SameStats_example =
    aggregate-SameStats whole 107 aggregator reordered (Permᴰ.swap refl refl)

-- The least uptime depends on the order: an uptime of 0 that comes first is taken for unset.
aggregate_min_uptime :
    ((aggregate whole 107 aggregator).0.totals.min_uptime ≡ pos 0)
    × ((aggregate whole 107 (record aggregator { clients = reordered })).0.totals.min_uptime
        ≡ pos 7)
unfolding aggregate add_client new_stats_aggregator note_client record_http_error new_client_stats
aggregate_min_uptime = (refl, refl)

remove_client_gone : get_client 1 (remove_client 1 aggregator) ≡ none
unfolding get_client remove_client add_client new_stats_aggregator
remove_client_gone = refl

reset_empty : (aggregate whole 107 (reset whole 100 aggregator)).0.total_clients ≡ 0
unfolding aggregate reset
reset_empty = refl
