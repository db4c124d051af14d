-- ===== src/Collector/Summaries.antt =====
-- collector.go: the figures at the end of a run.
use go_ffmpeg_hls_swarm.Common.{
  ℕ, suc, leb, if◌then◌else◌, List, [], ◌∷◌, ℤ, pos, pos_part, ltb_ℤ, sub_ℕ, length, get_or, Float,
}
use mathlib.Core.List.{reverse}
use go_ffmpeg_hls_swarm.Collector.Metrics.{Collector}

-- `Summary`.
pub record Summary : Type 0 where
  pub duration : ℤ
  pub target_clients : ℤ
  pub peak_active_clients : ℤ
  pub total_starts : ℕ
  pub total_restarts : ℕ
  pub exit_codes : List (ℤ × ℕ)
  pub uptime_p50 : ℤ
  pub uptime_p95 : ℤ
  pub uptime_p99 : ℤ

-- The inner loop of `sortDurations`: `d[i]` is swapped down through `d[:i]`, which is kept from its end.
unfoldable pub sink : ℤ → List ℤ → List ℤ
sink x [] = x ∷ []
sink x (y ∷ before) = let rest = sink x before in if ltb_ℤ x y then y ∷ rest else x ∷ y ∷ before

-- The outer loop: `d[:i]` from its end, and `d[i:]`.
unfoldable pub sort_from : List ℤ → List ℤ → List ℤ
unfolding sink
sort_from before [] = before
sort_from before (x ∷ d) = sort_from (sink x before) d

unfoldable pub sort_durations : List ℤ → List ℤ
unfolding sort_from
sort_durations d = reverse (sort_from [] d)

module _ (F : Float) where
  -- The index that `percentile` reads, where the list has `suc last` elements. A negative one panics in Go;
  -- for `p` from 0 to 1 there is none.
  unfoldable pub percentile_index : ℕ → F.F → ℕ
  percentile_index last p =
      let idx = pos_part (F.to_int (F.mul (F.of_int (pos last)) p)) in
      if leb (suc last) idx then last else idx

  unfoldable pub percentile : List ℤ → F.F → ℤ
  unfolding percentile_index
  percentile [] p = pos 0
  percentile (x ∷ sorted) p = get_or (x ∷ sorted) (percentile_index (length sorted) p) (pos 0)

  -- `GenerateSummary` at the time `now`.
  unfoldable pub generate_summary : ℕ → Collector → Summary
  unfolding percentile sort_durations
  generate_summary now c =
      let sorted = sort_durations c.uptimes in
      record {
        duration = sub_ℕ now c.start_time;
        target_clients = c.target_clients;
        peak_active_clients = c.peak_active;
        total_starts = c.total_starts;
        total_restarts = c.total_restarts;
        exit_codes = c.exit_codes;
        uptime_p50 = percentile sorted (F.lit 50 2);
        uptime_p95 = percentile sorted (F.lit 95 2);
        uptime_p99 = percentile sorted (F.lit 99 2);
      }
