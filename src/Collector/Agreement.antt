-- ===== src/Collector/Agreement.antt =====
-- collector.go: the figures that the collector keeps for the summary, against what it has told the library.
use go_ffmpeg_hls_swarm.Common.{
  Bool, if◌then◌else◌, not, ◌&&◌, is_zero, ltb_ℤ, map, Text, ℕ, ◌+◌, ◌≡◌, List, [], ◌∷◌, ◌++◌, ℤ,
  pos, codes, Float,
}
use go_ffmpeg_hls_swarm.Collector.Metrics.{Counter, Call, AggregatedStatsUpdate, Collector}
use go_ffmpeg_hls_swarm.Collector.Updates.{max_ℤ, record_stats}
use go_ffmpeg_hls_swarm.Collector.Events.{
  record_latency, client_started, client_restarted, record_exit, set_active_count,
  set_ramp_progress, remove_client,
}
use go_ffmpeg_hls_swarm.Collector.Values.{value, Raises}
use go_ffmpeg_hls_swarm.Aggregator.{seconds}
use go_ffmpeg_hls_swarm.Collector.Observations.{observed}

-- The calls of the collector's methods.
pub data Method (R : Type 0) : Type 0 where
  stats : ℕ → AggregatedStatsUpdate R → Method R
  latency : ℤ → Method R
  started : Method R
  restarted : Method R
  exited : ℤ → ℤ → Method R
  active : ℤ → Method R
  ramp : R → Method R
  removed : ℤ → Method R

-- The exits of the codes of a category: 0, those above 128, which stand for signals, and all others.
abbrev pub succeeded : ℤ → Bool
succeeded code = is_zero code

abbrev pub by_signal : ℤ → Bool
by_signal code = ltb_ℤ (pos 128) code

abbrev pub failed : ℤ → Bool
failed code = not (is_zero code) && not (ltb_ℤ (pos 128) code)

abbrev pub sum_exits : (ℤ → Bool) → List (ℤ × ℕ) → ℕ
sum_exits p [] = 0
sum_exits p ((code, n) ∷ m) = (if p code then n else 0) + sum_exits p m

module _ {R : Type 0} where
  -- The exits that the library has been told of in a category.
  abbrev pub told_exits : Text → List (Call R) → ℕ
  told_exits category calls = value Counter.client_exits_total category calls

  -- The greatest number of active clients that the methods were given.
  abbrev pub peak_of : List (Method R) → ℤ → ℤ
  peak_of [] peak = peak
  peak_of (stats now s ∷ methods) peak = peak_of methods (max_ℤ peak s.active_clients)
  peak_of (active count ∷ methods) peak = peak_of methods (max_ℤ peak count)
  peak_of (latency d ∷ methods) peak = peak_of methods peak
  peak_of (started ∷ methods) peak = peak_of methods peak
  peak_of (restarted ∷ methods) peak = peak_of methods peak
  peak_of (exited code uptime ∷ methods) peak = peak_of methods peak
  peak_of (ramp progress ∷ methods) peak = peak_of methods peak
  peak_of (removed id ∷ methods) peak = peak_of methods peak

module _ (F : Float) where
  -- The calls of the library agree with the collector, and lower no counter.
  pub record Agrees (calls : List (Call F.F)) (k : Collector) : Type 0 where
    pub starts : value Counter.client_starts_total [] calls ≡ k.total_starts
    pub restarts : value Counter.client_restarts_total [] calls ≡ k.total_restarts
    pub successes : told_exits (codes "success") calls ≡ sum_exits succeeded k.exit_codes
    pub signals : told_exits (codes "signal") calls ≡ sum_exits by_signal k.exit_codes
    pub failures : told_exits (codes "error") calls ≡ sum_exits failed k.exit_codes
    pub uptimes : observed calls ≡ map (seconds F) k.uptimes
    pub raises : Raises calls

  -- One method, and any number of them in a row.
  abbrev pub call : Method F.F → Collector → List (Call F.F) × Collector
  call (stats now s) k = record_stats F now s k
  call (latency d) k = record_latency F d k
  call started k = client_started F k
  call restarted k = client_restarted F k
  call (exited code uptime) k = record_exit F code uptime k
  call (active count) k = set_active_count F count k
  call (ramp progress) k = set_ramp_progress F progress k
  call (removed id) k = remove_client F id k

  abbrev pub call_all :
      List (Method F.F) → List (Call F.F) × Collector → List (Call F.F) × Collector
  call_all [] (calls, k) = (calls, k)
  call_all (m ∷ methods) (calls, k) =
      let (more, k') = call m k in call_all methods (calls ++ more, k')

  -- What a call adds.
  record Adds (more : List (Call F.F)) (k k' : Collector) : Type 0 where
    starts : k'.total_starts ≡ k.total_starts + value Counter.client_starts_total [] more
    restarts : k'.total_restarts ≡ k.total_restarts + value Counter.client_restarts_total [] more
    successes :
        sum_exits succeeded k'.exit_codes
        ≡ sum_exits succeeded k.exit_codes + told_exits (codes "success") more
    signals :
        sum_exits by_signal k'.exit_codes
        ≡ sum_exits by_signal k.exit_codes + told_exits (codes "signal") more
    failures :
        sum_exits failed k'.exit_codes
        ≡ sum_exits failed k.exit_codes + told_exits (codes "error") more
    uptimes : map (seconds F) k'.uptimes ≡ map (seconds F) k.uptimes ++ observed more
    raises : Raises more
