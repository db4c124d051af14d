-- ===== src/Manager/Sampling.antt =====
-- client_manager.go: `sampleThroughput`, which feeds the throughput tracker with the bytes of all parsers.
use go_ffmpeg_hls_swarm.Common.{
  ℕ, ◌+◌, ltb, if◌then◌else◌, List, [], ◌∷◌, map, sub_ℕ, ◌≡◌, refl, arith,
}
use go_ffmpeg_hls_swarm.Debug.State.{Parser}
use go_ffmpeg_hls_swarm.Throughput.{Tracker, add_bytes, record_sample, new_tracker}

-- `throughputTracker` and `prevTotalBytes`.
pub record Sampler : Type 0 where
  pub tracker : Tracker
  pub prev_total_bytes : ℕ

abbrev pub new_sampler : ℕ → Sampler
new_sampler start = record { tracker = new_tracker start; prev_total_bytes = 0 }

-- The loop over the parsers.
unfoldable pub current_total : List (ℕ × Parser) → ℕ
current_total [] = 0
current_total ((id, p) ∷ parsers) = p.segment_bytes_downloaded + current_total parsers

-- `sampleThroughput` at the time `now`.
unfoldable pub sample_throughput : ℕ → List (ℕ × Parser) → Sampler → Sampler
unfolding current_total add_bytes record_sample
sample_throughput now parsers s =
    let total = current_total parsers in
    let grown =
      if ltb s.prev_total_bytes total
      then record s {
        tracker = add_bytes (sub_ℕ total s.prev_total_bytes) s.tracker;
        prev_total_bytes = total;
      }
      else s in
    record grown { tracker = record_sample now grown.tracker }

-- The samples of the loop, each at its time, with the parsers as they are then.
unfoldable pub sample_all : List (ℕ × List (ℕ × Parser)) → Sampler → Sampler
sample_all [] s = s
sample_all ((now, parsers) ∷ more) s = sample_all more (sample_throughput now parsers s)

-- The bytes of all parsers together.
abbrev pub sum_bytes : List ℕ → ℕ
sum_bytes [] = 0
sum_bytes (n ∷ counts) = n + sum_bytes counts

abbrev pub bytes_of : List (ℕ × Parser) → ℕ
bytes_of parsers = sum_bytes (map (λ e. e.1.segment_bytes_downloaded) parsers)

current_total-sum : (parsers : List (ℕ × Parser)) → current_total parsers ≡ bytes_of parsers
unfolding current_total
current_total-sum [] = refl
current_total-sum ((id, p) ∷ parsers) = omega (arith, current_total-sum parsers)

-- The greatest of a number and the totals at the samples.
abbrev pub greatest_total : ℕ → List (ℕ × List (ℕ × Parser)) → ℕ
greatest_total best [] = best
greatest_total best ((now, parsers) ∷ more) =
    greatest_total (if ltb best (bytes_of parsers) then bytes_of parsers else best) more

abbrev InStep : ℕ → Sampler → Type 0
InStep total s = (s.tracker.total_bytes ≡ total) × (s.prev_total_bytes ≡ total)

sample_throughput-InStep :
    (now total : ℕ) (parsers : List (ℕ × Parser)) (s : Sampler)
    → InStep total s
    → InStep
        (if ltb total (bytes_of parsers) then bytes_of parsers else total)
        (sample_throughput now parsers s)
unfolding sample_throughput add_bytes record_sample
sample_throughput-InStep now total parsers s h = ground (arith, h, current_total-sum parsers)

sample_all-InStep :
    (total : ℕ) (samples : List (ℕ × List (ℕ × Parser))) (s : Sampler)
    → InStep total s
    → InStep (greatest_total total samples) (sample_all samples s)
unfolding sample_all
sample_all-InStep total [] s h = h
sample_all-InStep total ((now, parsers) ∷ more) s h =
    sample_all-InStep (if ltb total (bytes_of parsers) then bytes_of parsers else total) more
      (sample_throughput now parsers s) (sample_throughput-InStep now total parsers s h)

-- Of a new tracker: after any samples its bytes in all are the greatest total that the parsers have had at a sample,
-- however the parsers come and go.
pub sample_all-total_bytes :
    (start : ℕ) (samples : List (ℕ × List (ℕ × Parser)))
    → (sample_all samples (new_sampler start)).tracker.total_bytes ≡ greatest_total 0 samples
unfolding new_tracker
sample_all-total_bytes start samples =
    (sample_all-InStep 0 samples (new_sampler start) (refl, refl)).0
