-- ===== src/Collector/Errors.antt =====
-- collector.go: the counter of HTTP errors, code by code.
use go_ffmpeg_hls_swarm.Common.{
  ℕ, ◌<◌, ◌≡◌, refl, ap, if◌then◌else◌, ◌==◌, Option, none, some, List, [], ◌∷◌, ℤ, pos, All, codes,
  text_eq, text_eq_iff, text_eq_refl, parse_int, format_int, parse_int-format_int, i64_cutoff,
  Float, arith,
}
use go_ffmpeg_hls_swarm.Collector.Metrics.{
  Counter, AggregatedStatsUpdate, CollectorConfig, Collector,
}
use go_ffmpeg_hls_swarm.Collector.Updates.{
  record_errors, record_stats, error_label, previous_errors, store_errors,
}
use go_ffmpeg_hls_swarm.Collector.Events.{new_collector}
use go_ffmpeg_hls_swarm.Collector.Values.{value, rise, value-append, value-add_delta}
use go_ffmpeg_hls_swarm.Collector.Deltas.{
  value-record_stats, value-request_rates, value-segment_throughput, value-errors,
  value-pipeline_health,
}
use go_ffmpeg_hls_swarm.Collector.Counters.{rises, record_all}

-- Codes with different labels are different, for codes within the range of `int`.
error_label-eq :
    (c code : ℕ)
    → c < i64_cutoff
    → code < i64_cutoff
    → text_eq (error_label c) (error_label code) ≡ (c == code)
unfolding error_label parse_int
error_label-eq c code h k = ground (
  arith,
  text_eq_iff (error_label c) (error_label code),
  text_eq_iff (format_int (pos c)) (codes "other"),
  text_eq_iff (codes "other") (format_int (pos code)),
  text_eq_iff (format_int (pos c)) (format_int (pos code)),
  parse_int-format_int (pos c) (omega arith) (omega arith),
  parse_int-format_int (pos code) (omega arith) (omega arith),
  text_eq_refl (codes "other"),
)

-- The count that the map of an update has for a code.
abbrev pub reported : ℕ → List (ℕ × ℤ) → Option ℤ
reported code [] = none
reported code ((c, n) ∷ m) = if c == code then some n else reported code m

-- A map: a code stands once. Codes are of type `int`.
abbrev pub IsMap : List (ℕ × ℤ) → Type 0
IsMap [] = Unit {0}
IsMap ((c, n) ∷ m) = (reported c m ≡ none) × (c < i64_cutoff) × IsMap m

abbrev or_previous : Option ℤ → ℤ → ℤ
or_previous none prev = prev
or_previous (some n) prev = n

abbrev rise_to : ℤ → Option ℤ → ℕ
rise_to prev none = 0
rise_to prev (some n) = rise prev n

previous_errors-store_errors :
    (code c : ℕ) (n : ℤ) (m : List (ℕ × ℤ))
    → previous_errors code (store_errors c n m) ≡ (if c == code then n else previous_errors code m)
unfolding previous_errors store_errors
previous_errors-store_errors code c n [] = refl
previous_errors-store_errors code c n ((d, k) ∷ m) =
    ground (arith, previous_errors-store_errors code c n m)

previous_errors-record_errors :
    (R : Type 0) (code : ℕ) (counts prev : List (ℕ × ℤ))
    → IsMap counts
    → previous_errors code (record_errors {R = R} counts prev).1
      ≡ or_previous (reported code counts) (previous_errors code prev)
unfolding record_errors
previous_errors-record_errors R code [] prev h = refl
previous_errors-record_errors R code ((c, n) ∷ counts) prev h = ground (
  arith,
  previous_errors-record_errors R code counts (store_errors c n prev) h.2,
  previous_errors-store_errors code c n prev,
)

value-record_errors :
    (R : Type 0) (code : ℕ) (counts prev : List (ℕ × ℤ))
    → code < i64_cutoff
    → IsMap counts
    → value Counter.http_errors_total (error_label code) (record_errors {R = R} counts prev).0
      ≡ rise_to (previous_errors code prev) (reported code counts)
unfolding record_errors
value-record_errors R code [] prev h k = refl
value-record_errors R code ((c, n) ∷ counts) prev h k = ground (
  arith,
  value-add_delta Counter.http_errors_total Counter.http_errors_total (error_label code)
      (error_label c) n (previous_errors c prev)
      (record_errors {R = R} counts (store_errors c n prev)).0,
  error_label-eq c code k.1 h,
  value-record_errors R code counts (store_errors c n prev) h k.2,
  previous_errors-store_errors code c n prev,
)

module _ (F : Float) where
  -- The counts of a code in the updates that have it.
  abbrev pub counts_of : ℕ → List (ℕ × AggregatedStatsUpdate F.F) → List ℤ
  counts_of code [] = []
  counts_of code ((now, s) ∷ updates) = elim (reported code s.total_http_errors) [
    | none ↦ counts_of code updates
    | some n ↦ n ∷ counts_of code updates
  ]

  value-step :
      (code now : ℕ) (s : AggregatedStatsUpdate F.F) (k : Collector)
      → code < i64_cutoff
      → IsMap s.total_http_errors
      → value Counter.http_errors_total (error_label code) (record_stats F now s k).0
        ≡ rise_to (previous_errors code k.prev_http_errors) (reported code s.total_http_errors)
  value-step code now s k h m =
      let label = error_label code in
      omega (
        arith,
        value-record_stats F Counter.http_errors_total label now s k,
        value-request_rates F Counter.http_errors_total label s k,
        value-segment_throughput F Counter.http_errors_total label s k,
        value-errors F Counter.http_errors_total label s k,
        value-pipeline_health F Counter.http_errors_total label s k,
        value-record_errors F.F code s.total_http_errors k.prev_http_errors h m,
      )

  prev_http_errors-record_stats :
      (now : ℕ) (s : AggregatedStatsUpdate F.F) (k : Collector)
      → (record_stats F now s k).1.prev_http_errors
        ≡ (record_errors {R = F.F} s.total_http_errors k.prev_http_errors).1
  unfolding record_stats
  prev_http_errors-record_stats now s k = refl

  value-record_all :
      (code : ℕ) (updates : List (ℕ × AggregatedStatsUpdate F.F)) (k : Collector)
      → code < i64_cutoff
      → All (λ u. IsMap u.1.total_http_errors) updates
      → value Counter.http_errors_total (error_label code) (record_all F updates k).0
        ≡ rises (previous_errors code k.prev_http_errors) (counts_of code updates)
  value-record_all code [] k h m = refl
  value-record_all code ((now, s) ∷ updates) k h m =
      let k' = (record_stats F now s k).1 in
      ground (
        arith,
        value-append Counter.http_errors_total (error_label code) (record_stats F now s k).0
            (record_all F updates k').0,
        value-step code now s k h m.0,
        value-record_all code updates k' h m.1,
        ap (previous_errors code) (prev_http_errors-record_stats now s k),
        previous_errors-record_errors F.F code s.total_http_errors k.prev_http_errors m.0,
      )

  -- The counter of HTTP errors under the label of a code is what the counts of exactly this code
  -- have grown by, over the updates that have it, falls not counted, in whatever order the maps of errors
  -- give their entries.
  pub record_all-errors :
      (start : ℕ) (cfg : CollectorConfig) (updates : List (ℕ × AggregatedStatsUpdate F.F))
      (code : ℕ)
      → code < i64_cutoff
      → All (λ u. IsMap u.1.total_http_errors) updates
      → value Counter.http_errors_total
          (error_label code)
          (record_all F updates (new_collector F start cfg).1).0
        ≡ rises (pos 0) (counts_of code updates)
  unfolding new_collector previous_errors
  record_all-errors start cfg updates code h m =
      value-record_all code updates (new_collector F start cfg).1 h m
