-- ===== src/Collector/Values.antt =====
-- collector.go: the value that calls give a counter.
use go_ffmpeg_hls_swarm.Common.{
  ℕ, ◌+◌, ◌≡◌, ◌&&◌, if◌then◌else◌, ◌==◌, List, [], ◌∷◌, ◌++◌, ℤ, pos, pos_part, ◌-ℤ◌, ◌≤ℤ◌, Text,
  text_eq, arith,
}
use go_ffmpeg_hls_swarm.Collector.Metrics.{
  Counter, Call, set_gauge, add_counter, observe, delete_values,
}
use go_ffmpeg_hls_swarm.Collector.Updates.{add_delta}

abbrev pub index : Counter → ℕ
index Counter.manifest_requests_total = 0
index Counter.segment_requests_total = 1
index Counter.init_requests_total = 2
index Counter.unknown_requests_total = 3
index Counter.bytes_downloaded_total = 4
index Counter.segment_bytes_downloaded_total = 5
index Counter.http_errors_total = 6
index Counter.timeouts_total = 7
index Counter.reconnections_total = 8
index Counter.client_starts_total = 9
index Counter.client_restarts_total = 10
index Counter.client_exits_total = 11
index Counter.lines_dropped_total = 12
index Counter.lines_parsed_total = 13

-- What the calls add to the counter with a label.
abbrev pub value : {R : Type 0} → Counter → Text → List (Call R) → ℕ
value c label [] = 0
value c label (add_counter d l n ∷ calls) =
    (if index d == index c && text_eq l label then pos_part n else 0) + value c label calls
value c label (set_gauge g l v ∷ calls) = value c label calls
value c label (observe h v ∷ calls) = value c label calls
value c label (delete_values g l ∷ calls) = value c label calls

-- The library panics if a counter is to be lowered.
abbrev pub Raises : {R : Type 0} → List (Call R) → Type 0
Raises [] = Unit {0}
Raises (add_counter d l n ∷ calls) = (pos 0 ≤ℤ n) × Raises calls
Raises (set_gauge g l v ∷ calls) = Raises calls
Raises (observe h v ∷ calls) = Raises calls
Raises (delete_values g l ∷ calls) = Raises calls

-- How much a total has grown.
abbrev pub rise : ℤ → ℤ → ℕ
rise prev total = pos_part (total -ℤ prev)

module _ {R : Type 0} where
  pub value-append :
      (c : Counter) (label : Text) (calls more : List (Call R))
      → value c label (calls ++ more) ≡ value c label calls + value c label more
  value-append c label [] more = omega arith
  value-append c label (add_counter d l n ∷ calls) more =
      omega (arith, value-append c label calls more)
  value-append c label (set_gauge g l v ∷ calls) more = value-append c label calls more
  value-append c label (observe h v ∷ calls) more = value-append c label calls more
  value-append c label (delete_values g l ∷ calls) more = value-append c label calls more

  pub Raises-append :
      (calls more : List (Call R)) → Raises calls → Raises more → Raises (calls ++ more)
  Raises-append [] more h k = k
  Raises-append (add_counter d l n ∷ calls) more h k = (h.0, Raises-append calls more h.1 k)
  Raises-append (set_gauge g l v ∷ calls) more h k = Raises-append calls more h k
  Raises-append (observe x v ∷ calls) more h k = Raises-append calls more h k
  Raises-append (delete_values g l ∷ calls) more h k = Raises-append calls more h k

  -- A delta before other calls.
  pub value-add_delta :
      (c d : Counter) (label l : Text) (total prev : ℤ) (more : List (Call R))
      → value c label (add_delta d l total prev ++ more)
        ≡ (if index d == index c && text_eq l label then rise prev total else 0)
          + value c label more
  unfolding add_delta
  value-add_delta c d label l total prev more = ground arith

  pub add_delta-Raises :
      (d : Counter) (l : Text) (total prev : ℤ) (more : List (Call R))
      → Raises more
      → Raises (add_delta d l total prev ++ more)
  unfolding add_delta
  add_delta-Raises d l total prev more h = ground arith
