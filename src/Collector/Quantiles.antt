-- ===== src/Collector/Quantiles.antt =====
-- collector.go: the percentiles of the summary.
use mathlib.Core.List.{Mem, mem-cons_self, mem-cons_of_mem}
use mathlib.Core.List.Perm
use go_ffmpeg_hls_swarm.Common.{
  ℕ, zero, suc, ◌≤◌, ◌<◌, ◌≢◌, refl, sym, List, [], ◌∷◌, ℤ, pos, ◌≤ℤ◌, All, length, get_or, Float,
  arith,
}
use go_ffmpeg_hls_swarm.Collector.Metrics.{Collector}
use go_ffmpeg_hls_swarm.Collector.Summaries.{
  sort_durations, percentile_index, percentile, generate_summary,
}
use go_ffmpeg_hls_swarm.Collector.Sorting.{Ascending, sort_durations-Ascending}

-- Products with literals that grow do not fall, and truncation keeps the order.
pub record KeepsOrder (F : Float) : Type 0 where
  pub p50_p95 :
      (n : ℕ)
      → F.to_int (F.mul (F.of_int (pos n)) (F.lit 50 2))
        ≤ℤ F.to_int (F.mul (F.of_int (pos n)) (F.lit 95 2))
  pub p95_p99 :
      (n : ℕ)
      → F.to_int (F.mul (F.of_int (pos n)) (F.lit 95 2))
        ≤ℤ F.to_int (F.mul (F.of_int (pos n)) (F.lit 99 2))

get_or-All :
    (P : ℤ → Type 0) (l : List ℤ) (i : ℕ) (d : ℤ) → i < length l → All P l → P (get_or l i d)
get_or-All P [] i d h a = absurd (omega arith)
get_or-All P (x ∷ l) zero d h a = a.0
get_or-All P (x ∷ l) (suc i) d h a = get_or-All P l i d (omega arith) a.1

get_or-Ascending :
    (l : List ℤ) (i j : ℕ) (d : ℤ)
    → Ascending l
    → i ≤ j
    → j < length l
    → get_or l i d ≤ℤ get_or l j d
get_or-Ascending [] i j d a h k = absurd (omega arith)
get_or-Ascending (x ∷ l) zero zero d a h k = omega arith
get_or-Ascending (x ∷ l) zero (suc j) d a h k = get_or-All (λ y. x ≤ℤ y) l j d (omega arith) a.0
get_or-Ascending (x ∷ l) (suc i) zero d a h k = absurd (omega arith)
get_or-Ascending (x ∷ l) (suc i) (suc j) d a h k =
    get_or-Ascending l i j d a.1 (omega arith) (omega arith)

get_or-Mem : (l : List ℤ) (i : ℕ) (d : ℤ) → i < length l → Mem (get_or l i d) l
get_or-Mem [] i d h = absurd (omega arith)
get_or-Mem (x ∷ l) zero d h = mem-cons_self
get_or-Mem (x ∷ l) (suc i) d h = mem-cons_of_mem x (get_or-Mem l i d (omega arith))

module _ (F : Float) where
  percentile-Mem : (l : List ℤ) (p : F.F) → l ≢ [] → Mem (percentile F l p) l
  unfolding percentile percentile_index
  percentile-Mem [] p h = absurd (h refl)
  percentile-Mem (x ∷ l) p h =
      get_or-Mem (x ∷ l) (percentile_index F (length l) p) (pos 0) (ground arith)

  percentile-mono :
      (l : List ℤ) (p q : F.F)
      → Ascending l
      → ((n : ℕ) → F.to_int (F.mul (F.of_int (pos n)) p) ≤ℤ F.to_int (F.mul (F.of_int (pos n)) q))
      → percentile F l p ≤ℤ percentile F l q
  unfolding percentile percentile_index
  percentile-mono [] p q a h = omega arith
  percentile-mono (x ∷ l) p q a h =
      get_or-Ascending (x ∷ l) (percentile_index F (length l) p) (percentile_index F (length l) q)
        (pos 0) a (ground (arith, h (length l))) (ground arith)

  -- Where processes have ended, the three percentiles of the summary are uptimes that were recorded, and
  -- the median is at most the 95th percentile, which is at most the 99th.
  pub generate_summary-percentiles :
      KeepsOrder F
      → (now : ℕ) (k : Collector) → k.uptimes ≢ []
      → let s = generate_summary F now k in
        Mem s.uptime_p50 k.uptimes
        × Mem s.uptime_p95 k.uptimes
        × Mem s.uptime_p99 k.uptimes
        × (s.uptime_p50 ≤ℤ s.uptime_p95)
        × (s.uptime_p95 ≤ℤ s.uptime_p99)
  unfolding generate_summary
  generate_summary-percentiles order now k h =
      let sorted = sort_durations k.uptimes in
      let (ascending, perm) = sort_durations-Ascending k.uptimes in
      let some_sorted : sorted ≢ [] = λ e. h (sym (Perm.nil-eq (rw e at perm))) in
      (
        (Perm.mem_iff perm).0 (percentile-Mem sorted (F.lit 50 2) some_sorted),
        (Perm.mem_iff perm).0 (percentile-Mem sorted (F.lit 95 2) some_sorted),
        (Perm.mem_iff perm).0 (percentile-Mem sorted (F.lit 99 2) some_sorted),
        percentile-mono sorted (F.lit 50 2) (F.lit 95 2) ascending order.p50_p95,
        percentile-mono sorted (F.lit 95 2) (F.lit 99 2) ascending order.p95_p99,
      )
