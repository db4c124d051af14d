-- ===== src/Backoff/Delays.antt =====
-- backoff.go: bounds of the delay.
use go_ffmpeg_hls_swarm.Common.{
  suc, ◌≡◌, ◌⊎◌, inl, inr, true, false, ℤ, pos, ◌≤ℤ◌, Float, arith, Bool-cases, List, [], ◌∷◌, All,
}
use go_ffmpeg_hls_swarm.Backoff.{
  Backoff, calculate, uncapped_delay, capped_delay, jittered_delay, next,
}

-- What IEEE 754 and the Go specification say of comparisons and conversions, for the numbers from `low` to `high`, which
-- are to lie within the range of a `time.Duration`. NaN is not equal to itself.
pub record Laws (F : Float) (low high : F.F) (max : ℤ) : Type 0 where
  pub lt-false :
      (a b : F.F) → F.le a a ≡ true → F.le b b ≡ true → F.lt a b ≡ false → F.le b a ≡ true
  pub le_self : (a b : F.F) → F.le a b ≡ true → (F.le a a ≡ true) × (F.le b b ≡ true)
  pub to_int_mono :
      (a b : F.F)
      → F.le low a ≡ true
      → F.le b high ≡ true
      → F.le a b ≡ true
      → F.to_int a ≤ℤ F.to_int b
  pub low_zero : F.le low (F.lit 0 0) ≡ true
  pub to_int-zero : F.to_int (F.lit 0 0) ≡ pos 0
  pub limit_high : F.le (F.of_int max) high ≡ true
  pub to_int-limit : F.to_int (F.of_int max) ≡ max

module _ (F : Float) (low high : F.F) where
  -- The product that is capped does not lie below the range, and the delay with jitter lies within it.
  abbrev pub InRange : F.F → Backoff F.F → Type 0
  InRange draw b =
      (F.le low (uncapped_delay F b) ≡ true)
      × (F.le low (jittered_delay F draw b) ≡ true)
      × (F.le (jittered_delay F draw b) high ≡ true)

  -- The same for restarts in a row, with their draws.
  abbrev pub AllInRange : List F.F → Backoff F.F → Type 0
  AllInRange [] b = Unit {0}
  AllInRange (draw ∷ draws) b = InRange draw b × AllInRange draws (next F draw b).1

  -- The delays of restarts in a row.
  abbrev pub delays : List F.F → Backoff F.F → List ℤ
  delays [] b = []
  delays (draw ∷ draws) b = (next F draw b).0 ∷ delays draws (next F draw b).1

  calculate-nonnegative :
      (draw : F.F) (b : Backoff F.F)
      → Laws F low high b.config.max
      → InRange draw b
      → pos 0 ≤ℤ calculate F draw b
  unfolding calculate
  calculate-nonnegative draw b l r =
      let delay = jittered_delay F draw b in
      elim (Bool-cases (F.lt delay (F.lit 0 0))) [
        | inl h ↦ ground (arith, l.to_int-zero)
        | inr h ↦ ground (
          arith,
          l.to_int-zero,
          l.to_int_mono (F.lit 0 0) delay l.low_zero r.2 (
              l.lt-false delay (F.lit 0 0) (l.le_self low delay r.1).1
                (l.le_self low (F.lit 0 0) l.low_zero).1 h),
        )
      ]

  capped_delay-bound :
      (b : Backoff F.F)
      → Laws F low high b.config.max
      → F.le low (uncapped_delay F b) ≡ true
      → F.to_int (capped_delay F b) ≤ℤ b.config.max
  unfolding capped_delay
  capped_delay-bound b l r =
      let max = F.of_int b.config.max in
      let delay = uncapped_delay F b in
      elim (Bool-cases (F.lt max delay)) [
        | inl h ↦ ground (arith, l.to_int-limit)
        | inr h ↦ ground (
          arith,
          l.to_int-limit,
          l.to_int_mono delay max r l.limit_high (
              l.lt-false max delay (l.le_self max high l.limit_high).0 (l.le_self low delay r).1 h),
        )
      ]

  calculate-capped :
      (draw : F.F) (b : Backoff F.F)
      → Laws F low high b.config.max
      → pos 0 ≤ℤ b.config.max
      → InRange draw b
      → (F.lt (F.lit 0 0) b.config.jitter_pct ≡ true) ⊎ (calculate F draw b ≤ℤ b.config.max)
  unfolding calculate jittered_delay
  calculate-capped draw b l m r = elim (Bool-cases (F.lt (F.lit 0 0) b.config.jitter_pct)) [
    | inl h ↦ inl h
    | inr h ↦ inr (ground (arith, l.to_int-zero, capped_delay-bound b l r.0))
  ]

  -- The delays of any number of restarts in a row are not negative, whatever the draws, and each is at most the maximum
  -- configured, unless there is jitter. The maximum is not negative, and the numbers computed lie within the
  -- range of a duration, up to products above it, which are capped.
  pub delays-bounds :
      (draws : List F.F) (b : Backoff F.F)
      → Laws F low high b.config.max
      → pos 0 ≤ℤ b.config.max
      → AllInRange draws b
      → All
          (λ delay.
            (pos 0 ≤ℤ delay)
            × ((F.lt (F.lit 0 0) b.config.jitter_pct ≡ true) ⊎ (delay ≤ℤ b.config.max)))
          (delays draws b)
  unfolding next
  delays-bounds [] b l m r = tt
  delays-bounds (draw ∷ draws) b l m (r, rs) = (
    (calculate-nonnegative draw b l r, calculate-capped draw b l m r),
    delays-bounds draws (record b { attempts = suc b.attempts }) l m rs,
  )
