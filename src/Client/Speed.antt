-- ===== src/Client/Speed.antt =====
-- client_stats.go: which clients count as stalled, and the greatest drift.
use go_ffmpeg_hls_swarm.Common.{
  ℕ, ◌+◌, ◌<◌, ◌≡◌, refl, ◌⊎◌, inl, In, List, [], ◌∷◌, true, false, Float, arith, All, ℤ, pos, ltb,
  ◌≤ℤ◌,
}
use go_ffmpeg_hls_swarm.Client.{
  ClientStats, update_speed, stall_threshold, stall_duration, is_stalled, update_drift,
  new_client_stats,
}

module _ (F : Float) where
  -- Speeds that are reported, each at its time.
  abbrev pub update_speeds : List (ℕ × F.F) → ClientStats F.F → ClientStats F.F
  update_speeds [] s = s
  update_speeds ((now, speed) ∷ reports) s = update_speeds reports (update_speed F now speed s)

  abbrev pub Slow : F.F → Type 0
  Slow speed =
      (F.lt (F.lit 0 0) speed ≡ true)
      × (F.lt speed (stall_threshold F) ≡ true)
      × (F.le (stall_threshold F) speed ≡ false)

  update_speeds-Slow :
      (reports : List (ℕ × F.F)) (s : ClientStats F.F)
      → All (λ r. Slow r.1) reports
      → F.le (stall_threshold F) s.speed ≡ false
      → (update_speeds reports s).below_threshold_at ≡ s.below_threshold_at
  unfolding update_speed
  update_speeds-Slow [] s h k = refl
  update_speeds-Slow ((now, speed) ∷ reports) s (h, hs) k =
      ground (arith, update_speeds-Slow reports (update_speed F now speed s) hs h.2)

  -- A client that plays at the threshold or above until the time `start`, is slow then and in all reports after
  -- it, is stalled exactly when more than five seconds have passed since `start`. The start is not
  -- the zero time, and a speed below the threshold is not at it or above.
  pub update_speeds-is_stalled :
      (reports : List (ℕ × F.F)) (s : ClientStats F.F) (start now : ℕ) (speed : F.F)
      → F.le (stall_threshold F) s.speed ≡ true
      → 0 < start
      → All (λ r. Slow r.1) ((start, speed) ∷ reports)
      → is_stalled now (update_speeds ((start, speed) ∷ reports) s)
        ≡ ltb (start + stall_duration) now
  unfolding is_stalled update_speed
  update_speeds-is_stalled reports s start now speed k h (slow, all) =
      ground (arith, update_speeds-Slow reports (update_speed F start speed s) all slow.2)

  -- A new client that is slow from its first report on is never counted as stalled, however long that lasts. The
  -- number 0 is not at the threshold or above, nor is a slow speed.
  pub update_speeds-unnoticed :
      (reports : List (ℕ × F.F)) (origin now : ℕ)
      → F.le (stall_threshold F) (F.lit 0 0) ≡ false
      → All (λ r. Slow r.1) reports
      → is_stalled now (update_speeds reports (new_client_stats (F.lit 0 0) origin)) ≡ false
  unfolding is_stalled new_client_stats
  update_speeds-unnoticed reports origin now k all =
      ground (arith, update_speeds-Slow reports (new_client_stats (F.lit 0 0) origin) all k)

module _ {R : Type 0} where
  abbrev pub update_drifts : List (ℕ × ℤ) → ClientStats R → ClientStats R
  update_drifts [] s = s
  update_drifts ((now, out_time) ∷ reports) s = update_drifts reports (update_drift now out_time s)

  -- The drifts that were current after one of the reports.
  abbrev pub drifts : List (ℕ × ℤ) → ClientStats R → List ℤ
  drifts [] s = []
  drifts ((now, out_time) ∷ reports) s =
      let s' = update_drift now out_time s in s'.current_drift ∷ drifts reports s'

  update_drift-bound :
      (now : ℕ) (out_time : ℤ) (s : ClientStats R)
      → s.current_drift ≤ℤ s.max_drift
      → let s' = update_drift now out_time s in
        (s.max_drift ≤ℤ s'.max_drift) × (s'.current_drift ≤ℤ s'.max_drift)
  unfolding update_drift
  update_drift-bound now out_time s h = ground arith

  update_drifts-bound :
      (reports : List (ℕ × ℤ)) (s : ClientStats R)
      → s.current_drift ≤ℤ s.max_drift
      → let m = (update_drifts reports s).max_drift in
        (s.max_drift ≤ℤ m) × All (λ d. d ≤ℤ m) (drifts reports s)
  update_drifts-bound [] s h = (omega arith, tt)
  update_drifts-bound ((now, out_time) ∷ reports) s h =
      let b = update_drift-bound now out_time s h in
      let ih = update_drifts-bound reports (update_drift now out_time s) b.1 in
      (omega (arith, b, ih.0), (omega (arith, b, ih.0), ih.1))

  update_drifts-among :
      (reports : List (ℕ × ℤ)) (s : ClientStats R)
      → ((update_drifts reports s).max_drift ≡ s.max_drift)
        ⊎ In (update_drifts reports s).max_drift (drifts reports s)
  unfolding update_drift
  update_drifts-among [] s = inl refl
  update_drifts-among ((now, out_time) ∷ reports) s =
      ground (arith, update_drifts-among reports (update_drift now out_time s))

  -- Of a new client: the greatest drift is no less than the drift after any of the reports, and it is 0 or
  -- the drift after one of them.
  update_drifts-max :
      (zero : R) (origin : ℕ) (reports : List (ℕ × ℤ))
      → let s = new_client_stats zero origin in
        let m = (update_drifts reports s).max_drift in
        All (λ d. d ≤ℤ m) (drifts reports s) × ((m ≡ pos 0) ⊎ In m (drifts reports s))
  unfolding new_client_stats
  update_drifts-max zero origin reports = (
    (update_drifts-bound reports (new_client_stats zero origin) (omega arith)).1,
    update_drifts-among reports (new_client_stats zero origin),
  )
