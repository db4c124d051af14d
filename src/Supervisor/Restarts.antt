-- ===== src/Supervisor/Restarts.antt =====
-- How often `Run` of supervisor.go starts a process, and how its counters move.
use go_ffmpeg_hls_swarm.Common.{
  ℕ, ◌+◌, ◌≤◌, ◌<◌, ◌≡◌, ◌≢◌, refl, List, [], ◌∷◌, Bool, true, false, ℤ, pos, negsuc, ◌≤ℤ◌, arith,
  length, if◌then◌else◌, ◌⊎◌, inl, inr, some,
}
use go_ffmpeg_hls_swarm.Supervisor.{
  stopped, Supervisor, Round, Ended, Outcome, continues, max_restarts_reached, new, set_state,
  run_once, turn, run, schedule_restart, after_run, should_reset, limit_reached,
}
use go_ffmpeg_hls_swarm.Supervisor.Runs.{
  starts, exits, announced, last_restart, set_state-Idle, run_once-Runs,
}

-- The counters agree with the log: a restart is counted for each `OnRestart`, and each process that
-- was started has ended.
pub record Balanced (s : Supervisor) : Type 0 where
  pub counted : announced s.log ≡ s.restarts
  pub ended : starts s.log ≡ exits s.log

new-Balanced : (max : ℤ) (stats : Bool) → Balanced (new max stats)
unfolding new
new-Balanced max stats = record { counted = refl; ended = refl }

abbrev Bounded : ℕ → Supervisor × Outcome → Type 0
Bounded m (t, o) =
    Balanced t
    × (t.max_restarts ≡ pos m)
    × (starts t.log ≤ m)
    × (t.restarts ≤ m)
    × (o ≡ continues → starts t.log ≤ t.restarts)

module _ {Draw : Type 0} (calculate : ℕ → Draw → ℤ) where
  schedule_restart-Bounded :
      (m : ℕ) (r : Round Draw) (s : Supervisor) (e : Ended)
      → Balanced s
      → s.max_restarts ≡ pos m
      → s.restarts < m
      → starts s.log ≤ s.restarts + 1
      → Bounded m (schedule_restart calculate r s e)
  unfolding schedule_restart set_state
  schedule_restart-Bounded m r s e b x h k = ground arith

  after_run-Bounded :
      (m : ℕ) (r : Round Draw) (s : Supervisor) (e : Ended)
      → Balanced s
      → s.max_restarts ≡ pos m
      → s.restarts < m
      → starts s.log ≤ s.restarts + 1
      → Bounded m (after_run calculate r (s, e))
  unfolding after_run
  after_run-Bounded m r s e b x h k =
      ground (arith, schedule_restart-Bounded m r s e b x h k, set_state-Idle stopped s)

  turn-Bounded :
      (m : ℕ) (r : Round Draw) (s : Supervisor)
      → 0 < m
      → Balanced s
      → s.max_restarts ≡ pos m
      → s.restarts ≤ m
      → starts s.log ≤ s.restarts
      → Bounded m (turn calculate r s)
  unfolding turn
  turn-Bounded m r s z b x h k =
      let (t, e) = run_once r.process s in
      ground (arith, run_once-Runs r.process s, after_run-Bounded m r t e, set_state-Idle stopped s)

  run-Bounded :
      (m : ℕ) (rs : List (Round Draw)) (s : Supervisor)
      → 0 < m
      → Balanced s
      → s.max_restarts ≡ pos m
      → s.restarts ≤ m
      → starts s.log ≤ s.restarts
      → Bounded m (run calculate rs s)
  unfolding run
  run-Bounded m [] s z b x h k = (b, x, omega arith, h, λ _. k)
  run-Bounded m (r ∷ rs) s z b x h k =
      ground (arith, turn-Bounded m r s z b x h k, run-Bounded m rs (turn calculate r s).0 z)

  turn-Balanced : (r : Round Draw) (s : Supervisor) → Balanced s → Balanced (turn calculate r s).0
  unfolding turn after_run schedule_restart
  turn-Balanced r s b = grind (arith, run_once-Runs r.process s, set_state-Idle)

  run-Balanced :
      (rs : List (Round Draw)) (s : Supervisor) → Balanced s → Balanced (run calculate rs s).0
  unfolding run
  run-Balanced [] s b = b
  run-Balanced (r ∷ rs) s b =
      ground (arith, turn-Balanced r s b, run-Balanced rs (turn calculate r s).0)

  -- With `MaxRestarts` of m > 0, and whatever the environment does, at most m processes are ever
  -- started and at most m restarts announced; each started process has ended, and `restarts` counts
  -- the calls of `OnRestart`.
  pub run-max_restarts :
      (m : ℕ) (stats : Bool) (rs : List (Round Draw))
      → 0 < m
      → let (t, o) = run calculate rs (new (pos m) stats) in
        (starts t.log ≤ m)
        × (t.restarts ≤ m)
        × (announced t.log ≡ t.restarts)
        × (starts t.log ≡ exits t.log)
  unfolding new
  run-max_restarts m stats rs z =
      let (b, x, st, re, c) =
        run-Bounded m rs (new (pos m) stats) z (record { counted = refl; ended = refl }) refl
          (omega arith) (omega arith) in
      (st, re, b.counted, b.ended)

  turn-restarts :
      (r : Round Draw) (s : Supervisor)
      → (turn calculate r s).1 ≡ continues
      → (turn calculate r s).0.restarts ≡ s.restarts + 1
  unfolding turn after_run schedule_restart
  turn-restarts r s h = grind (arith, run_once-Runs r.process s, set_state-Idle)

  run-restarts :
      (rs : List (Round Draw)) (s : Supervisor)
      → (run calculate rs s).1 ≡ continues
      → (run calculate rs s).0.restarts ≡ s.restarts + length rs
  unfolding run
  run-restarts [] s h = omega arith
  run-restarts (r ∷ rs) s h =
      ground (arith, turn-restarts r s, run-restarts rs (turn calculate r s).0)

  -- With `MaxRestarts` of m > 0, `Run` returns within m + 1 turns.
  pub run_returns :
      (m : ℕ) (stats : Bool) (rs : List (Round Draw))
      → 0 < m
      → m < length rs
      → (run calculate rs (new (pos m) stats)).1 ≢ continues
  unfolding new
  run_returns m stats rs z l h =
      let (b, x, st, re, c) =
        run-Bounded m rs (new (pos m) stats) z (record { counted = refl; ended = refl }) refl
          (omega arith) (omega arith) in
      absurd (omega (arith, run-restarts rs (new (pos m) stats) h))

  -- The context is not cancelled during a turn.
  abbrev pub Undisturbed : List (Round Draw) → Type 0
  Undisturbed [] = Unit {0}
  Undisturbed (r ∷ rs) =
      (r.done_before ≡ false) × (r.done_after ≡ false) × (r.done_waiting ≡ false) × Undisturbed rs

  turn_undisturbed :
      (r : Round Draw) (s : Supervisor)
      → r.done_before ≡ false
      → r.done_after ≡ false
      → r.done_waiting ≡ false
      → ((turn calculate r s).1 ≡ continues)
        ⊎ (((turn calculate r s).1 ≡ max_restarts_reached)
            × (limit_reached s.max_restarts s.restarts ≡ true))
  unfolding turn after_run schedule_restart
  turn_undisturbed r s x y z = ground arith

  turn_below_limit :
      (r : Round Draw) (s : Supervisor)
      → limit_reached s.max_restarts s.restarts ≡ false
      → (turn calculate r s).1 ≢ max_restarts_reached
  unfolding turn after_run schedule_restart
  turn_below_limit r s h e = ground arith

  turn-max_restarts :
      (r : Round Draw) (s : Supervisor) → (turn calculate r s).0.max_restarts ≡ s.max_restarts
  unfolding turn after_run schedule_restart
  turn-max_restarts r s = grind (arith, run_once-Runs r.process s, set_state-Idle)

  unlimited :
      (max : ℤ) (n k : ℕ) → n < k → (max ≤ℤ pos 0) ⊎ (pos k ≤ℤ max) → limit_reached max n ≡ false
  unlimited (pos m) n k h l = ground arith
  unlimited (negsuc m) n k h l = refl

  run_continues :
      (rs : List (Round Draw)) (s : Supervisor)
      → (s.max_restarts ≤ℤ pos 0) ⊎ (pos (s.restarts + length rs) ≤ℤ s.max_restarts)
      → Undisturbed rs
      → (run calculate rs s).1 ≡ continues
  unfolding run
  run_continues [] s h u = refl
  run_continues (r ∷ rs) s h u = ground (
    arith,
    unlimited s.max_restarts s.restarts (s.restarts + length (r ∷ rs)) (omega arith) h,
    turn_undisturbed r s u.0 u.1 u.2,
    turn_below_limit r s,
    turn-restarts r s,
    turn-max_restarts r s,
    run_continues rs (turn calculate r s).0,
  )

  -- With `MaxRestarts` 0 or less a new supervisor goes on for as long as the context lets it, and with `MaxRestarts` of
  -- m for m turns, whatever the processes do; it has announced a restart in each turn.
  pub run_goes_on :
      (max : ℤ) (stats : Bool) (rs : List (Round Draw))
      → (max ≤ℤ pos 0) ⊎ (pos (length rs) ≤ℤ max)
      → Undisturbed rs
      → let (t, o) = run calculate rs (new max stats) in
        (o ≡ continues) × (announced t.log ≡ length rs)
  unfolding new
  run_goes_on max stats rs h u =
      let goes_on = run_continues rs (new max stats) (ground arith) u in
      (
        goes_on,
        omega (
          arith,
          run-restarts rs (new max stats) goes_on,
          (run-Balanced rs (new max stats) (new-Balanced max stats)).counted,
        ),
      )

  run-Undisturbed :
      (rs : List (Round Draw)) (s : Supervisor)
      → Undisturbed rs
      → ((run calculate rs s).1 ≡ continues) ⊎ ((run calculate rs s).1 ≡ max_restarts_reached)
  unfolding run
  run-Undisturbed [] s u = inl refl
  run-Undisturbed (r ∷ rs) s u =
      ground
        (arith, turn_undisturbed r s u.0 u.1 u.2, run-Undisturbed rs (turn calculate r s).0 (u.3))

  -- With `MaxRestarts` of m > 0 and no cancellation, `Run` ends with "max restarts reached".
  run_gives_up :
      (m : ℕ) (stats : Bool) (rs : List (Round Draw))
      → 0 < m
      → m < length rs
      → Undisturbed rs
      → (run calculate rs (new (pos m) stats)).1 ≡ max_restarts_reached
  run_gives_up m stats rs z l u = elim (run-Undisturbed rs (new (pos m) stats) u) [
    | inl e ↦ absurd (run_returns m stats rs z l e)
    | inr e ↦ e
  ]

  -- The backoff counter after a turn that leads to a restart: it starts again from 0 if the process
  -- ran for 30 s or more or ended with code 0, and goes up by one; the restart is announced with
  -- the next number and with the delay for the counter before it goes up.
  pub turn-attempts :
      (r : Round Draw) (s : Supervisor)
      → (turn calculate r s).1 ≡ continues
      → let ended = (run_once r.process s).1 in
        let attempts = if should_reset ended.ran_for ended.exit_code then 0 else s.attempts in
        ((turn calculate r s).0.attempts ≡ attempts + 1)
        × (last_restart (turn calculate r s).0.log
            ≡ some (s.restarts + 1, calculate attempts r.draw))
  unfolding turn after_run schedule_restart set_state
  turn-attempts r s h = ground (arith, run_once-Runs r.process s)
