-- ===== src/Supervisor/Transitions.antt =====
-- The diagram that the states of supervisor.go follow, read off the calls of `OnStateChange`.
use go_ffmpeg_hls_swarm.Common.{ℕ, ◌≡◌, refl, ◌⊎◌, inl, inr, List, [], ◌∷◌, Bool, true, ℤ, arith}
use go_ffmpeg_hls_swarm.Supervisor.{
  State, created, starting, running, backoff, stopped, Event, state_change, start, exit, restart,
  Supervisor, Process, Round, Outcome, continues, cancelled, max_restarts_reached, Ended, new,
  set_state, run_once, turn, run, schedule_restart, after_run, run_started, run_command, open_pipe,
}

infix 40 ◌⟶◌
pub data ◌⟶◌ : State → State → Type 0 where
  first_launch : created ⟶ starting
  relaunch : backoff ⟶ starting
  launched : starting ⟶ running
  launch_failed : starting ⟶ backoff
  ended : running ⟶ backoff
  stop_created : created ⟶ stopped
  stop_starting : starting ⟶ stopped
  stop_running : running ⟶ stopped
  stop_backoff : backoff ⟶ stopped

-- A log, newest entry first, whose state changes lead from `created` to the given state, each from
-- where the last one ended and along an edge.
abbrev pub IsPath : List Event → State → Type 0
IsPath [] t = created ≡ t
IsPath (state_change a b ∷ l) t = (b ≡ t) × (a ⟶ b) × IsPath l a
IsPath (start pid ∷ l) t = IsPath l t
IsPath (exit code uptime ∷ l) t = IsPath l t
IsPath (restart attempt delay ∷ l) t = IsPath l t

abbrev pub Follows : Supervisor → Type 0
Follows s = IsPath s.log s.state

-- Where `Run` is between two turns.
abbrev pub Waits : Supervisor → Type 0
Waits s = (s.state ≡ created) ⊎ (s.state ≡ backoff)

-- Where `runOnce` leaves the state.
abbrev pub Ran : Supervisor → Type 0
Ran s = (s.state ≡ starting) ⊎ (s.state ≡ running)

set_state-starting : (s : Supervisor) → Waits s → Follows s → Follows (set_state starting s)
unfolding set_state
set_state-starting s w f = grind (arith, first_launch, relaunch)

set_state-stopped : (s : Supervisor) → (Waits s ⊎ Ran s) → Follows s → Follows (set_state stopped s)
unfolding set_state
set_state-stopped s w f = grind (arith, stop_created, stop_starting, stop_running, stop_backoff)

set_state-running :
    (s : Supervisor) → s.state ≡ starting → Follows s → Follows (set_state running s)
unfolding set_state
set_state-running s w f = grind (arith, launched)

set_state-backoff : (s : Supervisor) → Ran s → Follows s → Follows (set_state backoff s)
unfolding set_state
set_state-backoff s w f = grind (arith, launch_failed, ended)

set_state_sets : (t : State) (s : Supervisor) → (set_state t s).state ≡ t
unfolding set_state
set_state_sets created s = ground arith
set_state_sets t s = ground arith

run_started-Follows :
    (p : Process) (s : Supervisor)
    → s.state ≡ starting
    → Follows s
    → Ran (run_started p s).0 × Follows (run_started p s).0
unfolding run_started set_state
run_started-Follows p s w f = grind (arith, launched)

run_command-Follows :
    (p : Process) (s : Supervisor)
    → s.state ≡ starting
    → Follows s
    → Ran (run_command p s).0 × Follows (run_command p s).0
unfolding run_command
run_command-Follows p s w f =
    ground (arith, run_started-Follows p (record s { has_cmd = true }) w f)

-- `runOnce` leads from a waiting state along the diagram, and ends starting or running.
run_once-Follows :
    (p : Process) (s : Supervisor)
    → Waits s
    → Follows s
    → Ran (run_once p s).0 × Follows (run_once p s).0
unfolding run_once
run_once-Follows p s w f =
    let up = set_state_sets starting s in
    let path = set_state-starting s w f in
    ground (
      arith,
      run_command-Follows p (set_state starting s) up path,
      run_command-Follows p (open_pipe (set_state starting s)),
    )

-- What an outcome of `Run` says of the state.
abbrev pub Rests : Supervisor × Outcome → Type 0
Rests (s, continues) = Waits s
Rests (s, cancelled) = s.state ≡ stopped
Rests (s, max_restarts_reached) = s.state ≡ stopped

module _ {Draw : Type 0} (calculate : ℕ → Draw → ℤ) where
  schedule_restart-Follows :
      (r : Round Draw) (s : Supervisor) (e : Ended)
      → Ran s
      → Follows s
      → Rests (schedule_restart calculate r s e) × Follows (schedule_restart calculate r s e).0
  unfolding schedule_restart set_state
  schedule_restart-Follows r s e w f = grind (arith, launch_failed, ended, stop_backoff)

  after_run-Follows :
      (r : Round Draw) (s : Supervisor) (e : Ended)
      → Ran s
      → Follows s
      → Rests (after_run calculate r (s, e)) × Follows (after_run calculate r (s, e)).0
  unfolding after_run
  after_run-Follows r s e w f = ground (
    arith,
    schedule_restart-Follows r s e w f,
    set_state_sets stopped s,
    set_state-stopped s (inr w) f,
  )

  turn-Follows :
      (r : Round Draw) (s : Supervisor)
      → Waits s
      → Follows s
      → Rests (turn calculate r s) × Follows (turn calculate r s).0
  unfolding turn
  turn-Follows r s w f =
      let (ran, path) = run_once-Follows r.process s w f in
      ground (
        arith,
        after_run-Follows r (run_once r.process s).0 (run_once r.process s).1 ran path,
        set_state_sets stopped s,
        set_state-stopped s (inl w) f,
      )

  run-Follows_from :
      (rs : List (Round Draw)) (s : Supervisor)
      → Waits s
      → Follows s
      → Rests (run calculate rs s) × Follows (run calculate rs s).0
  unfolding run
  run-Follows_from [] s w f = (w, f)
  run-Follows_from (r ∷ rs) s w f =
      let h = turn-Follows r s w f in ground (arith, h, run-Follows_from rs (turn calculate r s).0)

  -- Whatever the processes and the context do, in every number of turns from a new supervisor: the
  -- states that `OnStateChange` reports form a path in the diagram from `created` to the current
  -- state, `Run` waits in `created` or `backoff` between turns, and it returns only in `stopped`.
  pub run-Follows :
      (max : ℤ) (stats : Bool) (rs : List (Round Draw))
      → Rests (run calculate rs (new max stats)) × Follows (run calculate rs (new max stats)).0
  unfolding new
  run-Follows max stats rs = run-Follows_from rs (new max stats) (inl refl) refl
