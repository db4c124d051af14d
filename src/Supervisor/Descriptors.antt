-- ===== src/Supervisor/Descriptors.antt =====
-- What `runOnce` of supervisor.go does with the progress pipe and with the command reference.
use go_ffmpeg_hls_swarm.Common.{ℕ, ◌≡◌, refl, List, [], ◌∷◌, true, false, ℤ, arith}
use go_ffmpeg_hls_swarm.Supervisor.{
  State, created, starting, Supervisor, Process, Round, set_state, run_once, turn, run,
  schedule_restart, after_run, run_started, run_command, open_pipe,
}

set_state-open_fds : (t : State) (s : Supervisor) → (set_state t s).open_fds ≡ s.open_fds
unfolding set_state
set_state-open_fds created s = ground arith
set_state-open_fds t s = ground arith

set_state-stats_enabled :
    (t : State) (s : Supervisor) → (set_state t s).stats_enabled ≡ s.stats_enabled
unfolding set_state
set_state-stats_enabled created s = ground arith
set_state-stats_enabled t s = ground arith

run_command-closes :
    (p : Process) (s : Supervisor)
    → s.stats_enabled ≡ true
    → (run_command p (open_pipe s)).0.open_fds ≡ s.open_fds
unfolding run_command run_started open_pipe set_state
run_command-closes p s e = ground arith

run_command-plain :
    (p : Process) (s : Supervisor)
    → s.stats_enabled ≡ false
    → (run_command p s).0.open_fds ≡ s.open_fds
unfolding run_command run_started set_state
run_command-plain p s e = ground arith

-- On every path through `runOnce`, its four early returns included, the parent has closed both ends
-- of the progress pipe that this call opened, and no other descriptor.
run_once-open_fds : (p : Process) (s : Supervisor) → (run_once p s).0.open_fds ≡ s.open_fds
unfolding run_once
run_once-open_fds p s = ground (
  arith,
  set_state-open_fds starting s,
  run_command-closes p (set_state starting s),
  run_command-plain p (set_state starting s),
)

module _ {Draw : Type 0} (calculate : ℕ → Draw → ℤ) where
  turn-open_fds : (r : Round Draw) (s : Supervisor) → (turn calculate r s).0.open_fds ≡ s.open_fds
  unfolding turn after_run schedule_restart
  turn-open_fds r s = grind (arith, run_once-open_fds, set_state-open_fds)

  -- However many turns `Run` makes, and however it ends, no descriptor of a progress pipe is left
  -- open.
  pub run-open_fds :
      (rs : List (Round Draw)) (s : Supervisor) → (run calculate rs s).0.open_fds ≡ s.open_fds
  unfolding run
  run-open_fds [] s = refl
  run-open_fds (r ∷ rs) s =
      ground (arith, turn-open_fds r s, run-open_fds rs (turn calculate r s).0)
