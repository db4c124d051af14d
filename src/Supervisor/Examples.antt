-- ===== src/Supervisor/Examples.antt =====
-- Lives of a supervised process, and the theorems of the siblings at them.
use go_ffmpeg_hls_swarm.Common.{
  ℕ, zero, suc, ◌≤◌, ◌≡◌, ◌≢◌, refl, List, [], ◌∷◌, true, false, ℤ, pos, arith,
}
use go_ffmpeg_hls_swarm.Supervisor.{
  created, starting, running, backoff, stopped, state_change, start, exit, restart, Process, Round,
  continues, cancelled, max_restarts_reached, exited, signaled, new, run, turn, run_once, set_state,
  open_pipe, run_command, run_started, after_run, schedule_restart, extract_exit_code, close_both,
}
use go_ffmpeg_hls_swarm.Common.{length, inl}
use go_ffmpeg_hls_swarm.Supervisor.Transitions.{Follows, Rests, run-Follows}
use go_ffmpeg_hls_swarm.Supervisor.Runs.{starts, announced, exits}
use go_ffmpeg_hls_swarm.Supervisor.Restarts.{run-max_restarts, run_returns, run_goes_on}
use go_ffmpeg_hls_swarm.Supervisor.Descriptors.{run-open_fds}

-- 250 ms times 2 to the attempts, and no jitter.
abbrev doubling : ℕ → Unit {0} → ℤ
doubling zero d = pos 250
doubling (suc zero) d = pos 500
doubling (suc (suc n)) d = pos 1000

abbrev crash : Process
crash = record {
  pipe_created = true;
  command_built = true;
  stderr_created = true;
  started = true;
  pid = 7;
  uptime = 1000;
  wait_error = exited 1;
}

abbrev no_binary : Process
no_binary = record crash { started = false }

abbrev plain : Process → Round (Unit {0})
plain p = record {
  done_before = false;
  process = p;
  done_after = false;
  draw = tt;
  done_waiting = false;
}

abbrev killed : Round (Unit {0})
killed = record (plain (record crash { wait_error = signaled 15 })) { done_after = true }

abbrev script : List (Round (Unit {0}))
script = plain crash ∷ plain no_binary ∷ plain crash ∷ []

script_ends :
    let (s, o) = run doubling script (new (pos 2) true) in
    (o ≡ max_restarts_reached)
    × (s.log
        ≡ state_change backoff stopped
          ∷ state_change starting backoff
          ∷ restart 2 (pos 500)
          ∷ state_change backoff starting
          ∷ state_change running backoff
          ∷ restart 1 (pos 250)
          ∷ exit 1 1000
          ∷ start 7
          ∷ state_change starting running
          ∷ state_change created starting
          ∷ [])
unfolding run turn run_once set_state open_pipe run_command run_started after_run schedule_restart
    new extract_exit_code close_both
script_ends = (refl, refl)

killed_ends : (run doubling (killed ∷ []) (new (pos 0) true)).1 ≡ cancelled
unfolding run turn run_once set_state open_pipe run_command run_started after_run schedule_restart
    new extract_exit_code close_both
killed_ends = refl

run-Follows_example :
    Rests (run doubling script (new (pos 2) true))
    × Follows (run doubling script (new (pos 2) true)).0
run-Follows_example = run-Follows doubling (pos 2) true script

run-max_restarts_example :
    let (t, o) = run doubling script (new (pos 2) true) in
    (starts t.log ≤ 2)
    × (t.restarts ≤ 2)
    × (announced t.log ≡ t.restarts)
    × (starts t.log ≡ exits t.log)
run-max_restarts_example = run-max_restarts doubling 2 true script (omega arith)

run_returns_example : (run doubling script (new (pos 2) true)).1 ≢ continues
run_returns_example = run_returns doubling 2 true script (omega arith) (omega arith)

run_goes_on_example :
    let (t, o) = run doubling script (new (pos 0) true) in
    (o ≡ continues) × (announced t.log ≡ length script)
run_goes_on_example =
    run_goes_on doubling (pos 0) true script (inl (omega arith))
      (refl, refl, refl, (refl, refl, refl, (refl, refl, refl, tt)))

run-open_fds_example : (run doubling script (new (pos 2) true)).0.open_fds ≡ []
unfolding new
run-open_fds_example = run-open_fds doubling script (new (pos 2) true)
