-- ===== src/Supervisor/Runs.antt =====
-- What `runOnce` of supervisor.go logs, and what it leaves of the counters of `Run`.
use go_ffmpeg_hls_swarm.Common.{
  ℕ, suc, ◌+◌, ◌≤◌, ◌≡◌, List, [], ◌∷◌, true, ℤ, arith, Option, none, some,
}
use go_ffmpeg_hls_swarm.Supervisor.{
  State, created, starting, Event, start, exit, restart, Supervisor, Process, set_state, run_once,
  run_started, run_command, open_pipe,
}

-- The processes that a log shows as started, as ended, and the restarts that it announces.
abbrev pub starts : List Event → ℕ
starts [] = 0
starts (start pid ∷ l) = suc (starts l)
starts (_ ∷ l) = starts l

abbrev pub exits : List Event → ℕ
exits [] = 0
exits (exit code uptime ∷ l) = suc (exits l)
exits (_ ∷ l) = exits l

abbrev pub announced : List Event → ℕ
announced [] = 0
announced (restart attempt delay ∷ l) = suc (announced l)
announced (_ ∷ l) = announced l

-- The number and the delay of the restart that was announced last.
abbrev pub last_restart : List Event → Option (ℕ × ℤ)
last_restart [] = none
last_restart (restart attempt delay ∷ l) = some (attempt, delay)
last_restart (_ ∷ l) = last_restart l

-- What a change of state, or of descriptors, leaves as it was.
abbrev pub Keeps : Supervisor → Supervisor → Type 0
Keeps s t =
    (t.max_restarts ≡ s.max_restarts)
    × (t.restarts ≡ s.restarts)
    × (t.attempts ≡ s.attempts)
    × (announced t.log ≡ announced s.log)

abbrev pub Idle : Supervisor → Supervisor → Type 0
Idle s t = Keeps s t × ((starts t.log ≡ starts s.log) × (exits t.log ≡ exits s.log))

pub set_state-Idle : (t : State) (s : Supervisor) → Idle s (set_state t s)
unfolding set_state
set_state-Idle created s = ground arith
set_state-Idle t s = ground arith

-- A call of `runOnce` starts one process at most, and sees the end of each that it starts.
abbrev pub Runs : Supervisor → Supervisor → Type 0
Runs s t =
    Keeps s t
    × (starts t.log ≤ starts s.log + 1)
    × (starts t.log + exits s.log ≡ exits t.log + starts s.log)

run_started-Runs : (p : Process) (s : Supervisor) → Runs s (run_started p s).0
unfolding run_started
run_started-Runs p s = ground (arith, set_state-Idle starting s)

run_command-Runs : (p : Process) (s : Supervisor) → Runs s (run_command p s).0
unfolding run_command
run_command-Runs p s = ground (arith, run_started-Runs p (record s { has_cmd = true }))

pub run_once-Runs : (p : Process) (s : Supervisor) → Runs s (run_once p s).0
unfolding run_once
run_once-Runs p s =
    let s' = set_state starting s in
    ground
      (arith, set_state-Idle starting s, run_command-Runs p s', run_command-Runs p (open_pipe s'))
