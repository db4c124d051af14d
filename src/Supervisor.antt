-- ===== src/Supervisor.antt =====
-- internal/supervisor/state.go and supervisor.go: one supervised FFmpeg process. The environment
-- of one turn of `Run` (what the operating system and the context do) is a value, `Round`.
pub mod Transitions
mod Runs
pub mod Restarts
pub mod Descriptors
mod Examples
use go_ffmpeg_hls_swarm.Common.{
  ℕ, suc, ◌+◌, ◌≤◌, ◌≡◌, List, [], ◌∷◌, ◌++◌, Bool, true, false, ◌&&◌, ◌||◌, not, ℤ, pos, negsuc,
  leb, ltb, ◌==◌, if◌then◌else◌, Option, none, some,
}

-- state.go, `State`.
pub data State : Type 0 where
  created starting running backoff stopped : State

-- `State.IsActive`.
abbrev pub is_active : State → Bool
is_active starting = true
is_active running = true
is_active backoff = true
is_active _ = false

-- `State.IsTerminal`.
abbrev pub is_terminal : State → Bool
is_terminal stopped = true
is_terminal _ = false

-- `oldState != newState`.
abbrev pub same_state : State → State → Bool
same_state created created = true
same_state starting starting = true
same_state running running = true
same_state backoff backoff = true
same_state stopped stopped = true
same_state _ _ = false

-- The calls of `Callbacks`, as entries of a log. Durations are nanoseconds.
pub data Event : Type 0 where
  state_change : State → State → Event
  start : ℕ → Event
  exit : ℕ → ℕ → Event
  restart : ℕ → ℤ → Event

-- The ends of the progress pipe that the parent holds.
pub data Descriptor : Type 0 where
  read_end write_end : Descriptor

-- The part of `Supervisor` that `Run` reads and writes. `attempts` is the counter of its `Backoff`.
-- `has_cmd` tells whether `cmd` is set; `open_fds` are descriptors opened and not yet closed.
pub record Supervisor : Type 0 where
  pub state : State
  pub max_restarts : ℤ
  pub restarts : ℕ
  pub attempts : ℕ
  pub stats_enabled : Bool
  pub has_cmd : Bool
  pub open_fds : List Descriptor
  pub log : List Event

-- `New`: the fields above, and the defaults of the two that it corrects.
unfoldable pub new : ℤ → Bool → Supervisor
new max stats = record {
  state = created;
  max_restarts = max;
  restarts = 0;
  attempts = 0;
  stats_enabled = stats;
  has_cmd = false;
  open_fds = [];
  log = [];
}

-- `setState`: the callback runs only on a change. The log grows at its head.
pub set_state : State → Supervisor → Supervisor
set_state t s =
    if same_state s.state t then s else record s { state = t; log = state_change s.state t ∷ s.log }

-- What `cmd.Wait` returns, as far as `extractExitCode` tells its values apart.
pub data WaitError : Type 0 where
  no_error : WaitError
  signaled : ℕ → WaitError
  exited : ℕ → WaitError
  unknown_sys : WaitError
  other_error : WaitError

-- `extractExitCode`.
unfoldable pub extract_exit_code : WaitError → ℕ
extract_exit_code no_error = 0
extract_exit_code (signaled n) = 128 + n
extract_exit_code (exited n) = n
extract_exit_code unknown_sys = 1
extract_exit_code other_error = 1

abbrev pub is_error : WaitError → Bool
is_error no_error = false
is_error _ = true

-- `BackoffResetThreshold` and `ShouldReset` of backoff.go.
abbrev pub backoff_reset_threshold : ℕ
backoff_reset_threshold = 30000000000

abbrev pub should_reset : ℕ → ℕ → Bool
should_reset uptime exit_code =
    if leb backoff_reset_threshold uptime then true else if exit_code == 0 then true else false

-- What the system calls of one `runOnce` do.
pub record Process : Type 0 where
  pub pipe_created : Bool
  pub command_built : Bool
  pub stderr_created : Bool
  pub started : Bool
  pub pid : ℕ
  pub uptime : ℕ
  pub wait_error : WaitError

-- The results of `runOnce`; `failed` is `err != nil`.
pub record Ended : Type 0 where
  pub exit_code : ℕ
  pub ran_for : ℕ
  pub failed : Bool

abbrev could_not_run : Ended
could_not_run = record { exit_code = 1; ran_for = 0; failed = true }

open_pipe : Supervisor → Supervisor
open_pipe s = record s { open_fds = read_end ∷ write_end ∷ s.open_fds }

abbrev is_read_end : Descriptor → Bool
is_read_end read_end = true
is_read_end write_end = false

-- `Close` of one end; on a nil file the source calls nothing.
close_read : List Descriptor → List Descriptor
close_read [] = []
close_read (read_end ∷ fds) = fds
close_read (write_end ∷ fds) = write_end ∷ close_read fds

close_write : List Descriptor → List Descriptor
close_write [] = []
close_write (write_end ∷ fds) = fds
close_write (read_end ∷ fds) = read_end ∷ close_write fds

close_both : Supervisor → Supervisor
unfolding close_read close_write
close_both s =
    if s.stats_enabled then record s { open_fds = close_write (close_read s.open_fds) } else s

-- From `cmd.Start` to the end of `runOnce`.
run_started : Process → Supervisor → Supervisor × Ended
unfolding close_both set_state
run_started p s =
    let parent = record s {
      open_fds = if s.stats_enabled then close_write s.open_fds else s.open_fds;
    } in
    let up = set_state running parent in
    let code = extract_exit_code p.wait_error in
    (
      record up {
        has_cmd = false;
        open_fds = if s.stats_enabled then close_read up.open_fds else up.open_fds;
        log = exit code p.uptime ∷ start p.pid ∷ up.log;
      },
      record { exit_code = code; ran_for = p.uptime; failed = is_error p.wait_error },
    )

-- From `BuildCommand` on, with the pipe open if stats are enabled.
run_command : Process → Supervisor → Supervisor × Ended
unfolding close_both
run_command p s =
    if not p.command_built
    then (close_both s, could_not_run)
    else if s.stats_enabled && not p.stderr_created
    then (close_both s, could_not_run)
    else if not p.started
    then (close_both (record s { has_cmd = true }), could_not_run)
    else run_started p (record s { has_cmd = true })

-- `runOnce`.
pub run_once : Process → Supervisor → Supervisor × Ended
unfolding open_pipe
run_once p s =
    let s' = set_state starting s in
    if s'.stats_enabled
    then (if not p.pipe_created then (s', could_not_run) else run_command p (open_pipe s'))
    else run_command p s'

-- One turn of the loop of `Run`: what the context says at the three places where it is asked, what
-- the process does, and the random draw of the backoff.
pub record Round (Draw : Type 0) : Type 0 where
  pub done_before : Bool
  pub process : Process
  pub done_after : Bool
  pub draw : Draw
  pub done_waiting : Bool

pub data Outcome : Type 0 where
  continues cancelled max_restarts_reached : Outcome

-- `s.maxRestarts > 0 && s.restarts >= s.maxRestarts`.
abbrev pub limit_reached : ℤ → ℕ → Bool
limit_reached (pos m) n = ltb 0 m && leb m n
limit_reached (negsuc m) n = false

-- `calculate` is `Backoff.Calculate` at an attempt and a random draw.
module _ {Draw : Type 0} (calculate : ℕ → Draw → ℤ) where
  -- After `runOnce` returned and the context was not found cancelled.
  schedule_restart : Round Draw → Supervisor → Ended → Supervisor × Outcome
  unfolding set_state
  schedule_restart r s e =
      let attempts = if should_reset e.ran_for e.exit_code then 0 else s.attempts in
      let delay = calculate attempts r.draw in
      let s' = record s {
        attempts = attempts + 1;
        restarts = s.restarts + 1;
        log = restart (s.restarts + 1) delay ∷ s.log;
      } in
      let waiting = set_state backoff s' in
      if r.done_waiting then (set_state stopped waiting, cancelled) else (waiting, continues)

  after_run : Round Draw → Supervisor × Ended → Supervisor × Outcome
  after_run r (s, e) =
      if e.failed && r.done_after then (set_state stopped s, cancelled) else schedule_restart r s e

  -- One turn of the loop.
  pub turn : Round Draw → Supervisor → Supervisor × Outcome
  turn r s =
      if r.done_before
      then (set_state stopped s, cancelled)
      else if limit_reached s.max_restarts s.restarts
      then (set_state stopped s, max_restarts_reached)
      else after_run r (run_once r.process s)

  -- `Run`, over the turns that the environment gives; it is still looping when they are used up.
  pub run : List (Round Draw) → Supervisor → Supervisor × Outcome
  run [] s = (s, continues)
  run (r ∷ rs) s =
      let (s', o) = turn r s in
      let rest = run rs s' in
      elim o [
        | continues ↦ rest
        | cancelled ↦ (s', cancelled)
        | max_restarts_reached ↦ (s', max_restarts_reached)
      ]
