-- ===== src/Manager.antt =====
-- internal/orchestrator/client_manager.go: the counts that the manager keeps by the callbacks of its
-- supervisors.
use go_ffmpeg_hls_swarm.Common.{
  ℕ, suc, Bool, true, false, not, ◌&&◌, if◌then◌else◌, List, [], ◌∷◌, ℤ, pos, ◌+ℤ◌, ◌-ℤ◌,
}
use go_ffmpeg_hls_swarm.Supervisor.{
  State, running, same_state, Event, state_change, start, exit, restart,
}
pub mod Callbacks
pub mod Progress
mod Downloads
mod Interplay
mod Sampling
pub mod Debugging
pub mod Clients
mod Shutdown
mod DebugSums
mod Active
mod Statistics
mod Examples
mod ProgressExamples
mod DebugExamples

pub record ClientManager : Type 0 where
  pub active_count : ℤ
  pub started_count : ℕ
  pub restart_count : ℕ

unfoldable pub new_client_manager : ClientManager
new_client_manager = record { active_count = pos 0; started_count = 0; restart_count = 0 }

-- `StartClient` on the counts.
unfoldable pub start_client : ClientManager → ClientManager
start_client m = record m { started_count = suc m.started_count }

-- `handleStateChange`.
unfoldable pub handle_state_change : State → State → ClientManager → ClientManager
handle_state_change old_state new_state m =
    let was_active = same_state old_state running in
    let is_active = same_state new_state running in
    if not was_active && is_active
    then record m { active_count = m.active_count +ℤ pos 1 }
    else if was_active && not is_active
    then record m { active_count = m.active_count -ℤ pos 1 }
    else m

-- `handleRestart`.
unfoldable pub handle_restart : ClientManager → ClientManager
handle_restart m = record m { restart_count = suc m.restart_count }

-- The callback that `StartClient` installs for an event; `handleStart` and `handleExit` only pass it on.
unfoldable pub handle : Event → ClientManager → ClientManager
handle (state_change old_state new_state) m = handle_state_change old_state new_state m
handle (start pid) m = m
handle (exit code uptime) m = m
handle (restart attempt delay) m = handle_restart m

-- The callbacks of all clients, each with its client, newest first.
unfoldable pub handle_all : List (ℕ × Event) → ClientManager → ClientManager
handle_all [] m = m
handle_all ((client, e) ∷ earlier) m = handle e (handle_all earlier m)
