-- ===== src/Manager/Clients.antt =====
-- client_manager.go: the clients that the manager starts, looks up and waits for. What a call of `StartClient` makes (a
-- supervisor with its parsers, and the statistics) goes by the number of the call, from 0 on, so that maps which hold
-- one object hold one number.
use go_ffmpeg_hls_swarm.Common.{
  ℕ, suc, Bool, true, false, not, ◌&&◌, if◌then◌else◌, List, [], ◌∷◌, Option, none, some, length,
  map, ◌==◌,
}
use go_ffmpeg_hls_swarm.Supervisor.{State}
use go_ffmpeg_hls_swarm.Manager.Progress.{get_client, put_client}

-- `aggregated` is the map of the aggregator; `wait_group` are the calls of `Run` that have not returned.
pub record Clients : Type 0 where
  pub stats_enabled : Bool
  pub started_count : ℕ
  pub supervisors : List (ℕ × ℕ)
  pub client_stats : List (ℕ × ℕ)
  pub debug_parsers : List (ℕ × ℕ)
  pub aggregated : List (ℕ × ℕ)
  pub wait_group : List ℕ

unfoldable pub no_clients : Bool → Clients
no_clients enabled = record {
  stats_enabled = enabled;
  started_count = 0;
  supervisors = [];
  client_stats = [];
  debug_parsers = [];
  aggregated = [];
  wait_group = [];
}

-- The statistics of a client, where they are collected: `AddClient`, and the two maps.
unfoldable pub register_stats : ℕ → Clients → Clients
register_stats id m =
    if m.stats_enabled
    then record m {
      aggregated = put_client id m.started_count m.aggregated;
      client_stats = put_client id m.started_count m.client_stats;
      debug_parsers = put_client id m.started_count m.debug_parsers;
    }
    else m

-- The supervisor of a client, and the goroutine of its `Run`.
unfoldable pub register_supervisor : ℕ → Clients → Clients
register_supervisor id m = record m {
  supervisors = put_client id m.started_count m.supervisors;
  started_count = suc m.started_count;
  wait_group = m.started_count ∷ m.wait_group;
}

-- `StartClient`.
unfoldable pub start_client : ℕ → Clients → Clients
unfolding register_stats register_supervisor
start_client id m = register_supervisor id (register_stats id m)

-- `ClientCount`.
unfoldable pub client_count : Clients → ℕ
client_count m = length m.supervisors

-- `GetSupervisor`, `GetClientStats` and the parser of `GetClientDebugStats`.
unfoldable pub get_supervisor : ℕ → Clients → Option ℕ
get_supervisor id m = get_client id m.supervisors

unfoldable pub get_client_stats : ℕ → Clients → Option ℕ
get_client_stats id m = get_client id m.client_stats

unfoldable pub get_debug_parser : ℕ → Clients → Option ℕ
get_debug_parser id m = get_client id m.debug_parsers

-- `States`, where the n-th supervisor is in `state n`.
unfoldable pub states : (ℕ → State) → Clients → List (ℕ × State)
states state m = map (λ e. (e.0, state e.1)) m.supervisors

-- What `Shutdown` waits for: that a call of `Run` returns, or that the context is done.
pub data Moment : Type 0 where
  run_returned : ℕ → Moment
  context_done : Moment

pub data Outcome : Type 0 where
  all_clients_stopped shutdown_timeout : Outcome

abbrev pub delete_run : ℕ → List ℕ → List ℕ
delete_run n [] = []
delete_run n (k ∷ runs) = if k == n then runs else k ∷ delete_run n runs

abbrev pub is_zero : List ℕ → Bool
is_zero [] = true
is_zero (n ∷ runs) = false

-- `Shutdown` over what happens after its call; `none` where it still waits. `tie` says which of two channels that are
-- ready at once `select` takes.
unfoldable pub shutdown : Bool → List Moment → List ℕ → Option Outcome
shutdown tie [] runs = if is_zero runs then some all_clients_stopped else none
shutdown tie (context_done ∷ later) runs =
    if is_zero runs && not tie then some all_clients_stopped else some shutdown_timeout
shutdown tie (run_returned n ∷ later) runs =
    let rest = shutdown tie later (delete_run n runs) in
    if is_zero runs then some all_clients_stopped else rest
