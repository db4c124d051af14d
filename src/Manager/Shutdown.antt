-- ===== src/Manager/Shutdown.antt =====
-- client_manager.go: the clients after a ramp, and what `Shutdown` has waited for.
use go_ffmpeg_hls_swarm.Common.{
  ℕ, zero, suc, ◌+◌, ◌≤◌, ◌≡◌, ◌≢◌, refl, arith, Bool, true, false, List, [], ◌∷◌, ◌++◌, none, some,
  length, All, All-mono, ◌==◌, ◌||◌, Bool-cases, inl, inr,
}
use go_ffmpeg_hls_swarm.Ramp.Starts.{from}
use go_ffmpeg_hls_swarm.Manager.Progress.{put_client}
use go_ffmpeg_hls_swarm.Manager.Clients.{
  Clients, no_clients, start_client, register_stats, register_supervisor, client_count, Moment,
  run_returned, context_done, shutdown, all_clients_stopped, delete_run, is_zero,
}

-- Calls of `StartClient` in a row.
abbrev pub start_all : List ℕ → Clients → Clients
start_all [] m = m
start_all (id ∷ ids) m = start_all ids (start_client id m)

-- The clients 0 to n - 1 of a map, each under its own number.
abbrev numbered : ℕ → ℕ → List (ℕ × ℕ)
numbered i zero = []
numbered i (suc left) = (i, i) ∷ numbered (suc i) left

numbered-put :
    (i left : ℕ) → put_client (i + left) (i + left) (numbered i left) ≡ numbered i (suc left)
unfolding put_client
numbered-put i zero = ground arith
numbered-put i (suc left) = ground (arith, numbered-put (suc i) left)

numbered-length : (i left : ℕ) → length (numbered i left) ≡ left
numbered-length i zero = refl
numbered-length i (suc left) = ground (arith, numbered-length (suc i) left)

length-put_client :
    {A : Type 0} (id : ℕ) (a : A) (m : List (ℕ × A)) → length (put_client id a m) ≤ suc (length m)
unfolding put_client
length-put_client id a [] = omega arith
length-put_client id a ((j, b) ∷ m) = ground (arith, length-put_client id a m)

-- The four maps hold the same objects under the same clients, where statistics are collected, and else only the
-- supervisors are held; no more clients than were started, each with a `Run` to wait for.
pub record Registered (m : Clients) : Type 0 where
  pub stats : m.stats_enabled ≡ true → m.client_stats ≡ m.supervisors
  pub parsers : m.stats_enabled ≡ true → m.debug_parsers ≡ m.supervisors
  pub aggregated : m.aggregated ≡ m.client_stats
  pub count : client_count m ≤ m.started_count
  pub waiting : length m.wait_group ≡ m.started_count

start_client-Registered : (id : ℕ) (m : Clients) → Registered m → Registered (start_client id m)
unfolding start_client register_stats register_supervisor client_count
start_client-Registered id m r = record {
  stats = λ on. ground (arith, r.stats (ground arith));
  parsers = λ on. ground (arith, r.parsers (ground arith));
  aggregated = ground (arith, r.aggregated);
  count = ground (arith, r.count, length-put_client id m.started_count m.supervisors);
  waiting = ground (arith, r.waiting);
}

start_all-Registered : (ids : List ℕ) (m : Clients) → Registered m → Registered (start_all ids m)
unfolding start_client
start_all-Registered [] m r = r
start_all-Registered (id ∷ ids) m r =
    start_all-Registered ids (start_client id m) (start_client-Registered id m r)

-- Whatever clients are started on a new manager, the same one twice included.
start_all-no_clients :
    (enabled : Bool) (ids : List ℕ) → Registered (start_all ids (no_clients enabled))
unfolding no_clients client_count
start_all-no_clients enabled ids = start_all-Registered ids (no_clients enabled) (record {
  stats = λ on. refl;
  parsers = λ on. refl;
  aggregated = refl;
  count = omega arith;
  waiting = refl;
})

start_client-numbered :
    (i : ℕ) (m : Clients)
    → m.supervisors ≡ numbered 0 i
    → m.started_count ≡ i
    → ((start_client i m).supervisors ≡ numbered 0 (suc i))
      × ((start_client i m).started_count ≡ suc i)
unfolding start_client register_stats register_supervisor
start_client-numbered i m h k = (ground (arith, h, k, numbered-put 0 i), ground (arith, k))

start_all-from :
    (left i : ℕ) (m : Clients)
    → m.supervisors ≡ numbered 0 i
    → m.started_count ≡ i
    → ((start_all (from i left) m).supervisors ≡ numbered 0 (i + left))
      × ((start_all (from i left) m).started_count ≡ i + left)
unfolding start_client
start_all-from zero i m h k = (ground (arith, h), ground (arith, k))
start_all-from (suc left) i m h k =
    let next = start_client-numbered i m h k in
    let ih = start_all-from left (suc i) (start_client i m) next.0 next.1 in
    (ground (arith, ih), ground (arith, ih))

-- A ramp starts the clients 0 to n - 1: then they are the clients of the manager, each with the supervisor made for it.
start_all-ramp :
    (enabled : Bool) (n : ℕ)
    → let m = start_all (from 0 n) (no_clients enabled) in
      (m.supervisors ≡ numbered 0 n) × (client_count m ≡ n) × (m.started_count ≡ n)
unfolding no_clients client_count
start_all-ramp enabled n =
    let e = start_all-from n 0 (no_clients enabled) refl refl in
    (ground (arith, e), ground (arith, e, numbered-length 0 n), ground (arith, e))

-- Whether a call of `Run` is among those that return.
abbrev has_returned : ℕ → List Moment → Bool
has_returned n [] = false
has_returned n (run_returned k ∷ later) = k == n || has_returned n later
has_returned n (context_done ∷ later) = has_returned n later

returned-delete :
    (k : ℕ) (later : List Moment) (runs : List ℕ)
    → All (λ n. has_returned n later ≡ true) (delete_run k runs)
    → All (λ n. has_returned n (run_returned k ∷ later) ≡ true) runs
returned-delete k later [] h = tt
returned-delete k later (n ∷ runs) h = elim (Bool-cases (n == k)) [
  | inl e ↦ (
    ground arith,
    All-mono (λ m. has_returned m later ≡ true) (λ m r. ground arith) runs (ground arith),
  )
  | inr e ↦ (ground arith, returned-delete k later runs (ground arith))
]

nothing_left :
    (moments : List Moment) (runs : List ℕ)
    → (is_zero runs ≡ true)
    → All (λ n. has_returned n moments ≡ true) runs
nothing_left moments [] h = tt
nothing_left moments (n ∷ runs) h = ground arith

-- `Shutdown` reports that all clients have stopped only when every `Run` has returned.
shutdown-stopped :
    (tie : Bool) (moments : List Moment) (runs : List ℕ)
    → shutdown tie moments runs ≡ some all_clients_stopped
    → All (λ n. has_returned n moments ≡ true) runs
unfolding shutdown
shutdown-stopped tie [] runs h = nothing_left [] runs (ground arith)
shutdown-stopped tie (context_done ∷ later) runs h =
    nothing_left (context_done ∷ later) runs (ground arith)
shutdown-stopped tie (run_returned k ∷ later) runs h = elim (Bool-cases (is_zero runs)) [
  | inl z ↦ nothing_left (run_returned k ∷ later) runs z
  | inr z ↦
      returned-delete k later runs (shutdown-stopped tie later (delete_run k runs) (ground arith))
]

-- `Shutdown` returns once its context is done, whatever has happened before.
shutdown-returns :
    (tie : Bool) (moments : List Moment) (runs : List ℕ)
    → shutdown tie (moments ++ context_done ∷ []) runs ≢ none
unfolding shutdown
shutdown-returns tie [] runs h = ground arith
shutdown-returns tie (context_done ∷ later) runs h = ground arith
shutdown-returns tie (run_returned k ∷ later) runs h =
    ground (arith, shutdown-returns tie later (delete_run k runs))
