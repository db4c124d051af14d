-- ===== src/Manager/Active.antt =====
-- client_manager.go: `activeCount` against the states of the supervisors, however their callbacks interleave.
use go_ffmpeg_hls_swarm.Common.{
  All, Bool-cases, length-set, subst, sym, ap, ◌∙◌, ℕ, zero, suc, ◌+◌, ◌<◌, ◌≡◌, refl, inl, inr,
  List, [], ◌∷◌, true, false, pos, ◌+ℤ◌, ◌-ℤ◌, arith, some, get_elem?, set, length, ◌==◌,
  if◌then◌else◌, get_elem?-set_self, get_elem?-set_ne,
}
use go_ffmpeg_hls_swarm.Supervisor.{
  State, created, running, same_state, Event, state_change, start, exit, restart,
}
use go_ffmpeg_hls_swarm.Supervisor.Transitions.{IsPath}
use go_ffmpeg_hls_swarm.Manager.{
  ClientManager, new_client_manager, handle, handle_all, handle_state_change, handle_restart,
}

-- The callbacks of one client, newest first.
abbrev pub events_of : ℕ → List (ℕ × Event) → List Event
events_of i [] = []
events_of i ((client, e) ∷ earlier) =
    if client == i then e ∷ events_of i earlier else events_of i earlier

abbrev pub one_if_running : State → ℕ
one_if_running s = if same_state s running then 1 else 0

abbrev pub count_running : List State → ℕ
count_running [] = 0
count_running (s ∷ states) = one_if_running s + count_running states

abbrev pub count_restarts : List (ℕ × Event) → ℕ
count_restarts [] = 0
count_restarts ((client, restart attempt delay) ∷ earlier) = suc (count_restarts earlier)
count_restarts ((client, e) ∷ earlier) = count_restarts earlier

-- Every callback is of one of the clients, and those of each are a path of the supervisors' diagram from `created` to
-- the client's state.
pub record Runs (states : List State) (events : List (ℕ × Event)) : Type 0 where
  pub path : (i : ℕ) (s : State) → get_elem? states i ≡ some s → IsPath (events_of i events) s
  pub known : All (λ e. e.0 < length states) events

count_running-set :
    (states : List State) (i : ℕ) (old new : State)
    → get_elem? states i ≡ some old
    → count_running (set states i new) + one_if_running old
      ≡ count_running states + one_if_running new
count_running-set [] i old new h = ground arith
count_running-set (s ∷ states) zero old new h = ground arith
count_running-set (s ∷ states) (suc i) old new h =
    omega (arith, count_running-set states i old new h)

handle_state_change-active :
    (old new : State) (m : ClientManager) (n k : ℕ)
    → m.active_count ≡ pos n
    → k + one_if_running old ≡ n + one_if_running new
    → (handle_state_change old new m).active_count ≡ pos k
unfolding handle_state_change ◌+ℤ◌ ◌-ℤ◌
handle_state_change-active old new m n k h e = elim (Bool-cases (same_state old running)) [
  | inl a ↦ elim (Bool-cases (same_state new running)) [
    | inl b ↦ ground arith
    | inr b ↦ ground arith
  ]
  | inr a ↦ elim (Bool-cases (same_state new running)) [
    | inl b ↦ ground arith
    | inr b ↦ ground arith
  ]
]

get_elem?-some :
    (states : List State) (i : ℕ) → i < length states → (s : State) × (get_elem? states i ≡ some s)
get_elem?-some [] i h = absurd (omega arith)
get_elem?-some (s ∷ states) zero h = (s, refl)
get_elem?-some (s ∷ states) (suc i) h = get_elem?-some states i (omega arith)

at_client :
    (client : ℕ) (e : Event) (earlier : List (ℕ × Event)) (s : State)
    → IsPath (events_of client ((client, e) ∷ earlier)) s
    → IsPath (e ∷ events_of client earlier) s
at_client client e earlier s p =
    let same : (client == client) ≡ true = ground arith in
    subst (λ b. IsPath (if b then e ∷ events_of client earlier else events_of client earlier) s)
      same p

at_other :
    (client i : ℕ) (e : Event) (earlier : List (ℕ × Event)) (s : State)
    → (client == i) ≡ false
    → IsPath (events_of i ((client, e) ∷ earlier)) s
    → IsPath (events_of i earlier) s
at_other client i e earlier s h p =
    subst (λ b. IsPath (if b then e ∷ events_of i earlier else events_of i earlier) s) h p

-- Before its last state change a client was in the state that the change names.
before :
    (states : List State) (client : ℕ) (old new : State) (earlier : List (ℕ × Event))
    → Runs states ((client, state_change old new) ∷ earlier)
    → (get_elem? states client ≡ some new) × Runs (set states client old) earlier
before states client old new earlier r =
    let c = get_elem?-some states client r.known.0 in
    let p = at_client client (state_change old new) earlier c.0 (r.path client c.0 c.1) in
    (
      c.1 ∙ ap some (sym p.0),
      record {
        path = λ i s h. elim (Bool-cases (client == i)) [
          | inl e ↦
              let same : client ≡ i = ground arith in
              let now_old : old ≡ s =
                ground (arith, get_elem?-set_self states client old r.known.0) in
              subst (λ j. IsPath (events_of j earlier) s) same
                (subst (IsPath (events_of client earlier)) now_old p.2)
          | inr e ↦
              at_other client i (state_change old new) earlier s e
                (r.path i s (sym (get_elem?-set_ne states old (ground arith)) ∙ h))
        ];
        known = rw (length-set states client old) r.known.1;
      },
    )

all_created :
    (states : List State)
    → ((i : ℕ) (s : State) → get_elem? states i ≡ some s → created ≡ s)
    → count_running states ≡ 0
all_created [] h = refl
all_created (s ∷ states) h = ground (arith, h 0 s refl, all_created states (λ i t e. h (suc i) t e))

passes :
    (states : List State) (client : ℕ) (e : Event) (earlier : List (ℕ × Event))
    → ((l : List Event) (s : State) → IsPath (e ∷ l) s → IsPath l s)
    → Runs states ((client, e) ∷ earlier)
    → Runs states earlier
passes states client e earlier h r = record {
  path = λ i s k.
      elim (client == i)
          as (λ b.
            IsPath (if b then e ∷ events_of i earlier else events_of i earlier) s
            → IsPath (events_of i earlier) s) [ true ↦ h (events_of i earlier) s | false ↦ λ p. p ]
        (r.path i s k);
  known = r.known.1;
}

-- However the callbacks of the supervisors interleave, `activeCount` is the number of the clients whose supervisor is in the
-- state `running`. The callbacks of each client are to lead along the supervisors' diagram from `created`
-- to its state, and there are none of other clients.
pub handle_all-active :
    (events : List (ℕ × Event)) (states : List State)
    → Runs states events
    → (handle_all events new_client_manager).active_count ≡ pos (count_running states)
unfolding handle_all handle handle_restart new_client_manager
handle_all-active [] states r = ground (arith, all_created states r.path)
handle_all-active ((client, state_change old new) ∷ earlier) states r =
    let b = before states client old new earlier r in
    handle_state_change-active old new (handle_all earlier new_client_manager)
      (count_running (set states client old)) (count_running states)
      (handle_all-active earlier (set states client old) b.1)
      (omega (arith, count_running-set states client new old b.0))
handle_all-active ((client, start pid) ∷ earlier) states r =
    handle_all-active earlier states (passes states client (start pid) earlier (λ l s p. p) r)
handle_all-active ((client, exit code uptime) ∷ earlier) states r =
    handle_all-active earlier states
      (passes states client (exit code uptime) earlier (λ l s p. p) r)
handle_all-active ((client, restart attempt delay) ∷ earlier) states r =
    handle_all-active earlier states
      (passes states client (restart attempt delay) earlier (λ l s p. p) r)
