-- ===== src/Aggregator/Sums.antt =====
-- aggregator.go: the totals of `Aggregate` as sums over the clients.
use go_ffmpeg_hls_swarm.Common.{
  ℕ, ◌+◌, ◌≡◌, refl, ◌∙◌, ap, sym, ◌==◌, if◌then◌else◌, List, [], ◌∷◌, ℤ, pos, ◌+ℤ◌, +ℤ_assoc,
  +ℤ_zero, zero_+ℤ, length, Float, arith,
}
use go_ffmpeg_hls_swarm.Client
use go_ffmpeg_hls_swarm.Client.{ClientStats, get_http_errors, is_stalled, has_high_drift}
use go_ffmpeg_hls_swarm.Aggregator.{
  Totals, StatsAggregator, note_client, note_clients, no_totals, aggregate, add_count, add_counts,
  uptime,
}

-- The count that a list of errors has for a code.
abbrev pub errors_for : ℕ → List (ℕ × ℕ) → ℕ
errors_for code [] = 0
errors_for code ((c, n) ∷ m) = (if c == code then n else 0) + errors_for code m

errors_for-add_count :
    (code c n : ℕ) (m : List (ℕ × ℕ))
    → errors_for code (add_count c n m) ≡ errors_for code m + (if c == code then n else 0)
unfolding add_count
errors_for-add_count code c n [] = omega arith
errors_for-add_count code c n ((d, k) ∷ m) = ground (arith, errors_for-add_count code c n m)

pub errors_for-add_counts :
    (code : ℕ) (counts m : List (ℕ × ℕ))
    → errors_for code (add_counts counts m) ≡ errors_for code m + errors_for code counts
unfolding add_counts
errors_for-add_counts code [] m = omega arith
errors_for-add_counts code ((c, n) ∷ counts) m =
    errors_for-add_counts code counts (add_count c n m)
    ∙ ap (λ k. k + errors_for code counts) (errors_for-add_count code c n m)
    ∙ omega arith

module _ {R : Type 0} where
  -- What the clients have together, and what one of them has most.
  abbrev pub sum_of : (ClientStats R → ℕ) → List (ℕ × ClientStats R) → ℕ
  sum_of f [] = 0
  sum_of f ((id, c) ∷ clients) = f c + sum_of f clients

  abbrev pub sum_of_ℤ : (ClientStats R → ℤ) → List (ℕ × ClientStats R) → ℤ
  sum_of_ℤ f [] = pos 0
  sum_of_ℤ f ((id, c) ∷ clients) = f c +ℤ sum_of_ℤ f clients

  sum_of-one : (clients : List (ℕ × ClientStats R)) → sum_of (λ c. 1) clients ≡ length clients
  sum_of-one [] = refl
  sum_of-one ((id, c) ∷ clients) = omega (arith, sum_of-one clients)

module _ (F : Float) where
  note_clients-sum :
      (field : Totals F.F → ℕ) (f : ClientStats F.F → ℕ) (now : ℕ)
      → ((c : ClientStats F.F) (t : Totals F.F) → field (note_client F now c t) ≡ field t + f c)
      → (clients : List (ℕ × ClientStats F.F)) (t : Totals F.F)
      → field (note_clients F now clients t) ≡ field t + sum_of f clients
  unfolding note_clients
  note_clients-sum field f now h [] t = omega arith
  note_clients-sum field f now h ((id, c) ∷ clients) t =
      omega (arith, note_clients-sum field f now h clients (note_client F now c t), h c t)

  note_clients-sum_ℤ :
      (field : Totals F.F → ℤ) (f : ClientStats F.F → ℤ) (now : ℕ)
      → ((c : ClientStats F.F) (t : Totals F.F) → field (note_client F now c t) ≡ field t +ℤ f c)
      → (clients : List (ℕ × ClientStats F.F)) (t : Totals F.F)
      → field (note_clients F now clients t) ≡ field t +ℤ sum_of_ℤ f clients
  unfolding note_clients
  note_clients-sum_ℤ field f now h [] t = sym (+ℤ_zero (field t))
  note_clients-sum_ℤ field f now h ((id, c) ∷ clients) t =
      note_clients-sum_ℤ field f now h clients (note_client F now c t)
      ∙ ap (λ z. z +ℤ sum_of_ℤ f clients) (h c t)
      ∙ +ℤ_assoc (field t) (f c) (sum_of_ℤ f clients)

  totals-sum :
      (field : Totals F.F → ℕ) (f : ClientStats F.F → ℕ) (now : ℕ)
      → ((c : ClientStats F.F) (t : Totals F.F) → field (note_client F now c t) ≡ field t + f c)
      → field (no_totals F) ≡ 0
      → (clients : List (ℕ × ClientStats F.F))
      → field (note_clients F now clients (no_totals F)) ≡ sum_of f clients
  totals-sum field f now h k clients =
      omega (arith, note_clients-sum field f now h clients (no_totals F), k)

  totals-sum_ℤ :
      (field : Totals F.F → ℤ) (f : ClientStats F.F → ℤ) (now : ℕ)
      → ((c : ClientStats F.F) (t : Totals F.F) → field (note_client F now c t) ≡ field t +ℤ f c)
      → field (no_totals F) ≡ pos 0
      → (clients : List (ℕ × ClientStats F.F))
      → field (note_clients F now clients (no_totals F)) ≡ sum_of_ℤ f clients
  totals-sum_ℤ field f now h k clients =
      note_clients-sum_ℤ field f now h clients (no_totals F)
      ∙ ap (λ z. z +ℤ sum_of_ℤ f clients) k
      ∙ zero_+ℤ (sum_of_ℤ f clients)

  -- Each total is the sum of the clients' counters.
  pub record SumsUp (now : ℕ) (clients : List (ℕ × ClientStats F.F)) (t : Totals F.F) : Type 0 where
    pub active : t.active_clients ≡ length clients
    pub stalled : t.stalled_clients ≡ sum_of (λ c. if is_stalled now c then 1 else 0) clients
    pub manifests : t.total_manifest_reqs ≡ sum_of (λ c. c.manifest_requests) clients
    pub segments : t.total_segment_reqs ≡ sum_of (λ c. c.segment_requests) clients
    pub inits : t.total_init_reqs ≡ sum_of (λ c. c.init_requests) clients
    pub unknowns : t.total_unknown_reqs ≡ sum_of (λ c. c.unknown_requests) clients
    pub bytes : t.total_bytes ≡ sum_of_ℤ Client.total_bytes clients
    pub errors :
        (code : ℕ)
        → errors_for code t.total_http_errors
          ≡ sum_of (λ c. errors_for code (get_http_errors c)) clients
    pub reconnected : t.total_reconnections ≡ sum_of (λ c. c.reconnections) clients
    pub timed_out : t.total_timeouts ≡ sum_of (λ c. c.timeouts) clients
    pub drifting :
        t.clients_with_high_drift ≡ sum_of (λ c. if has_high_drift c then 1 else 0) clients
    pub dropped :
        t.total_lines_dropped
        ≡ sum_of (λ c. c.progress_lines_dropped + c.stderr_lines_dropped) clients
    pub read :
        t.total_lines_read ≡ sum_of (λ c. c.progress_lines_read + c.stderr_lines_read) clients
    pub uptimes : t.total_uptime ≡ sum_of_ℤ (uptime now) clients

  -- Whatever the clients are, the totals of `Aggregate` are the sums over them: the clients, those that are stalled or
  -- drift too far, the requests of each kind, the bytes, the HTTP errors of each code, reconnections, timeouts, the lines
  -- read and dropped, and the uptime.
  pub aggregate-SumsUp :
      (now : ℕ) (a : StatsAggregator F.F) → SumsUp now a.clients (aggregate F now a).0.totals
  unfolding aggregate note_client no_totals
  aggregate-SumsUp now a = record {
    active =
        totals-sum (λ t. t.active_clients) (λ c. 1) now (λ c t. omega arith) refl a.clients
        ∙ sum_of-one a.clients;
    stalled =
        totals-sum (λ t. t.stalled_clients) (λ c. if is_stalled now c then 1 else 0) now
          (λ c t. refl) refl a.clients;
    manifests =
        totals-sum (λ t. t.total_manifest_reqs) (λ c. c.manifest_requests) now (λ c t. refl) refl
          a.clients;
    segments =
        totals-sum (λ t. t.total_segment_reqs) (λ c. c.segment_requests) now (λ c t. refl) refl
          a.clients;
    inits =
        totals-sum (λ t. t.total_init_reqs) (λ c. c.init_requests) now (λ c t. refl) refl a.clients;
    unknowns =
        totals-sum (λ t. t.total_unknown_reqs) (λ c. c.unknown_requests) now (λ c t. refl) refl
          a.clients;
    bytes = totals-sum_ℤ (λ t. t.total_bytes) Client.total_bytes now (λ c t. refl) refl a.clients;
    errors = λ code.
        totals-sum (λ t. errors_for code t.total_http_errors)
          (λ c. errors_for code (get_http_errors c)) now
          (λ c t. errors_for-add_counts code (get_http_errors c) t.total_http_errors) refl
          a.clients;
    reconnected =
        totals-sum (λ t. t.total_reconnections) (λ c. c.reconnections) now (λ c t. refl) refl
          a.clients;
    timed_out =
        totals-sum (λ t. t.total_timeouts) (λ c. c.timeouts) now (λ c t. refl) refl a.clients;
    drifting =
        totals-sum (λ t. t.clients_with_high_drift) (λ c. if has_high_drift c then 1 else 0) now
          (λ c t. refl) refl a.clients;
    dropped =
        totals-sum (λ t. t.total_lines_dropped)
          (λ c. c.progress_lines_dropped + c.stderr_lines_dropped) now (λ c t. refl) refl a.clients;
    read =
        totals-sum (λ t. t.total_lines_read) (λ c. c.progress_lines_read + c.stderr_lines_read) now
          (λ c t. refl) refl a.clients;
    uptimes = totals-sum_ℤ (λ t. t.total_uptime) (uptime now) now (λ c t. refl) refl a.clients;
  }
