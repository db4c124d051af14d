-- ===== src/Aggregator/Order.antt =====
-- aggregator.go: the order in which the map gives the clients.
use mathlib.Core.List.{Permᴰ}
use go_ffmpeg_hls_swarm.Common.{
  ℕ, suc, ◌+◌, ◌≡◌, refl, ◌∙◌, ap, sym, subst, if◌then◌else◌, List, [], ◌∷◌, ℤ, pos, ◌+ℤ◌, +ℤ_assoc,
  +ℤ_comm, ltb_ℤ, length, Float, arith,
}
use go_ffmpeg_hls_swarm.Client
use go_ffmpeg_hls_swarm.Client.{ClientStats, get_http_errors}
use go_ffmpeg_hls_swarm.Aggregator.{
  Totals, StatsAggregator, AggregatedStats, note_client, note_clients, no_totals, aggregate,
  add_count, add_counts, uptime, sum_counts,
}
use go_ffmpeg_hls_swarm.Aggregator.Sums.{errors_for, errors_for-add_counts}
use go_ffmpeg_hls_swarm.Aggregator.Same.{Same, Same-refl, Same-trans}

abbrev max_ℤ : ℤ → ℤ → ℤ
max_ℤ a b = if ltb_ℤ a b then b else a

max_ℤ-swap : (a b c : ℤ) → max_ℤ (max_ℤ a b) c ≡ max_ℤ (max_ℤ a c) b
max_ℤ-swap a b c = ground arith

+ℤ_swap : (a b c : ℤ) → a +ℤ b +ℤ c ≡ a +ℤ c +ℤ b
+ℤ_swap a b c = +ℤ_assoc a b c ∙ ap (λ z. a +ℤ z) (+ℤ_comm b c) ∙ sym (+ℤ_assoc a c b)

add_count-sum : (code n : ℕ) (m : List (ℕ × ℕ)) → sum_counts (add_count code n m) ≡ n + sum_counts m
unfolding add_count
add_count-sum code n [] = omega arith
add_count-sum code n ((c, k) ∷ m) = ground (arith, add_count-sum code n m)

add_counts-sum :
    (counts m : List (ℕ × ℕ)) → sum_counts (add_counts counts m) ≡ sum_counts counts + sum_counts m
unfolding add_counts
add_counts-sum [] m = omega arith
add_counts-sum ((c, n) ∷ counts) m =
    omega (arith, add_counts-sum counts (add_count c n m), add_count-sum c n m)

length-Permᴰ : {A : Type 0} {l m : List A} → Permᴰ l m → length l ≡ length m
length-Permᴰ Permᴰ.nil = refl
length-Permᴰ (Permᴰ.cons e p) = ap suc (length-Permᴰ p)
length-Permᴰ (Permᴰ.swap e f) = refl
length-Permᴰ (Permᴰ.trans p q) = length-Permᴰ p ∙ length-Permᴰ q

module _ (F : Float) where
  note_client-Same :
      (now : ℕ) (c : ClientStats F.F) (t t' : Totals F.F)
      → Same t t'
      → Same (note_client F now c t) (note_client F now c t')
  unfolding note_client
  note_client-Same now c t t' h = record {
    same_active_clients = omega (arith, h.same_active_clients);
    same_stalled_clients = omega (arith, h.same_stalled_clients);
    same_total_manifest_reqs = omega (arith, h.same_total_manifest_reqs);
    same_total_segment_reqs = omega (arith, h.same_total_segment_reqs);
    same_total_init_reqs = omega (arith, h.same_total_init_reqs);
    same_total_unknown_reqs = omega (arith, h.same_total_unknown_reqs);
    same_total_reconnections = omega (arith, h.same_total_reconnections);
    same_total_timeouts = omega (arith, h.same_total_timeouts);
    same_clients_above_realtime = omega (arith, h.same_clients_above_realtime);
    same_clients_below_realtime = omega (arith, h.same_clients_below_realtime);
    same_clients_with_high_drift = omega (arith, h.same_clients_with_high_drift);
    same_total_lines_dropped = omega (arith, h.same_total_lines_dropped);
    same_total_lines_read = omega (arith, h.same_total_lines_read);
    same_clients_with_drops = omega (arith, h.same_clients_with_drops);
    same_drift_count = omega (arith, h.same_drift_count);
    same_speed_count = omega (arith, h.same_speed_count);
    same_total_bytes = ap (λ z. z +ℤ Client.total_bytes c) h.same_total_bytes;
    same_total_drift =
        ap (λ z. z +ℤ (if ltb_ℤ (pos 0) c.current_drift then c.current_drift else pos 0))
          h.same_total_drift;
    same_total_uptime = ap (λ z. z +ℤ uptime now c) h.same_total_uptime;
    same_max_drift = ap (λ z. max_ℤ z c.max_drift) h.same_max_drift;
    same_max_uptime = ap (λ z. max_ℤ z (uptime now c)) h.same_max_uptime;
    same_errors = λ code.
        errors_for-add_counts code (get_http_errors c) t.total_http_errors
        ∙ ap (λ n. n + errors_for code (get_http_errors c)) (h.same_errors code)
        ∙ sym (errors_for-add_counts code (get_http_errors c) t'.total_http_errors);
    same_error_sum = omega (
      arith,
      add_counts-sum (get_http_errors c) t.total_http_errors,
      add_counts-sum (get_http_errors c) t'.total_http_errors,
      h.same_error_sum,
    );
  }

  note_client-swap :
      (now : ℕ) (c d : ClientStats F.F) (t : Totals F.F)
      → Same
          (note_client F now d (note_client F now c t))
          (note_client F now c (note_client F now d t))
  unfolding note_client
  note_client-swap now c d t = record {
    same_active_clients = omega arith;
    same_stalled_clients = omega arith;
    same_total_manifest_reqs = omega arith;
    same_total_segment_reqs = omega arith;
    same_total_init_reqs = omega arith;
    same_total_unknown_reqs = omega arith;
    same_total_reconnections = omega arith;
    same_total_timeouts = omega arith;
    same_clients_above_realtime = omega arith;
    same_clients_below_realtime = omega arith;
    same_clients_with_high_drift = omega arith;
    same_total_lines_dropped = omega arith;
    same_total_lines_read = omega arith;
    same_clients_with_drops = omega arith;
    same_drift_count = omega arith;
    same_speed_count = omega arith;
    same_total_bytes = +ℤ_swap t.total_bytes (Client.total_bytes c) (Client.total_bytes d);
    same_total_drift = +ℤ_swap t.total_drift _ _;
    same_total_uptime = +ℤ_swap t.total_uptime _ _;
    same_max_drift = max_ℤ-swap t.max_drift c.max_drift d.max_drift;
    same_max_uptime = max_ℤ-swap t.max_uptime (uptime now c) (uptime now d);
    same_errors = λ code. omega (
      arith,
      errors_for-add_counts code (get_http_errors d)
          (add_counts (get_http_errors c) t.total_http_errors),
      errors_for-add_counts code (get_http_errors c) t.total_http_errors,
      errors_for-add_counts code (get_http_errors c)
          (add_counts (get_http_errors d) t.total_http_errors),
      errors_for-add_counts code (get_http_errors d) t.total_http_errors,
    );
    same_error_sum = omega (
      arith,
      add_counts-sum (get_http_errors d) (add_counts (get_http_errors c) t.total_http_errors),
      add_counts-sum (get_http_errors c) t.total_http_errors,
      add_counts-sum (get_http_errors c) (add_counts (get_http_errors d) t.total_http_errors),
      add_counts-sum (get_http_errors d) t.total_http_errors,
    );
  }

  note_clients-Same :
      (now : ℕ) (clients : List (ℕ × ClientStats F.F)) (t t' : Totals F.F)
      → Same t t'
      → Same (note_clients F now clients t) (note_clients F now clients t')
  unfolding note_clients
  note_clients-Same now [] t t' h = h
  note_clients-Same now ((id, c) ∷ clients) t t' h =
      note_clients-Same now clients _ _ (note_client-Same now c t t' h)

  note_clients-Permᴰ :
      (now : ℕ) {l m : List (ℕ × ClientStats F.F)} (t : Totals F.F)
      → Permᴰ l m
      → Same (note_clients F now l t) (note_clients F now m t)
  unfolding note_clients
  note_clients-Permᴰ now t Permᴰ.nil = Same-refl t
  note_clients-Permᴰ now t (Permᴰ.cons {a} {b} {l₁ = l} {l₂ = m} e p) =
      subst (λ b. Same (note_clients F now (a ∷ l) t) (note_clients F now (b ∷ m) t)) e
        (note_clients-Permᴰ now (note_client F now a.1 t) p)
  note_clients-Permᴰ now t (Permᴰ.swap {a} {b} {a'} {b'} {l} e f) =
      rw (e, f) (note_clients-Same now l _ _ (note_client-swap now b'.1 a'.1 t))
  note_clients-Permᴰ now t (Permᴰ.trans p q) =
      Same-trans _ _ _ (note_clients-Permᴰ now t p) (note_clients-Permᴰ now t q)

  -- What `Aggregate` gives, but for the sum of the speeds, the peak of the drop rates and the least uptime.
  pub record SameStats (r r' : AggregatedStats F.F) : Type 0 where
    pub totals : Same r.totals r'.totals
    pub clients : r.total_clients ≡ r'.total_clients
    pub manifest_rate : r.manifest_req_rate ≡ r'.manifest_req_rate
    pub segment_rate : r.segment_req_rate ≡ r'.segment_req_rate
    pub throughput : r.throughput_bytes_per_sec ≡ r'.throughput_bytes_per_sec
    pub instant_manifest : r.instant_manifest_rate ≡ r'.instant_manifest_rate
    pub instant_segment : r.instant_segment_rate ≡ r'.instant_segment_rate
    pub instant_throughput : r.instant_throughput_rate ≡ r'.instant_throughput_rate
    pub errors : r.error_rate ≡ r'.error_rate
    pub drift : r.average_drift ≡ r'.average_drift
    pub degraded : r.metrics_degraded ≡ r'.metrics_degraded
    pub mean_uptime : r.avg_uptime ≡ r'.avg_uptime

  -- However the map orders its clients: `Aggregate` gives the same totals, the same errors for each code, the same greatest
  -- drift and uptime, the same rates, error rate, mean drift and mean uptime, the same verdict on
  -- dropped lines, and keeps the same snapshot for the next rates.
  pub aggregate-SameStats :
      (now : ℕ) (a : StatsAggregator F.F) (clients : List (ℕ × ClientStats F.F))
      → Permᴰ a.clients clients
      → let (r, b) = aggregate F now a in
        let (r', b') = aggregate F now (record a { clients = clients }) in
        SameStats r r' × (b.prev_snapshot ≡ b'.prev_snapshot)
  unfolding aggregate
  aggregate-SameStats now a clients p =
      let same = note_clients-Permᴰ now (no_totals F) p in
      (
        record {
          totals = same;
          clients = length-Permᴰ p;
          manifest_rate = rw same.same_total_manifest_reqs refl;
          segment_rate = rw same.same_total_segment_reqs refl;
          throughput = rw same.same_total_bytes refl;
          instant_manifest = rw same.same_total_manifest_reqs refl;
          instant_segment = rw same.same_total_segment_reqs refl;
          instant_throughput = rw same.same_total_bytes refl;
          errors =
              rw
                (
                  same.same_error_sum, same.same_total_timeouts, same.same_total_manifest_reqs,
                  same.same_total_segment_reqs, same.same_total_init_reqs,
                )
                refl;
          drift = rw (same.same_total_drift, same.same_drift_count) refl;
          degraded = rw (same.same_total_lines_read, same.same_total_lines_dropped) refl;
          mean_uptime = rw (same.same_total_uptime, same.same_active_clients) refl;
        },
        rw (same.same_total_manifest_reqs, same.same_total_segment_reqs, same.same_total_bytes)
            refl,
      )
