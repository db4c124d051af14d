-- ===== src/Aggregator/Same.antt =====
-- aggregator.go: totals that agree but for the order in which they were taken.
use go_ffmpeg_hls_swarm.Common.{ℕ, ◌≡◌, refl, ◌∙◌}
use go_ffmpeg_hls_swarm.Aggregator.{Totals, sum_counts}
use go_ffmpeg_hls_swarm.Aggregator.Sums.{errors_for}

module _ {R : Type 0} where
  -- Totals that differ at most in the order of their errors, in the sum of the speeds, in the peak of the drop rates and in the
  -- least uptime.
  pub record Same (t t' : Totals R) : Type 0 where
    pub same_active_clients : t.active_clients ≡ t'.active_clients
    pub same_stalled_clients : t.stalled_clients ≡ t'.stalled_clients
    pub same_total_manifest_reqs : t.total_manifest_reqs ≡ t'.total_manifest_reqs
    pub same_total_segment_reqs : t.total_segment_reqs ≡ t'.total_segment_reqs
    pub same_total_init_reqs : t.total_init_reqs ≡ t'.total_init_reqs
    pub same_total_unknown_reqs : t.total_unknown_reqs ≡ t'.total_unknown_reqs
    pub same_total_reconnections : t.total_reconnections ≡ t'.total_reconnections
    pub same_total_timeouts : t.total_timeouts ≡ t'.total_timeouts
    pub same_clients_above_realtime : t.clients_above_realtime ≡ t'.clients_above_realtime
    pub same_clients_below_realtime : t.clients_below_realtime ≡ t'.clients_below_realtime
    pub same_clients_with_high_drift : t.clients_with_high_drift ≡ t'.clients_with_high_drift
    pub same_total_lines_dropped : t.total_lines_dropped ≡ t'.total_lines_dropped
    pub same_total_lines_read : t.total_lines_read ≡ t'.total_lines_read
    pub same_clients_with_drops : t.clients_with_drops ≡ t'.clients_with_drops
    pub same_drift_count : t.drift_count ≡ t'.drift_count
    pub same_speed_count : t.speed_count ≡ t'.speed_count
    pub same_total_bytes : t.total_bytes ≡ t'.total_bytes
    pub same_total_drift : t.total_drift ≡ t'.total_drift
    pub same_total_uptime : t.total_uptime ≡ t'.total_uptime
    pub same_max_drift : t.max_drift ≡ t'.max_drift
    pub same_max_uptime : t.max_uptime ≡ t'.max_uptime
    pub same_errors :
        (code : ℕ) → errors_for code t.total_http_errors ≡ errors_for code t'.total_http_errors
    pub same_error_sum : sum_counts t.total_http_errors ≡ sum_counts t'.total_http_errors

  pub Same-refl : (t : Totals R) → Same t t
  Same-refl t = record {
    same_active_clients = refl;
    same_stalled_clients = refl;
    same_total_manifest_reqs = refl;
    same_total_segment_reqs = refl;
    same_total_init_reqs = refl;
    same_total_unknown_reqs = refl;
    same_total_reconnections = refl;
    same_total_timeouts = refl;
    same_clients_above_realtime = refl;
    same_clients_below_realtime = refl;
    same_clients_with_high_drift = refl;
    same_total_lines_dropped = refl;
    same_total_lines_read = refl;
    same_clients_with_drops = refl;
    same_drift_count = refl;
    same_speed_count = refl;
    same_total_bytes = refl;
    same_total_drift = refl;
    same_total_uptime = refl;
    same_max_drift = refl;
    same_max_uptime = refl;
    same_errors = λ code. refl;
    same_error_sum = refl;
  }

  pub Same-trans : (t t' t'' : Totals R) → Same t t' → Same t' t'' → Same t t''
  Same-trans t t' t'' h k = record {
    same_active_clients = h.same_active_clients ∙ k.same_active_clients;
    same_stalled_clients = h.same_stalled_clients ∙ k.same_stalled_clients;
    same_total_manifest_reqs = h.same_total_manifest_reqs ∙ k.same_total_manifest_reqs;
    same_total_segment_reqs = h.same_total_segment_reqs ∙ k.same_total_segment_reqs;
    same_total_init_reqs = h.same_total_init_reqs ∙ k.same_total_init_reqs;
    same_total_unknown_reqs = h.same_total_unknown_reqs ∙ k.same_total_unknown_reqs;
    same_total_reconnections = h.same_total_reconnections ∙ k.same_total_reconnections;
    same_total_timeouts = h.same_total_timeouts ∙ k.same_total_timeouts;
    same_clients_above_realtime = h.same_clients_above_realtime ∙ k.same_clients_above_realtime;
    same_clients_below_realtime = h.same_clients_below_realtime ∙ k.same_clients_below_realtime;
    same_clients_with_high_drift = h.same_clients_with_high_drift ∙ k.same_clients_with_high_drift;
    same_total_lines_dropped = h.same_total_lines_dropped ∙ k.same_total_lines_dropped;
    same_total_lines_read = h.same_total_lines_read ∙ k.same_total_lines_read;
    same_clients_with_drops = h.same_clients_with_drops ∙ k.same_clients_with_drops;
    same_drift_count = h.same_drift_count ∙ k.same_drift_count;
    same_speed_count = h.same_speed_count ∙ k.same_speed_count;
    same_total_bytes = h.same_total_bytes ∙ k.same_total_bytes;
    same_total_drift = h.same_total_drift ∙ k.same_total_drift;
    same_total_uptime = h.same_total_uptime ∙ k.same_total_uptime;
    same_max_drift = h.same_max_drift ∙ k.same_max_drift;
    same_max_uptime = h.same_max_uptime ∙ k.same_max_uptime;
    same_errors = λ code. h.same_errors code ∙ k.same_errors code;
    same_error_sum = h.same_error_sum ∙ k.same_error_sum;
  }
