-- ===== src/Config/Validity.antt =====
-- validate.go against a description of valid configurations.
use go_ffmpeg_hls_swarm.Common.{
  All, ◌≡◌, refl, ◌⊎◌, ◌↔◌, Bool, true, false, List, [], ◌∷◌, Option, ℤ, pos, negsuc, ◌*ℤ◌, ◌≤ℤ◌,
  some, inl, inr, Option-cases, Text, codes, contains, Float, arith, text_eq_iff, In, ◌≢◌,
}
use go_ffmpeg_hls_swarm.Config.{
  Config, Field, Url, one_of, validate_ip, validate_url, collect, validate, tests, window_tests,
  int64_of, variants, policies, formats,
}

collect-nil : (tests : List (Bool × Field)) → (collect tests ≡ []) ↔ All (λ t. t.0 ≡ false) tests
unfolding collect
collect-nil [] = ((λ h. tt), (λ h. refl))
collect-nil ((test, field) ∷ tests) =
    ((λ h. ground (arith, (collect-nil tests).0)), (λ h. ground (arith, (collect-nil tests).1)))

one_of-In : (t : Text) (texts : List Text) → (one_of t texts ≡ true) ↔ In t texts
unfolding one_of
one_of-In t [] = ground arith
one_of-In t (u ∷ texts) = ground (arith, text_eq_iff t u, one_of-In t texts)

-- Products that 64 bits hold do not wrap.
int64_of_id :
    (z : ℤ) → negsuc 9223372036854775807 ≤ℤ z → z ≤ℤ pos 9223372036854775807 → int64_of z ≡ z
unfolding int64_of
int64_of_id (pos n) h k = ground arith
int64_of_id (negsuc n) h k = ground arith

double_interval :
    (z : ℤ)
    → negsuc 4611686018427387903 ≤ℤ z
    → z ≤ℤ pos 4611686018427387903
    → int64_of (pos 2 *ℤ z) ≡ pos 2 *ℤ z
unfolding ◌*ℤ◌
double_interval z h k = int64_of_id (pos 2 *ℤ z) (ground arith) (ground arith)

module _ (parse : Text → Option Url) (F : Float) where
  -- An HTTP URL with a host.
  abbrev pub IsHttpUrl : Text → Type 0
  IsHttpUrl text =
      (u : Url) × (parse text ≡ some u)
      × ((u.scheme ≡ codes "http") ⊎ (u.scheme ≡ codes "https"))
      × (u.host ≢ [])

  validate_url-IsHttpUrl : (text : Text) → (validate_url parse F text ≡ true) ↔ IsHttpUrl text
  unfolding validate_url
  validate_url-IsHttpUrl text = elim (Option-cases (parse text)) [
    | inl e ↦ ((λ h. ground (arith, e, h)), (λ (u, k, s, h). ground (arith, e, k)))
    | inr (u, e) ↦ (
      (λ h. (
        u,
        e,
        ground (
          arith,
          e,
          h,
          text_eq_iff u.scheme (codes "http"),
          text_eq_iff u.scheme (codes "https"),
        ),
        ground (arith, e, h, text_eq_iff u.host []),
      )),
      (λ (v, k, s, h). ground (
        arith,
        e,
        k,
        s,
        h,
        text_eq_iff u.scheme (codes "http"),
        text_eq_iff u.scheme (codes "https"),
        text_eq_iff u.host [],
      )),
    )
  ]

  pub record Valid (cfg : Config F.F) : Type 0 where
    pub url_given : (cfg.stream_url ≢ []) ⊎ (cfg.print_cmd ≡ true)
    pub url_parses : (cfg.stream_url ≡ []) ⊎ IsHttpUrl cfg.stream_url
    pub clients_positive : pos 1 ≤ℤ cfg.clients
    pub rate_positive : pos 1 ≤ℤ cfg.ramp_rate
    pub variant_known :
        In cfg.variant (codes "all" ∷ codes "highest" ∷ codes "lowest" ∷ codes "first" ∷ [])
    pub resolve_allowed : (cfg.resolve_ip ≡ []) ⊎ (cfg.dangerous_mode ≡ true)
    pub resolve_plain : (cfg.resolve_ip ≡ []) ⊎ (contains cfg.resolve_ip (codes "://") ≡ false)
    pub policy_known : In cfg.probe_failure_policy (codes "fallback" ∷ codes "fail" ∷ [])
    pub format_known : In cfg.log_format (codes "json" ∷ codes "text" ∷ [])
    pub timeout_positive : pos 1 ≤ℤ cfg.timeout
    pub backoff_positive : pos 1 ≤ℤ cfg.backoff_initial
    pub backoff_ordered : cfg.backoff_initial ≤ℤ cfg.backoff_max
    pub backoff_grows : F.lt cfg.backoff_multiply (F.lit 1 0) ≡ false
    pub window_bounded :
        ((cfg.origin_metrics_url ≡ []) × (cfg.nginx_metrics_url ≡ []))
        ⊎ ((pos 10000000000 ≤ℤ cfg.origin_metrics_window)
            × (cfg.origin_metrics_window ≤ℤ pos 300000000000)
            × (pos 2 *ℤ cfg.origin_metrics_interval ≤ℤ cfg.origin_metrics_window))

  -- `Validate` finds no error exactly in a valid configuration: one that names a stream of a parsed HTTP URL, or only prints the
  -- command, with at least one client and a rate of one, known variant, policy and format, a resolved
  -- address only in dangerous mode and not a URL, a timeout and backoff above 0, the maximum of the backoff no less
  -- than its start, a factor not below 1, and, where origin metrics are on, a window from 10 s to 300 s and of two scrapes. The interval between scrapes is
  -- less than 2^62 ns either way, so that the product of two of them does not wrap.
  pub validate-Valid :
      (cfg : Config F.F)
      → negsuc 4611686018427387903 ≤ℤ cfg.origin_metrics_interval
      → cfg.origin_metrics_interval ≤ℤ pos 4611686018427387903
      → (validate parse F cfg ≡ []) ↔ Valid cfg
  unfolding validate validate_ip tests window_tests
  validate-Valid cfg low high = (
    (λ h.
        let t = (collect-nil (tests parse F cfg)).0 h in
        record {
          url_given = ground (arith, t.0, text_eq_iff cfg.stream_url []);
          url_parses = ground (
            arith,
            t.1.0,
            text_eq_iff cfg.stream_url [],
            (validate_url-IsHttpUrl cfg.stream_url).0,
          );
          clients_positive = ground (arith, t.1.1.0);
          rate_positive = ground (arith, t.1.1.1.0);
          variant_known = (one_of-In cfg.variant variants).0 (ground (arith, t.1.1.1.1.0));
          resolve_allowed = ground (arith, t.1.1.1.1.1.0, text_eq_iff cfg.resolve_ip []);
          resolve_plain = ground (arith, t.1.1.1.1.1.1.0, text_eq_iff cfg.resolve_ip []);
          policy_known =
              (one_of-In cfg.probe_failure_policy policies).0 (ground (arith, t.1.1.1.1.1.1.1.0));
          format_known = (one_of-In cfg.log_format formats).0 (ground (arith, t.1.1.1.1.1.1.1.1.0));
          timeout_positive = ground (arith, t.1.1.1.1.1.1.1.1.1.0);
          backoff_positive = ground (arith, t.1.1.1.1.1.1.1.1.1.1.0);
          backoff_ordered = ground (arith, t.1.1.1.1.1.1.1.1.1.1.1.0);
          backoff_grows = t.1.1.1.1.1.1.1.1.1.1.1.1.0;
          window_bounded = ground (
            arith,
            t.1.1.1.1.1.1.1.1.1.1.1.1.1.0,
            t.1.1.1.1.1.1.1.1.1.1.1.1.1.1.0,
            t.1.1.1.1.1.1.1.1.1.1.1.1.1.1.1.0,
            double_interval cfg.origin_metrics_interval low high,
            text_eq_iff cfg.origin_metrics_url [],
            text_eq_iff cfg.nginx_metrics_url [],
          );
        }),
    (λ v. (collect-nil (tests parse F cfg)).1 (
      ground (arith, v.url_given, text_eq_iff cfg.stream_url []),
      (
        ground (
          arith,
          v.url_parses,
          text_eq_iff cfg.stream_url [],
          (validate_url-IsHttpUrl cfg.stream_url).1,
        ),
        (
          ground (arith, v.clients_positive),
          (
            ground (arith, v.rate_positive),
            (
              ground (arith, (one_of-In cfg.variant variants).1 v.variant_known),
              (
                ground (arith, v.resolve_allowed, text_eq_iff cfg.resolve_ip []),
                (
                  ground (arith, v.resolve_plain, text_eq_iff cfg.resolve_ip []),
                  (
                    ground (arith, (one_of-In cfg.probe_failure_policy policies).1 v.policy_known),
                    (
                      ground (arith, (one_of-In cfg.log_format formats).1 v.format_known),
                      (
                        ground (arith, v.timeout_positive),
                        (
                          ground (arith, v.backoff_positive),
                          (
                            ground (arith, v.backoff_ordered),
                            (
                              v.backoff_grows,
                              (
                                ground (
                                  arith,
                                  v.window_bounded,
                                  text_eq_iff cfg.origin_metrics_url [],
                                  text_eq_iff cfg.nginx_metrics_url [],
                                ),
                                (
                                  ground (
                                    arith,
                                    v.window_bounded,
                                    text_eq_iff cfg.origin_metrics_url [],
                                    text_eq_iff cfg.nginx_metrics_url [],
                                  ),
                                  (
                                    ground (
                                      arith,
                                      v.window_bounded,
                                      double_interval cfg.origin_metrics_interval low high,
                                      text_eq_iff cfg.origin_metrics_url [],
                                      text_eq_iff cfg.nginx_metrics_url [],
                                    ),
                                    tt,
                                  ),
                                ),
                              ),
                            ),
                          ),
                        ),
                      ),
                    ),
                  ),
                ),
              ),
            ),
          ),
        ),
      ),
    )),
  )
