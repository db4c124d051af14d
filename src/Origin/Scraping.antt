-- ===== src/Origin/Scraping.antt =====
-- origin_scraper.go: what a scrape makes of the exporters' answers.
use go_ffmpeg_hls_swarm.Common.{
  ℕ, Bool, true, false, ◌||◌, ◌&&◌, if◌then◌else◌, List, [], ◌∷◌, ◌++◌, ℤ, pos, ltb_ℤ, sub_ℕ,
  Option, none, some, Text, codes, text_eq, join, format_int, lookup, Float,
}
use go_ffmpeg_hls_swarm.Aggregator.{seconds}
use go_ffmpeg_hls_swarm.Origin.{
  Metric, Families, Answer, refused, status, undecodable, decoded, OriginMetrics, OriginScraper,
  add_rate, zero,
}

-- Whether the device is the loopback.
unfoldable pub is_loopback : List (Text × Text) → Bool
unfolding text_eq
is_loopback [] = false
is_loopback ((name, value) ∷ labels) =
    (text_eq name (codes "device") && text_eq value (codes "lo")) || is_loopback labels

abbrev pub if_configured : {A : Type 0} → Text → (A → A) → A → A
if_configured [] f a = a
if_configured (c ∷ url) f a = f a

module _ (F : Float) where
  -- `extractCPUUsage`: the counters of all modes and of the idle one.
  unfoldable pub cpu_labels : F.F → List (Text × Text) → F.F × F.F → F.F × F.F
  unfolding text_eq
  cpu_labels value [] sums = sums
  cpu_labels value ((name, mode) ∷ labels) (total, idle) = cpu_labels value labels (
      if text_eq name (codes "mode")
      then (F.add total value, if text_eq mode (codes "idle") then F.add idle value else idle)
      else (total, idle))

  unfoldable pub cpu_sums : List (Metric F.F) → F.F × F.F → F.F × F.F
  unfolding cpu_labels
  cpu_sums [] sums = sums
  cpu_sums (m ∷ metrics) sums = cpu_sums metrics (cpu_labels m.counter_value m.labels sums)

  abbrev equal : F.F → F.F → Bool
  equal a b = F.le a b && F.le b a

  unfoldable pub extract_cpu_usage : Families F.F → F.F
  unfolding cpu_sums lookup
  extract_cpu_usage families = elim (lookup (codes "node_cpu_seconds_total") families) [
    | none ↦ zero F
    | some metrics ↦
        let (total, idle) = cpu_sums metrics (zero F, zero F) in
        if equal total (zero F)
        then zero F
        else F.mul (F.sub (F.lit 1 0) (F.div idle total)) (F.lit 100 0)
  ]

  abbrev first_gauge : List (Metric F.F) → F.F
  first_gauge [] = zero F
  first_gauge (m ∷ metrics) = m.gauge_value

  abbrev available : Families F.F → Option (List (Metric F.F))
  available families = elim (lookup (codes "node_memory_MemAvailable_bytes") families) [
    | some metrics ↦ some metrics
    | none ↦ lookup (codes "node_memory_MemFree_bytes") families
  ]

  -- `extractMemory`: the bytes used, those in all and the percentage.
  unfoldable pub extract_memory : Families F.F → ℤ × ℤ × F.F
  unfolding lookup
  extract_memory families = elim (lookup (codes "node_memory_MemTotal_bytes") families) [
    | none ↦ (pos 0, pos 0, zero F)
    | some all ↦ elim (available families) [
      | none ↦ (pos 0, pos 0, zero F)
      | some free ↦
          let total = F.to_int (first_gauge all) in
          let used = F.to_int (F.sub (first_gauge all) (first_gauge free)) in
          (
            used,
            total,
            if ltb_ℤ (pos 0) total
                then F.mul (F.div (F.of_int used) (F.of_int total)) (F.lit 100 0)
                else zero F,
          )
    ]
  ]

  -- The bytes of all devices but the loopback.
  unfoldable pub sum_devices : F.F → List (Metric F.F) → F.F
  unfolding is_loopback
  sum_devices total [] = total
  sum_devices total (m ∷ metrics) =
      sum_devices (if is_loopback m.labels then total else F.add total m.counter_value) metrics

  abbrev sum_of : (F.F → List (Metric F.F) → F.F) → Text → Families F.F → F.F
  sum_of sum name families = elim (lookup name families) [
    | none ↦ zero F
    | some metrics ↦ sum (zero F) metrics
  ]

  -- The change since the last scrape over the time since then.
  abbrev change_rate : ℕ → Option ℕ → F.F → F.F → F.F
  change_rate now none total prev = zero F
  change_rate now (some before) total prev =
      let delta = seconds F (sub_ℕ now before) in
      if F.lt (zero F) delta then F.div (F.sub total prev) delta else zero F

  -- `extractNetwork`: the rates, with the scraper after it.
  unfoldable pub extract_network :
      ℕ → Families F.F → OriginScraper F.F → (F.F × F.F) × OriginScraper F.F
  unfolding sum_devices add_rate lookup
  extract_network now families s =
      let total_in = sum_of sum_devices (codes "node_network_receive_bytes_total") families in
      let total_out = sum_of sum_devices (codes "node_network_transmit_bytes_total") families in
      let in_rate = change_rate now s.last_net_time total_in s.last_net_in in
      let out_rate = change_rate now s.last_net_time total_out s.last_net_out in
      (
        (in_rate, out_rate),
        record s {
          last_net_in = total_in;
          last_net_out = total_out;
          last_net_time = some now;
          net_in = add_rate s.window_size s.last_clean now in_rate s.net_in;
          net_out = add_rate s.window_size s.last_clean now out_rate s.net_out;
          last_clean = now;
        },
      )

  unfoldable pub extract_nginx_connections : Families F.F → ℤ
  unfolding lookup
  extract_nginx_connections families = elim (lookup (codes "nginx_connections_active") families) [
    | none ↦ pos 0
    | some [] ↦ pos 0
    | some (m ∷ metrics) ↦ F.to_int m.gauge_value
  ]

  unfoldable pub sum_counters : F.F → List (Metric F.F) → F.F
  sum_counters total [] = total
  sum_counters total (m ∷ metrics) = sum_counters (F.add total m.counter_value) metrics

  unfoldable pub sum_histograms : F.F × F.F → List (Metric F.F) → F.F × F.F
  sum_histograms sums [] = sums
  sum_histograms (sum, count) (m ∷ metrics) =
      sum_histograms
        (elim m.histogram [
          | none ↦ (sum, count)
          | some (s, n) ↦ (F.add sum s, F.add count (F.of_int n))
        ])
        metrics

  -- `extractNginxRequests`: the rate of requests and their mean duration, with the scraper after it.
  unfoldable pub extract_nginx_requests :
      ℕ → Families F.F → OriginScraper F.F → (F.F × F.F) × OriginScraper F.F
  unfolding sum_counters sum_histograms lookup
  extract_nginx_requests now families s =
      let total = sum_of sum_counters (codes "nginx_http_requests_total") families in
      let (sum, count) =
        elim (lookup (codes "nginx_http_request_duration_seconds") families) as (λ o. F.F × F.F) [
          | none ↦ (zero F, zero F)
          | some metrics ↦ sum_histograms (zero F, zero F) metrics
        ] in
      (
        (
          change_rate now s.last_nginx_time total s.last_nginx_reqs,
          if F.lt (zero F) count then F.div sum count else zero F,
        ),
        record s { last_nginx_reqs = total; last_nginx_time = some now },
      )

  -- The error of an answer, or the metrics.
  unfoldable pub error_of : Answer F.F → Option Text
  error_of (refused err) = some (codes "http request failed: " ++ err)
  error_of (status code) = some (codes "http status " ++ format_int code)
  error_of (undecodable err) = some (codes "decode error: " ++ err)
  error_of (decoded families) = none

  -- `scrapeNodeExporter` and `scrapeNginxExporter`: an answer that is an error changes nothing.
  unfoldable pub scrape_node_exporter :
      ℕ → Answer F.F → OriginMetrics F.F × OriginScraper F.F → OriginMetrics F.F × OriginScraper F.F
  unfolding extract_cpu_usage extract_memory extract_network
  scrape_node_exporter now (decoded families) (m, s) =
      let (used, total, percent) = extract_memory families in
      let ((in_rate, out_rate), s') = extract_network now families s in
      (
        record m {
          cpu_percent = extract_cpu_usage families;
          mem_used = used;
          mem_total = total;
          mem_percent = percent;
          net_in_rate = in_rate;
          net_out_rate = out_rate;
        },
        s',
      )
  scrape_node_exporter now (refused err) r = r
  scrape_node_exporter now (status code) r = r
  scrape_node_exporter now (undecodable err) r = r

  unfoldable pub scrape_nginx_exporter :
      ℕ → Answer F.F → OriginMetrics F.F × OriginScraper F.F → OriginMetrics F.F × OriginScraper F.F
  unfolding extract_nginx_connections extract_nginx_requests
  scrape_nginx_exporter now (decoded families) (m, s) =
      let ((rate, duration), s') = extract_nginx_requests now families s in
      (
        record m {
          nginx_connections = extract_nginx_connections families;
          nginx_req_rate = rate;
          nginx_req_duration = duration;
        },
        s',
      )
  scrape_nginx_exporter now (refused err) r = r
  scrape_nginx_exporter now (status code) r = r
  scrape_nginx_exporter now (undecodable err) r = r

  -- The error of an exporter that is configured.
  abbrev pub errors_from : Text → Text → Answer F.F → List Text
  errors_from prefix [] answer = []
  errors_from prefix (c ∷ url) answer = elim (error_of answer) [
    | none ↦ []
    | some err ↦ (prefix ++ err) ∷ []
  ]

  -- The metrics to start from: the values of the last scrape.
  abbrev pub last_metrics : ℕ → OriginScraper F.F → OriginMetrics F.F
  last_metrics now s = record s.metrics {
    net_in_p50 = zero F;
    net_in_max = zero F;
    net_out_p50 = zero F;
    net_out_max = zero F;
    net_window_seconds = 0;
    last_update = some now;
    healthy = false;
    error = [];
  }

  -- `scrapeAll` at the time `now`, with the exporters' answers.
  unfoldable pub scrape_all : ℕ → Answer F.F → Answer F.F → OriginScraper F.F → OriginScraper F.F
  unfolding scrape_node_exporter scrape_nginx_exporter error_of join
  scrape_all now node nginx s =
      let (m, s') = if_configured s.nginx_exporter_url (scrape_nginx_exporter now nginx) (
        if_configured s.node_exporter_url (scrape_node_exporter now node)
          (last_metrics now s, s)) in
      let errors =
        errors_from (codes "node_exporter: ") s.node_exporter_url node
        ++ errors_from (codes "nginx_exporter: ") s.nginx_exporter_url nginx in
      record s' {
        metrics = record m {
          healthy = elim errors [ [] ↦ true | e ∷ more ↦ false ];
          error = join errors (codes "; ");
        };
      }
