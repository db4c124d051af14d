-- ===== src/Origin/Failures.antt =====
-- origin_scraper.go: an exporter that fails.
use go_ffmpeg_hls_swarm.Common.{
  ℕ, ◌≡◌, ◌≢◌, refl, subst, false, [], ◌∷◌, ◌++◌, some, Text, codes, Float, arith,
}
use go_ffmpeg_hls_swarm.Origin.{
  Answer, refused, status, undecodable, decoded, OriginMetrics, OriginScraper,
}
use go_ffmpeg_hls_swarm.Origin.Scraping.{
  extract_network, extract_nginx_requests, scrape_node_exporter, scrape_nginx_exporter, error_of,
  errors_from, if_configured, last_metrics, scrape_all,
}

module _ (F : Float) where
  abbrev State : Type 0
  State = OriginMetrics F.F × OriginScraper F.F

  -- What a scrape of each exporter may change.
  pub record NodePart (r r' : State) : Type 0 where
    pub cpu_percent : r'.0.cpu_percent ≡ r.0.cpu_percent
    pub mem_used : r'.0.mem_used ≡ r.0.mem_used
    pub mem_total : r'.0.mem_total ≡ r.0.mem_total
    pub mem_percent : r'.0.mem_percent ≡ r.0.mem_percent
    pub net_in_rate : r'.0.net_in_rate ≡ r.0.net_in_rate
    pub net_out_rate : r'.0.net_out_rate ≡ r.0.net_out_rate
    pub last_net_in : r'.1.last_net_in ≡ r.1.last_net_in
    pub last_net_out : r'.1.last_net_out ≡ r.1.last_net_out
    pub last_net_time : r'.1.last_net_time ≡ r.1.last_net_time
    pub net_in : r'.1.net_in ≡ r.1.net_in
    pub net_out : r'.1.net_out ≡ r.1.net_out

  pub record NginxPart (r r' : State) : Type 0 where
    pub nginx_connections : r'.0.nginx_connections ≡ r.0.nginx_connections
    pub nginx_req_rate : r'.0.nginx_req_rate ≡ r.0.nginx_req_rate
    pub nginx_req_duration : r'.0.nginx_req_duration ≡ r.0.nginx_req_duration
    pub last_nginx_reqs : r'.1.last_nginx_reqs ≡ r.1.last_nginx_reqs
    pub last_nginx_time : r'.1.last_nginx_time ≡ r.1.last_nginx_time

  node_NginxPart :
      (url : Text) (now : ℕ) (node : Answer F.F) (r : State)
      → NginxPart r (if_configured url (scrape_node_exporter F now node) r)
  unfolding scrape_node_exporter extract_network
  node_NginxPart [] now node r = ground arith
  node_NginxPart (c ∷ url) now (decoded families) r = ground arith
  node_NginxPart (c ∷ url) now (refused err) r = ground arith
  node_NginxPart (c ∷ url) now (status code) r = ground arith
  node_NginxPart (c ∷ url) now (undecodable err) r = ground arith

  nginx_NodePart :
      (url : Text) (now : ℕ) (nginx : Answer F.F) (r : State)
      → NodePart r (if_configured url (scrape_nginx_exporter F now nginx) r)
  unfolding scrape_nginx_exporter extract_nginx_requests
  nginx_NodePart [] now nginx r = ground arith
  nginx_NodePart (c ∷ url) now (decoded families) r = ground arith
  nginx_NodePart (c ∷ url) now (refused err) r = ground arith
  nginx_NodePart (c ∷ url) now (status code) r = ground arith
  nginx_NodePart (c ∷ url) now (undecodable err) r = ground arith

  -- The scrape of the one exporter reads nothing of the other's part.
  nginx_same :
      (url : Text) (now : ℕ) (nginx : Answer F.F) (r r' : State)
      → NginxPart r r'
      → NginxPart
          (if_configured url (scrape_nginx_exporter F now nginx) r)
          (if_configured url (scrape_nginx_exporter F now nginx) r')
  unfolding scrape_nginx_exporter extract_nginx_requests
  nginx_same [] now nginx r r' h = h
  nginx_same (c ∷ url) now (decoded families) r r' h = ground arith
  nginx_same (c ∷ url) now (refused err) r r' h = h
  nginx_same (c ∷ url) now (status code) r r' h = h
  nginx_same (c ∷ url) now (undecodable err) r r' h = h

  fails :
      (url : Text) (now : ℕ) (node : Answer F.F) (r : State) (err : Text)
      → error_of F node ≡ some err
      → if_configured url (scrape_node_exporter F now node) r ≡ r
  unfolding scrape_node_exporter error_of
  fails [] now node r err h = refl
  fails (c ∷ url) now (decoded families) r err h = cc
  fails (c ∷ url) now (refused e) r err h = refl
  fails (c ∷ url) now (status code) r err h = refl
  fails (c ∷ url) now (undecodable e) r err h = refl

  node_errors :
      (url : Text) (node : Answer F.F) (err : Text)
      → error_of F node ≡ some err
      → url ≢ []
      → errors_from F (codes "node_exporter: ") url node ≡ (codes "node_exporter: " ++ err) ∷ []
  node_errors [] node err h k = absurd (k refl)
  node_errors (c ∷ url) node err h k = rw (h, errors_from) refl

  unhealthy :
      (now : ℕ) (node nginx : Answer F.F) (s : OriginScraper F.F) (err : Text)
      → error_of F node ≡ some err
      → s.node_exporter_url ≢ []
      → (scrape_all F now node nginx s).metrics.healthy ≡ false
  unfolding scrape_all
  unhealthy now node nginx s err h k =
      rw (node_errors s.node_exporter_url node err h k, scrape_all) refl

  -- Where the node exporter is configured and fails, the scrape is not healthy; its metrics, the bytes and
  -- the time that the next rate is counted from, and the windows stay as they were; and the metrics
  -- of the other exporter come out as they would with any other answer of the node exporter.
  pub scrape_all-fails :
      (now : ℕ) (node other nginx : Answer F.F) (s : OriginScraper F.F) {err : Text}
      → error_of F node ≡ some err
      → s.node_exporter_url ≢ []
      → let s' = scrape_all F now node nginx s in
        let s'' = scrape_all F now other nginx s in
        (s'.metrics.healthy ≡ false)
        × NodePart (s.metrics, s) (s'.metrics, s')
        × NginxPart (s''.metrics, s'') (s'.metrics, s')
  unfolding scrape_all
  scrape_all-fails now node other nginx s {err} h k =
      let before : State = (last_metrics F now s, s) in
      let r : State = if_configured s.node_exporter_url (scrape_node_exporter F now node) before in
      let r' : State = if_configured s.nginx_exporter_url (scrape_nginx_exporter F now nginx) r in
      let o : State = if_configured s.node_exporter_url (scrape_node_exporter F now other) before in
      let same : r ≡ before = fails s.node_exporter_url now node before err h in
      let kept =
        subst (λ x. NodePart x r') same (nginx_NodePart s.nginx_exporter_url now nginx r) in
      let one = node_NginxPart s.node_exporter_url now node before in
      let two = node_NginxPart s.node_exporter_url now other before in
      let alike : NginxPart o r = ground arith in
      let nginx_alike = nginx_same s.nginx_exporter_url now nginx o r alike in
      (
        unhealthy now node nginx s err h k,
        record {
          cpu_percent = kept.cpu_percent;
          mem_used = kept.mem_used;
          mem_total = kept.mem_total;
          mem_percent = kept.mem_percent;
          net_in_rate = kept.net_in_rate;
          net_out_rate = kept.net_out_rate;
          last_net_in = kept.last_net_in;
          last_net_out = kept.last_net_out;
          last_net_time = kept.last_net_time;
          net_in = kept.net_in;
          net_out = kept.net_out;
        },
        record {
          nginx_connections = nginx_alike.nginx_connections;
          nginx_req_rate = nginx_alike.nginx_req_rate;
          nginx_req_duration = nginx_alike.nginx_req_duration;
          last_nginx_reqs = nginx_alike.last_nginx_reqs;
          last_nginx_time = nginx_alike.last_nginx_time;
        },
      )
