-- ===== src/Origin/Examples.antt =====
-- A scraper of one node exporter with a device beside the loopback, and the theorems at it.
use go_ffmpeg_hls_swarm.Common.{
  ◌≡◌, refl, false, List, [], ◌∷◌, none, ℤ, pos, Text, codes, format_int, ◌*◌, ◌+ℤ◌, ◌-ℤ◌,
}
use go_ffmpeg_hls_swarm.Common.WholeFloats.{whole}
use go_ffmpeg_hls_swarm.Origin.{
  Metric, Answer, refused, status, decoded, OriginScraper, get_metrics, second, no_metrics,
}
use go_ffmpeg_hls_swarm.Origin.Scraping.{scrape_all, error_of}
use go_ffmpeg_hls_swarm.Origin.History.{Event, scraped, read, run}
use go_ffmpeg_hls_swarm.Origin.Failures.{NodePart, NginxPart, scrape_all-fails}

abbrev device : Text → ℤ → Metric ℤ
device name bytes = record {
  labels = (codes "device", name) ∷ [];
  counter_value = bytes;
  gauge_value = pos 0;
  histogram = none;
}

abbrev received : ℤ → Answer ℤ
received bytes = decoded (
    (
      codes "node_network_receive_bytes_total",
      device (codes "lo") (pos 77) ∷ device (codes "eth0") bytes ∷ [],
    )
    ∷ [])

abbrev scraper : OriginScraper ℤ
scraper = record {
  node_exporter_url = codes "http://origin:9100/metrics";
  nginx_exporter_url = [];
  interval = pos (2 * second);
  metrics = no_metrics whole;
  last_net_in = pos 0;
  last_net_out = pos 0;
  last_net_time = none;
  last_nginx_reqs = pos 0;
  last_nginx_time = none;
  net_in = record { samples = []; digest = [] };
  net_out = record { samples = []; digest = [] };
  window_size = 30 * second;
  last_clean = 0;
}

-- Steady traffic of 100 bytes in each second.
abbrev history : List (Event ℤ)
history =
    scraped (1 * second) (received (pos 1000)) (refused [])
    ∷ scraped (3 * second) (received (pos 1200)) (refused [])
    ∷ scraped (4 * second) (status (pos 503)) (refused [])
    ∷ read (4 * second)
    ∷ scraped (5 * second) (received (pos 1400)) (refused [])
    ∷ []

-- The first value, for the library's quantile.
abbrev first_of : List ℤ → ℤ → ℤ
first_of [] p = pos 0
first_of (v ∷ values) p = v

-- The window holds a rate of 0 for the first scrape, from which no rate can be told.
run_first_rate :
    (run whole first_of history (scraper, [], [])).0.net_in.digest ≡ pos 0 ∷ pos 100 ∷ pos 100 ∷ []
unfolding scrape_all get_metrics ◌+ℤ◌ ◌-ℤ◌
run_first_rate = refl

scrape_all-fails_example :
    let s' = scrape_all whole second (status (pos 503)) (refused []) scraper in
    let s'' = scrape_all whole second (received (pos 5)) (refused []) scraper in
    (s'.metrics.healthy ≡ false)
    × NodePart whole (scraper.metrics, scraper) (s'.metrics, s')
    × NginxPart whole (s''.metrics, s'') (s'.metrics, s')
unfolding error_of
scrape_all-fails_example =
    scrape_all-fails whole second (status (pos 503)) (received (pos 5)) (refused []) scraper refl
      (λ e. cc)

scrape_all_error :
    (scrape_all whole second (status (pos 503)) (refused []) scraper).metrics.error
    ≡ codes "node_exporter: http status 503"
unfolding scrape_all format_int
scrape_all_error = refl
