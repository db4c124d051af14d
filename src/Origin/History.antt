-- ===== src/Origin/History.antt =====
-- origin_scraper.go: the figures of `GetMetrics` after any history of the scraper.
use go_ffmpeg_hls_swarm.Common.{ℕ, ◌≤◌, Bool, true, false, List, [], ◌∷◌, ◌++◌, Text, Float}
use go_ffmpeg_hls_swarm.Origin.{
  Answer, refused, status, undecodable, decoded, OriginScraper, NetworkSample, Window, values,
  add_rate, median_and_max, get_metrics,
}
use go_ffmpeg_hls_swarm.Origin.Scraping.{scrape_all}

-- Whether a scrape measures the network: the exporter is configured, and answers with metrics.
abbrev measured : {R : Type 0} → Text → Answer R → Bool
measured [] answer = false
measured (c ∷ url) (decoded families) = true
measured (c ∷ url) (refused err) = false
measured (c ∷ url) (status code) = false
measured (c ∷ url) (undecodable err) = false

-- What happens to the scraper: scrapes of both exporters, and calls of `GetMetrics`.
pub data Event (R : Type 0) : Type 0 where
  scraped : ℕ → Answer R → Answer R → Event R
  read : ℕ → Event R

-- Each event has its time, none before `now`.
abbrev pub InOrder : {R : Type 0} → ℕ → List (Event R) → ℕ → Type 0
InOrder now [] end = now ≤ end
InOrder now (scraped t node nginx ∷ events) end = (now ≤ t) × InOrder t events end
InOrder now (read t ∷ events) end = (now ≤ t) × InOrder t events end

module _ (F : Float) (quantile : List F.F → F.F → F.F) where
  -- The events, with the rates that the scrapes have put into the metrics, in and out.
  abbrev sampled : ℕ → Bool → F.F → List (NetworkSample F.F) → List (NetworkSample F.F)
  sampled now true rate rates = rates ++ record { value = rate; time = now } ∷ []
  sampled now false rate rates = rates

  abbrev pub run :
      List (Event F.F)
      → OriginScraper F.F × List (NetworkSample F.F) × List (NetworkSample F.F)
      → OriginScraper F.F × List (NetworkSample F.F) × List (NetworkSample F.F)
  run [] r = r
  run (scraped now node nginx ∷ events) (s, ins, outs) =
      let s' = scrape_all F now node nginx s in
      let new = measured s.node_exporter_url node in
      run events (
        s',
        sampled now new s'.metrics.net_in_rate ins,
        sampled now new s'.metrics.net_out_rate outs,
      )
  run (read now ∷ events) (s, ins, outs) = run events ((get_metrics F quantile now s).1, ins, outs)

  abbrev after_rate : ℕ → Bool → F.F → OriginScraper F.F → Window F.F → Window F.F
  after_rate now true rate s w = add_rate s.window_size s.last_clean now rate w
  after_rate now false rate s w = w

  -- The median and the maximum of rates.
  abbrev pub figures : List (NetworkSample F.F) → F.F × F.F
  figures rates = median_and_max F quantile (record { samples = rates; digest = values rates })
