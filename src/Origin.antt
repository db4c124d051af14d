-- ===== src/Origin.antt =====
-- internal/metrics/origin_scraper.go: the metrics of the origin server. An answer of an exporter is an argument, as
-- the decoder of Prometheus leaves it; a T-digest is the list of the values added to it since it was made, and
-- `quantile` is the library's function on it. Times are nanoseconds; the clock is read once for each call.
use go_ffmpeg_hls_swarm.Common.{
  ℕ, suc, ◌+◌, Bool, true, false, ◌||◌, ◌&&◌, not, ◌*◌, ◌/◌, pos_part, if◌then◌else◌, ltb, List, [],
  ◌∷◌, ◌++◌, map, ℤ, pos, ltb_ℤ, sub_ℕ, length, Option, none, some, Text, codes, text_eq, join,
  format_int, Map, lookup, Float,
}
use go_ffmpeg_hls_swarm.Aggregator.{seconds}
mod Scraping
mod Windows
mod History
mod Failures
mod Examples

-- What the program reads of a `dto.Metric`: the getters give 0 for what is absent.
pub record Metric (R : Type 0) : Type 0 where
  pub labels : List (Text × Text)
  pub counter_value : R
  pub gauge_value : R
  pub histogram : Option (R × ℤ)

abbrev pub Families : Type 0 → Type 0
Families R = Map (List (Metric R))

-- How a request of an exporter ends: an error, a status other than 200, an error of the decoder, or metrics.
pub data Answer (R : Type 0) : Type 0 where
  refused : Text → Answer R
  status : ℤ → Answer R
  undecodable : Text → Answer R
  decoded : Families R → Answer R

-- `OriginMetrics`.
pub record OriginMetrics (R : Type 0) : Type 0 where
  pub cpu_percent : R
  pub mem_used : ℤ
  pub mem_total : ℤ
  pub mem_percent : R
  pub net_in_rate : R
  pub net_out_rate : R
  pub net_in_p50 : R
  pub net_in_max : R
  pub net_out_p50 : R
  pub net_out_max : R
  pub net_window_seconds : ℕ
  pub nginx_connections : ℤ
  pub nginx_req_rate : R
  pub nginx_req_duration : R
  pub last_update : Option ℕ
  pub healthy : Bool
  pub error : Text

-- `networkSample`, and the window of one direction: its samples and its T-digest.
pub record NetworkSample (R : Type 0) : Type 0 where
  pub value : R
  pub time : ℕ

pub record Window (R : Type 0) : Type 0 where
  pub samples : List (NetworkSample R)
  pub digest : List R

-- `OriginScraper`.
pub record OriginScraper (R : Type 0) : Type 0 where
  pub node_exporter_url : Text
  pub nginx_exporter_url : Text
  pub interval : ℤ
  pub metrics : OriginMetrics R
  pub last_net_in : R
  pub last_net_out : R
  pub last_net_time : Option ℕ
  pub last_nginx_reqs : R
  pub last_nginx_time : Option ℕ
  pub net_in : Window R
  pub net_out : Window R
  pub window_size : ℕ
  pub last_clean : ℕ

abbrev pub second : ℕ
second = 1000000000

-- `*digest = ...` and the filter of `cleanupNetworkWindow`.
abbrev pub is_recent : {R : Type 0} → ℕ → ℕ → NetworkSample R → Bool
is_recent size now s = ltb now (s.time + size)

abbrev pub recent : {R : Type 0} → ℕ → ℕ → List (NetworkSample R) → List (NetworkSample R)
recent size now [] = []
recent size now (s ∷ samples) =
    if is_recent size now s then s ∷ recent size now samples else recent size now samples

abbrev pub values : {R : Type 0} → List (NetworkSample R) → List R
values samples = map (λ s. s.value) samples

unfoldable pub cleanup_network_window : {R : Type 0} → ℕ → ℕ → Window R → Window R
cleanup_network_window size now w =
    let valid = recent size now w.samples in
    record {
      samples = valid;
      digest = if ltb (length valid) (length w.samples) then values valid else w.digest;
    }

-- A rate is added to a window, which is cleaned when it has grown or grown old.
unfoldable pub add_rate : {R : Type 0} → ℕ → ℕ → ℕ → R → Window R → Window R
unfolding cleanup_network_window
add_rate {R} size last_clean now rate w =
    let grown : Window R = record {
      samples = w.samples ++ record { value = rate; time = now } ∷ [];
      digest = w.digest ++ rate ∷ [];
    } in
    if ltb 20 (length grown.samples) || ltb_ℤ (pos (10 * second)) (sub_ℕ now last_clean)
    then cleanup_network_window size now grown
    else grown

module _ (F : Float) where
  abbrev pub zero : F.F
  zero = F.lit 0 0

  abbrev pub no_metrics : OriginMetrics F.F
  no_metrics = record {
    cpu_percent = zero;
    mem_used = pos 0;
    mem_total = pos 0;
    mem_percent = zero;
    net_in_rate = zero;
    net_out_rate = zero;
    net_in_p50 = zero;
    net_in_max = zero;
    net_out_p50 = zero;
    net_out_max = zero;
    net_window_seconds = 0;
    nginx_connections = pos 0;
    nginx_req_rate = zero;
    nginx_req_duration = zero;
    last_update = none;
    healthy = false;
    error = codes "Not yet scraped";
  }

  abbrev clamp : ℤ → ℕ
  clamp size =
      if ltb_ℤ size (pos (10 * second))
      then 10 * second
      else if ltb_ℤ (pos (300 * second)) size
      then 300 * second
      else pos_part size

  -- `NewOriginScraper`; `none` is nil, where both URLs are empty.
  unfoldable pub new_origin_scraper : ℕ → Text → Text → ℤ → ℤ → Option (OriginScraper F.F)
  unfolding text_eq
  new_origin_scraper now node_exporter_url nginx_exporter_url interval size =
      if text_eq node_exporter_url [] && text_eq nginx_exporter_url []
      then none
      else some (record {
        node_exporter_url = node_exporter_url;
        nginx_exporter_url = nginx_exporter_url;
        interval = if ltb_ℤ (pos 0) interval then interval else pos (2 * second);
        metrics = no_metrics;
        last_net_in = zero;
        last_net_out = zero;
        last_net_time = none;
        last_nginx_reqs = zero;
        last_nginx_time = none;
        net_in = record { samples = []; digest = [] };
        net_out = record { samples = []; digest = [] };
        window_size = clamp size;
        last_clean = now;
      })

  -- The greatest of a value and those of samples.
  abbrev pub max_value : F.F → List (NetworkSample F.F) → F.F
  max_value m [] = m
  max_value m (s ∷ samples) = max_value (if F.lt m s.value then s.value else m) samples

  abbrev pub median_and_max : (List F.F → F.F → F.F) → Window F.F → F.F × F.F
  median_and_max quantile w = elim w.samples [
    | [] ↦ (zero, zero)
    | s ∷ samples ↦ (quantile w.digest (F.lit 50 2), max_value s.value (s ∷ samples))
  ]

  -- `GetMetrics` at the time `now`, with the scraper after it.
  unfoldable pub get_metrics :
      (List F.F → F.F → F.F) → ℕ → OriginScraper F.F → OriginMetrics F.F × OriginScraper F.F
  unfolding cleanup_network_window
  get_metrics quantile now s =
      let net_in = cleanup_network_window s.window_size now s.net_in in
      let net_out = cleanup_network_window s.window_size now s.net_out in
      (
        record s.metrics {
          net_in_p50 = (median_and_max quantile net_in).0;
          net_in_max = (median_and_max quantile net_in).1;
          net_out_p50 = (median_and_max quantile net_out).0;
          net_out_max = (median_and_max quantile net_out).1;
          net_window_seconds = s.window_size / second;
        },
        record s { net_in = net_in; net_out = net_out },
      )
