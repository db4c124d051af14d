-- ===== src/Config/Examples.antt =====
-- A valid configuration and an invalid one.
use go_ffmpeg_hls_swarm.Common.{
  ◌≡◌, refl, ◌↔◌, [], ◌∷◌, false, Option, some, ℤ, pos, Text, codes, text_eq,
}
use go_ffmpeg_hls_swarm.Common.WholeFloats.{whole}
use go_ffmpeg_hls_swarm.Common.{◌*ℤ◌, arith}
use go_ffmpeg_hls_swarm.Config.{
  Config, Url, validate, collect, clients_field, validate_url, one_of, tests, window_tests,
  int64_of,
}
use go_ffmpeg_hls_swarm.Config.Validity.{Valid, validate-Valid}

-- A parser that reads every text as an HTTP URL of one host.
abbrev parse : Text → Option Url
parse t = some (record { scheme = codes "http"; host = codes "h" })

abbrev config : Config ℤ
config = record {
  clients = pos 10;
  ramp_rate = pos 5;
  duration = pos 0;
  stream_url = codes "http://h/a.m3u8";
  variant = codes "all";
  timeout = pos 15000000000;
  resolve_ip = [];
  dangerous_mode = false;
  verbose = false;
  log_format = codes "json";
  print_cmd = false;
  backoff_initial = pos 250000000;
  backoff_max = pos 5000000000;
  backoff_multiply = pos 2;
  probe_failure_policy = codes "fallback";
  origin_metrics_url = [];
  nginx_metrics_url = [];
  origin_metrics_window = pos 30000000000;
  origin_metrics_interval = pos 2000000000;
}

validate-Valid_example : (validate parse whole config ≡ []) ↔ Valid parse whole config
validate-Valid_example = validate-Valid parse whole config (omega arith) (omega arith)

valid_config : validate parse whole config ≡ []
unfolding validate collect validate_url one_of text_eq
valid_config = refl

no_clients : validate parse whole (record config { clients = pos 0 }) ≡ clients_field ∷ []
unfolding validate collect validate_url one_of text_eq
no_clients = refl

-- Twice an interval of 2^62 ns wraps to a negative number, so that a window of 30 s is taken for two scrapes.
validate_wrapped :
    validate parse whole (record config {
      origin_metrics_url = codes "http://h:9100/metrics";
      origin_metrics_interval = pos 4611686018427387904;
    })
    ≡ []
unfolding validate collect validate_url one_of text_eq tests window_tests int64_of ◌*ℤ◌
validate_wrapped = refl
