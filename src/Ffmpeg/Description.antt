-- ===== src/Ffmpeg/Description.antt =====
-- ffmpeg.go: a description of the command line that a configuration asks for.
use go_ffmpeg_hls_swarm.Common.{
  ◌≡◌, ◌≢◌, ◌⊎◌, true, false, Option, none, some, List, [], ◌∷◌, ◌++◌, pos, negsuc, ◌≤ℤ◌, quot_ℤ,
  Text, codes, lookup, format_int,
}
use go_ffmpeg_hls_swarm.Ffmpeg.{FfmpegConfig, FfmpegRunner, Url}

-- Headers, each ended; without a header there is no option.
abbrev pub ended : List Text → Text
ended [] = []
ended (h ∷ headers) = h ++ codes "\r\n" ++ ended headers

abbrev pub header_text : List Text → Option Text
header_text [] = none
header_text (h ∷ headers) = some (ended (h ∷ headers))

-- The Host header, where the URL is rewritten to an address, and those against caches.
abbrev pub HostLines : (Text → Option Url) → FfmpegConfig → List Text → Type 0
HostLines parse_url c lines =
    (((c.resolve_ip ≡ []) ⊎ (parse_url c.stream_url ≡ none)) × (lines ≡ []))
    ⊎ ((u : Url) × (c.resolve_ip ≢ [])
        × (parse_url c.stream_url ≡ some u)
        × (lines ≡ (codes "Host: " ++ u.host) ∷ []))

abbrev pub CacheLines : FfmpegConfig → List Text → Type 0
CacheLines c lines =
    ((c.no_cache ≡ false) × (lines ≡ []))
    ⊎ ((c.no_cache ≡ true)
        × (lines
            ≡ codes "Cache-Control: no-cache, no-store, must-revalidate"
              ∷ codes "Pragma: no-cache"
              ∷ []))

-- What stands behind the input: the streams that are mapped, and an output that is thrown away.
abbrev pub mapping : List Text → List Text
mapping maps = maps ++ codes "-c" ∷ codes "copy" ∷ codes "-f" ∷ codes "null" ∷ codes "-" ∷ []

abbrev pub first_streams : List Text
first_streams = codes "-map" ∷ codes "0:v:0?" ∷ codes "-map" ∷ codes "0:a:0?" ∷ []

-- The options of a client, with their values, and what stands behind the input.
pub record Describes (parse_url : Text → Option Url) (r : FfmpegRunner)
    (options : List (Text × Text)) (output : List Text) : Type 0 where
  pub level_plain :
      r.config.stats_enabled ≡ false → lookup (codes "-loglevel") options ≡ some r.config.log_level
  pub level_debug :
      r.config.stats_enabled ≡ true
      → (r.config.debug_logging ≡ true) ⊎ (r.config.stats_log_level ≡ [])
      → lookup (codes "-loglevel") options ≡ some (codes "repeat+level+datetime+debug")
  pub level_given :
      r.config.stats_enabled ≡ true
      → r.config.debug_logging ≡ false
      → r.config.stats_log_level ≢ []
      → lookup (codes "-loglevel") options
        ≡ some (codes "repeat+level+datetime+" ++ r.config.stats_log_level)
  pub no_progress : r.config.stats_enabled ≡ false → lookup (codes "-progress") options ≡ none
  pub progress_pipe :
      r.config.stats_enabled ≡ true
      → pos 1 ≤ℤ r.progress_fd
      → lookup (codes "-progress") options ≡ some (codes "pipe:" ++ format_int r.progress_fd)
  pub progress_output :
      r.config.stats_enabled ≡ true
      → r.progress_fd ≤ℤ pos 0
      → lookup (codes "-progress") options ≡ some (codes "pipe:1")
  pub tls_off :
      r.config.dangerous_mode ≡ true
      → r.config.resolve_ip ≢ []
      → lookup (codes "-tls_verify") options ≡ some (codes "0")
  pub tls_on :
      (r.config.dangerous_mode ≡ false) ⊎ (r.config.resolve_ip ≡ [])
      → lookup (codes "-tls_verify") options ≡ none
  pub reconnects :
      r.config.reconnect ≡ true
      → lookup (codes "-reconnect_delay_max") options
        ≡ some (format_int r.config.reconnect_delay_max)
  pub no_reconnect :
      r.config.reconnect ≡ false → lookup (codes "-reconnect_delay_max") options ≡ none
  pub timeout :
      lookup (codes "-rw_timeout") options ≡ some (format_int (quot_ℤ r.config.timeout 1000))
  pub agent_numbered :
      pos 1 ≤ℤ r.client_id
      → lookup (codes "-user_agent") options
        ≡ some (r.config.user_agent ++ codes "/client-" ++ format_int r.client_id)
  pub agent_plain :
      r.client_id ≤ℤ pos 0 → lookup (codes "-user_agent") options ≡ some r.config.user_agent
  pub headers :
      (host cache : List Text)
      → HostLines parse_url r.config host
      → CacheLines r.config cache
      → lookup (codes "-headers") options ≡ header_text (host ++ cache ++ r.config.headers)
  pub retries : lookup (codes "-seg_max_retry") options ≡ some (format_int r.config.seg_max_retry)
  pub input_plain :
      (r.config.resolve_ip ≡ []) ⊎ (parse_url r.config.stream_url ≡ none)
      → lookup (codes "-i") options ≡ some r.config.stream_url
  pub input_moved :
      (u : Url)
      → r.config.resolve_ip ≢ []
      → parse_url r.config.stream_url ≡ some u
      → u.port ≡ []
      → lookup (codes "-i") options ≡ some (u.with_host r.config.resolve_ip)
  pub input_port :
      (u : Url)
      → r.config.resolve_ip ≢ []
      → parse_url r.config.stream_url ≡ some u
      → u.port ≢ []
      → lookup (codes "-i") options ≡ some (u.with_host (r.config.resolve_ip ++ b':' ∷ u.port))
  pub maps_all : r.config.variant ≡ codes "all" → output ≡ mapping (codes "-map" ∷ codes "0" ∷ [])
  pub maps_first : r.config.variant ≡ codes "first" → output ≡ mapping first_streams
  pub maps_program :
      (r.config.variant ≡ codes "highest") ⊎ (r.config.variant ≡ codes "lowest")
      → pos 0 ≤ℤ r.config.program_id
      → output ≡ mapping (codes "-map" ∷ (codes "0:p:" ++ format_int r.config.program_id) ∷ [])
  pub maps_unknown :
      (r.config.variant ≡ codes "highest") ⊎ (r.config.variant ≡ codes "lowest")
      → r.config.program_id ≤ℤ negsuc 0
      → output ≡ mapping first_streams
