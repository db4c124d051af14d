-- ===== src/Ffmpeg.antt =====
-- internal/process/ffmpeg.go and probe.go: the command line of a client's FFmpeg process, and the choice of the
-- variant. What `url.Parse` and its methods do is the parameter `Urls`; durations are nanoseconds.
use go_ffmpeg_hls_swarm.Common.{
  ℕ, ◌+◌, ◌-◌, Bool, true, false, not, ◌&&◌, ◌||◌, if◌then◌else◌, ltb, ◌==◌, Option, none, some,
  List, [], ◌∷◌, ◌++◌, ℤ, pos, negsuc, ltb_ℤ, quot_ℤ, Text, codes, text_eq, length, take, drop, map,
  join, format_int, parse_int,
}
mod Options
mod Description
mod CommandLine
mod Variants
mod Examples

-- `VariantSelection` is a string type.
abbrev pub variant_all : Text
variant_all = codes "all"

abbrev pub variant_highest : Text
variant_highest = codes "highest"

abbrev pub variant_lowest : Text
variant_lowest = codes "lowest"

abbrev pub variant_first : Text
variant_first = codes "first"

-- `FFmpegConfig`.
pub record FfmpegConfig : Type 0 where
  pub binary_path : Text
  pub stream_url : Text
  pub variant : Text
  pub user_agent : Text
  pub timeout : ℤ
  pub reconnect : Bool
  pub reconnect_delay_max : ℤ
  pub seg_max_retry : ℤ
  pub log_level : Text
  pub resolve_ip : Text
  pub dangerous_mode : Bool
  pub no_cache : Bool
  pub headers : List Text
  pub program_id : ℤ
  pub stats_enabled : Bool
  pub stats_log_level : Text
  pub debug_logging : Bool

-- `FFmpegRunner`.
pub record FfmpegRunner : Type 0 where
  pub config : FfmpegConfig
  pub progress_fd : ℤ
  pub client_id : ℤ

-- `ProgramInfo`.
pub record ProgramInfo : Type 0 where
  pub program_id : ℤ
  pub bitrate : ℤ

-- `Program`, of which the code reads the identifier and a tag.
pub record Program : Type 0 where
  pub program_id : ℤ
  pub variant_bitrate : Text

-- A parsed URL: its host with the port, the port, and its text with another host.
pub record Url : Type 0 where
  pub host : Text
  pub port : Text
  pub with_host : Text → Text

abbrev pub is_empty : Text → Bool
is_empty s = text_eq s []

-- `DefaultFFmpegConfig`.
unfoldable pub default_ffmpeg_config : Text → FfmpegConfig
default_ffmpeg_config stream_url = record {
  binary_path = codes "ffmpeg";
  stream_url = stream_url;
  variant = variant_all;
  user_agent = codes "go-ffmpeg-hls-swarm/1.0";
  timeout = pos 15000000000;
  reconnect = true;
  reconnect_delay_max = pos 5;
  seg_max_retry = pos 3;
  log_level = codes "info";
  resolve_ip = [];
  dangerous_mode = false;
  no_cache = false;
  headers = [];
  program_id = negsuc 0;
  stats_enabled = false;
  stats_log_level = [];
  debug_logging = false;
}

-- `NewFFmpegRunner`.
unfoldable pub new_ffmpeg_runner : FfmpegConfig → FfmpegRunner
new_ffmpeg_runner config = record { config = config; progress_fd = pos 0; client_id = pos 0 }

-- `SetProgressFD`.
unfoldable pub set_progress_fd : ℤ → FfmpegRunner → FfmpegRunner
set_progress_fd fd r = record r { progress_fd = fd }

unfoldable pub log_level_of : FfmpegConfig → Text
unfolding text_eq
log_level_of c =
    let base =
      if c.debug_logging
      then codes "debug"
      else if not (is_empty c.stats_log_level)
      then c.stats_log_level
      else codes "debug" in
    if c.stats_enabled then codes "repeat+level+datetime+" ++ base else c.log_level

-- `mapArgs`.
unfoldable pub map_args : FfmpegConfig → List Text
unfolding text_eq format_int
map_args c =
    let first = codes "-map" ∷ codes "0:v:0?" ∷ codes "-map" ∷ codes "0:a:0?" ∷ [] in
    if text_eq c.variant variant_all
    then codes "-map" ∷ codes "0" ∷ []
    else if text_eq c.variant variant_first
    then first
    else if text_eq c.variant variant_highest || text_eq c.variant variant_lowest
    then (if ltb_ℤ c.program_id (pos 0)
        then first
        else codes "-map" ∷ (codes "0:p:" ++ format_int c.program_id) ∷ [])
    else codes "-map" ∷ codes "0" ∷ []

unfoldable pub user_agent_of : FfmpegRunner → Text
unfolding format_int
user_agent_of r =
    if ltb_ℤ (pos 0) r.client_id
    then r.config.user_agent ++ codes "/client-" ++ format_int r.client_id
    else r.config.user_agent

-- The arguments under a condition.
abbrev pub only : Bool → List Text → List Text
only b args = if b then args else []

module _ (parse_url : Text → Option Url) where
  -- `buildHeaders`.
  unfoldable pub build_headers : FfmpegConfig → List Text
  unfolding text_eq
  build_headers c =
      elim (parse_url c.stream_url) [
        | none ↦ []
        | some u ↦ only (not (is_empty c.resolve_ip)) ((codes "Host: " ++ u.host) ∷ [])
      ]
      ++ only c.no_cache (
          codes "Cache-Control: no-cache, no-store, must-revalidate"
          ∷ codes "Pragma: no-cache"
          ∷ [])
      ++ c.headers

  -- `effectiveURL`.
  unfoldable pub effective_url : FfmpegConfig → Text
  unfolding text_eq
  effective_url c = if is_empty c.resolve_ip then c.stream_url else elim (parse_url c.stream_url) [
    | none ↦ c.stream_url
    | some u ↦ u.with_host (if is_empty u.port then c.resolve_ip else c.resolve_ip ++ b':' ∷ u.port)
  ]

  -- `buildArgs`.
  unfoldable pub build_args : FfmpegRunner → List Text
  unfolding log_level_of user_agent_of build_headers effective_url map_args join text_eq format_int
  build_args r =
      let c = r.config in
      let headers = build_headers c in
      let progress =
        if ltb_ℤ (pos 0) r.progress_fd
        then codes "pipe:" ++ format_int r.progress_fd
        else codes "pipe:1" in
      codes "-hide_banner" ∷ codes "-nostdin" ∷ codes "-loglevel" ∷ log_level_of c ∷ []
      ++ only c.stats_enabled
          (codes "-progress" ∷ progress ∷ codes "-stats_period" ∷ codes "1" ∷ [])
      ++ only (c.dangerous_mode && not (is_empty c.resolve_ip))
          (codes "-tls_verify" ∷ codes "0" ∷ [])
      ++ only c.reconnect (
          codes "-reconnect"
          ∷ codes "1"
          ∷ codes "-reconnect_streamed"
          ∷ codes "1"
          ∷ codes "-reconnect_on_network_error"
          ∷ codes "1"
          ∷ codes "-reconnect_delay_max"
          ∷ format_int c.reconnect_delay_max
          ∷ [])
      ++ codes "-rw_timeout" ∷ format_int (quot_ℤ c.timeout 1000) ∷ []
      ++ codes "-user_agent" ∷ user_agent_of r ∷ []
      ++ only (ltb 0 (length headers))
          (codes "-headers" ∷ (join headers (codes "\r\n") ++ codes "\r\n") ∷ [])
      ++ codes "-seg_max_retry" ∷ format_int c.seg_max_retry ∷ []
      ++ codes "-i" ∷ effective_url c ∷ []
      ++ map_args c
      ++ codes "-c" ∷ codes "copy" ∷ codes "-f" ∷ codes "null" ∷ codes "-" ∷ []

  -- `BuildCommand`: the binary and the arguments.
  unfoldable pub build_command : ℤ → FfmpegRunner → (Text × List Text) × FfmpegRunner
  unfolding build_args
  build_command client_id r =
      let r' = record r { client_id = client_id } in ((r.config.binary_path, build_args r'), r')

  -- `CommandString`.
  unfoldable pub command_string : FfmpegRunner → Text
  unfolding build_args join
  command_string r = r.config.binary_path ++ codes " " ++ join (build_args r) (codes " ")

  -- The arguments that `probe` gives to ffprobe.
  unfoldable pub probe_args : FfmpegConfig → List Text
  unfolding effective_url text_eq
  probe_args c =
      codes "-v"
        ∷ codes "quiet"
        ∷ codes "-print_format"
        ∷ codes "json"
        ∷ codes "-show_programs"
        ∷ []
      ++ only (not (is_empty c.user_agent)) (codes "-user_agent" ∷ c.user_agent ∷ [])
      ++ effective_url c ∷ []

-- The conversion at the end of `probe`; `none` stands for a failure before it.
abbrev pub program_info : Program → ProgramInfo
program_info p = record { program_id = p.program_id; bitrate = (parse_int p.variant_bitrate).0 }

unfoldable pub probe : Option (List Program) → Option (List ProgramInfo)
probe none = none
probe (some programs) = some (map program_info programs)

abbrev pub first_program : List ProgramInfo → Option ProgramInfo
first_program [] = none
first_program (p ∷ programs) = some p

abbrev pub last_program : List ProgramInfo → Option ProgramInfo
last_program [] = none
last_program (p ∷ []) = some p
last_program (p ∷ q ∷ programs) = last_program (q ∷ programs)

abbrev pub set_program : FfmpegConfig → Option ProgramInfo → FfmpegConfig × Bool
set_program c none = (c, false)
set_program c (some p) = (record c { program_id = p.program_id }, true)

-- `ProbeVariants` with what ffprobe answers, and whether it returns no error; `sort` is the `sort.Slice` by bitrate.
unfoldable pub probe_variants :
    (List ProgramInfo → List ProgramInfo)
    → Option (List Program)
    → FfmpegConfig
    → FfmpegConfig × Bool
unfolding text_eq probe
probe_variants sort answer c =
    if not (text_eq c.variant variant_highest) && not (text_eq c.variant variant_lowest)
    then (c, true)
    else elim (probe answer) [
      | none ↦ (c, false)
      | some programs ↦
          if length programs == 0
          then (c, false)
          else if text_eq c.variant variant_highest
          then set_program c (last_program (sort programs))
          else set_program c (first_program (sort programs))
    ]

-- `findFFprobe`; `found` is `exec.LookPath` without an error.
unfoldable pub find_ffprobe : (Text → Bool) → FfmpegConfig → Text
unfolding text_eq
find_ffprobe found c =
    let n = length c.binary_path in
    let path = take (n - 6) c.binary_path ++ codes "ffprobe" in
    if ltb 6 n && text_eq (drop (n - 6) c.binary_path) (codes "ffmpeg") && found path
    then path
    else codes "ffprobe"
