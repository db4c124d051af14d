-- ===== src/Ffmpeg/CommandLine.antt =====
-- ffmpeg.go: what the command line of a client says, against the configuration.
use go_ffmpeg_hls_swarm.Common.{
  join, not, ◌&&◌, if◌then◌else◌, Option, List, [], ◌∷◌, ◌++◌, pos, ltb_ℤ, ltb, quot_ℤ, length,
  Text, codes, format_int,
}
use go_ffmpeg_hls_swarm.Ffmpeg.{
  FfmpegConfig, FfmpegRunner, Url, build_headers, effective_url, user_agent_of, log_level_of,
  is_empty, only,
}
use go_ffmpeg_hls_swarm.Ffmpeg.Options.{front}

abbrev cache_of : FfmpegConfig → List Text
cache_of c =
    only c.no_cache
      (codes "Cache-Control: no-cache, no-store, must-revalidate" ∷ codes "Pragma: no-cache" ∷ [])

module _ (parse_url : Text → Option Url) where
  abbrev progress_of : FfmpegRunner → Text
  progress_of r =
      if ltb_ℤ (pos 0) r.progress_fd
      then codes "pipe:" ++ format_int r.progress_fd
      else codes "pipe:1"

  -- The options of a client.
  abbrev front_of : FfmpegRunner → List Text
  front_of r =
      let c = r.config in
      let headers = build_headers parse_url c in
      front c.stats_enabled (c.dangerous_mode && not (is_empty c.resolve_ip)) c.reconnect
        (ltb 0 (length headers)) (log_level_of c) (progress_of r) (format_int c.reconnect_delay_max)
        (format_int (quot_ℤ c.timeout 1000)) (user_agent_of r)
        (join headers (codes "\r\n") ++ codes "\r\n") (format_int c.seg_max_retry)
        (effective_url parse_url c)
