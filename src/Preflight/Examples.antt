-- ===== src/Preflight/Examples.antt =====
-- A host with a soft limit of 1024 processes and a hard one of 63432, and one without a limit of descriptors.
use go_ffmpeg_hls_swarm.Preflight.{split_lines}
use go_ffmpeg_hls_swarm.Common.{format_uint}
use go_ffmpeg_hls_swarm.Common.{has_prefix}
use go_ffmpeg_hls_swarm.Common.{
  ◌≡◌, refl, true, false, some, [], ◌∷◌, ℤ, pos, ◌+ℤ◌, ◌*ℤ◌, Text, codes, parse_int, arith,
}
use go_ffmpeg_hls_swarm.Preflight.{
  Host, leb_ℤ, check_process_limit, check_file_descriptors, run_all,
}
use go_ffmpeg_hls_swarm.Preflight.Limits.{check_process_limit-hard}

abbrev scan : Text → ℤ
scan s = (parse_int s).0

abbrev host : Host
host = record {
  nofile_cur = 1048576;
  limits = some (codes "Limit\nMax processes    1024    63432    processes\n");
  ffmpeg_works = true;
  port_range = some (pos 32768, pos 60999);
}

-- 2000 clients pass, though the soft limit allows 1024 processes.
check_process_limit-hard_example :
    let c = check_process_limit scan (pos 2000) host in
    (c.actual ≡ pos 63432) × (c.passed ≡ leb_ℤ (pos 2000 +ℤ pos 50) (pos 63432))
unfolding split_lines format_uint has_prefix parse_int
check_process_limit-hard_example =
    check_process_limit-hard scan (pos 2000) host
      (codes "Limit\nMax processes    1024    63432    processes\n") (codes "Limit" ∷ []) ([] ∷ [])
      3 1024 3 63432 (codes "   processes") refl refl (refl, tt) refl (omega arith)

run_all_passes : (run_all scan (pos 2000) host).passed ≡ true
unfolding run_all parse_int ◌+ℤ◌ ◌*ℤ◌
run_all_passes = refl

-- No limit is the greatest unsigned number, which is read as -1.
check_file_descriptors_unlimited :
    (check_file_descriptors (pos 1) (record host { nofile_cur = 18446744073709551615 })).passed
    ≡ false
unfolding check_file_descriptors ◌+ℤ◌ ◌*ℤ◌
check_file_descriptors_unlimited = refl
