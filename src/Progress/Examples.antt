-- ===== src/Progress/Examples.antt =====
-- Blocks of `-progress`, and the theorem on them, with whole numbers as the floating-point ones.
use go_ffmpeg_hls_swarm.Common.{
  ◌≡◌, refl, true, false, arith, none, some, List, [], ◌∷◌, map, ℤ, pos, negsuc, length, Text,
  codes, text_eq, parse_int,
}
use go_ffmpeg_hls_swarm.Common.WholeFloats.{whole}
use go_ffmpeg_hls_swarm.Progress.{parse_lines, new_progress_parser, empty_update}
use go_ffmpeg_hls_swarm.Progress.Reports.{Report, print_reports, count_lines}
use go_ffmpeg_hls_swarm.Progress.Blocks.{update_of, parse_lines-print_reports}

abbrev read : Text → ℤ
read s = (parse_int s).0

abbrev reports : List Report
reports =
    record {
      frame = pos 60;
      fps = codes "30";
      bitrate = codes "512.0kbits/s";
      total_size = none;
      out_time_us = negsuc 4;
      others = (codes "drop_frames", codes "0") ∷ [];
      speed = none;
      progress = codes "continue";
      time = 5;
    }
    ∷ record {
      frame = pos 120;
      fps = codes "29";
      bitrate = codes "N/A";
      total_size = some (pos 51324);
      out_time_us = pos 2000000;
      others = [];
      speed = some (codes "1");
      progress = codes "end";
      time = 6;
    }
    ∷ []

parse_lines-print_reports_example :
    let p = parse_lines whole read (print_reports reports) (new_progress_parser whole true) in
    (p.calls ≡ map (update_of whole read) reports)
    × (p.blocks_received ≡ length reports)
    × (p.lines_processed ≡ count_lines reports)
    × (p.current ≡ empty_update whole)
unfolding text_eq
parse_lines-print_reports_example = parse_lines-print_reports whole read reports (ground arith)

-- A malformed number is 0, one out of range the greatest, and a sign is read.
parse_int_malformed : parse_int (codes "12a") ≡ (pos 0, false)
unfolding parse_int
parse_int_malformed = refl

parse_int_large : parse_int (codes "99999999999999999999x") ≡ (pos 9223372036854775807, false)
unfolding parse_int
parse_int_large = refl

parse_int_small : parse_int (codes "-17") ≡ (negsuc 16, true)
unfolding parse_int
parse_int_small = refl
