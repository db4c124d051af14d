-- ===== src/Scraper/Examples.antt =====
-- Scrapes with a window of two segments, and the theorems on them.
use go_ffmpeg_hls_swarm.Scraper.{scrape_again}
use go_ffmpeg_hls_swarm.Common.{
  ◌≡◌, refl, none, some, false, if◌then◌else◌, List, [], ◌∷◌, ℤ, pos, ◌+ℤ◌, ◌-ℤ◌, Text, codes,
}
use go_ffmpeg_hls_swarm.Scraper.{
  SegmentInfo, SegmentScraper, new_segment_scraper, scrape, get_segment_size, parse_segment_number,
  parse_segment_number_fixed, run, jittered_interval,
}
use go_ffmpeg_hls_swarm.Scraper.Window.{
  listed, or_else, is_stale, highest_of, scrape-get_segment_size,
}

abbrev file : Text → ℤ → SegmentInfo
file name size = record { name = name; file_type = codes "file"; mtime = []; size = size }

abbrev scraper : SegmentScraper
scraper = record (new_segment_scraper (pos 0) (pos 0) (pos 2)) {
  segment_sizes = (codes "seg7.ts", pos 70) ∷ (codes "seg8.ts", pos 80) ∷ [];
  highest_seg_num = pos 8;
}

abbrev files : List SegmentInfo
files = file (codes "seg9.ts") (pos 90) ∷ file (codes "stream.m3u8") (pos 5) ∷ []

scrape-get_segment_size_example :
    let s' = (scrape 4 (some files) scraper).0 in
    (s'.highest_seg_num ≡ highest_of scraper.highest_seg_num files)
    × (get_segment_size (codes "seg7.ts") s' ≡ (
        if is_stale (s'.highest_seg_num -ℤ scraper.window_size +ℤ pos 1) (codes "seg7.ts")
        then none
        else or_else (listed (codes "seg7.ts") files) (get_segment_size (codes "seg7.ts") scraper)))
    × (scrape 4 none scraper ≡ (scraper, false))
scrape-get_segment_size_example = scrape-get_segment_size 4 files scraper (codes "seg7.ts")

-- Segment 7 has left the window, the error of the second scrape counts, and that of the first does not.
run_evicts :
    let s = run ((3, none) ∷ (4, some files) ∷ (5, none) ∷ []) scraper in
    (get_segment_size (codes "seg7.ts") s ≡ none)
    × (get_segment_size (codes "seg8.ts") s ≡ some (pos 80))
    × (get_segment_size (codes "stream.m3u8") s ≡ some (pos 5))
    × (s.evicted_count ≡ 1)
    × (s.scrape_errors ≡ 1)
unfolding get_segment_size run scrape_again ◌+ℤ◌ ◌-ℤ◌ new_segment_scraper
run_evicts = (refl, refl, refl, refl, refl)

parse_segment_number_misses :
    (parse_segment_number (codes "stream7.m3u8") ≡ none)
    × (parse_segment_number (codes "seg.ts") ≡ none)
    × (parse_segment_number_fixed (codes "seg00017.ts") ≡ some (pos 17))
unfolding parse_segment_number parse_segment_number_fixed
parse_segment_number_misses = (refl, refl, refl)

jittered_interval_default :
    jittered_interval (pos 3) (new_segment_scraper (pos 0) (pos 0) (pos 0)) ≡ pos 500000003
unfolding jittered_interval ◌-ℤ◌ ◌+ℤ◌ new_segment_scraper
jittered_interval_default = refl
