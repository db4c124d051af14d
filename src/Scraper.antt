-- ===== src/Scraper.antt =====
-- internal/metrics/segment_scraper.go: the sizes of the origin's files, in a rolling window of segments. What
-- the origin answers is an argument: `none` where `fetchSegments` fails. Times and durations are nanoseconds, and
-- 0 is the time that is not set.
use go_ffmpeg_hls_swarm.Common.{
  ℕ, zero, suc, ◌+◌, ◌-◌, Bool, true, false, not, ◌&&◌, ◌||◌, if◌then◌else◌, ltb, leb, ◌==◌, Option,
  none, some, List, [], ◌∷◌, ℤ, pos, ◌+ℤ◌, ◌-ℤ◌, ◌*ℤ◌, ltb_ℤ, Text, codes, text_eq, Map, lookup,
  put, length, take, drop, get_or, is_digit, parse_int,
}
mod Names
mod Window
mod Examples

-- `SegmentInfo`.
pub record SegmentInfo : Type 0 where
  pub name : Text
  pub file_type : Text
  pub mtime : Text
  pub size : ℤ

-- `SegmentScraper`, without its client, logger and source of random numbers.
pub record SegmentScraper : Type 0 where
  pub interval : ℤ
  pub jitter : ℤ
  pub window_size : ℤ
  pub segment_sizes : Map ℤ
  pub highest_seg_num : ℤ
  pub last_scrape : ℕ
  pub scrape_errors : ℕ
  pub evicted_count : ℕ

abbrev positive_or : ℤ → ℤ → ℤ
positive_or n default = if ltb_ℤ (pos 0) n then n else default

-- `NewSegmentScraper`.
unfoldable pub new_segment_scraper : ℤ → ℤ → ℤ → SegmentScraper
new_segment_scraper interval jitter window_size = record {
  interval = positive_or interval (pos 1000000000);
  jitter = positive_or jitter (pos 500000000);
  window_size = positive_or window_size (pos 300);
  segment_sizes = [];
  highest_seg_num = pos 0;
  last_scrape = 0;
  scrape_errors = 0;
  evicted_count = 0;
}

-- `jitteredInterval`, with the number that `Int63n` draws.
unfoldable pub jittered_interval : ℤ → SegmentScraper → ℤ
jittered_interval draw s = s.interval +ℤ draw -ℤ s.jitter

-- `GetSegmentSize`.
unfoldable pub get_segment_size : Text → SegmentScraper → Option ℤ
unfolding lookup
get_segment_size name s = lookup name s.segment_sizes

-- The loop of `parseSegmentNumber`, which goes back from `start` over the digits before it.
unfoldable pub scan_back : Text → ℕ → ℕ
scan_back name zero = zero
scan_back name (suc start) =
    let before = scan_back name start in
    if is_digit (get_or name start 0) then before else suc start

abbrev pub ok_int : ℤ × Bool → Option ℤ
ok_int (num, ok) = if ok then some num else none

abbrev pub int_between : Text → ℕ → ℕ → Option ℤ
int_between name start end = ok_int (parse_int (drop start (take end name)))

-- `parseSegmentNumber`.
unfoldable pub parse_segment_number : Text → Option ℤ
unfolding scan_back parse_int text_eq
parse_segment_number name =
    let n = length name in
    let end = n - 3 in
    let start = scan_back name end in
    if ltb n 4
    then none
    else if not (get_or name (n - 1) 0 == b's')
    then none
    else if not (text_eq (drop end name) (codes ".ts"))
    then none
    else if start == end
    then none
    else int_between name start end

-- `parseSegmentNumberFixed`.
unfoldable pub parse_segment_number_fixed : Text → Option ℤ
unfolding parse_int
parse_segment_number_fixed name =
    if not (length name == 11) || not (get_or name 10 0 == b's') then none else int_between name 3 8

abbrev pub below : ℤ → Option ℤ → Bool
below threshold none = false
below threshold (some num) = ltb_ℤ num threshold

-- The loop of `evictOldEntries`: the entries that stay, and how many go.
unfoldable pub evict_below : ℤ → Map ℤ → Map ℤ × ℕ
unfolding parse_segment_number
evict_below threshold [] = ([], 0)
evict_below threshold ((name, size) ∷ m) =
    let (kept, evicted) = evict_below threshold m in
    if below threshold (parse_segment_number name)
    then (kept, suc evicted)
    else ((name, size) ∷ kept, evicted)

-- The first number of a segment that stays.
abbrev pub threshold_of : ℤ → SegmentScraper → ℤ
threshold_of highest s = highest -ℤ s.window_size +ℤ pos 1

-- `evictOldEntries`.
unfoldable pub evict_old_entries : ℤ → SegmentScraper → SegmentScraper
unfolding evict_below
evict_old_entries highest s =
    let (kept, evicted) = evict_below (threshold_of highest s) s.segment_sizes in
    if ltb_ℤ (pos 0) (threshold_of highest s)
    then record s { segment_sizes = kept; evicted_count = s.evicted_count + evicted }
    else s

abbrev pub raise : ℤ → Option ℤ → ℤ
raise highest none = highest
raise highest (some num) = if ltb_ℤ highest num then num else highest

-- The loop of `scrape` over the files, with the highest number so far.
unfoldable pub store_files : List SegmentInfo → ℤ × Map ℤ → ℤ × Map ℤ
unfolding put parse_segment_number
store_files [] (highest, m) = (highest, m)
store_files (seg ∷ segments) (highest, m) =
    store_files segments (raise highest (parse_segment_number seg.name), put seg.name seg.size m)

-- `scrape` at the time `now`, and whether it returns no error.
unfoldable pub scrape : ℕ → Option (List SegmentInfo) → SegmentScraper → SegmentScraper × Bool
unfolding store_files evict_old_entries
scrape now none s = (s, false)
scrape now (some segments) s =
    let (highest, sizes) = store_files segments (s.highest_seg_num, s.segment_sizes) in
    let s' = evict_old_entries highest (record s { segment_sizes = sizes }) in
    (record s' { highest_seg_num = highest; last_scrape = now }, true)

-- A scrape of the loop of `Run`, which counts an error; an error of the first scrape is only logged.
unfoldable pub scrape_again : ℕ → Option (List SegmentInfo) → SegmentScraper → SegmentScraper
unfolding scrape
scrape_again now answer s =
    let (s', ok) = scrape now answer s in
    if ok then s' else record s' { scrape_errors = suc s'.scrape_errors }

unfoldable pub scrapes_again :
    List (ℕ × Option (List SegmentInfo)) → SegmentScraper → SegmentScraper
scrapes_again [] s = s
scrapes_again ((now, answer) ∷ answers) s = scrapes_again answers (scrape_again now answer s)

-- `Run` with the answers to its scrapes.
unfoldable pub run : List (ℕ × Option (List SegmentInfo)) → SegmentScraper → SegmentScraper
unfolding scrapes_again
run [] s = s
run ((now, answer) ∷ answers) s = scrapes_again answers (scrape now answer s).0
