-- ===== src/Scraper/Window.antt =====
-- segment_scraper.go: what the cache holds after a scrape.
use go_ffmpeg_hls_swarm.Common.{
  ℕ, ◌≡◌, refl, ◌∙◌, ap, inl, inr, Bool, false, ◌&&◌, if◌then◌else◌, Option, none, some, List, [],
  ◌∷◌, ℤ, pos, ltb_ℤ, ◌+ℤ◌, ◌-ℤ◌, Text, text_eq, text_eq_iff, Map, lookup, put, lookup-put,
  Bool-cases, arith,
}
use go_ffmpeg_hls_swarm.Scraper.{
  SegmentInfo, SegmentScraper, get_segment_size, parse_segment_number, below, evict_below,
  evict_old_entries, threshold_of, raise, store_files, scrape,
}

-- The size that the origin lists for a name; the last entry counts.
abbrev pub listed : Text → List SegmentInfo → Option ℤ
listed name [] = none
listed name (seg ∷ segments) = elim (listed name segments) [
  | none ↦ if text_eq seg.name name then some seg.size else none
  | some size ↦ some size
]

abbrev pub or_else : Option ℤ → Option ℤ → Option ℤ
or_else none o = o
or_else (some size) o = some size

-- The segment has a number that is less than the threshold, which is positive.
abbrev pub is_stale : ℤ → Text → Bool
is_stale threshold name = ltb_ℤ (pos 0) threshold && below threshold (parse_segment_number name)

abbrev max_num : ℤ → Option ℤ → ℤ
max_num highest none = highest
max_num highest (some num) = if ltb_ℤ num highest then highest else num

raise-max : (highest : ℤ) (o : Option ℤ) → raise highest o ≡ max_num highest o
raise-max highest none = refl
raise-max highest (some num) = ground arith

-- The greatest of a number and those of the files.
abbrev pub highest_of : ℤ → List SegmentInfo → ℤ
highest_of highest [] = highest
highest_of highest (seg ∷ segments) =
    highest_of (max_num highest (parse_segment_number seg.name)) segments

lookup-evict_below :
    (threshold : ℤ) (name : Text) (m : Map ℤ)
    → lookup name (evict_below threshold m).0
      ≡ (if below threshold (parse_segment_number name) then none else lookup name m)
unfolding lookup evict_below
lookup-evict_below threshold name [] = ground arith
lookup-evict_below threshold name ((j, size) ∷ m) = elim (Bool-cases (text_eq j name)) [
  | inl same ↦ ground (
    arith,
    text_eq_iff j name,
    lookup-evict_below threshold name m,
    ap (λ n. below threshold (parse_segment_number n)) ((text_eq_iff j name).0 same),
  )
  | inr other ↦ ground (arith, lookup-evict_below threshold name m)
]

store_files-lookup :
    (name : Text) (segments : List SegmentInfo) (highest : ℤ) (m : Map ℤ)
    → lookup name (store_files segments (highest, m)).1
      ≡ or_else (listed name segments) (lookup name m)
unfolding store_files
store_files-lookup name [] highest m = refl
store_files-lookup name (seg ∷ segments) highest m = ground (
  arith,
  store_files-lookup name segments (raise highest (parse_segment_number seg.name))
      (put seg.name seg.size m),
  lookup-put seg.name name seg.size m,
)

store_files-highest :
    (segments : List SegmentInfo) (highest : ℤ) (m : Map ℤ)
    → (store_files segments (highest, m)).0 ≡ highest_of highest segments
unfolding store_files
store_files-highest [] highest m = refl
store_files-highest (seg ∷ segments) highest m =
    store_files-highest segments (raise highest (parse_segment_number seg.name))
      (put seg.name seg.size m)
    ∙ ap (λ h. highest_of h segments) (raise-max highest (parse_segment_number seg.name))

evict_old_entries-lookup :
    (highest : ℤ) (name : Text) (s : SegmentScraper)
    → lookup name (evict_old_entries highest s).segment_sizes
      ≡ (if is_stale (threshold_of highest s) name then none else lookup name s.segment_sizes)
unfolding evict_old_entries
evict_old_entries-lookup highest name s =
    ground (arith, lookup-evict_below (threshold_of highest s) name s.segment_sizes)

-- After a scrape that succeeds, the highest number is the greatest of the one before and those of the listed files; a file,
-- with a number or without one, is found with the size that was listed for it last, or else with the one known before,
-- unless its number is less than the highest one minus the window plus 1, where that is positive:
-- then it is not found. A scrape that fails changes nothing.
pub scrape-get_segment_size :
    (now : ℕ) (segments : List SegmentInfo) (s : SegmentScraper) (name : Text)
    → let s' = (scrape now (some segments) s).0 in
      (s'.highest_seg_num ≡ highest_of s.highest_seg_num segments)
      × (get_segment_size name s' ≡ (
          if is_stale (s'.highest_seg_num -ℤ s.window_size +ℤ pos 1) name
          then none
          else or_else (listed name segments) (get_segment_size name s)))
      × (scrape now none s ≡ (s, false))
unfolding scrape get_segment_size
scrape-get_segment_size now segments s name =
    let (highest, sizes) = store_files segments (s.highest_seg_num, s.segment_sizes) in
    (
      store_files-highest segments s.highest_seg_num s.segment_sizes,
      evict_old_entries-lookup highest name (record s { segment_sizes = sizes })
          ∙ ap (λ o. if is_stale (threshold_of highest s) name then none else o)
              (store_files-lookup name segments s.highest_seg_num s.segment_sizes),
      refl,
    )
