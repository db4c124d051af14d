-- ===== src/Debug/Pending.antt =====
-- The map of pending segments of debug_events.go has one entry at most, so that the order in which
-- Go visits a map makes no difference, and what a request does to it and to the counters.
use go_ffmpeg_hls_swarm.Common.{
  ℕ, suc, ◌+◌, ◌≡◌, refl, inl, inr, [], ◌∷◌, false, Option, none, some, sub_ℕ, Text, text_eq,
  text_eq_refl, put, delete, arith, Option-cases, Bool-cases, if◌then◌else◌,
}
use go_ffmpeg_hls_swarm.Samples.{add_sample}
use go_ffmpeg_hls_swarm.Debug.State.{Parser, extract_segment_name, emit}
use go_ffmpeg_hls_swarm.Debug.Download.{
  oldest, is_empty, count_bytes, record_segment, complete, start_segment, handle_hls_request,
  track_segment_from_http,
}

-- The URL of the segment that is under way.
abbrev pub Tracks : Option Text → Parser → Type 0
Tracks none p = p.pending_segments ≡ []
Tracks (some url) p =
    ((start : ℕ) × (p.pending_segments ≡ (url, start) ∷ [])) × (is_empty url ≡ false)

-- What the size lookup, if there is one, says of a segment.
abbrev pub size_of : Option (Text → Option ℕ) → Text → ℕ
size_of none url = 0
size_of (some sizes) url = elim (sizes (extract_segment_name url)) [ none ↦ 0 | some n ↦ n ]

abbrev pub lookups_of : Option (Text → Option ℕ) → ℕ
lookups_of none = 0
lookups_of (some sizes) = 1

-- The fields by which segments are counted.
abbrev pub Counted : Parser → ℕ → ℕ → ℕ → Type 0
Counted p count bytes attempts =
    (p.segments.count ≡ count)
    × (p.segment_bytes_downloaded ≡ bytes)
    × (p.size_lookup_attempts ≡ attempts)

pub oldest_nil : oldest [] ≡ none
unfolding oldest
oldest_nil = refl

pub oldest_one :
    (url : Text) (t : ℕ) → is_empty url ≡ false → oldest ((url, t) ∷ []) ≡ some (url, t)
unfolding oldest
oldest_one url t h = ground arith

pub delete_one : (url : Text) (t : ℕ) → delete {V = ℕ} url ((url, t) ∷ []) ≡ []
unfolding delete
delete_one url t = rw text_eq_refl

count_bytes_lem :
    (url : Text) (p : Parser)
    → let q = count_bytes url p in
      (q.pending_segments ≡ p.pending_segments)
      × (q.size_lookup ≡ p.size_lookup)
      × Counted q p.segments.count
          (p.segment_bytes_downloaded + size_of p.size_lookup url)
          (p.size_lookup_attempts + lookups_of p.size_lookup)
unfolding count_bytes
count_bytes_lem url p = elim (Option-cases p.size_lookup) [
  | inl h ↦ ground arith
  | inr (sizes, h) ↦ elim (Option-cases (sizes (extract_segment_name url))) [
    | inl none_found ↦ ground arith
    | inr (n, found) ↦ ground arith
  ]
]

pub put_one : (url : Text) (t : ℕ) → put {V = ℕ} url t [] ≡ (url, t) ∷ []
unfolding put
put_one url t = refl

pub complete_one :
    (now : ℕ) (url : Text) (t : ℕ) (p : Parser)
    → p.pending_segments ≡ (url, t) ∷ []
    → let q = complete now (url, t) p in
      (q.pending_segments ≡ [])
      × (q.size_lookup ≡ p.size_lookup)
      × Counted q
          (suc p.segments.count)
          (p.segment_bytes_downloaded + size_of p.size_lookup url)
          (p.size_lookup_attempts + lookups_of p.size_lookup)
unfolding complete record_segment add_sample
complete_one now url t p h =
    ground (arith, delete_one url t, count_bytes_lem url (record_segment (sub_ℕ now t) url p))

-- The counters move by the segments that end.
abbrev pub Ends : Option Text → Parser → Parser → Type 0
Ends none p q = Counted q p.segments.count p.segment_bytes_downloaded p.size_lookup_attempts
Ends (some old) p q =
    Counted q (suc p.segments.count) (p.segment_bytes_downloaded + size_of p.size_lookup old)
      (p.size_lookup_attempts + lookups_of p.size_lookup)

-- A segment is under way since `now`, and the segment `ended` has been counted.
abbrev pub GoesOn : Text → ℕ → Option Text → Parser → Parser → Type 0
GoesOn url now ended p q =
    (q.pending_segments ≡ (url, now) ∷ []) × (q.size_lookup ≡ p.size_lookup) × Ends ended p q

pub handle_hls_request-Ends :
    (o : Option Text) (now : ℕ) (url : Text) (p : Parser)
    → Tracks o p
    → GoesOn url now o p (handle_hls_request now url p)
unfolding handle_hls_request start_segment emit
handle_hls_request-Ends none now url p h = ground (arith, oldest_nil, put_one url now)
handle_hls_request-Ends (some old) now url p ((start, h), f) =
    ground (arith, complete_one now old start p h, oldest_one old start f, put_one url now)

-- A segment that is asked for again by the HTTP layer does not end.
abbrev pub ended_by_http : Text → Option Text → Option Text
ended_by_http url none = none
ended_by_http url (some old) =
    if text_eq (extract_segment_name old) (extract_segment_name url) then none else some old

pub track_segment_from_http-Ends :
    (o : Option Text) (now : ℕ) (url : Text) (p : Parser)
    → Tracks o p
    → GoesOn url now (ended_by_http url o) p (track_segment_from_http now url p)
unfolding track_segment_from_http start_segment
track_segment_from_http-Ends none now url p h = ground (arith, oldest_nil, put_one url now)
track_segment_from_http-Ends (some old) now url p ((start, h), f) =
    elim (Bool-cases (text_eq (extract_segment_name old) (extract_segment_name url))) [
      | inl same ↦ ground (arith, oldest_one old start f, delete_one old start, put_one url now)
      | inr other ↦
          ground (arith, complete_one now old start p h, oldest_one old start f, put_one url now)
    ]
