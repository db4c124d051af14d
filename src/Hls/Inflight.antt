-- ===== src/Hls/Inflight.antt =====
-- hls_events.go: the requests in flight, and what `CompleteOldestSegment` does to them.
use go_ffmpeg_hls_swarm.Common.{
  ℕ, suc, ◌+◌, ◌≤◌, ◌≡◌, refl, ◌∙◌, ap, sym, subst, ◌⊎◌, inl, inr, false, if◌then◌else◌, ltb,
  Bool-cases, Option, none, some, List, [], ◌∷◌, ℤ, pos, sub_ℕ, length, All, In, Text, text_eq,
  text_eq_refl, Map, delete, arith,
}
use go_ffmpeg_hls_swarm.Hls.{
  HlsEventParser, is_hanging, is_ts, older, scan_inflight, hanging_urls, time_out, record_latency,
  complete, complete_oldest_segment,
}

-- The keys of a map are different texts.
abbrev Apart : Text → Map ℕ → Type 0
Apart url m = All (λ e. text_eq url e.0 ≡ false) m

abbrev pub Distinct : Map ℕ → Type 0
Distinct [] = Unit {0}
Distinct ((url, t) ∷ m) = Apart url m × Distinct m

-- The requests that do not hang.
abbrev pub waiting : ℕ → Map ℕ → Map ℕ
waiting now [] = []
waiting now ((url, t) ∷ m) =
    let more = waiting now m in if is_hanging now t then more else (url, t) ∷ more

delete_all : List Text → Map ℕ → Map ℕ
delete_all [] m = m
delete_all (url ∷ urls) m = delete_all urls (delete url m)

time_out-delete_all :
    (urls : List Text) (p : HlsEventParser)
    → time_out urls p ≡ record p {
      inflight_requests = delete_all urls p.inflight_requests;
      timeouts = p.timeouts + length urls;
    }
unfolding time_out delete_all
time_out-delete_all [] p = ground arith
time_out-delete_all (url ∷ urls) p = ground (
  arith,
  time_out-delete_all urls
      (record p { inflight_requests = delete url p.inflight_requests; timeouts = suc p.timeouts }),
)

hanging_urls-Apart :
    (now : ℕ) (url : Text) (m : Map ℕ)
    → Apart url m
    → All (λ u. text_eq url u ≡ false) (hanging_urls now m)
unfolding hanging_urls
hanging_urls-Apart now url [] h = tt
hanging_urls-Apart now url ((u, t) ∷ m) h = elim (Bool-cases (is_hanging now t)) [
  | inl e ↦ rw e (h.0, hanging_urls-Apart now url m h.1)
  | inr e ↦ rw e (hanging_urls-Apart now url m h.1)
]

delete_all-Apart :
    (urls : List Text) (url : Text) (t : ℕ) (m : Map ℕ)
    → All (λ u. text_eq url u ≡ false) urls
    → delete_all urls ((url, t) ∷ m) ≡ (url, t) ∷ delete_all urls m
unfolding delete_all delete
delete_all-Apart [] url t m h = refl
delete_all-Apart (u ∷ urls) url t m h = rw h.0 (delete_all-Apart urls url t (delete u m) h.1)

delete-here : (url : Text) (t : ℕ) (m : Map ℕ) → delete url ((url, t) ∷ m) ≡ m
unfolding delete
delete-here url t m = ground (arith, text_eq_refl url)

delete_all-hanging_urls :
    (now : ℕ) (m : Map ℕ) → Distinct m → delete_all (hanging_urls now m) m ≡ waiting now m
unfolding hanging_urls delete_all delete
delete_all-hanging_urls now [] h = refl
delete_all-hanging_urls now ((url, t) ∷ m) h = elim (Bool-cases (is_hanging now t)) [
  | inl e ↦ rw e (
      ap (delete_all (hanging_urls now m)) (delete-here url t m)
      ∙ delete_all-hanging_urls now m h.1)
  | inr e ↦ rw e (
      delete_all-Apart (hanging_urls now m) url t m (hanging_urls-Apart now url m h.0)
      ∙ ap (λ r. (url, t) ∷ r) (delete_all-hanging_urls now m h.1))
]

length-waiting :
    (now : ℕ) (m : Map ℕ) → length (waiting now m) + length (hanging_urls now m) ≡ length m
unfolding hanging_urls
length-waiting now [] = omega arith
length-waiting now ((url, t) ∷ m) = elim (Bool-cases (is_hanging now t)) [
  | inl e ↦ rw e (omega (arith, length-waiting now m))
  | inr e ↦ rw e (omega (arith, length-waiting now m))
]

-- The segments among them.
abbrev pub segments : ℕ → Map ℕ → Map ℕ
segments now [] = []
segments now ((url, t) ∷ m) =
    let more = segments now m in
    if is_hanging now t then more else if is_ts url then (url, t) ∷ more else more

fold_older : Map ℕ → Option (Text × ℕ) → Option (Text × ℕ)
fold_older [] oldest = oldest
fold_older ((url, t) ∷ m) oldest = fold_older m (older url t oldest)

scan_inflight-segments :
    (now : ℕ) (m : Map ℕ) (oldest : Option (Text × ℕ))
    → scan_inflight now m oldest ≡ fold_older (segments now m) oldest
unfolding scan_inflight fold_older
scan_inflight-segments now [] oldest = refl
scan_inflight-segments now ((url, t) ∷ m) oldest = elim (Bool-cases (is_hanging now t)) [
  | inl e ↦ rw e (scan_inflight-segments now m oldest)
  | inr e ↦ elim (Bool-cases (is_ts url)) [
    | inl ts ↦ rw (e, ts) (scan_inflight-segments now m (older url t oldest))
    | inr other ↦ rw (e, other) (scan_inflight-segments now m oldest)
  ]
]

-- One of them, and none started before it.
abbrev pub IsOldest : Text × ℕ → Map ℕ → Type 0
IsOldest e m = In e m × All (λ f. e.1 ≤ f.1) m

older-some :
    (url : Text) (t : ℕ) (e : Text × ℕ)
    → (f : Text × ℕ) × (older url t (some e) ≡ some f)
      × ((f ≡ e) ⊎ (f ≡ (url, t)))
      × (f.1 ≤ e.1)
      × (f.1 ≤ t)
older-some url t (u, s) = elim (Bool-cases (ltb t s)) [
  | inl less ↦ ((url, t), rw less refl, inr refl, ground (arith, less), omega arith)
  | inr more ↦ ((u, s), rw more refl, inl refl, omega arith, ground (arith, more))
]

fold_older-IsOldest :
    (m : Map ℕ) (e : Text × ℕ)
    → (f : Text × ℕ) × (fold_older m (some e) ≡ some f) × IsOldest f (e ∷ m)
unfolding fold_older
fold_older-IsOldest [] e = (e, refl, (inl refl, (omega arith, tt)))
fold_older-IsOldest ((url, t) ∷ m) e =
    let (g, eq, which, le_e, le_t) = older-some url t e in
    let (f, fold, (among, (le_g, all))) = fold_older-IsOldest m g in
    (
      f,
      ap (fold_older m) eq ∙ fold,
      (
        elim among [
          | inl same ↦ elim which [
            | inl is_e ↦ inl (sym is_e ∙ same)
            | inr is_new ↦ inr (inl (sym is_new ∙ same))
          ]
          | inr later ↦ inr (inr later)
        ],
        (omega arith, (omega arith, all)),
      ),
    )

fold_older-cases :
    (s : Map ℕ)
    → ((s ≡ []) × (fold_older s none ≡ none))
      ⊎ ((e : Text × ℕ) × (fold_older s none ≡ some e) × IsOldest e s)
unfolding fold_older
fold_older-cases [] = inl (refl, refl)
fold_older-cases (e ∷ s) = inr (fold_older-IsOldest s e)

scan_inflight-cases :
    (now : ℕ) (m : Map ℕ)
    → ((segments now m ≡ []) × (scan_inflight now m none ≡ none))
      ⊎ ((e : Text × ℕ) × (scan_inflight now m none ≡ some e) × IsOldest e (segments now m))
scan_inflight-cases now m = elim (fold_older-cases (segments now m)) [
  | inl (empty, fold) ↦ inl (empty, scan_inflight-segments now m none ∙ fold)
  | inr (e, fold, oldest) ↦ inr (e, scan_inflight-segments now m none ∙ fold, oldest)
]

-- What a completion at the time `now` gives for a parser: the hanging requests are counted as timeouts and are off the map. If
-- there is a segment among the others, the one that started first is taken off and the time since its
-- start recorded; if there is none, the latency is 0, and the others and the latencies stay.
abbrev pub IsCompletion : ℕ → HlsEventParser → ℤ × HlsEventParser → Type 0
IsCompletion now p (latency, p') =
    let rest = waiting now p.inflight_requests in
    let candidates = segments now p.inflight_requests in
    (p'.timeouts + length rest ≡ p.timeouts + length p.inflight_requests)
    × (((candidates ≡ [])
          × (latency ≡ pos 0)
          × (p'.inflight_requests ≡ rest)
          × (p'.latencies ≡ p.latencies))
        ⊎ ((e : Text × ℕ) × IsOldest e candidates
            × (latency ≡ sub_ℕ now e.1)
            × (p'.inflight_requests ≡ delete e.0 rest)
            × (p'.latencies ≡ (record_latency latency p).latencies)))

complete_oldest_segment-cleaned :
    (now : ℕ) (p : HlsEventParser)
    → Distinct p.inflight_requests
    → complete_oldest_segment now p
      ≡ complete now (scan_inflight now p.inflight_requests none) (record p {
        inflight_requests = waiting now p.inflight_requests;
        timeouts = p.timeouts + length (hanging_urls now p.inflight_requests);
      })
unfolding complete_oldest_segment
complete_oldest_segment-cleaned now p h =
    let m = p.inflight_requests in
    ap (complete now (scan_inflight now m none)) (
      time_out-delete_all (hanging_urls now m) p
      ∙ ap
          (λ i. record p {
            inflight_requests = i;
            timeouts = p.timeouts + length (hanging_urls now m);
          })
          (delete_all-hanging_urls now m h))

-- Where the requests in flight have different URLs, `CompleteOldestSegment` counts those that hang as timeouts and takes them off,
-- completes the oldest of the segments that do not hang, if there is one, with the time since its
-- start, and leaves everything else in flight.
pub complete_oldest_segment-IsCompletion :
    (now : ℕ) (p : HlsEventParser)
    → Distinct p.inflight_requests
    → IsCompletion now p (complete_oldest_segment now p)
unfolding record_latency
complete_oldest_segment-IsCompletion now p h =
    let m = p.inflight_requests in
    let q = record p {
      inflight_requests = waiting now m;
      timeouts = p.timeouts + length (hanging_urls now m);
    } in
    let counted : q.timeouts + length (waiting now m) ≡ p.timeouts + length m =
      omega (arith, length-waiting now m) in
    subst (IsCompletion now p) (sym (complete_oldest_segment-cleaned now p h))
      (elim (scan_inflight-cases now m) [
        | inl (empty, scan) ↦
            subst (λ o. IsCompletion now p (complete now o q)) (sym scan)
              (counted, inl (empty, refl, refl, refl))
        | inr (e, scan, oldest) ↦
            subst (λ o. IsCompletion now p (complete now o q)) (sym scan)
              (counted, inr (e, oldest, refl, refl, refl))
      ])
