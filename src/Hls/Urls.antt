-- ===== src/Hls/Urls.antt =====
-- hls_events.go: opened URLs and their types.
use go_ffmpeg_hls_swarm.Common.{
  ℕ, suc, ◌≡◌, refl, ◌∙◌, ap, sym, true, false, Option, none, some, Bool-cases, inl, inr, subst,
  text_eq, text_eq_iff, has_suffix, [], ◌∷◌, ◌++◌, ◌==◌, Text, codes, Lacks, lower, to_lower, cut,
  cut-append, cut-eq_none, has_prefix, drop, arith,
}
use go_ffmpeg_hls_swarm.Hls.{
  HlsEventParser, event_request, classify_url, classify_path, path_of, UrlType, url_unknown,
  url_manifest, url_segment, url_init, find_opening, quoted, parse_line, emit_event, count_request,
}

lower-question : (c : ℕ) → (c == b'?') ≡ false → (lower c == b'?') ≡ false
lower-question c h = ground arith

to_lower-Lacks : (s : Text) → Lacks b'?' s → Lacks b'?' (to_lower s)
to_lower-Lacks [] h = tt
to_lower-Lacks (c ∷ s) h = (lower-question c h.0, to_lower-Lacks s h.1)

to_lower-append : (s t : Text) → to_lower (s ++ t) ≡ to_lower s ++ to_lower t
to_lower-append [] t = refl
to_lower-append (c ∷ s) t = ap (λ r. lower c ∷ r) (to_lower-append s t)

count_request-calls :
    (now : ℕ) (url : Text) (t : UrlType) (p : HlsEventParser)
    → (count_request now url t p).calls ≡ p.calls
unfolding count_request
count_request-calls now url url_unknown p = refl
count_request-calls now url url_manifest p = refl
count_request-calls now url url_segment p = refl
count_request-calls now url url_init p = refl

-- A query does not change the type of a URL.
classify_url-query :
    (c : ℕ) (path query : Text)
    → Lacks b'?' (c ∷ path)
    → classify_url (c ∷ path ++ b'?' ∷ query) ≡ classify_url (c ∷ path)
unfolding classify_url
classify_url-query c path query h =
    let lacks = to_lower-Lacks (c ∷ path) h in
    ap (λ o. classify_path (path_of o (to_lower (c ∷ path ++ b'?' ∷ query))))
      (ap (cut b'?') (to_lower-append (c ∷ path) (b'?' ∷ query))
        ∙ cut-append b'?' (to_lower (c ∷ path)) (to_lower query) lacks)
    ∙ sym (
        ap (λ o. classify_path (path_of o (to_lower (c ∷ path))))
          (cut-eq_none b'?' (to_lower (c ∷ path)) lacks))

has_prefix-Lacks :
    (c : ℕ) (s : Text) (p : Text) → (c == b'O') ≡ false → has_prefix (c ∷ s) (b'O' ∷ p) ≡ false
unfolding has_prefix
has_prefix-Lacks c s p h = ground (arith, h)

find_opening-here :
    (a : ℕ) (s : Text) {url : Text}
    → has_prefix (a ∷ s) (codes "Opening '") ≡ true
    → quoted (cut 39 (drop 9 (a ∷ s))) ≡ some url
    → find_opening (a ∷ s) ≡ some url
unfolding find_opening
find_opening-here a s h k = ground (arith, h, k)

find_opening-later :
    (a : ℕ) (s : Text)
    → has_prefix (a ∷ s) (codes "Opening '") ≡ false
    → find_opening (a ∷ s) ≡ find_opening s
unfolding find_opening
find_opening-later a s h = ground (arith, h)

has_prefix-append : (p s : Text) → has_prefix (p ++ s) p ≡ true
unfolding has_prefix
has_prefix-append [] [] = refl
has_prefix-append [] (a ∷ s) = refl
has_prefix-append (a ∷ p) s = ground (arith, has_prefix-append p s)

quoted-cut :
    (c : ℕ) (url rest : Text)
    → Lacks 39 (c ∷ url)
    → quoted (cut 39 (c ∷ url ++ 39 ∷ (codes " for reading" ++ rest))) ≡ some (c ∷ url)
quoted-cut c url rest h = ground (
  arith,
  cut-append 39 (c ∷ url) (codes " for reading" ++ rest) h,
  has_prefix-append (codes " for reading") rest,
)

-- A line that opens a URL, with the text before it.
abbrev pub opening_line : Text → Text → Text → Text
opening_line before url rest =
    before ++ (codes "Opening '" ++ (url ++ 39 ∷ (codes " for reading" ++ rest)))

find_opening-first :
    (before : Text) (c : ℕ) (url rest : Text)
    → Lacks b'O' before
    → Lacks 39 (c ∷ url)
    → find_opening (opening_line before (c ∷ url) rest) ≡ some (c ∷ url)
find_opening-first [] c url rest h k =
    find_opening-here b'O' _
      (has_prefix-append (codes "Opening '") (c ∷ url ++ 39 ∷ (codes " for reading" ++ rest)))
      (quoted-cut c url rest k)
find_opening-first (b ∷ before) c url rest h k =
    find_opening-later b (opening_line before (c ∷ url) rest)
      (has_prefix-Lacks b _ (codes "pening '") h.0)
    ∙ find_opening-first before c url rest h.1 k

parse_line-opened :
    (now : ℕ) (line : Text) (p : HlsEventParser) {url : Text} {t : UrlType}
    → find_opening line ≡ some url
    → classify_url url ≡ t
    → (parse_line now line p).calls ≡ p.calls ++ event_request now url t ∷ []
unfolding parse_line emit_event
parse_line-opened now line p {url} h k = ground (
  arith,
  h,
  k,
  count_request-calls now url (classify_url url)
      (record p { lines_processed = suc p.lines_processed }),
)

-- A text that ends in another one.
abbrev pub EndsIn : Text → Text → Type 0
EndsIn s ext = (stem : Text) × (s ≡ stem ++ ext)

-- The type that a path has by its ending, whatever the case of its letters.
abbrev pub HasType : Text → UrlType → Type 0
HasType path url_manifest = EndsIn (to_lower path) (codes ".m3u8")
HasType path url_segment = EndsIn (to_lower path) (codes ".ts")
HasType path url_init = EndsIn (to_lower path) (codes ".mp4")
HasType path url_unknown =
    (¬ EndsIn (to_lower path) (codes ".m3u8"))
    × (¬ EndsIn (to_lower path) (codes ".ts"))
    × (¬ EndsIn (to_lower path) (codes ".mp4"))

has_suffix-EndsIn : (s ext : Text) → has_suffix s ext ≡ true → EndsIn s ext
unfolding has_suffix
has_suffix-EndsIn [] ext h = ([], (text_eq_iff [] ext).0 h)
has_suffix-EndsIn (a ∷ s) ext h = elim (Bool-cases (text_eq (a ∷ s) ext)) [
  | inl e ↦ ([], (text_eq_iff (a ∷ s) ext).0 e)
  | inr e ↦
      let (stem, k) = has_suffix-EndsIn s ext (ground (arith, e, h)) in
      (a ∷ stem, ap (λ t. a ∷ t) k)
]

has_suffix-append : (stem ext : Text) → has_suffix (stem ++ ext) ext ≡ true
unfolding has_suffix
has_suffix-append [] [] = ground (arith, text_eq_iff [] [])
has_suffix-append [] (a ∷ ext) = ground (arith, text_eq_iff (a ∷ ext) (a ∷ ext))
has_suffix-append (a ∷ stem) ext = ground (arith, has_suffix-append stem ext)

not_suffix : (s ext : Text) → has_suffix s ext ≡ false → ¬ EndsIn s ext
not_suffix s ext h (stem, e) =
    ground (arith, h, ap (λ t. has_suffix t ext) e, has_suffix-append stem ext)

classify_path-HasType : (path : Text) → HasType path (classify_path (to_lower path))
unfolding classify_path
classify_path-HasType path =
    let lower = to_lower path in
    elim (Bool-cases (has_suffix lower (codes ".m3u8"))) [
      | inl m ↦ rw (m, classify_path) (has_suffix-EndsIn lower (codes ".m3u8") m)
      | inr m ↦ elim (Bool-cases (has_suffix lower (codes ".ts"))) [
        | inl t ↦ rw (m, t, classify_path) (has_suffix-EndsIn lower (codes ".ts") t)
        | inr t ↦ elim (Bool-cases (has_suffix lower (codes ".mp4"))) [
          | inl i ↦ rw (m, t, i, classify_path) (has_suffix-EndsIn lower (codes ".mp4") i)
          | inr i ↦
              rw (m, t, i, classify_path)
                (
                  not_suffix lower (codes ".m3u8") m,
                  not_suffix lower (codes ".ts") t,
                  not_suffix lower (codes ".mp4") i,
                )
        ]
      ]
    ]

-- A path with a query, or without one.
abbrev pub with_query : Text → Option Text → Text
with_query path none = path
with_query path (some query) = path ++ b'?' ∷ query

classify_url-path :
    (c : ℕ) (path : Text)
    → Lacks b'?' (c ∷ path)
    → classify_url (c ∷ path) ≡ classify_path (to_lower (c ∷ path))
unfolding classify_url
classify_url-path c path h =
    ap (λ o. classify_path (path_of o (to_lower (c ∷ path))))
      (cut-eq_none b'?' (to_lower (c ∷ path)) (to_lower-Lacks (c ∷ path) h))

classify_url-HasType :
    (c : ℕ) (path : Text) (query : Option Text)
    → Lacks b'?' (c ∷ path)
    → HasType (c ∷ path) (classify_url (with_query (c ∷ path) query))
classify_url-HasType c path none h =
    subst (HasType (c ∷ path)) (sym (classify_url-path c path h)) (classify_path-HasType (c ∷ path))
classify_url-HasType c path (some query) h =
    subst (HasType (c ∷ path))
      (sym (classify_url-query c path query h ∙ classify_url-path c path h))
      (classify_path-HasType (c ∷ path))

find_opening-query :
    (before : Text) (c : ℕ) (path : Text) (query : Option Text) (rest : Text)
    → Lacks b'O' before
    → Lacks 39 (with_query (c ∷ path) query)
    → find_opening (opening_line before (with_query (c ∷ path) query) rest)
      ≡ some (with_query (c ∷ path) query)
find_opening-query before c path none rest h l = find_opening-first before c path rest h l
find_opening-query before c path (some query) rest h l =
    find_opening-first before c (path ++ b'?' ∷ query) rest h l

-- A line that opens a URL behind a text without the letter O emits one event: the request of exactly that URL, with the type
-- that the ending of its path gives it: manifest for .m3u8, segment for .ts, initialisation for .mp4, in
-- letters of either case, and unknown for any other ending; a query behind the path does not count. The URL has
-- no quote, and its path no question mark and at least one byte.
pub parse_line-calls :
    (now : ℕ) (before : Text) (c : ℕ) (path : Text) (query : Option Text) (rest : Text)
    (p : HlsEventParser)
    → Lacks b'O' before
    → Lacks b'?' (c ∷ path)
    → Lacks 39 (with_query (c ∷ path) query)
    → let url = with_query (c ∷ path) query in
      (t : UrlType) × ((parse_line now (opening_line before url rest) p).calls
        ≡ p.calls ++ event_request now url t ∷ [])
      × HasType (c ∷ path) t
parse_line-calls now before c path query rest p h k l =
    let url = with_query (c ∷ path) query in
    (
      classify_url url,
      parse_line-opened now (opening_line before url rest) p
          (find_opening-query before c path query rest h l) refl,
      classify_url-HasType c path query k,
    )
