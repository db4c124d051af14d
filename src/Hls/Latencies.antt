-- ===== src/Hls/Latencies.antt =====
-- hls_events.go: the samples that `recordLatency` keeps.
use go_ffmpeg_hls_swarm.Common.{
  ℕ, zero, suc, ◌-◌, ◌≤◌, ◌<◌, ◌≡◌, refl, ◌∙◌, ap, sym, inl, inr, leb, Bool-cases, List, [], ◌∷◌,
  ◌++◌, append-nil, append_assoc, ℤ, length, length-append, length-drop, drop, arith,
}
use go_ffmpeg_hls_swarm.Hls.{HlsEventParser, new_hls_event_parser, record_latency}

abbrev pub record_latencies : List ℤ → HlsEventParser → HlsEventParser
record_latencies [] p = p
record_latencies (latency ∷ more) p = record_latencies more (record_latency latency p)

-- The last `n` elements.
abbrev pub last_of : ℕ → List ℤ → List ℤ
last_of n xs = drop (length xs - n) xs

drop-append : (n : ℕ) (xs ys : List ℤ) → n ≤ length xs → drop n (xs ++ ys) ≡ drop n xs ++ ys
drop-append zero xs ys h = refl
drop-append (suc n) [] ys h = absurd (omega arith)
drop-append (suc n) (x ∷ xs) ys h = drop-append n xs ys (omega arith)

drop-drop : (n : ℕ) (xs : List ℤ) → drop 1 (drop n xs) ≡ drop (suc n) xs
drop-drop zero xs = refl
drop-drop (suc n) [] = refl
drop-drop (suc n) (x ∷ xs) = drop-drop n xs

record_latency-full :
    (latency : ℤ) (p : HlsEventParser)
    → 1000 ≤ length p.latencies
    → (record_latency latency p).latencies ≡ drop 1 p.latencies ++ latency ∷ []
unfolding record_latency
record_latency-full latency p h = ground arith

record_latency-room :
    (latency : ℤ) (p : HlsEventParser)
    → length p.latencies < 1000
    → (record_latency latency p).latencies ≡ p.latencies ++ latency ∷ []
unfolding record_latency
record_latency-room latency p h = ground arith

record_latency-last :
    (latency : ℤ) (p : HlsEventParser) (before : List ℤ)
    → p.latencies ≡ last_of 1000 before
    → (record_latency latency p).latencies ≡ last_of 1000 (before ++ latency ∷ [])
record_latency-last latency p before h =
    let n = length-append before (latency ∷ []) in
    let extra = length before - 1000 in
    let kept = ap length h ∙ length-drop extra before in
    elim (Bool-cases (leb 1000 (length before))) [
      | inl full ↦
          let e : suc extra ≡ length (before ++ latency ∷ []) - 1000 = ground (arith, n, full) in
          record_latency-full latency p (ground (arith, kept, full))
          ∙ ap (λ l. drop 1 l ++ latency ∷ []) h
          ∙ ap (λ l. l ++ latency ∷ []) (drop-drop extra before)
          ∙ sym (drop-append (suc extra) before (latency ∷ []) (ground (arith, full)))
          ∙ ap (λ k. drop k (before ++ latency ∷ [])) e
      | inr room ↦
          let e : extra ≡ length (before ++ latency ∷ []) - 1000 = ground (arith, n, room) in
          record_latency-room latency p (ground (arith, kept, room))
          ∙ ap (λ l. l ++ latency ∷ []) h
          ∙ sym (drop-append extra before (latency ∷ []) (omega arith))
          ∙ ap (λ k. drop k (before ++ latency ∷ [])) e
    ]

record_latencies-last :
    (more : List ℤ) (p : HlsEventParser) (before : List ℤ)
    → p.latencies ≡ last_of 1000 before
    → (record_latencies more p).latencies ≡ last_of 1000 (before ++ more)
record_latencies-last [] p before h = h ∙ ap (last_of 1000) (sym (append-nil before))
record_latencies-last (latency ∷ more) p before h =
    record_latencies-last more (record_latency latency p) (before ++ latency ∷ [])
      (record_latency-last latency p before h)
    ∙ ap (last_of 1000) (append_assoc before (latency ∷ []) more)

-- Of a new parser: however many latencies are recorded, the parser keeps the last 1000 of them, in order.
pub record_latencies-latencies :
    (latencies : List ℤ)
    → (record_latencies latencies new_hls_event_parser).latencies ≡ last_of 1000 latencies
unfolding new_hls_event_parser
record_latencies-latencies latencies = record_latencies-last latencies new_hls_event_parser [] refl
