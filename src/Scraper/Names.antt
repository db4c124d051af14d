-- ===== src/Scraper/Names.antt =====
-- segment_scraper.go: the numbers of segment names.
use go_ffmpeg_hls_swarm.Common.{
  ℕ, zero, suc, ◌+◌, ◌-◌, ◌<◌, ◌≤◌, ◌≡◌, refl, ◌∙◌, ap, sym, true, false, some, [], ◌∷◌, ◌++◌, pos,
  Text, codes, length, length-append, take, drop, get_or, arith, All, i64_cutoff, padded,
  padded-is_digit, padded-length, parse_int-padded, parse_int, append_assoc,
}
use go_ffmpeg_hls_swarm.Scraper.{scan_back, is_digit, parse_segment_number, int_between, ok_int}

abbrev Digits : Text → Type 0
Digits = All (λ c. is_digit c ≡ true)

-- Empty, or its last byte is no digit.
abbrev pub EndsPlain : Text → Type 0
EndsPlain [] = Unit {0}
EndsPlain (c ∷ []) = is_digit c ≡ false
EndsPlain (c ∷ d ∷ s) = EndsPlain (d ∷ s)

take-length : (s t : Text) → take (length s) (s ++ t) ≡ s
take-length [] t = refl
take-length (c ∷ s) t = ap (λ r. c ∷ r) (take-length s t)

drop-length : (s t : Text) → drop (length s) (s ++ t) ≡ t
drop-length [] t = refl
drop-length (c ∷ s) t = drop-length s t

get_or-length : (s t : Text) (i k : ℕ) → k ≡ length s + i → get_or (s ++ t) k 0 ≡ get_or t i 0
get_or-length [] t i k h = ap (λ n. get_or t n 0) (omega arith)
get_or-length (c ∷ s) t i zero h = absurd (omega arith)
get_or-length (c ∷ s) t i (suc k) h = get_or-length s t i k (omega arith)

get_or-Digits :
    (d t : Text) (i : ℕ) → Digits d → i < length d → is_digit (get_or (d ++ t) i 0) ≡ true
get_or-Digits [] t i h k = absurd (omega arith)
get_or-Digits (c ∷ d) t zero h k = h.0
get_or-Digits (c ∷ d) t (suc i) h k = get_or-Digits d t i h.1 (omega arith)

scan_back-digit :
    (name : Text) (n : ℕ)
    → is_digit (get_or name n 0) ≡ true
    → scan_back name (suc n) ≡ scan_back name n
unfolding scan_back
scan_back-digit name n h = ground (arith, h)

-- The scan goes back over digits, and stops behind another byte.
scan_back-Digits :
    (s d t : Text) (n : ℕ)
    → Digits d
    → n ≤ length d
    → scan_back (s ++ d ++ t) (length s + n) ≡ scan_back (s ++ d ++ t) (length s)
scan_back-Digits s d t zero h k = ap (scan_back (s ++ d ++ t)) (omega arith)
scan_back-Digits s d t (suc n) h k =
    let name = s ++ d ++ t in
    ap (scan_back name) (omega arith)
    ∙ scan_back-digit name (length s + n) (
        ap is_digit (
          ap (λ r. get_or r (length s + n) 0) (append_assoc s d t)
          ∙ get_or-length s (d ++ t) n (length s + n) refl)
        ∙ get_or-Digits d t n h (omega arith))
    ∙ scan_back-Digits s d t n h (omega arith)

last-EndsPlain :
    (c : ℕ) (s t : Text) → EndsPlain (c ∷ s) → is_digit (get_or (c ∷ (s ++ t)) (length s) 0) ≡ false
last-EndsPlain c [] t h = h
last-EndsPlain c (d ∷ s) t h = last-EndsPlain d s t h

scan_back-EndsPlain : (s t : Text) → EndsPlain s → scan_back (s ++ t) (length s) ≡ length s
unfolding scan_back
scan_back-EndsPlain [] t h = refl
scan_back-EndsPlain (c ∷ s) t h = ground (arith, last-EndsPlain c s t h)

drop-take-length : (s d t : Text) → drop (length s) (take (length s + length d) (s ++ d ++ t)) ≡ d
drop-take-length s d t =
    ap (λ n. drop (length s) (take n (s ++ d ++ t))) (sym (length-append s d))
    ∙ ap (drop (length s)) (take-length (s ++ d) t)
    ∙ drop-length s d

parse_segment_number-ts :
    (name : Text) (start end : ℕ)
    → length name ≡ end + 3
    → get_or name (end + 2) 0 ≡ b's'
    → drop end name ≡ codes ".ts"
    → scan_back name end ≡ start
    → start < end
    → parse_segment_number name ≡ int_between name start end
unfolding parse_segment_number
parse_segment_number-ts name start end h last ts scanned less =
    let e : length name - 3 ≡ end = omega arith in
    let e' : length name - 1 ≡ end + 2 = omega arith in rw (e, e', last, ts, scanned) (ground arith)

-- A name that ends with a number of less than 64 bits, with or without zeros before it, and .ts has that number, whatever
-- text without a digit at its end stands before.
pub parse_segment_number-padded :
    (s : Text) (zeros n : ℕ)
    → EndsPlain s
    → n < i64_cutoff
    → parse_segment_number (s ++ padded zeros n ++ codes ".ts") ≡ some (pos n)
parse_segment_number-padded s zeros n h k =
    let d = padded zeros n in
    let name = s ++ d ++ codes ".ts" in
    let whole = length-append (s ++ d) (codes ".ts") in
    let parts = length-append s d in
    parse_segment_number-ts name (length s) (length s + length d) (omega (arith, whole, parts))
      (get_or-length (s ++ d) (codes ".ts") 2 (length s + length d + 2) (omega (arith, parts)))
      (ap (λ i. drop i name) (sym parts) ∙ drop-length (s ++ d) (codes ".ts"))
      (scan_back-Digits s d (codes ".ts") (length d) (padded-is_digit zeros n) (omega arith)
        ∙ ap (λ r. scan_back r (length s)) (append_assoc s d (codes ".ts"))
        ∙ scan_back-EndsPlain s (d ++ codes ".ts") h)
      (omega (arith, padded-length zeros n))
    ∙ ap ok_int (ap parse_int (drop-take-length s d (codes ".ts")) ∙ parse_int-padded zeros n k)
