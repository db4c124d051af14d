-- ===== src/Client/Errors.antt =====
-- client_stats.go: the HTTP errors that are recorded are those that `GetHTTPErrors` returns.
use go_ffmpeg_hls_swarm.Common.{
  ℕ, zero, suc, ◌+◌, ◌-◌, ◌≤◌, ◌<◌, ◌≡◌, refl, List, [], ◌∷◌, ◌++◌, leb, ◌==◌, ◌&&◌, if◌then◌else◌,
  arith, ◌∙◌, Bool-cases, inl, inr, get_or, set, take, replicate, length, length-set,
  length-replicate,
}
use go_ffmpeg_hls_swarm.Client.{
  ClientStats, record_http_error, error_index, errors_from, get_http_errors, new_client_stats,
}

-- `result[code]` of the map that is returned.
abbrev pub count_in : ℕ → List (ℕ × ℕ) → ℕ
count_in code [] = 0
count_in code ((c, n) ∷ errors) = if c == code then n else count_in code errors

-- How often a counter was meant.
abbrev pub occurrences : ℕ → List ℕ → ℕ
occurrences i [] = 0
occurrences i (code ∷ codes) = (if error_index code == i then 1 else 0) + occurrences i codes

get_or-set :
    (counts : List ℕ) (i j n : ℕ)
    → i < length counts
    → get_or (set counts i n) j 0 ≡ (if i == j then n else get_or counts j 0)
get_or-set [] i j n h = ground arith
get_or-set (c ∷ counts) zero zero n h = refl
get_or-set (c ∷ counts) zero (suc j) n h = ground arith
get_or-set (c ∷ counts) (suc i) zero n h = ground arith
get_or-set (c ∷ counts) (suc i) (suc j) n h = ground (arith, get_or-set counts i j n (omega arith))

error_index-bound : (code : ℕ) → error_index code < 201
unfolding error_index
error_index-bound code = ground arith

errors_from-low :
    (start code : ℕ) (counts : List ℕ) (more : List (ℕ × ℕ))
    → code < start
    → count_in code (errors_from start counts ++ more) ≡ count_in code more
unfolding errors_from
errors_from-low start code [] more h = refl
errors_from-low start code (c ∷ counts) more h =
    ground (arith, errors_from-low (suc start) code counts more (omega arith))

errors_from-at :
    (start i : ℕ) (counts : List ℕ) (more : List (ℕ × ℕ))
    → i < length counts
    → count_in (start + i) more ≡ 0
    → count_in (start + i) (errors_from start counts ++ more) ≡ get_or counts i 0
unfolding errors_from
errors_from-at start i [] more h k = ground arith
errors_from-at start zero (c ∷ counts) more h k =
    ground (arith, errors_from-low (suc start) start counts more (omega arith))
errors_from-at start (suc i) (c ∷ counts) more h k =
    ground (arith, errors_from-at (suc start) i counts more (omega arith))

get_or-take : (n i : ℕ) (xs : List ℕ) → i < n → get_or (take n xs) i 0 ≡ get_or xs i 0
get_or-take zero i xs h = ground arith
get_or-take (suc n) i [] h = refl
get_or-take (suc n) zero (x ∷ xs) h = refl
get_or-take (suc n) (suc i) (x ∷ xs) h = get_or-take n i xs (omega arith)

length-take_le : (n : ℕ) (xs : List ℕ) → n ≤ length xs → length (take n xs) ≡ n
length-take_le zero xs h = refl
length-take_le (suc n) [] h = ground arith
length-take_le (suc n) (x ∷ xs) h = ground (arith, length-take_le n xs (omega arith))

get_or-replicate : (n i : ℕ) → get_or {A = ℕ} (replicate n 0) i 0 ≡ 0
get_or-replicate zero i = refl
get_or-replicate (suc n) zero = refl
get_or-replicate (suc n) (suc i) = get_or-replicate n i

-- The key under which a code's count is returned.
abbrev pub key_of : ℕ → ℕ
key_of code = if leb 400 code && leb code 599 then code else 0

module _ {R : Type 0} where
  abbrev pub record_all : List ℕ → ClientStats R → ClientStats R
  record_all [] s = s
  record_all (code ∷ codes) s = record_all codes (record_http_error code s)

  record_all-counts :
      (codes : List ℕ) (i : ℕ) (s : ClientStats R)
      → length s.http_error_counts ≡ 201
      → (get_or (record_all codes s).http_error_counts i 0
          ≡ get_or s.http_error_counts i 0 + occurrences i codes)
        × (length (record_all codes s).http_error_counts ≡ 201)
  unfolding record_http_error
  record_all-counts [] i s h = (omega arith, h)
  record_all-counts (code ∷ codes) i s h =
      let j = error_index code in
      let n = suc (get_or s.http_error_counts j 0) in
      ground (
        arith,
        length-set s.http_error_counts j n,
        error_index-bound code,
        get_or-set s.http_error_counts j i n (omega (arith, error_index-bound code)),
        record_all-counts codes i (record_http_error code s)
            (omega (arith, length-set s.http_error_counts j n)),
      )

  get_http_errors-listed :
      (s : ClientStats R) (i : ℕ)
      → length s.http_error_counts ≡ 201
      → i < 200
      → count_in (400 + i) (get_http_errors s) ≡ get_or s.http_error_counts i 0
  unfolding get_http_errors
  get_http_errors-listed s i h k =
      errors_from-at 400 i (take 200 s.http_error_counts) _
        (omega (arith, length-take_le 200 s.http_error_counts (omega arith))) (ground arith)
      ∙ get_or-take 200 i s.http_error_counts k

  get_http_errors-other :
      (s : ClientStats R) → count_in 0 (get_http_errors s) ≡ get_or s.http_error_counts 200 0
  unfolding get_http_errors
  get_http_errors-other s =
      errors_from-low 400 0 (take 200 s.http_error_counts) _ (omega arith) ∙ ground arith

  get_http_errors-key :
      (s : ClientStats R) (code : ℕ)
      → length s.http_error_counts ≡ 201
      → count_in (key_of code) (get_http_errors s) ≡ get_or s.http_error_counts (error_index code) 0
  unfolding error_index
  get_http_errors-key s code h = elim (Bool-cases (leb 400 code && leb code 599)) [
    | inl listed ↦ ground (arith, get_http_errors-listed s (code - 400) h (ground arith))
    | inr other ↦ ground (arith, get_http_errors-other s)
  ]

  -- Of a new client's statistics: after any list of HTTP errors is recorded, the map that `GetHTTPErrors` returns has,
  -- under each code from 400 to 599, the number of times that this code was recorded, and under 0 the
  -- number of times that any other code was; a code that it leaves out counts as 0.
  pub record_all-get_http_errors :
      (nothing : R) (now code : ℕ) (codes : List ℕ)
      → count_in (key_of code) (get_http_errors (record_all codes (new_client_stats nothing now)))
        ≡ occurrences (error_index code) codes
  unfolding new_client_stats
  record_all-get_http_errors nothing now code codes =
      let s = new_client_stats nothing now in
      ground (
        arith,
        get_http_errors-key (record_all codes s) code
            (record_all-counts codes (error_index code) s (length-replicate 201 zero)).1,
        record_all-counts codes (error_index code) s (length-replicate 201 zero),
        get_or-replicate 201 (error_index code),
      )
