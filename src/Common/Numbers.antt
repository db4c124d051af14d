-- ===== src/Common/Numbers.antt =====
-- `ParseInt` and `FormatInt` of Go's package `strconv`, in base 10 for 64 bits.
use Prim.Native.Nat.{ℕ, zero, suc, ◌+◌, ◌-◌, ◌*◌, ◌/◌, ◌%◌, ◌≤◌, ◌<◌}
use mathlib.Core.Path.{◌≡◌, refl, ap, ◌∙◌}
use mathlib.Core.Bool.{Bool, true, false, ◌&&◌}
use mathlib.Core.Option.{Option, none, some}
use mathlib.Core.List.{[], ◌∷◌, ◌++◌, append_assoc, append-nil}
use native.Mathlib.Omega.{arith}
use go_ffmpeg_hls_swarm.Common.Tests.{ltb, leb, ◌==◌, if◌then◌else◌, Bool-cases}
use mathlib.Core.Logic.{inl, inr}
use go_ffmpeg_hls_swarm.Common.Lists.{All, All-append, replicate, length}
use go_ffmpeg_hls_swarm.Common.Int.{ℤ, pos, negsuc, pos_part, neg_part}
use go_ffmpeg_hls_swarm.Common.Texts.{Text}

abbrev pub max_u64 : ℕ
max_u64 = 18446744073709551615

-- 2⁶³.
abbrev pub i64_cutoff : ℕ
i64_cutoff = 9223372036854775808

-- The loop of `ParseUint` behind `n`: `none` is a syntax error; out of range it stops at the maximum.
unfoldable pub scan_uint : ℕ → Text → Option ℕ
scan_uint n [] = some n
scan_uint n (c ∷ s) =
    let m = n * 10 + (c - b'0') in
    let rest = scan_uint m s in
    if leb b'0' c && leb c b'9' then (if ltb max_u64 m then some max_u64 else rest) else none

-- `ParseUint`: an empty text is an error.
unfoldable pub parse_uint : Text → Option ℕ
unfolding scan_uint
parse_uint [] = none
parse_uint (c ∷ s) = scan_uint 0 (c ∷ s)

-- The value that `ParseInt` returns, and whether it returns no error.
unfoldable pub positive_int : Option ℕ → ℤ × Bool
positive_int none = (pos 0, false)
positive_int (some n) = if leb i64_cutoff n then (pos (i64_cutoff - 1), false) else (pos n, true)

abbrev negate : ℕ → ℤ
negate zero = pos 0
negate (suc n) = negsuc n

unfoldable pub negative_int : Option ℕ → ℤ × Bool
negative_int none = (pos 0, false)
negative_int (some n) = if ltb i64_cutoff n then (negate i64_cutoff, false) else (negate n, true)

unfoldable pub parse_int : Text → ℤ × Bool
unfolding parse_uint positive_int negative_int
parse_int [] = (pos 0, false)
parse_int (c ∷ s) =
    if c == b'-'
    then negative_int (parse_uint s)
    else if c == b'+'
    then positive_int (parse_uint s)
    else positive_int (parse_uint (c ∷ s))

-- The digits of `n`, with fuel for them.
unfoldable pub digits : ℕ → ℕ → Text
digits zero n = []
digits (suc fuel) n =
    let more = digits fuel (n / 10) in
    if ltb n 10 then (b'0' + n) ∷ [] else more ++ (b'0' + n % 10) ∷ []

unfoldable pub format_uint : ℕ → Text
unfolding digits
format_uint n = digits (suc n) n

unfoldable pub format_int : ℤ → Text
unfolding format_uint
format_int (pos n) = format_uint n
format_int (negsuc n) = b'-' ∷ format_uint (suc n)

scan_uint-digit :
    (n d : ℕ) (rest : Text)
    → d < 10
    → n * 10 + d ≤ max_u64
    → scan_uint n ((b'0' + d) ∷ rest) ≡ scan_uint (n * 10 + d) rest
unfolding scan_uint
scan_uint-digit n d rest h k = ground arith

-- Digits that have been read stand for their number.
scan_uint-digits :
    (fuel n : ℕ) (rest : Text)
    → n < fuel
    → n ≤ max_u64
    → scan_uint 0 (digits fuel n ++ rest) ≡ scan_uint n rest
unfolding digits
scan_uint-digits zero n rest h k = absurd (omega arith)
scan_uint-digits (suc fuel) n rest h k = elim (Bool-cases (ltb n 10)) [
  | inl small ↦ rw small (
      scan_uint-digit 0 n rest (ground arith) (omega arith)
      ∙ ap (λ m. scan_uint m rest) (omega arith))
  | inr large ↦
      rw (large, append_assoc)
        (scan_uint-digits fuel (n / 10) ((b'0' + n % 10) ∷ rest) (ground arith) (omega arith)
          ∙ scan_uint-digit (n / 10) (n % 10) rest (omega arith) (omega arith)
          ∙ ap (λ m. scan_uint m rest) (omega arith))
]

digits-head : (fuel n : ℕ) → n < fuel → (c : ℕ) × (s : Text) × (digits fuel n ≡ c ∷ s) × (b'0' ≤ c)
unfolding digits
digits-head zero n h = absurd (omega arith)
digits-head (suc fuel) n h = elim (Bool-cases (ltb n 10)) [
  | inl small ↦ (b'0' + n, [], rw small refl, omega arith)
  | inr large ↦
      let more = digits-head fuel (n / 10) (ground arith) in
      (more.0, more.1 ++ (b'0' + n % 10) ∷ [], rw (large, more.2) refl, more.3)
]

parse_uint-append : (s : Text) (c : ℕ) (t : Text) → s ≡ c ∷ t → parse_uint s ≡ scan_uint 0 (s ++ [])
unfolding parse_uint
parse_uint-append s c t h = rw (h, append-nil) refl

parse_uint-format_uint : (n : ℕ) → n ≤ max_u64 → parse_uint (format_uint n) ≡ some n
unfolding format_uint scan_uint
parse_uint-format_uint n h =
    let head = digits-head (suc n) n (omega arith) in
    parse_uint-append (digits (suc n) n) head.0 head.1 head.2
    ∙ scan_uint-digits (suc n) n [] (omega arith) h

-- Within 64 bits a number that is printed is read back.
pub parse_int-format_int :
    (z : ℤ)
    → pos_part z < i64_cutoff
    → neg_part z ≤ i64_cutoff
    → parse_int (format_int z) ≡ (z, true)
unfolding parse_int format_int positive_int negative_int format_uint
parse_int-format_int (pos n) h k =
    let head = digits-head (suc n) n (omega arith) in
    ground (arith, head, parse_uint-format_uint n (omega arith))
parse_int-format_int (negsuc n) h k = ground (arith, parse_uint-format_uint (suc n) (omega arith))

abbrev pub is_digit : ℕ → Bool
is_digit c = leb b'0' c && leb c b'9'

-- A number behind zeros.
abbrev pub padded : ℕ → ℕ → Text
padded zeros n = replicate zeros b'0' ++ format_uint n

digits-is_digit : (fuel n : ℕ) → All (λ c. is_digit c ≡ true) (digits fuel n)
unfolding digits
digits-is_digit zero n = tt
digits-is_digit (suc fuel) n = elim (Bool-cases (ltb n 10)) [
  | inl small ↦ rw small (ground arith, tt)
  | inr large ↦ rw large (
      All-append (λ c. is_digit c ≡ true) (digits fuel (n / 10)) ((b'0' + n % 10) ∷ [])
        (digits-is_digit fuel (n / 10)) (ground arith, tt))
]

pub padded-is_digit : (zeros n : ℕ) → All (λ c. is_digit c ≡ true) (padded zeros n)
unfolding format_uint
padded-is_digit zero n = digits-is_digit (suc n) n
padded-is_digit (suc zeros) n = (refl, padded-is_digit zeros n)

scan_uint-zeros : (zeros : ℕ) (s : Text) → scan_uint 0 (replicate zeros b'0' ++ s) ≡ scan_uint 0 s
scan_uint-zeros zero s = refl
scan_uint-zeros (suc zeros) s =
    scan_uint-digit 0 0 (replicate zeros b'0' ++ s) (omega arith) (omega arith)
    ∙ scan_uint-zeros zeros s

padded-head : (zeros n : ℕ) → (c : ℕ) × (s : Text) × (padded zeros n ≡ c ∷ s) × (b'0' ≤ c)
unfolding format_uint
padded-head zero n = digits-head (suc n) n (omega arith)
padded-head (suc zeros) n = (b'0', padded zeros n, refl, omega arith)

pub padded-length : (zeros n : ℕ) → 0 < length (padded zeros n)
padded-length zeros n = let head = padded-head zeros n in rw head.2 (omega arith)

parse_uint-padded : (zeros n : ℕ) → n ≤ max_u64 → parse_uint (padded zeros n) ≡ some n
unfolding format_uint scan_uint
parse_uint-padded zeros n h =
    let head = padded-head zeros n in
    parse_uint-append (padded zeros n) head.0 head.1 head.2
    ∙ ap (scan_uint 0) (append_assoc (replicate zeros b'0') (digits (suc n) n) [])
    ∙ scan_uint-zeros zeros (digits (suc n) n ++ [])
    ∙ scan_uint-digits (suc n) n [] (omega arith) h

-- Zeros before a number do not change it.
pub parse_int-padded : (zeros n : ℕ) → n < i64_cutoff → parse_int (padded zeros n) ≡ (pos n, true)
unfolding parse_int positive_int
parse_int-padded zeros n h =
    let head = padded-head zeros n in ground (arith, head, parse_uint-padded zeros n (omega arith))

digits-fuel : (fuel more n : ℕ) → n < fuel → n < more → digits fuel n ≡ digits more n
unfolding digits
digits-fuel zero more n h k = absurd (omega arith)
digits-fuel (suc fuel) zero n h k = absurd (omega arith)
digits-fuel (suc fuel) (suc more) n h k = elim (Bool-cases (ltb n 10)) [
  | inl small ↦ rw small refl
  | inr large ↦ rw (large, digits-fuel fuel more (n / 10) (ground arith) (ground arith)) refl
]

pub format_uint-small : (n : ℕ) → n < 10 → format_uint n ≡ (b'0' + n) ∷ []
unfolding format_uint digits
format_uint-small n h = ground arith

-- The last digit stands behind those of the tenth part.
pub format_uint-last :
    (n : ℕ) → 10 ≤ n → format_uint n ≡ format_uint (n / 10) ++ (b'0' + n % 10) ∷ []
unfolding format_uint digits
format_uint-last n h =
    ground (arith, digits-fuel n (suc (n / 10)) (n / 10) (omega arith) (omega arith))

pub format_uint-head : (n : ℕ) → (c : ℕ) × (s : Text) × (format_uint n ≡ c ∷ s)
unfolding format_uint
format_uint-head n = let head = digits-head (suc n) n (omega arith) in (head.0, head.1, head.2)
