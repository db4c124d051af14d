-- ===== src/Tui/Format.antt =====
-- model.go: the formatting helpers. `fixed d x` is what `%.df` prints for `x`; texts are lists of code points.
use go_ffmpeg_hls_swarm.Common.{
  ℕ, suc, ◌-◌, ◌%◌, Bool, true, false, ◌&&◌, not, if◌then◌else◌, ltb, ◌==◌, [], ◌∷◌, ◌++◌, ℤ, pos,
  negsuc, ltb_ℤ, quot_ℤ, rem_ℤ, is_zero, length, replicate, Text, codes, format_int, Float,
}

-- `%*s`, and `%02d`.
unfoldable pub pad_left : ℕ → ℕ → Text → Text
pad_left c width s = replicate (width - length s) c ++ s

unfoldable pub two_digits : ℤ → Text
unfolding pad_left
two_digits (pos n) = pad_left b'0' 2 (format_int (pos n))
two_digits (negsuc n) = b'-' ∷ pad_left b'0' 1 (format_int (pos (suc n)))

-- The loop of `formatNumberWithCommas` on what is left of `str`.
unfoldable pub with_commas : Bool → Text → Text
with_commas first [] = []
with_commas first (c ∷ s) =
    if not first && (length (c ∷ s) % 3 == 0)
    then b',' ∷ c ∷ with_commas false s
    else c ∷ with_commas false s

unfoldable pub format_number_with_commas : ℤ → Text
unfolding with_commas
format_number_with_commas (negsuc n) = codes "0"
format_number_with_commas (pos n) =
    if ltb n 1000 then format_int (pos n) else with_commas true (format_int (pos n))

unfoldable pub format_number_fixed : ℤ → ℕ → Text
unfolding format_number_with_commas pad_left
format_number_fixed n width = pad_left b' ' width (format_number_with_commas n)

unfoldable pub format_ms : ℤ → Text
format_ms d =
    let ms = quot_ℤ d 1000000 in
    if is_zero ms && ltb_ℤ (pos 0) d
    then format_int (quot_ℤ d 1000) ++ codes " µs"
    else format_int ms ++ codes " ms"

module _ (F : Float) (fixed : ℕ → F.F → Text) where
  -- `d.Hours()` and its like: whole units and the rest as a fraction.
  abbrev units : ℕ → ℤ → F.F
  units size d =
      F.add (F.of_int (quot_ℤ d size)) (F.div (F.of_int (rem_ℤ d size)) (F.of_int (pos size)))

  unfoldable pub format_duration : ℤ → Text
  unfolding two_digits
  format_duration d =
      let h = F.to_int (units 3600000000000 d) in
      let m = rem_ℤ (F.to_int (units 60000000000 d)) 60 in
      let s = rem_ℤ (F.to_int (units 1000000000 d)) 60 in
      two_digits h ++ (b':' ∷ two_digits m ++ (b':' ∷ two_digits s))

  abbrev scaled : ℕ → ℤ → ℕ → Text
  scaled decimals n unit = fixed decimals (F.div (F.of_int n) (F.lit unit 0))

  unfoldable pub format_number : ℤ → Text
  format_number n =
      if not (ltb_ℤ n (pos 1000000))
      then scaled 1 n 1000000 ++ codes "M"
      else if not (ltb_ℤ n (pos 1000))
      then scaled 1 n 1000 ++ codes "K"
      else format_int n

  unfoldable pub format_bytes : ℤ → Text
  format_bytes n =
      if not (ltb_ℤ n (pos 1000000000))
      then scaled 2 n 1000000000 ++ codes " GB"
      else if not (ltb_ℤ n (pos 1000000))
      then scaled 2 n 1000000 ++ codes " MB"
      else if not (ltb_ℤ n (pos 1000))
      then scaled 2 n 1000 ++ codes " KB"
      else format_int n ++ codes " B"

  abbrev thousands : F.F → Text
  thousands rate = fixed 1 (F.div rate (F.lit 1000 0)) ++ codes "K/s"

  unfoldable pub format_rate : F.F → Text
  format_rate rate =
      if F.le (F.lit 1000 0) rate
      then thousands rate
      else if F.le (F.lit 1 0) rate
      then fixed 1 rate ++ codes "/s"
      else fixed 2 rate ++ codes "/s"

  -- What `formatSuccessRate` and `formatRateFixed` share.
  abbrev rising : F.F → Text → Text
  rising rate stalled =
      if F.le (F.lit 1000 0) rate
      then b'+' ∷ thousands rate
      else if F.le (F.lit 1 0) rate
      then b'+' ∷ fixed 0 rate ++ codes "/s"
      else if F.lt (F.lit 0 0) rate
      then b'+' ∷ fixed 1 rate ++ codes "/s"
      else stalled

  unfoldable pub format_success_rate : F.F → ℤ → Text
  format_success_rate rate count =
      rising rate (if ltb_ℤ (pos 0) count then codes "(calculating...)" else codes "(stalled)")

  unfoldable pub format_rate_fixed : F.F → ℕ → Text
  unfolding pad_left
  format_rate_fixed rate width = pad_left b' ' width (rising rate (codes "(stalled)"))

  unfoldable pub format_percent : F.F → Text
  format_percent value = fixed 1 (F.mul value (F.lit 100 0)) ++ codes "%"

  unfoldable pub format_percent_fixed : F.F → ℕ → Text
  unfolding pad_left
  format_percent_fixed value width =
      pad_left b' ' width (fixed 2 (F.mul value (F.lit 100 0)) ++ codes "%")

  unfoldable pub format_ms_fixed : F.F → ℕ → Text
  unfolding pad_left
  format_ms_fixed ms width =
      pad_left b' ' width ((if F.lt ms (F.lit 1 0) then fixed 1 ms else fixed 0 ms) ++ codes "ms")
