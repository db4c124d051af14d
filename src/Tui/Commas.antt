-- ===== src/Tui/Commas.antt =====
-- model.go: numbers with commas.
use go_ffmpeg_hls_swarm.Common.{
  ℕ, zero, suc, ◌+◌, ◌/◌, ◌%◌, ◌<◌, ◌≤◌, ◌≡◌, refl, ◌∙◌, ap, sym, inl, inr, true, false,
  if◌then◌else◌, ltb, Bool-cases, [], ◌∷◌, ◌++◌, append_assoc, length-append, pos, Text, format_int,
  format_uint, format_uint-small, format_uint-last, format_uint-head, arith,
}
use go_ffmpeg_hls_swarm.Tui.Format.{with_commas, format_number_with_commas}

abbrev three_digits : ℕ → Text
three_digits k = (b'0' + k / 100) ∷ (b'0' + k / 10 % 10) ∷ (b'0' + k % 10) ∷ []

-- A number by thousands, with fuel for them.
pub grouped : ℕ → ℕ → Text
grouped zero n = []
grouped (suc fuel) n =
    let more = grouped fuel (n / 1000) in
    if ltb n 1000 then format_uint n else more ++ b',' ∷ three_digits (n % 1000)

format_uint-thousands :
    (n : ℕ) → 1000 ≤ n → format_uint n ≡ format_uint (n / 1000) ++ three_digits (n % 1000)
format_uint-thousands n h =
    let thousands : n / 10 / 10 / 10 ≡ n / 1000 = omega arith in
    let third : n / 10 / 10 % 10 ≡ n % 1000 / 100 = omega arith in
    let second : n / 10 % 10 ≡ n % 1000 / 10 % 10 = omega arith in
    let first : n % 10 ≡ n % 1000 % 10 = omega arith in
    format_uint-last n (omega arith)
    ∙ ap (λ s. s ++ (b'0' + n % 10) ∷ []) (format_uint-last (n / 10) (omega arith))
    ∙ ap (λ s. (s ++ (b'0' + n / 10 % 10) ∷ []) ++ (b'0' + n % 10) ∷ [])
        (format_uint-last (n / 10 / 10) (omega arith))
    ∙ rw (thousands, third, second, first, append_assoc, append_assoc) refl

with_commas-append :
    (s : Text) (a b c : ℕ)
    → with_commas false (s ++ a ∷ b ∷ c ∷ []) ≡ with_commas false s ++ b',' ∷ a ∷ b ∷ c ∷ []
unfolding with_commas
with_commas-append [] a b c = refl
with_commas-append (x ∷ s) a b c =
    ground (arith, with_commas-append s a b c, length-append s (a ∷ b ∷ c ∷ []))

-- At most three digits.
with_commas-small : (n : ℕ) → n < 1000 → with_commas true (format_uint n) ≡ format_uint n
unfolding with_commas
with_commas-small n h = elim (Bool-cases (ltb n 10)) [
  | inl one ↦ rw (format_uint-small n (ground arith)) refl
  | inr more ↦ elim (Bool-cases (ltb n 100)) [
    | inl two ↦
        rw (format_uint-last n (ground arith), format_uint-small (n / 10) (ground arith)) refl
    | inr three ↦
        rw
          (
            format_uint-last n (ground arith),
            format_uint-last (n / 10) (ground arith),
            format_uint-small (n / 10 / 10) (ground arith),
          )
          refl
  ]
]

with_commas-first :
    (s : Text) (x a b c : ℕ)
    → with_commas true (x ∷ s ++ a ∷ b ∷ c ∷ []) ≡ with_commas true (x ∷ s) ++ b',' ∷ a ∷ b ∷ c ∷ []
unfolding with_commas
with_commas-first s x a b c = ap (λ t. x ∷ t) (with_commas-append s a b c)

with_commas-format_uint :
    (fuel n : ℕ) → n < fuel → with_commas true (format_uint n) ≡ grouped fuel n
unfolding grouped
with_commas-format_uint zero n h = absurd (omega arith)
with_commas-format_uint (suc fuel) n h = elim (Bool-cases (ltb n 1000)) [
  | inl small ↦ rw small (with_commas-small n (ground arith))
  | inr large ↦
      let (c, s, head) = format_uint-head (n / 1000) in
      let k = n % 1000 in
      rw large (
        ap (with_commas true)
          (format_uint-thousands n (ground arith) ∙ ap (λ t. t ++ three_digits k) head)
        ∙ with_commas-first s c (b'0' + k / 100) (b'0' + k / 10 % 10) (b'0' + k % 10)
        ∙ ap (λ t. with_commas true t ++ b',' ∷ three_digits k) (sym head)
        ∙ ap (λ t. t ++ b',' ∷ three_digits k)
            (with_commas-format_uint fuel (n / 1000) (ground arith)))
]

-- A number that is not negative is printed by thousands: what is left before the last three digits, printed in
-- the same way, then a comma and these digits.
pub format_number_with_commas-grouped :
    (n : ℕ) → format_number_with_commas (pos n) ≡ grouped (suc n) n
unfolding format_number_with_commas format_int grouped
format_number_with_commas-grouped n = elim (Bool-cases (ltb n 1000)) [
  | inl small ↦ rw small refl
  | inr large ↦
      rw large (with_commas-format_uint (suc n) n (omega arith) ∙ rw (large, grouped) refl)
]
