-- ===== src/Client/Sizes.antt =====
-- client_stats.go: the average of the segment sizes that are kept.
use go_ffmpeg_hls_swarm.Common.{
  ℕ, zero, suc, ◌∙◌, ◌+◌, ◌*◌, ◌/◌, ◌%◌, ◌≤◌, ◌<◌, ◌≡◌, refl, ◌⊎◌, inl, inr, List, [], ◌∷◌, arith,
  All, All-set, ℤ, pos, negsuc, length, length-set, set, replicate, length-replicate,
}
use native.Mathlib.Nat.{le-div_iff_mul-le, div-lt_iff_lt-mul}
use go_ffmpeg_hls_swarm.Client.{
  ClientStats, record_segment_size, segment_size_ring_size, sum_positive, count_positive,
  get_average_segment_size, new_client_stats,
}

-- A slot is unset, or holds a size between the two.
abbrev pub Between : ℕ → ℕ → ℤ → Type 0
Between low high (pos size) = (size ≡ 0) ⊎ ((low ≤ size) × (size ≤ high))
Between low high (negsuc size) = ⊥

All-replicate : (P : ℤ → Type 0) (n : ℕ) (a : ℤ) → P a → All P (replicate n a)
All-replicate P zero a h = tt
All-replicate P (suc n) a h = (h, All-replicate P n a h)

mul_suc : (a b : ℕ) → a * (1 + b) ≡ a + a * b
mul_suc a b = omega arith

sum_positive-bounds :
    (low high : ℕ) (sizes : List ℤ)
    → All (Between low high) sizes
    → (low * count_positive sizes ≤ sum_positive sizes)
      × (sum_positive sizes ≤ high * count_positive sizes)
unfolding sum_positive count_positive
sum_positive-bounds low high [] h = omega arith
sum_positive-bounds low high (pos zero ∷ sizes) (h, hs) =
    ground (arith, sum_positive-bounds low high sizes hs)
sum_positive-bounds low high (pos (suc n) ∷ sizes) (h, hs) = ground (
  arith,
  sum_positive-bounds low high sizes hs,
  mul_suc low (count_positive sizes),
  mul_suc high (count_positive sizes),
)
sum_positive-bounds low high (negsuc n ∷ sizes) (h, hs) = absurd h

count_positive-set :
    (sizes : List ℤ) (i n : ℕ) → i < length sizes → 0 < count_positive (set sizes i (pos (suc n)))
unfolding count_positive
count_positive-set [] i n h = ground arith
count_positive-set (size ∷ sizes) zero n h = ground arith
count_positive-set (size ∷ sizes) (suc i) n h =
    ground (arith, count_positive-set sizes i n (omega arith))

-- Sizes within bounds that are above 0.
abbrev pub Sized : ℕ → ℕ → ℤ → Type 0
Sized low high (pos zero) = ⊥
Sized low high (pos (suc n)) = (low ≤ suc n) × (suc n ≤ high)
Sized low high (negsuc n) = ⊥

div_bounds :
    (low high n k : ℕ) → 0 < k → low * k ≤ n → n ≤ high * k → (low ≤ n / k) × (n / k ≤ high)
div_bounds low high n k h l u =
    let lt_next : n < (high + 1) * k = omega arith in
    ((le-div_iff_mul-le h).1 l, omega (arith, (div-lt_iff_lt-mul h).1 lt_next))

module _ {R : Type 0} where
  abbrev pub record_sizes : List ℤ → ClientStats R → ClientStats R
  record_sizes [] s = s
  record_sizes (size ∷ sizes) s = record_sizes sizes (record_segment_size size s)

  abbrev Kept : ℕ → ℕ → ClientStats R → Type 0
  Kept low high s = (length s.segment_sizes ≡ 100) × All (Between low high) s.segment_sizes

  record_segment_size-Kept :
      (low high n : ℕ) (s : ClientStats R)
      → low ≤ suc n
      → suc n ≤ high
      → Kept low high s
      → let s' = record_segment_size (pos (suc n)) s in
        Kept low high s' × (0 < count_positive s'.segment_sizes)
  unfolding record_segment_size
  record_segment_size-Kept low high n s h k (len, all) =
      let i = (s.segment_size_idx + 1) % segment_size_ring_size in
      let size : ℤ = pos (suc n) in
      (
        (
          length-set s.segment_sizes i size ∙ len,
          All-set (Between low high) s.segment_sizes i size all (inr (h, k)),
        ),
        count_positive-set s.segment_sizes i n (omega (arith, len)),
      )

  new_client_stats-Kept :
      (origin : R) (now low high : ℕ) → Kept low high (new_client_stats origin now)
  unfolding new_client_stats
  new_client_stats-Kept origin now low high =
      (length-replicate 100 (pos 0), All-replicate (Between low high) 100 (pos 0) (inl refl))

  record_sizes-Kept :
      (low high : ℕ) (sizes : List ℤ) (s : ClientStats R)
      → All (Sized low high) sizes
      → Kept low high s
      → 0 < count_positive s.segment_sizes
      → Kept low high (record_sizes sizes s)
        × (0 < count_positive (record_sizes sizes s).segment_sizes)
  record_sizes-Kept low high [] s h k c = (k, c)
  record_sizes-Kept low high (pos zero ∷ sizes) s (h, hs) k c = absurd h
  record_sizes-Kept low high (pos (suc n) ∷ sizes) s (h, hs) k c =
      let r = record_segment_size-Kept low high n s h.0 h.1 k in
      record_sizes-Kept low high sizes (record_segment_size (pos (suc n)) s) hs r.0 r.1
  record_sizes-Kept low high (negsuc n ∷ sizes) s (h, hs) k c = absurd h

  average-bounds :
      (low high : ℕ) (s : ClientStats R)
      → Kept low high s
      → 0 < count_positive s.segment_sizes
      → (low ≤ get_average_segment_size s) × (get_average_segment_size s ≤ high)
  unfolding get_average_segment_size
  average-bounds low high s k c =
      let b = sum_positive-bounds low high s.segment_sizes k.1 in
      ground (
        arith,
        div_bounds low high (sum_positive s.segment_sizes) (count_positive s.segment_sizes) c b.0
            b.1,
      )

  -- Of a new client: after one or more segment sizes, all above 0, are recorded, the average of the sizes that are kept
  -- lies between any two bounds of the sizes that were recorded; the slots that are not in use do not move it.
  record_sizes-average :
      (origin : R) (now low high size : ℕ) (sizes : List ℤ)
      → All (Sized low high) (pos (suc size) ∷ sizes)
      → let s = record_sizes (pos (suc size) ∷ sizes) (new_client_stats origin now) in
        (low ≤ get_average_segment_size s) × (get_average_segment_size s ≤ high)
  record_sizes-average origin now low high size sizes (h, hs) =
      let s = new_client_stats origin now in
      let r =
        record_segment_size-Kept low high size s h.0 h.1
          (new_client_stats-Kept origin now low high) in
      let k =
        record_sizes-Kept low high sizes (record_segment_size (pos (suc size)) s) hs r.0 r.1 in
      average-bounds low high _ k.0 k.1
