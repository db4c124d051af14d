-- ===== src/Samples/Exact.antt =====
-- The figures of Samples.antt are those of the durations recorded.
use go_ffmpeg_hls_swarm.Common.{
  ℕ, suc, ◌+◌, ◌≤◌, ◌≡◌, refl, ◌⊎◌, inl, inr, List, [], ◌∷◌, ℤ, pos, negsuc, ◌+ℤ◌, length, All, In,
  All-mono, arith, dec_lt, ap,
}
use go_ffmpeg_hls_swarm.Samples.{Samples, no_samples, add_sample, new_min, new_max}

-- Durations recorded one after the other; the latest stands first.
abbrev pub recorded : List ℕ → Samples
recorded [] = no_samples
recorded (d ∷ ds) = add_sample (pos d) (recorded ds)

abbrev pub total : List ℕ → ℕ
total [] = 0
total (d ∷ ds) = d + total ds

-- The least and the greatest of a list; of none, the values that stand for "unset".
abbrev pub IsLeast : List ℕ → ℤ → Type 0
IsLeast ds (pos m) = In m ds × All (λ d. m ≤ d) ds
IsLeast ds (negsuc m) = (m ≡ 0) × (ds ≡ [])

abbrev pub IsGreatest : List ℕ → ℤ → Type 0
IsGreatest ds (pos m) = (In m ds ⊎ ((ds ≡ []) × (m ≡ 0))) × All (λ d. d ≤ m) ds
IsGreatest ds (negsuc m) = ⊥

pub record Exact (ds : List ℕ) (s : Samples) : Type 0 where
  pub counted : s.count ≡ length ds
  pub summed : s.sum ≡ pos (total ds)
  pub least : IsLeast ds s.min
  pub greatest : IsGreatest ds s.max

below-least : (d m : ℕ) (ds : List ℕ) → d ≤ m → All (λ e. m ≤ e) ds → All (λ e. d ≤ e) ds
below-least d m ds h a = All-mono (λ e. m ≤ e) {Q = λ e. d ≤ e} (λ e p. omega arith) ds a

above-greatest : (d m : ℕ) (ds : List ℕ) → m ≤ d → All (λ e. e ≤ m) ds → All (λ e. e ≤ d) ds
above-greatest d m ds h a = All-mono (λ e. e ≤ m) {Q = λ e. e ≤ d} (λ e p. omega arith) ds a

new_min-IsLeast :
    (d : ℕ) (ds : List ℕ) (m : ℤ) → IsLeast ds m → IsLeast (d ∷ ds) (new_min (pos d) m)
new_min-IsLeast d ds (pos m) h = elim (dec_lt d m) [
  | yes l ↦
      let e : new_min (pos d) (pos m) ≡ pos d = ground arith in
      rw e (inl refl, (omega arith, below-least d m ds (omega arith) h.1))
  | no l ↦
      let e : new_min (pos d) (pos m) ≡ pos m = ground arith in rw e (inr h.0, (omega arith, h.1))
]
new_min-IsLeast d ds (negsuc m) h =
    let e : new_min (pos d) (negsuc m) ≡ pos d = ground arith in
    rw (e, h.1) (inl refl, (omega arith, tt))

new_max-IsGreatest :
    (d : ℕ) (ds : List ℕ) (m : ℤ) → IsGreatest ds m → IsGreatest (d ∷ ds) (new_max (pos d) m)
new_max-IsGreatest d ds (pos m) h = elim (dec_lt m d) [
  | yes l ↦
      let e : new_max (pos d) (pos m) ≡ pos d = ground arith in
      rw e (inl (inl refl), (omega arith, above-greatest d m ds (omega arith) h.1))
  | no l ↦
      let e : new_max (pos d) (pos m) ≡ pos m = ground arith in
      rw e (ground arith, (omega arith, h.1))
]
new_max-IsGreatest d ds (negsuc m) h = absurd h

pos_add : (a b : ℕ) → pos a +ℤ pos b ≡ pos (b + a)
unfolding ◌+ℤ◌
pos_add a b = ground arith

-- Of durations that are not negative, whatever their number and order, the figures are exactly the
-- count, the sum, the least and the greatest of all of them; with none, the minimum is negative.
pub recorded-Exact : (ds : List ℕ) → Exact ds (recorded ds)
unfolding no_samples add_sample
recorded-Exact [] = record {
  counted = refl;
  summed = refl;
  least = (refl, refl);
  greatest = (inr (refl, refl), tt);
}
recorded-Exact (d ∷ ds) =
    let ih = recorded-Exact ds in
    record {
      counted = ap suc ih.counted;
      summed = rw ih.summed (pos_add (total ds) d);
      least = new_min-IsLeast d ds (recorded ds).min ih.least;
      greatest = new_max-IsGreatest d ds (recorded ds).max ih.greatest;
    }
