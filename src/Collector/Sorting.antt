-- ===== src/Collector/Sorting.antt =====
-- collector.go: `sortDurations` sorts.
use mathlib.Core.List.{reverse, reverse-cons, reverse_perm, Perm, perm_middle}
use mathlib.Core.List.Perm
use go_ffmpeg_hls_swarm.Common.{
  inl, inr, Bool-cases, List, [], ◌∷◌, ◌++◌, ℤ, ◌≤ℤ◌, ltb_ℤ, All, All-append, All-mono, append-nil,
  arith,
}
use go_ffmpeg_hls_swarm.Collector.Summaries.{sink, sort_from, sort_durations}

abbrev Descending : List ℤ → Type 0
Descending [] = Unit {0}
Descending (x ∷ xs) = All (λ y. y ≤ℤ x) xs × Descending xs

abbrev pub Ascending : List ℤ → Type 0
Ascending [] = Unit {0}
Ascending (x ∷ xs) = All (λ y. x ≤ℤ y) xs × Ascending xs

sink-All : (P : ℤ → Type 0) (x : ℤ) (before : List ℤ) → P x → All P before → All P (sink x before)
unfolding sink
sink-All P x [] p h = (p, tt)
sink-All P x (y ∷ before) p h = elim (Bool-cases (ltb_ℤ x y)) [
  | inl less ↦ rw less (h.0, sink-All P x before p h.1)
  | inr more ↦ rw more (p, h)
]

sink-Descending : (x : ℤ) (before : List ℤ) → Descending before → Descending (sink x before)
unfolding sink
sink-Descending x [] d = (tt, tt)
sink-Descending x (y ∷ before) d = elim (Bool-cases (ltb_ℤ x y)) [
  | inl less ↦
      rw less (sink-All (λ z. z ≤ℤ y) x before (ground arith) d.0, sink-Descending x before d.1)
  | inr more ↦
      let y-le-x : y ≤ℤ x = ground arith in
      rw more ((y-le-x, All-mono (λ z. z ≤ℤ y) (λ z h. omega arith) before d.0), d)
]

sink-perm : (x : ℤ) (before : List ℤ) → Perm (sink x before) (x ∷ before)
unfolding sink
sink-perm x [] = Perm.rfl
sink-perm x (y ∷ before) = elim (Bool-cases (ltb_ℤ x y)) [
  | inl less ↦ rw less (Perm.trans (Perm.cons y (sink-perm x before)) (Perm.swap x y before))
  | inr more ↦ rw more Perm.rfl
]

sort_from-Descending : (before d : List ℤ) → Descending before → Descending (sort_from before d)
unfolding sort_from
sort_from-Descending before [] h = h
sort_from-Descending before (x ∷ d) h =
    sort_from-Descending (sink x before) d (sink-Descending x before h)

sort_from-perm : (before d : List ℤ) → Perm (sort_from before d) (d ++ before)
unfolding sort_from
sort_from-perm before [] = Perm.rfl
sort_from-perm before (x ∷ d) =
    Perm.trans (sort_from-perm (sink x before) d)
      (Perm.trans (Perm.append_left d (sink-perm x before)) (perm_middle d before))

append-Ascending :
    (l : List ℤ) (x : ℤ) → Ascending l → All (λ y. y ≤ℤ x) l → Ascending (l ++ x ∷ [])
append-Ascending [] x a h = (tt, tt)
append-Ascending (y ∷ l) x a h =
    (All-append (λ z. y ≤ℤ z) l (x ∷ []) a.0 (h.0, tt), append-Ascending l x a.1 h.1)

reverse-All : (P : ℤ → Type 0) (l : List ℤ) → All P l → All P (reverse l)
reverse-All P [] h = tt
reverse-All P (x ∷ l) h =
    rw (reverse-cons x l) (All-append P (reverse l) (x ∷ []) (reverse-All P l h.1) (h.0, tt))

reverse-Ascending : (l : List ℤ) → Descending l → Ascending (reverse l)
reverse-Ascending [] d = tt
reverse-Ascending (x ∷ l) d =
    rw (reverse-cons x l)
      (append-Ascending (reverse l) x (reverse-Ascending l d.1) (reverse-All (λ y. y ≤ℤ x) l d.0))

-- The result is ascending, and has the elements of the argument, each as often.
pub sort_durations-Ascending :
    (d : List ℤ) → Ascending (sort_durations d) × Perm (sort_durations d) d
unfolding sort_durations
sort_durations-Ascending d = (
  reverse-Ascending (sort_from [] d) (sort_from-Descending [] d tt),
  Perm.trans (reverse_perm (sort_from [] d)) (rw append-nil at (sort_from-perm [] d)),
)
