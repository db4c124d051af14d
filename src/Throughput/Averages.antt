-- ===== src/Throughput/Averages.antt =====
-- Which sample throughput_tracker.go counts from.
use go_ffmpeg_hls_swarm.Common.{
  suc, ◌≤◌, ◌<◌, ◌≡◌, refl, ◌⊎◌, inl, inr, List, [], ◌∷◌, true, false, ltb, Option, none, some,
  length, ℤ, arith, Bool-cases, Option-cases, All, In, drop, take, ◌++◌,
}
use go_ffmpeg_hls_swarm.Ring.{Ring, oldest_first}
use go_ffmpeg_hls_swarm.Ring.Window.{IsValid, get_elem?-drop}
use go_ffmpeg_hls_swarm.Throughput.{
  Sample, after, best_before, oldest_sample, base_sample, ring_buffer_size, distance,
}

-- A sample is after the target or no later than the one given.
abbrev pub NoLater : ℤ → Sample → Sample → Type 0
NoLater target best s = (after s.timestamp target ≡ true) ⊎ (s.timestamp ≤ best.timestamp)

-- The loop with a best sample found.
best_before-some :
    (target : ℤ) (b : Sample) (items : List Sample)
    → after b.timestamp target ≡ false
    → (s : Sample) × (best_before target (some b) items ≡ some s)
      × (after s.timestamp target ≡ false)
      × (b.timestamp ≤ s.timestamp)
      × ((s ≡ b) ⊎ In s items)
      × All (NoLater target s) items
unfolding best_before
best_before-some target b [] h = (b, refl, h, omega arith, inl refl, tt)
best_before-some target b (x ∷ items) h = elim (Bool-cases (after x.timestamp target)) [
  | inl e ↦
      let (s, found, early, late, which, rest) = best_before-some target b items h in
      (s, rw e found, early, late, ground arith, (inl e, rest))
  | inr e ↦ elim (Bool-cases (ltb (distance target x.timestamp) (distance target b.timestamp))) [
    | inl nearer ↦
        let (s, found, early, late, which, rest) = best_before-some target x items e in
        (s, rw (e, nearer) found, early, ground (arith, early), ground arith, (inr late, rest))
    | inr farther ↦
        let (s, found, early, late, which, rest) = best_before-some target b items h in
        (s, rw (e, farther) found, early, late, ground arith, (ground arith, rest))
  ]
]

-- The loop from its start: the latest sample that is not after the target, if there is one.
abbrev pub IsBest : ℤ → List Sample → Option Sample → Type 0
IsBest target items none = All (λ s. after s.timestamp target ≡ true) items
IsBest target items (some s) =
    (after s.timestamp target ≡ false) × In s items × All (NoLater target s) items

IsBest-cons :
    (target : ℤ) (x : Sample) (items : List Sample) (r : Option Sample)
    → after x.timestamp target ≡ true
    → IsBest target items r
    → IsBest target (x ∷ items) r
IsBest-cons target x items none e h = (e, h)
IsBest-cons target x items (some s) e h = (h.0, inr h.1, (inl e, h.2))

best_before-IsBest :
    (target : ℤ) (items : List Sample) → IsBest target items (best_before target none items)
unfolding best_before
best_before-IsBest target [] = tt
best_before-IsBest target (x ∷ items) = elim (Bool-cases (after x.timestamp target)) [
  | inl e ↦ rw e (IsBest-cons target x items _ e (best_before-IsBest target items))
  | inr e ↦
      let (s, found, early, late, which, rest) = best_before-some target x items e in
      rw (e, found) (early, ground arith, (inr late, rest))
]

-- `oldestSample` is the first of the samples in the order in which they were recorded.
oldest_sample-oldest_first :
    (r : Ring Sample)
    → IsValid ring_buffer_size r
    → 0 < length r.items
    → (s : Sample) × (rest : List Sample) × (oldest_sample r ≡ some s) × (oldest_first r ≡ s ∷ rest)
unfolding oldest_sample oldest_first
oldest_sample-oldest_first r v h =
    let (s, found, rest) = get_elem?-drop r.items r.write_idx (ground arith) in
    (s, drop (suc r.write_idx) r.items ++ take r.write_idx r.items, ground arith, rw rest)

-- `avgOverWindow` always has a sample to count from, and it is one of the ring's: the latest of
-- those not after the start of the window, or, if all are after it, the oldest.
pub base_sample-IsBest :
    (target : ℤ) (r : Ring Sample)
    → IsValid ring_buffer_size r
    → 0 < length r.items
    → (s : Sample) × (base_sample target r ≡ some s)
      × (IsBest target r.items (some s)
          ⊎ (All (λ x. after x.timestamp target ≡ true) r.items
              × ((rest : List Sample) × (oldest_first r ≡ s ∷ rest))))
unfolding base_sample
base_sample-IsBest target r v h = elim (Option-cases (best_before target none r.items)) [
  | inl e ↦
      let (s, rest, found, first) = oldest_sample-oldest_first r v h in
      (
        s,
        rw (e, base_sample) found,
        inr (rw e at (best_before-IsBest target r.items), (rest, first)),
      )
  | inr (s, e) ↦ (s, rw (e, base_sample), inl (rw e at (best_before-IsBest target r.items)))
]
