-- ===== src/Throughput/History.antt =====
-- What holds of a tracker of throughput_tracker.go after any history of operations.
use go_ffmpeg_hls_swarm.Common.{
  ℕ, ◌+◌, ◌≤◌, ◌<◌, List, [], ◌∷◌, length, length-append, length-set, arith, All, All-append,
  All-set, All-mono, pos, negsuc,
}
use go_ffmpeg_hls_swarm.Ring.{Ring, push}
use go_ffmpeg_hls_swarm.Ring.Window.{IsValid, push-IsValid}
use go_ffmpeg_hls_swarm.Throughput.{
  Sample, Tracker, Op, adds, samples_now, resets, step, run, new_tracker, ring_buffer_size,
}

-- A sample taken no later than `now`, of no more bytes than there are.
abbrev pub Past : ℕ → ℕ → Sample → Type 0
Past now total s = (s.timestamp ≤ now) × (s.bytes ≤ total)

pub record Sound (now : ℕ) (t : Tracker) : Type 0 where
  pub valid : IsValid ring_buffer_size t.samples
  pub sampled : 0 < length t.samples.items
  pub past : All (Past now t.total_bytes) t.samples.items

push-All {κ} :
    {A : Type 0} (P : A → Type κ) (size : ℕ) (a : A) (r : Ring A)
    → All P r.items
    → P a
    → All P (push size a r).items
unfolding push
push-All P size a r h p =
    ground (arith, All-append P r.items (a ∷ []) h (p, tt), All-set P r.items r.write_idx a h p)

push-nonempty :
    {A : Type 0} (size : ℕ) (a : A) (r : Ring A) → 0 < size → 0 < length (push size a r).items
unfolding push
push-nonempty size a r h =
    ground (arith, length-append r.items (a ∷ []), length-set r.items r.write_idx a)

Past-mono :
    (now later total more : ℕ) (items : List Sample)
    → now ≤ later
    → total ≤ more
    → All (Past now total) items
    → All (Past later more) items
Past-mono now later total more items h k =
    All-mono (Past now total) {Q = Past later more} (λ s p. omega arith) items

step-Sound :
    (now later : ℕ) (o : Op) (t : Tracker)
    → now ≤ later
    → Sound now t
    → Sound later (step (later, o) t)
unfolding step
step-Sound now later (adds (pos n)) t h v = ground (
  arith,
  Past-mono now later t.total_bytes t.total_bytes t.samples.items h (omega arith) v.past,
  Past-mono now later t.total_bytes (t.total_bytes + n) t.samples.items h (omega arith) v.past,
)
step-Sound now later (adds (negsuc n)) t h v = record {
  valid = v.valid;
  sampled = v.sampled;
  past = Past-mono now later t.total_bytes t.total_bytes t.samples.items h (omega arith) v.past;
}
step-Sound now later samples_now t h v =
    let s : Sample = record { timestamp = later; bytes = t.total_bytes } in
    record {
      valid = push-IsValid ring_buffer_size s t.samples v.valid;
      sampled = push-nonempty ring_buffer_size s t.samples (omega arith);
      past =
          push-All (Past later t.total_bytes) ring_buffer_size s t.samples
            (Past-mono now later t.total_bytes t.total_bytes t.samples.items h (omega arith) v.past)
            (omega arith);
    }
step-Sound now later resets t h v = record {
  valid = omega arith;
  sampled = omega arith;
  past = omega arith;
}

-- The times of a history do not go back, and start no earlier than the one given.
abbrev pub Rising : ℕ → List (ℕ × Op) → Type 0
Rising now [] = Unit {0}
Rising now ((later, o) ∷ ops) = (now ≤ later) × Rising later ops

abbrev pub last_time : ℕ → List (ℕ × Op) → ℕ
last_time now [] = now
last_time now ((later, o) ∷ ops) = last_time later ops

run-Sound_from :
    (now : ℕ) (ops : List (ℕ × Op)) (t : Tracker)
    → Rising now ops
    → Sound now t
    → Sound (last_time now ops) (run ops t)
unfolding run
run-Sound_from now [] t r v = v
run-Sound_from now ((later, o) ∷ ops) t r v =
    run-Sound_from later ops (step (later, o) t) r.1 (step-Sound now later o t r.0 v)

-- After any history of additions, samples and resets on a clock that does not go back, the tracker
-- has between 1 and 300 samples, and each was taken by now and counts no more bytes than the total:
-- no average is negative or counts from the future.
pub run-Sound :
    (now : ℕ) (ops : List (ℕ × Op))
    → Rising now ops
    → Sound (last_time now ops) (run ops (new_tracker now))
unfolding new_tracker
run-Sound now ops r =
    run-Sound_from now ops (new_tracker now) r
      (record { valid = omega arith; sampled = omega arith; past = omega arith })
