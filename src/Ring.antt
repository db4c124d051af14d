-- ===== src/Ring.antt =====
-- The ring buffer that internal/parser/debug_events.go and internal/timeseries/throughput_tracker.go
-- both write out: a slice that grows to its size and is then overwritten, oldest element first.
pub mod Window
mod Examples
use go_ffmpeg_hls_swarm.Common.{
  ℕ, suc, ◌+◌, ◌%◌, List, [], ◌∷◌, ◌++◌, Bool, true, false, ltb, if◌then◌else◌, length, set, take,
  drop,
}

pub record Ring {ℓ} (A : Type ℓ) : Type ℓ where
  pub items : List A
  pub write_idx : ℕ

-- `len(r) < size`: append; otherwise overwrite at the write index, which moves on round the ring.
unfoldable pub push {ℓ} : {A : Type ℓ} → ℕ → A → Ring A → Ring A
push size a r =
    if ltb (length r.items) size
    then record r { items = r.items ++ a ∷ [] }
    else record { items = set r.items r.write_idx a; write_idx = (r.write_idx + 1) % size }

unfoldable pub empty {ℓ} : {A : Type ℓ} → Ring A
empty = record { items = []; write_idx = 0 }

-- The elements from the oldest to the newest.
unfoldable pub oldest_first {ℓ} : {A : Type ℓ} → Ring A → List A
oldest_first r = drop r.write_idx r.items ++ take r.write_idx r.items
