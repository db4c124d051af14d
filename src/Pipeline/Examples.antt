-- ===== src/Pipeline/Examples.antt =====
-- Schedules of a pipeline with room for two lines, and the theorems of the siblings at them.
use mathlib.Core.List.{Sublist}
use go_ffmpeg_hls_swarm.Common.{ℕ, ◌≡◌, refl, List, [], ◌∷◌, none, some, ℤ, pos, true}
use go_ffmpeg_hls_swarm.Common.WholeFloats.{whole}
use go_ffmpeg_hls_swarm.Pipeline.{
  Pipeline, Action, count, send, close, receive, finish, step, run, new_pipeline,
}
use go_ffmpeg_hls_swarm.Pipeline.Conservation.{Accounts, run-new-Accounts}
use go_ffmpeg_hls_swarm.Pipeline.Order.{run-new-kept}

abbrev small : Pipeline ℤ ℕ
unfolding new_pipeline
small = new_pipeline whole 2 (pos 1)

-- Three lines arrive before the parser runs, so the third is dropped.
abbrev burst : List (Action ℕ)
burst =
    count 1
    ∷ send
    ∷ count 2
    ∷ send
    ∷ count 3
    ∷ send
    ∷ receive
    ∷ count 4
    ∷ send
    ∷ finish
    ∷ close
    ∷ []

abbrev after_burst : Pipeline ℤ ℕ
after_burst = record {
  buffer_size = 2;
  drop_threshold = pos 1;
  line_chan = 2 ∷ 4 ∷ [];
  closed = true;
  lines_read = 4;
  lines_dropped = 1;
  lines_parsed = 1;
  feeding = none;
  parsing = none;
  delivered = 1 ∷ [];
}

burst_ends : run burst (new_pipeline whole 2 (pos 1)) ≡ some after_burst
unfolding run step new_pipeline
burst_ends = refl

run-new-Accounts_example : Accounts after_burst
run-new-Accounts_example = run-new-Accounts whole 2 (pos 1) burst burst_ends

run-new-kept_example : Sublist {A = ℕ} (1 ∷ 2 ∷ 4 ∷ []) (1 ∷ 2 ∷ 3 ∷ 4 ∷ [])
run-new-kept_example = run-new-kept whole 2 (pos 1) burst burst_ends
