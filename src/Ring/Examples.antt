-- ===== src/Ring/Examples.antt =====
-- A ring of three elements, and the theorem of the sibling at it.
use go_ffmpeg_hls_swarm.Common.{ℕ, ◌≡◌, refl, [], ◌∷◌, arith}
use go_ffmpeg_hls_swarm.Ring.{push, empty, oldest_first}
use go_ffmpeg_hls_swarm.Ring.Window.{push_all, push_all-window}

wrapped : (push_all {A = ℕ} 3 (1 ∷ 2 ∷ 3 ∷ 4 ∷ 5 ∷ []) empty).items ≡ 4 ∷ 5 ∷ 3 ∷ []
unfolding push empty
wrapped = refl

push_all-window_example :
    oldest_first {A = ℕ} (push_all 3 (1 ∷ 2 ∷ 3 ∷ 4 ∷ 5 ∷ []) empty) ≡ 3 ∷ 4 ∷ 5 ∷ []
push_all-window_example = push_all-window 3 (1 ∷ 2 ∷ 3 ∷ 4 ∷ 5 ∷ []) (omega arith)
