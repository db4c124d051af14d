-- ===== src/Backoff/Recovery.antt =====
-- backoff.go, `SetAttempts`: a backoff that is set to a number of attempts, beside one that has made them.
use go_ffmpeg_hls_swarm.Common.{suc, ◌+◌, ◌≡◌, refl, arith, Float, List, [], ◌∷◌, length}
use go_ffmpeg_hls_swarm.Backoff.{
  Backoff, BackoffConfig, new_backoff, set_attempts, reset, next, calculate,
}

module _ (F : Float) where
  -- The calls of `Next` in a row, with their draws.
  abbrev next_all : List F.F → Backoff F.F → Backoff F.F
  next_all [] b = b
  next_all (draw ∷ draws) b = next_all draws (next F draw b).1

  next_all-attempts :
      (draws : List F.F) (b : Backoff F.F)
      → next_all draws b ≡ set_attempts (b.attempts + length draws) b
  unfolding set_attempts next
  next_all-attempts [] b = ground arith
  next_all-attempts (draw ∷ draws) b =
      ground (arith, next_all-attempts draws (record b { attempts = suc b.attempts }))

  -- A new backoff with its attempts set to n is one on which `Next` has been called n times, whatever the delays were:
  -- the delays that follow are the same.
  set_attempts-next :
      (cfg : BackoffConfig F.F) (draws : List F.F)
      → next_all draws (new_backoff cfg) ≡ set_attempts (length draws) (new_backoff cfg)
  unfolding new_backoff
  set_attempts-next cfg draws = ground (arith, next_all-attempts draws (new_backoff cfg))

  -- `Reset` forgets every restart: the delay is again that of a new backoff.
  next_all-reset :
      (cfg : BackoffConfig F.F) (draws : List F.F) (draw : F.F)
      → calculate F draw (reset (next_all draws (new_backoff cfg)))
        ≡ calculate F draw (new_backoff cfg)
  unfolding reset new_backoff set_attempts
  next_all-reset cfg draws draw = rw (set_attempts-next cfg draws) refl
