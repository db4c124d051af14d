-- ===== src/Common/Floats.antt =====
-- Floating-point numbers, which the program uses through Go's `float64` and package `math`. They are
-- a parameter of the definitions that compute with them: the operations here, and in `Laws` what
-- the IEEE 754 comparisons, conversions and products are documented to satisfy.
use Prim.Native.Nat.{ℕ}
use mathlib.Core.Bool.{Bool}
use go_ffmpeg_hls_swarm.Common.Int.{ℤ}

pub record Float : Type 1 where
  pub F : Type 0
  -- The literal m · 10⁻ᵏ, so 0.9 is `lit 9 1`.
  pub lit : ℕ → ℕ → F
  -- `float64(n)` and the truncating conversion back.
  pub of_int : ℤ → F
  pub to_int : F → ℤ
  pub lt : F → F → Bool
  pub le : F → F → Bool
  pub add : F → F → F
  pub sub : F → F → F
  pub mul : F → F → F
  pub div : F → F → F
  -- `math.Pow` at an integral exponent.
  pub pow : F → ℕ → F
