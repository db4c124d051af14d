-- ===== src/Common/WholeFloats.antt =====
-- The integers as an instance of `Float`, to evaluate the definitions and to show that what is
-- assumed of floating-point numbers can hold. A literal is rounded down.
use Prim.Native.Nat.{ℕ, zero, suc, ◌/◌, ◌^◌}
use mathlib.Core.Bool.{not}
use go_ffmpeg_hls_swarm.Common.Int.{ℤ, pos, pos_part, neg_part, ◌+ℤ◌, ◌-ℤ◌, ◌*ℤ◌, ltb_ℤ, sub_ℕ}
use go_ffmpeg_hls_swarm.Common.Floats.{Float}

unfoldable pub power : ℤ → ℕ → ℤ
power a zero = pos 1
power a (suc n) = power a n *ℤ a

abbrev quotient : ℤ → ℤ → ℤ
quotient a b = sub_ℕ (pos_part a / pos_part b) (neg_part a / pos_part b)

abbrev pub whole : Float
whole = record {
  F = ℤ;
  lit = λ m k. pos (m / 10 ^ k);
  of_int = λ n. n;
  to_int = λ n. n;
  lt = ltb_ℤ;
  le = λ a b. not (ltb_ℤ b a);
  add = ◌+ℤ◌;
  sub = ◌-ℤ◌;
  mul = ◌*ℤ◌;
  div = quotient;
  pow = power;
}
