-- ===== src/Common/Texts.antt =====
-- Texts as lists of bytes, and what the program uses of Go's package `strings` on them. Letters are
-- those of ASCII.
use Prim.Native.Nat.{ℕ, ◌+◌}
use Prim.Native.Char.{code}
use Prim.Native.String.{String}
use mathlib.Core.Path.{◌≡◌, refl}
use mathlib.Core.Logic.{◌↔◌, inl, inr}
use mathlib.Core.Bool.{Bool, true, false, ◌&&◌, ◌||◌}
use mathlib.Core.Option.{Option, none, some}
use mathlib.Core.List.{List, [], ◌∷◌, ◌++◌, map}
use native.Mathlib.Omega.{arith}
use go_ffmpeg_hls_swarm.Common.Tests.{◌==◌, leb, if◌then◌else◌, Bool-cases, Option-cases}

abbrev pub Text : Type 0
Text = List ℕ

-- The bytes of a literal.
abbrev pub codes : String → Text
codes String.[] = []
codes (String.◌∷◌ c s) = code c ∷ codes s

-- `==` of strings.
unfoldable pub text_eq : Text → Text → Bool
text_eq [] [] = true
text_eq [] (b ∷ t) = false
text_eq (a ∷ s) [] = false
text_eq (a ∷ s) (b ∷ t) = (a == b) && text_eq s t

pub text_eq_iff : (s t : Text) → (text_eq s t ≡ true) ↔ (s ≡ t)
unfolding text_eq
text_eq_iff [] [] = ground arith
text_eq_iff [] (b ∷ t) = ground arith
text_eq_iff (a ∷ s) [] = ground arith
text_eq_iff (a ∷ s) (b ∷ t) = ground (arith, text_eq_iff s t)

pub text_eq_refl : (s : Text) → text_eq s s ≡ true
text_eq_refl s = (text_eq_iff s s).1 refl

-- `strings.HasPrefix` and `strings.HasSuffix`.
unfoldable pub has_prefix : Text → Text → Bool
has_prefix s [] = true
has_prefix [] (b ∷ p) = false
has_prefix (a ∷ s) (b ∷ p) = (a == b) && has_prefix s p

unfoldable pub has_suffix : Text → Text → Bool
unfolding text_eq
has_suffix [] p = text_eq [] p
has_suffix (a ∷ s) p = text_eq (a ∷ s) p || has_suffix s p

-- `strings.Contains`.
unfoldable pub contains : Text → Text → Bool
unfolding has_prefix
contains [] p = has_prefix [] p
contains (a ∷ s) p = has_prefix (a ∷ s) p || contains s p

-- `strings.ToLower`.
abbrev pub lower : ℕ → ℕ
lower c = if leb b'A' c && leb c b'Z' then c + 32 else c

abbrev pub to_lower : Text → Text
to_lower s = map lower s

-- `strings.Index` of one byte, as the parts before and behind its first occurrence.
unfoldable pub cut : ℕ → Text → Option (Text × Text)
cut c [] = none
cut c (a ∷ s) =
    let rest = cut c s in
    if a == c then some ([], s) else elim rest [ none ↦ none | some (k, v) ↦ some (a ∷ k, v) ]

-- The byte does not occur.
abbrev pub Lacks : ℕ → Text → Type 0
Lacks c [] = Unit {0}
Lacks c (a ∷ s) = ((a == c) ≡ false) × Lacks c s

pub cut-append : (c : ℕ) (k v : Text) → Lacks c k → cut c (k ++ c ∷ v) ≡ some (k, v)
unfolding cut
cut-append c [] v h = ground arith
cut-append c (a ∷ k) v h = ground (arith, cut-append c k v h.1)

pub cut-eq_none : (c : ℕ) (s : Text) → Lacks c s → cut c s ≡ none
unfolding cut
cut-eq_none c [] h = refl
cut-eq_none c (a ∷ s) h = ground (arith, cut-eq_none c s h.1)

pub cut-eq_some :
    (c : ℕ) (s : Text) {k v : Text} → cut c s ≡ some (k, v) → (s ≡ k ++ c ∷ v) × Lacks c k
unfolding cut
cut-eq_some c [] h = ground arith
cut-eq_some c (a ∷ s) h = elim (Bool-cases (a == c)) [
  | inl e ↦ ground arith
  | inr e ↦ elim (Option-cases (cut c s)) [
    | inl f ↦ ground arith
    | inr ((k', v'), f) ↦ ground (arith, cut-eq_some c s f)
  ]
]

-- `strings.TrimSuffix`.
unfoldable pub trim_suffix : Text → Text → Text
unfolding text_eq
trim_suffix [] p = []
trim_suffix (a ∷ s) p = let rest = trim_suffix s p in if text_eq (a ∷ s) p then [] else a ∷ rest

-- `strings.Join`.
unfoldable pub join : List Text → Text → Text
join [] separator = []
join (s ∷ []) separator = s
join (s ∷ t ∷ more) separator = s ++ separator ++ join (t ∷ more) separator
