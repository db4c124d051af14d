-- ===== src/Progress/Reports.antt =====
-- progress.go: the blocks that FFmpeg prints, as data and as lines.
use go_ffmpeg_hls_swarm.Common.{
  ℕ, ◌+◌, ◌<◌, ◌≤◌, ◌≡◌, ◌⊎◌, inl, inr, refl, ap, true, false, Option, none, some, List, [], ◌∷◌,
  ◌++◌, map, ℤ, pos, pos_part, neg_part, length, All, Text, codes, text_eq, text_eq_iff, Lacks,
  trim_suffix, parse_int, format_int, parse_int-format_int, i64_cutoff, arith,
}

-- What a block reports: numbers, the texts of floating-point numbers, and pairs with keys that the
-- parser does not know. `none` is printed as N/A.
pub record Report : Type 0 where
  pub frame : ℤ
  pub fps : Text
  pub bitrate : Text
  pub total_size : Option ℤ
  pub out_time_us : ℤ
  pub others : List (Text × Text)
  pub speed : Option Text
  pub progress : Text
  pub time : ℕ

abbrev pub known_keys : List Text
known_keys =
    codes "frame"
    ∷ codes "fps"
    ∷ codes "bitrate"
    ∷ codes "total_size"
    ∷ codes "out_time_us"
    ∷ codes "speed"
    ∷ codes "progress"
    ∷ []

abbrev pub Fits : ℤ → Type 0
Fits z = (pos_part z < i64_cutoff) × (neg_part z ≤ i64_cutoff)

abbrev pub Other : Text × Text → Type 0
Other (key, value) = All (λ k. text_eq key k ≡ false) known_keys × Lacks b'=' key

abbrev pub IsSpeed : Option Text → Type 0
IsSpeed none = Unit {0}
IsSpeed (some t) = (text_eq t (codes "N/A") ≡ false) × (text_eq t [] ≡ false)

abbrev pub FitsOption : Option ℤ → Type 0
FitsOption none = Unit {0}
FitsOption (some z) = Fits z

-- The numbers have 64 bits, the other keys are unknown, and a speed that is printed is not empty and not N/A.
abbrev pub IsReport : Report → Type 0
IsReport r =
    Fits r.frame
    × FitsOption r.total_size
    × Fits r.out_time_us
    × All Other r.others
    × IsSpeed r.speed

abbrev pub print_pair : Text × Text → Text
print_pair (key, value) = key ++ b'=' ∷ value

abbrev pub print_size : Option ℤ → Text
print_size none = codes "N/A"
print_size (some z) = format_int z

abbrev pub print_speed : Option Text → Text
print_speed none = codes "N/A"
print_speed (some t) = t ++ codes "x"

abbrev pub print_report : Report → List Text
print_report r =
    (codes "frame=" ++ format_int r.frame)
    ∷ (codes "fps=" ++ r.fps)
    ∷ (codes "bitrate=" ++ r.bitrate)
    ∷ (codes "total_size=" ++ print_size r.total_size)
    ∷ (codes "out_time_us=" ++ format_int r.out_time_us)
    ∷ (map print_pair r.others
        ++ (codes "speed=" ++ print_speed r.speed) ∷ (codes "progress=" ++ r.progress) ∷ [])

-- The lines of the blocks, each with the time of its block.
abbrev pub print_reports : List Report → List (ℕ × Text)
print_reports [] = []
print_reports (r ∷ reports) = map (λ line. (r.time, line)) (print_report r) ++ print_reports reports

abbrev pub size_of : Option ℤ → ℤ
size_of none = pos 0
size_of (some z) = z

abbrev pub count_lines : List Report → ℕ
count_lines [] = 0
count_lines (r ∷ reports) = 7 + length r.others + count_lines reports

pub trim_suffix-append : (s : Text) (c : ℕ) → trim_suffix (s ++ c ∷ []) (c ∷ []) ≡ s
unfolding trim_suffix text_eq
trim_suffix-append [] c = ground arith
trim_suffix-append (a ∷ []) c = ground (arith, trim_suffix-append [] c)
trim_suffix-append (a ∷ b ∷ s) c = ground (arith, trim_suffix-append (b ∷ s) c)

pub text_eq-of_snd :
    (z : ℤ) (t : Text) → Fits z → (parse_int t).1 ≡ false → text_eq (format_int z) t ≡ false
text_eq-of_snd z t h k =
    ground (arith, text_eq_iff (format_int z) t, parse_int-format_int z h.0 h.1)

-- How `parseLine` reads a size.
pub print_size-cases :
    (o : Option ℤ)
    → FitsOption o
    → ((text_eq (print_size o) (codes "N/A") ≡ true) × (size_of o ≡ pos 0))
      ⊎ ((text_eq (print_size o) (codes "N/A") ≡ false)
          × (text_eq (print_size o) [] ≡ false)
          × ((parse_int (print_size o)).0 ≡ size_of o))
unfolding text_eq parse_int
print_size-cases none h = inl (refl, refl)
print_size-cases (some z) h = inr (
  text_eq-of_snd z (codes "N/A") h refl,
  text_eq-of_snd z [] h refl,
  ap (λ q. q.0) (parse_int-format_int z h.0 h.1),
)
