-- ===== src/Ffmpeg/Variants.antt =====
-- probe.go: which variant is chosen.
use mathlib.Core.List.{Permᴰ}
use mathlib.Core.List.Permᴰ
use go_ffmpeg_hls_swarm.Common.{
  ◌≡◌, refl, ◌∙◌, ap, sym, subst, inl, inr, Bool, true, some, List, [], ◌∷◌, ◌++◌, map, ℤ, pos,
  ◌≤ℤ◌, All, All-mono, In, Text, codes, text_eq, format_int, parse_int, arith,
}
use go_ffmpeg_hls_swarm.Ffmpeg.{
  FfmpegConfig, ProgramInfo, Program, probe, probe_variants, program_info, first_program,
  last_program, set_program, map_args, variant_highest, variant_lowest,
}

abbrev pub Ascending : List ProgramInfo → Type 0
Ascending [] = Unit {0}
Ascending (p ∷ []) = Unit {0}
Ascending (p ∷ q ∷ programs) = (p.bitrate ≤ℤ q.bitrate) × Ascending (q ∷ programs)

-- What `sort.Slice` promises of a list that it sorts by bitrate.
pub record SortsByBitrate (sort : List ProgramInfo → List ProgramInfo) : Type 0 where
  pub rearranges : (programs : List ProgramInfo) → Permᴰ (sort programs) programs
  pub ascends : (programs : List ProgramInfo) → Ascending (sort programs)

module _ {A : Type 0} where
  In-Permᴰ : (a : A) {l m : List A} → Permᴰ l m → In a l → In a m
  In-Permᴰ a Permᴰ.nil h = h
  In-Permᴰ a (Permᴰ.cons e p) (inl h) = inl (sym e ∙ h)
  In-Permᴰ a (Permᴰ.cons e p) (inr h) = inr (In-Permᴰ a p h)
  In-Permᴰ a (Permᴰ.swap e f) (inl h) = inr (inl (sym e ∙ h))
  In-Permᴰ a (Permᴰ.swap e f) (inr (inl h)) = inl (sym f ∙ h)
  In-Permᴰ a (Permᴰ.swap e f) (inr (inr h)) = inr (inr h)
  In-Permᴰ a (Permᴰ.trans p q) h = In-Permᴰ a q (In-Permᴰ a p h)

  All-Permᴰ : (P : A → Type 0) {l m : List A} → Permᴰ l m → All P l → All P m
  All-Permᴰ P Permᴰ.nil h = h
  All-Permᴰ P (Permᴰ.cons e p) h = (subst P e h.0, All-Permᴰ P p h.1)
  All-Permᴰ P (Permᴰ.swap e f) h = (subst P f h.1.0, (subst P e h.0, h.1.1))
  All-Permᴰ P (Permᴰ.trans p q) h = All-Permᴰ P q (All-Permᴰ P p h)

-- The program is one of those that were found, and none of them has more.
abbrev pub IsHighest : ProgramInfo → List ProgramInfo → Type 0
IsHighest p programs = In p programs × All (λ q. q.bitrate ≤ℤ p.bitrate) programs

abbrev pub IsLowest : ProgramInfo → List ProgramInfo → Type 0
IsLowest p programs = In p programs × All (λ q. p.bitrate ≤ℤ q.bitrate) programs

last_program-IsHighest :
    (p : ProgramInfo) (programs : List ProgramInfo)
    → Ascending (p ∷ programs)
    → (q : ProgramInfo) × (last_program (p ∷ programs) ≡ some q) × IsHighest q (p ∷ programs)
last_program-IsHighest p [] h = (p, refl, (inl refl, (omega arith, tt)))
last_program-IsHighest p (r ∷ programs) h =
    let (q, last, (among, all)) = last_program-IsHighest r programs h.1 in
    (q, last, (inr among, (omega (arith, h.0, all.0), all)))

first_program-IsLowest :
    (p : ProgramInfo) (programs : List ProgramInfo)
    → Ascending (p ∷ programs)
    → All (λ q. p.bitrate ≤ℤ q.bitrate) (p ∷ programs)
first_program-IsLowest p [] h = (omega arith, tt)
first_program-IsLowest p (r ∷ programs) h =
    let (less, all) = first_program-IsLowest r programs h.1 in
    (
      omega arith,
      (h.0, All-mono (λ q. r.bitrate ≤ℤ q.bitrate) (λ q k. omega (arith, h.0, k)) programs all),
    )

-- Of a list that is not empty, sorted.
sorted-IsHighest :
    (sorted : List ProgramInfo) {p : ProgramInfo} {programs : List ProgramInfo}
    → Permᴰ sorted (p ∷ programs)
    → Ascending sorted
    → (q : ProgramInfo) × (last_program sorted ≡ some q) × IsHighest q (p ∷ programs)
sorted-IsHighest [] {p} perm h = absurd (In-Permᴰ p (Permᴰ.symm perm) (inl refl))
sorted-IsHighest (r ∷ sorted) perm h =
    let (q, last, (among, all)) = last_program-IsHighest r sorted h in
    (q, last, (In-Permᴰ q perm among, All-Permᴰ (λ s. s.bitrate ≤ℤ q.bitrate) perm all))

sorted-IsLowest :
    (sorted : List ProgramInfo) {p : ProgramInfo} {programs : List ProgramInfo}
    → Permᴰ sorted (p ∷ programs)
    → Ascending sorted
    → (q : ProgramInfo) × (first_program sorted ≡ some q) × IsLowest q (p ∷ programs)
sorted-IsLowest [] {p} perm h = absurd (In-Permᴰ p (Permᴰ.symm perm) (inl refl))
sorted-IsLowest (r ∷ sorted) perm h = (
  r,
  refl,
  (
    In-Permᴰ r perm (inl refl),
    All-Permᴰ (λ s. r.bitrate ≤ℤ s.bitrate) perm (first_program-IsLowest r sorted h),
  ),
)

-- The bitrate that ffprobe gives for a program: its tag as a number.
abbrev pub bitrate_of : Program → ℤ
bitrate_of p = (parse_int p.variant_bitrate).0

-- The program is one of those that ffprobe found, and none of them has more, or none has less.
abbrev pub IsBest : Program → List Program → Type 0
IsBest p programs = In p programs × All (λ q. bitrate_of q ≤ℤ bitrate_of p) programs

abbrev pub IsLeast : Program → List Program → Type 0
IsLeast p programs = In p programs × All (λ q. bitrate_of p ≤ℤ bitrate_of q) programs

In-info :
    (i : ProgramInfo) (programs : List Program)
    → In i (map program_info programs)
    → (p : Program) × (program_info p ≡ i) × In p programs
In-info i [] h = elim h [ ]
In-info i (p ∷ programs) (inl e) = (p, e, inl refl)
In-info i (p ∷ programs) (inr h) = let (q, e, k) = In-info i programs h in (q, e, inr k)

All-info :
    (P : ProgramInfo → Type 0) (programs : List Program)
    → All P (map program_info programs)
    → All (λ q. P (program_info q)) programs
All-info P [] h = tt
All-info P (p ∷ programs) h = (h.0, All-info P programs h.1)

IsHighest-IsBest :
    (p : Program) (programs : List Program)
    → In p programs
    → All (λ q. q.bitrate ≤ℤ (program_info p).bitrate) (map program_info programs)
    → IsBest p programs
IsHighest-IsBest p programs h all =
    (h, All-info (λ q. q.bitrate ≤ℤ (program_info p).bitrate) programs all)

IsLowest-IsLeast :
    (p : Program) (programs : List Program)
    → In p programs
    → All (λ q. (program_info p).bitrate ≤ℤ q.bitrate) (map program_info programs)
    → IsLeast p programs
IsLowest-IsLeast p programs h all =
    (h, All-info (λ q. (program_info p).bitrate ≤ℤ q.bitrate) programs all)

-- The arguments that map a program.
abbrev maps_program : ℤ → List Text
maps_program id = codes "-map" ∷ (codes "0:p:" ++ format_int id) ∷ []

abbrev pub Selects : (Program → List Program → Type 0) → List Program → FfmpegConfig × Bool → Type 0
Selects Best programs (c, ok) =
    (p : Program) × (ok ≡ true)
    × (c.program_id ≡ p.program_id)
    × (map_args c ≡ maps_program p.program_id)
    × Best p programs

map_args-program :
    (c : FfmpegConfig) (id : ℤ)
    → pos 0 ≤ℤ id
    → (map_args (record c { variant = variant_highest; program_id = id }) ≡ maps_program id)
      × (map_args (record c { variant = variant_lowest; program_id = id }) ≡ maps_program id)
unfolding map_args text_eq
map_args-program c id h = ground (arith, h)

All-In :
    (P : Program → Type 0) (p : Program) (programs : List Program)
    → All P programs
    → In p programs
    → P p
All-In P p [] h k = elim k [ ]
All-In P p (q ∷ programs) h (inl e) = subst P e h.0
All-In P p (q ∷ programs) h (inr k) = All-In P p programs h.1 k

-- What is set, from the sorted programs.
probe_variants-set :
    (sort : List ProgramInfo → List ProgramInfo) (c : FfmpegConfig) (p : Program)
    (programs : List Program)
    → let sorted = sort (map program_info (p ∷ programs)) in
      let highest = record c { variant = variant_highest } in
      let lowest = record c { variant = variant_lowest } in
      (probe_variants sort (some (p ∷ programs)) highest
        ≡ set_program highest (last_program sorted))
      × (probe_variants sort (some (p ∷ programs)) lowest
          ≡ set_program lowest (first_program sorted))
unfolding probe_variants probe text_eq
probe_variants-set sort c p programs = ground arith

-- Where ffprobe finds programs, none with a negative number: for the highest variant the probe succeeds, and the command line maps the program
-- with the number of one that was found and has no less bitrate than any other; for the lowest variant, one
-- that has no more than any other. `sort` rearranges a list so that the bitrates ascend.
pub probe_variants-Selects :
    (sort : List ProgramInfo → List ProgramInfo) (c : FfmpegConfig) (p : Program)
    (programs : List Program)
    → SortsByBitrate sort
    → All (λ q. pos 0 ≤ℤ q.program_id) (p ∷ programs)
    → Selects IsBest
        (p ∷ programs)
        (probe_variants sort (some (p ∷ programs)) (record c { variant = variant_highest }))
      × Selects IsLeast
          (p ∷ programs)
          (probe_variants sort (some (p ∷ programs)) (record c { variant = variant_lowest }))
probe_variants-Selects sort c p programs sorts all =
    let found = p ∷ programs in
    let infos = map program_info found in
    let perm = sorts.rearranges infos in
    let (i, last, (in_high, high)) = sorted-IsHighest (sort infos) perm (sorts.ascends infos) in
    let (j, first, (in_low, low)) = sorted-IsLowest (sort infos) perm (sorts.ascends infos) in
    let (q, q_info, q_in) = In-info i found in_high in
    let (r, r_info, r_in) = In-info j found in_low in
    let natural = λ (s : Program) (k : In s found).
      map_args-program c s.program_id (All-In (λ s. pos 0 ≤ℤ s.program_id) s found all k) in
    let (set_last, set_first) = probe_variants-set sort c p programs in
    (
      subst (Selects IsBest found)
          (sym (set_last ∙ ap (set_program _) (last ∙ ap some (sym q_info))))
          (
            q,
            refl,
            refl,
            (natural q q_in).0,
            IsHighest-IsBest q found q_in
                (subst (λ i. All (λ s. s.bitrate ≤ℤ i.bitrate) infos) (sym q_info) high),
          ),
      subst (Selects IsLeast found)
          (sym (set_first ∙ ap (set_program _) (first ∙ ap some (sym r_info))))
          (
            r,
            refl,
            refl,
            (natural r r_in).1,
            IsLowest-IsLeast r found r_in
                (subst (λ i. All (λ s. i.bitrate ≤ℤ s.bitrate) infos) (sym r_info) low),
          ),
    )
