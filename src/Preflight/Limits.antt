-- ===== src/Preflight/Limits.antt =====
-- checks.go: when the checks pass, and which limit on processes is compared.
use go_ffmpeg_hls_swarm.Common.{
  ℕ, zero, suc, ◌<◌, ◌≡◌, refl, ◌∙◌, ap, subst, ◌↔◌, inl, inr, Bool-cases, Bool, true, false, not,
  ◌&&◌, if◌then◌else◌, some, List, [], ◌∷◌, ◌++◌, ℤ, pos, ◌+ℤ◌, ◌*ℤ◌, ◌≤ℤ◌, All, All-mono, Text,
  codes, has_prefix, text_eq, text_eq_iff, replicate, is_digit, padded, padded-is_digit,
  padded-length, length, arith,
}
use go_ffmpeg_hls_swarm.Preflight.{
  Host, to_int, leb_ℤ, split_lines, fields, is_space, extend, starts_field, find_processes,
  fourth_field, check_process_limit, check_file_descriptors, check_ffmpeg, run_all,
}

abbrev Word : Text → Type 0
Word = All (λ c. is_space c ≡ false)

fields-spaces : (n : ℕ) (s : Text) → fields (replicate n b' ' ++ s) ≡ fields s
unfolding fields
fields-spaces zero s = refl
fields-spaces (suc n) s = fields-spaces n s

fields-cons :
    (c : ℕ) (s : Text) → is_space c ≡ false → fields (c ∷ s) ≡ extend c (starts_field s) (fields s)
unfolding fields
fields-cons c s h = ground (arith, h)

extend-new : (c : ℕ) (words : List Text) → extend c false words ≡ (c ∷ []) ∷ words
extend-new c [] = refl
extend-new c (word ∷ words) = refl

-- A word before a space is a field.
fields-Word :
    (c : ℕ) (word rest : Text)
    → Word (c ∷ word)
    → fields (c ∷ word ++ b' ' ∷ rest) ≡ (c ∷ word) ∷ fields rest
fields-Word c [] rest h =
    fields-cons c (b' ' ∷ rest) h.0
    ∙ extend-new c (fields (b' ' ∷ rest))
    ∙ ap (λ words. (c ∷ []) ∷ words) (fields-spaces 1 rest)
fields-Word c (d ∷ word) rest h =
    let s = d ∷ word ++ b' ' ∷ rest in
    fields-cons c s h.0
    ∙ ap (λ b. extend c (not b) (fields s)) h.1.0
    ∙ ap (extend c true) (fields-Word d word rest h.1)

fields-Word_spaces :
    (word : Text) (n : ℕ) (rest : Text)
    → Word word
    → 0 < length word
    → fields (word ++ (replicate (suc n) b' ' ++ rest)) ≡ word ∷ fields rest
fields-Word_spaces [] n rest h k = absurd (omega arith)
fields-Word_spaces (c ∷ word) n rest h k =
    fields-Word c word (replicate n b' ' ++ rest) h
    ∙ ap (λ words. (c ∷ word) ∷ words) (fields-spaces n rest)

is_digit-is_space : (c : ℕ) → is_digit c ≡ true → is_space c ≡ false
is_digit-is_space c h = ground arith

-- A line of /proc/self/limits: the soft limit stands before the hard one.
abbrev pub limits_line : ℕ → ℕ → ℕ → ℕ → Text → Text
limits_line a soft b hard rest =
    codes "Max processes"
    ++ (replicate (suc a) b' '
        ++ (padded 0 soft ++ (replicate (suc b) b' ' ++ (padded 0 hard ++ (b' ' ∷ rest)))))

fields-number :
    (value n : ℕ) (rest : Text)
    → fields (padded 0 value ++ (replicate (suc n) b' ' ++ rest)) ≡ padded 0 value ∷ fields rest
fields-number value n rest =
    fields-Word_spaces (padded 0 value) n rest
      (All-mono (λ c. is_digit c ≡ true) is_digit-is_space (padded 0 value)
        (padded-is_digit 0 value))
      (padded-length 0 value)

fields-limits_line :
    (a soft b hard : ℕ) (rest : Text)
    → fourth_field (fields (limits_line a soft b hard rest)) ≡ some (padded 0 hard)
fields-limits_line a soft b hard rest =
    let last = padded 0 hard ++ (b' ' ∷ rest) in
    let numbers = padded 0 soft ++ (replicate (suc b) b' ' ++ last) in
    ap fourth_field (
      fields-Word_spaces (codes "Max") 0 (codes "processes" ++ (replicate (suc a) b' ' ++ numbers))
        (ground arith) (omega arith)
      ∙ ap (λ words. codes "Max" ∷ words)
          (fields-Word_spaces (codes "processes") a numbers (ground arith) (omega arith)
            ∙ ap (λ words. codes "processes" ∷ words)
                (fields-number soft b last
                  ∙ ap (λ words. padded 0 soft ∷ words) (fields-number hard 0 rest))))

find_processes-append :
    (before : List Text) (line : Text) (after : List Text)
    → All (λ l. has_prefix l (codes "Max processes") ≡ false) before
    → has_prefix line (codes "Max processes") ≡ true
    → find_processes (before ++ line ∷ after) ≡ fourth_field (fields line)
unfolding find_processes
find_processes-append [] line after h k = ground (arith, k)
find_processes-append (l ∷ before) line after h k =
    ground (arith, h.0, find_processes-append before line after h.1 k)

has_prefix-limits_line :
    (a soft b hard : ℕ) (rest : Text)
    → has_prefix (limits_line a soft b hard rest) (codes "Max processes") ≡ true
unfolding has_prefix
has_prefix-limits_line a soft b hard rest = refl

digits-unlimited : (n : ℕ) → text_eq (padded 0 n) (codes "unlimited") ≡ false
digits-unlimited n = elim (Bool-cases (text_eq (padded 0 n) (codes "unlimited"))) [
  | inl e ↦
      let all =
        subst (All (λ c. is_digit c ≡ true)) ((text_eq_iff (padded 0 n) (codes "unlimited")).0 e)
          (padded-is_digit 0 n) in
      ground (arith, all.0)
  | inr e ↦ e
]

check_process_limit-found :
    (scan : Text → ℤ) (clients : ℤ) (h : Host) (text word : Text) (n : ℕ)
    → h.limits ≡ some text
    → find_processes (split_lines text) ≡ some word
    → text_eq word (codes "unlimited") ≡ false
    → scan word ≡ pos n
    → 0 < n
    → let c = check_process_limit scan clients h in
      (c.actual ≡ pos n) × (c.passed ≡ leb_ℤ (clients +ℤ pos 50) (pos n))
unfolding check_process_limit
check_process_limit-found scan clients h text word n limits found other scanned positive =
    ground (arith, limits, found, other, scanned)

-- Where /proc/self/limits can be read, its first line for processes gives a soft and then a hard limit that is not 0, and `Sscanf` reads
-- that number: the check compares the hard limit with the clients and 50 more, whatever the soft
-- limit is.
pub check_process_limit-hard :
    (scan : Text → ℤ) (clients : ℤ) (h : Host) (text : Text) (before after : List Text)
    (a soft b hard : ℕ) (rest : Text)
    → h.limits ≡ some text
    → split_lines text ≡ before ++ limits_line a soft b hard rest ∷ after
    → All (λ l. has_prefix l (codes "Max processes") ≡ false) before
    → scan (padded 0 hard) ≡ pos hard
    → 0 < hard
    → let c = check_process_limit scan clients h in
      (c.actual ≡ pos hard) × (c.passed ≡ leb_ℤ (clients +ℤ pos 50) (pos hard))
check_process_limit-hard scan clients h text before after a soft b hard rest limits lines others
      scanned positive =
    check_process_limit-found scan clients h text (padded 0 hard) hard limits
      (ap find_processes lines
        ∙ find_processes-append before (limits_line a soft b hard rest) after others
            (has_prefix-limits_line a soft b hard rest)
        ∙ fields-limits_line a soft b hard rest)
      (digits-unlimited hard) scanned positive

passed-all :
    (required actual : ℤ) (processes ffmpeg : Bool)
    → ((if true && not ffmpeg
          then false
          else if true && not processes
          then false
          else if true && not (leb_ℤ required actual)
          then false
          else true)
        ≡ true)
      ↔ ((required ≤ℤ actual) × (processes ≡ true) × (ffmpeg ≡ true))
passed-all required actual processes ffmpeg = ground arith

-- All checks together pass exactly where the limit of descriptors, read as a signed number, is at least twenty for each client and a hundred
-- more, the check of processes passes, and FFmpeg works; the ports are only warned of. Four checks are reported.
run_all-passed :
    (scan : Text → ℤ) (clients : ℤ) (h : Host)
    → let r = run_all scan clients h in
      ((r.passed ≡ true) ↔ (
        (clients *ℤ pos 20 +ℤ pos 100 ≤ℤ to_int h.nofile_cur)
        × ((check_process_limit scan clients h).passed ≡ true)
        × (h.ffmpeg_works ≡ true)))
      × (length r.checks ≡ 4)
unfolding run_all check_file_descriptors check_ffmpeg
run_all-passed scan clients h = (
  passed-all (clients *ℤ pos 20 +ℤ pos 100) (to_int h.nofile_cur)
      (check_process_limit scan clients h).passed h.ffmpeg_works,
  refl,
)
