-- ===== src/Preflight.antt =====
-- internal/preflight/checks.go: the checks before the start. What the operating system answers is the record `Host`;
-- `scan` is the integer that `fmt.Sscanf` reads with %d, 0 where it reads none. The messages are left out.
use go_ffmpeg_hls_swarm.Common.{
  ℕ, ◌+◌, ◌-◌, Bool, true, false, not, ◌&&◌, ◌||◌, if◌then◌else◌, leb, ltb, ◌==◌, Option, none,
  some, List, [], ◌∷◌, ◌++◌, ℤ, pos, ◌+ℤ◌, ◌-ℤ◌, ◌*ℤ◌, ltb_ℤ, is_zero, sub_ℕ, Text, codes, text_eq,
  has_prefix, get_elem?,
}
mod Limits
mod Examples

-- `Check`.
pub record Check : Type 0 where
  pub name : Text
  pub required : ℤ
  pub actual : ℤ
  pub passed : Bool
  pub warning : Bool

-- `Result`.
pub record Result : Type 0 where
  pub checks : List Check
  pub passed : Bool

-- The soft limit of descriptors, which Go keeps as an unsigned 64-bit number; the text of /proc/self/limits, if it can be read; whether `ffmpeg -version`
-- works; and the two ends of the port range, if they can be read.
pub record Host : Type 0 where
  pub nofile_cur : ℕ
  pub limits : Option Text
  pub ffmpeg_works : Bool
  pub port_range : Option (ℤ × ℤ)

-- `int(n)` of an unsigned 64-bit number.
abbrev pub to_int : ℕ → ℤ
to_int n = if ltb n 9223372036854775808 then pos n else sub_ℕ n 18446744073709551616

abbrev pub leb_ℤ : ℤ → ℤ → Bool
leb_ℤ a b = not (ltb_ℤ b a)

-- `strings.Split(s, "\n")`: the first line so far, reversed with `line`, and the others.
abbrev prepend : ℕ → List Text → List Text
prepend c [] = (c ∷ []) ∷ []
prepend c (line ∷ lines) = (c ∷ line) ∷ lines

unfoldable pub split_lines : Text → List Text
split_lines [] = [] ∷ []
split_lines (c ∷ s) = let rest = split_lines s in if c == 10 then [] ∷ rest else prepend c rest

-- `strings.Fields`: `open` is whether the byte before belongs to a field.
abbrev pub is_space : ℕ → Bool
is_space c = c == b' ' || (leb 9 c && leb c 13)

abbrev pub extend : ℕ → Bool → List Text → List Text
extend c joined [] = (c ∷ []) ∷ []
extend c true (field ∷ more) = (c ∷ field) ∷ more
extend c false (field ∷ more) = (c ∷ []) ∷ field ∷ more

abbrev pub starts_field : Text → Bool
starts_field [] = false
starts_field (c ∷ s) = not (is_space c)

unfoldable pub fields : Text → List Text
fields [] = []
fields (c ∷ s) = let rest = fields s in if is_space c then rest else extend c (starts_field s) rest

-- The loop over the lines, up to the first one of processes; `none` where there is no fourth field.
abbrev pub fourth_field : List Text → Option Text
fourth_field words = get_elem? words 3

unfoldable pub find_processes : List Text → Option Text
unfolding has_prefix fields
find_processes [] = none
find_processes (line ∷ lines) =
    let later = find_processes lines in
    if has_prefix line (codes "Max processes") then fourth_field (fields line) else later

abbrev pub undetermined : Text → Check
undetermined name = record {
  name = name;
  required = pos 0;
  actual = pos 0;
  passed = true;
  warning = true;
}

-- `checkFileDescriptors`.
unfoldable pub check_file_descriptors : ℤ → Host → Check
check_file_descriptors clients h =
    let required = clients *ℤ pos 20 +ℤ pos 100 in
    record {
      name = codes "file_descriptors";
      required = required;
      actual = to_int h.nofile_cur;
      passed = leb_ℤ required (to_int h.nofile_cur);
      warning = false;
    }

abbrev pub processes_from : (Text → ℤ) → Option Text → ℤ
processes_from scan none = pos 0
processes_from scan (some word) =
    if text_eq word (codes "unlimited") then pos 1000000 else scan word

-- `checkProcessLimit`.
unfoldable pub check_process_limit : (Text → ℤ) → ℤ → Host → Check
unfolding find_processes split_lines text_eq
check_process_limit scan clients h =
    let required = clients +ℤ pos 50 in
    elim h.limits [
      | none ↦ undetermined (codes "process_limit")
      | some text ↦
          let actual = processes_from scan (find_processes (split_lines text)) in
          if is_zero actual then undetermined (codes "process_limit") else record {
            name = codes "process_limit";
            required = required;
            actual = actual;
            passed = leb_ℤ required actual;
            warning = false;
          }
    ]

-- `checkFFmpeg`.
unfoldable pub check_ffmpeg : Host → Check
check_ffmpeg h = record {
  name = codes "ffmpeg";
  required = pos 0;
  actual = pos 0;
  passed = h.ffmpeg_works;
  warning = false;
}

-- `checkEphemeralPorts`.
unfoldable pub check_ephemeral_ports : ℤ → Host → Check
check_ephemeral_ports clients h = elim h.port_range [
  | none ↦ undetermined (codes "ephemeral_ports")
  | some (low, high) ↦
      let available = high -ℤ low in
      let recommended = clients *ℤ pos 4 in
      record {
        name = codes "ephemeral_ports";
        required = recommended;
        actual = available;
        passed = true;
        warning = ltb_ℤ available recommended;
      }
]

-- `result.Checks = append(...)` and the test of a check that counts.
abbrev pub append_check : Check → Bool → Result → Result
append_check c fatal r = record {
  checks = r.checks ++ c ∷ [];
  passed = if fatal && not c.passed then false else r.passed;
}

-- `RunAll`.
unfoldable pub run_all : (Text → ℤ) → ℤ → Host → Result
unfolding check_file_descriptors check_process_limit check_ffmpeg check_ephemeral_ports
run_all scan clients h =
    let start : Result = record { checks = []; passed = true } in
    let first = append_check (check_file_descriptors clients h) true start in
    let second = append_check (check_process_limit scan clients h) true first in
    let third = append_check (check_ffmpeg h) true second in
    append_check (check_ephemeral_ports clients h) false third
