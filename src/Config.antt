-- ===== src/Config.antt =====
-- internal/config/validate.go. `parse` is `url.Parse`, by what the code reads of its result; durations
-- are numbers of nanoseconds.
use go_ffmpeg_hls_swarm.Common.{
  ℕ, Bool, true, false, not, ◌&&◌, ◌||◌, if◌then◌else◌, List, [], ◌∷◌, ◌++◌, Option, none, some, ℤ,
  pos, negsuc, sub_ℕ, ltb, ◌-◌, ◌%◌, ◌*ℤ◌, ltb_ℤ, Text, codes, text_eq, contains, Float,
}
mod Validity
mod Examples

-- The fields of `Config` that `Validate` reads, and those that `ApplyCheckMode` writes.
pub record Config (R : Type 0) : Type 0 where
  pub clients : ℤ
  pub ramp_rate : ℤ
  pub duration : ℤ
  pub stream_url : Text
  pub variant : Text
  pub timeout : ℤ
  pub resolve_ip : Text
  pub dangerous_mode : Bool
  pub verbose : Bool
  pub log_format : Text
  pub print_cmd : Bool
  pub backoff_initial : ℤ
  pub backoff_max : ℤ
  pub backoff_multiply : R
  pub probe_failure_policy : Text
  pub origin_metrics_url : Text
  pub nginx_metrics_url : Text
  pub origin_metrics_window : ℤ
  pub origin_metrics_interval : ℤ

-- The field of a `ValidationError`.
pub data Field : Type 0 where
  stream_url_field clients_field ramp_rate_field variant_field resolve_field : Field
  probe_failure_policy_field log_format_field timeout_field : Field
  backoff_initial_field backoff_max_field backoff_multiply_field : Field
  origin_metrics_window_field : Field

-- The parts of a `url.URL`.
pub record Url : Type 0 where
  pub scheme : Text
  pub host : Text

abbrev pub is_set : Text → Bool
is_set t = not (text_eq t [])

-- `validX[t]` of a map that is a set of texts.
unfoldable pub one_of : Text → List Text → Bool
one_of t [] = false
one_of t (u ∷ texts) = text_eq t u || one_of t texts

-- `validateIP`: whether it returns no error.
unfoldable pub validate_ip : Text → Bool
validate_ip ip = not (contains ip (codes "://")) && is_set ip

-- `validVariants`, `validPolicies` and `validFormats`.
abbrev pub variants : List Text
variants = codes "all" ∷ codes "highest" ∷ codes "lowest" ∷ codes "first" ∷ []

abbrev pub policies : List Text
policies = codes "fallback" ∷ codes "fail" ∷ []

abbrev pub formats : List Text
formats = codes "json" ∷ codes "text" ∷ []

-- Tests one after another, each of which appends an error where it holds.
unfoldable pub collect : List (Bool × Field) → List Field
collect [] = []
collect ((test, field) ∷ tests) = let rest = collect tests in if test then field ∷ rest else rest

-- The 64-bit number that a product leaves.
abbrev pub wrap_int64 : ℕ → ℤ
wrap_int64 n = if ltb n 9223372036854775808 then pos n else sub_ℕ n 18446744073709551616

unfoldable pub int64_of : ℤ → ℤ
int64_of (pos n) = wrap_int64 (n % 18446744073709551616)
int64_of (negsuc n) = wrap_int64 (18446744073709551615 - n % 18446744073709551616)

module _ (parse : Text → Option Url) (F : Float) where
  -- `validateURL`: whether it returns no error.
  unfoldable pub validate_url : Text → Bool
  validate_url raw_url = elim (parse raw_url) [
    | none ↦ false
    | some u ↦
        (text_eq u.scheme (codes "http") || text_eq u.scheme (codes "https")) && is_set u.host
  ]

  -- The tests on the window, where origin metrics are on; the product of durations wraps.
  unfoldable pub window_tests : Config F.F → List (Bool × Field)
  unfolding int64_of
  window_tests cfg =
      let on = is_set cfg.origin_metrics_url || is_set cfg.nginx_metrics_url in
      (on && ltb_ℤ cfg.origin_metrics_window (pos 10000000000), origin_metrics_window_field)
      ∷ (on && ltb_ℤ (pos 300000000000) cfg.origin_metrics_window, origin_metrics_window_field)
      ∷ (
        on && ltb_ℤ cfg.origin_metrics_window (int64_of (pos 2 *ℤ cfg.origin_metrics_interval)),
        origin_metrics_window_field,
      )
      ∷ []

  -- The tests of `Validate`, in their order.
  unfoldable pub tests : Config F.F → List (Bool × Field)
  unfolding window_tests
  tests cfg =
      (not (is_set cfg.stream_url) && not cfg.print_cmd, stream_url_field)
      ∷ (is_set cfg.stream_url && not (validate_url cfg.stream_url), stream_url_field)
      ∷ (ltb_ℤ cfg.clients (pos 1), clients_field)
      ∷ (ltb_ℤ cfg.ramp_rate (pos 1), ramp_rate_field)
      ∷ (not (one_of cfg.variant variants), variant_field)
      ∷ (is_set cfg.resolve_ip && not cfg.dangerous_mode, resolve_field)
      ∷ (is_set cfg.resolve_ip && not (validate_ip cfg.resolve_ip), resolve_field)
      ∷ (not (one_of cfg.probe_failure_policy policies), probe_failure_policy_field)
      ∷ (not (one_of cfg.log_format formats), log_format_field)
      ∷ (not (ltb_ℤ (pos 0) cfg.timeout), timeout_field)
      ∷ (not (ltb_ℤ (pos 0) cfg.backoff_initial), backoff_initial_field)
      ∷ (ltb_ℤ cfg.backoff_max cfg.backoff_initial, backoff_max_field)
      ∷ (F.lt cfg.backoff_multiply (F.lit 1 0), backoff_multiply_field)
      ∷ window_tests cfg

  -- `Validate`: the fields of the errors that it joins, in their order.
  unfoldable pub validate : Config F.F → List Field
  unfolding collect tests
  validate cfg = collect (tests cfg)

-- `ApplyCheckMode`.
unfoldable pub apply_check_mode : {R : Type 0} → Config R → Config R
apply_check_mode cfg = record cfg { clients = pos 1; duration = pos 10000000000; verbose = true }
