-- ===== src/Ffmpeg/Options.antt =====
-- ffmpeg.go: FFmpeg's reading of the command line up to the input.
use go_ffmpeg_hls_swarm.Common.{
  ◌≡◌, refl, Bool, ◌||◌, if◌then◌else◌, Option, none, some, List, [], ◌∷◌, ◌++◌, Text, codes,
  text_eq, lookup, arith,
}
use go_ffmpeg_hls_swarm.Ffmpeg.{only}

-- The next argument is an option, or the value of one, or behind the input.
data Reading : Type 0 where
  option : Reading
  value : Text → Reading
  done : Reading

-- These options have no value.
abbrev is_flag : Text → Bool
is_flag a = text_eq a (codes "-hide_banner") || text_eq a (codes "-nostdin")

abbrev read_arg : Reading → Text → Reading × List (Text × Text)
read_arg option a = (if is_flag a then option else value a, [])
read_arg (value key) a = (if text_eq key (codes "-i") then done else option, (key, a) ∷ [])
read_arg done a = (done, [])

abbrev read_from : Reading → List Text → List (Text × Text)
read_from state [] = []
read_from state (a ∷ args) = let (next, read) = read_arg state a in read ++ read_from next args

-- The options with their values, up to the input.
pub read_options : List Text → List (Text × Text)
read_options args = read_from option args

abbrev pub setting : Bool → Text → Option Text
setting b text = if b then some text else none

read_from-done : (args : List Text) → read_from done args ≡ []
read_from-done [] = refl
read_from-done (a ∷ args) = read_from-done args

-- The arguments behind the input.
abbrev rest_from : Reading → List Text → List Text
rest_from state [] = []
rest_from done (a ∷ args) = a ∷ args
rest_from state (a ∷ args) = rest_from (read_arg state a).0 args

rest_from-done : (args : List Text) → rest_from done args ≡ args
rest_from-done [] = refl
rest_from-done (a ∷ args) = refl

pub read_output : List Text → List Text
read_output args = rest_from option args

-- The options of a command line.
abbrev pub front :
    Bool → Bool → Bool → Bool → Text → Text → Text → Text → Text → Text → Text → Text → List Text
front stats tls reconnect headed level progress delay timeout agent header retry url =
    codes "-hide_banner" ∷ codes "-nostdin" ∷ codes "-loglevel" ∷ level ∷ []
    ++ only stats (codes "-progress" ∷ progress ∷ codes "-stats_period" ∷ codes "1" ∷ [])
    ++ only tls (codes "-tls_verify" ∷ codes "0" ∷ [])
    ++ only reconnect (
        codes "-reconnect"
        ∷ codes "1"
        ∷ codes "-reconnect_streamed"
        ∷ codes "1"
        ∷ codes "-reconnect_on_network_error"
        ∷ codes "1"
        ∷ codes "-reconnect_delay_max"
        ∷ delay
        ∷ [])
    ++ codes "-rw_timeout" ∷ timeout ∷ []
    ++ codes "-user_agent" ∷ agent ∷ []
    ++ only headed (codes "-headers" ∷ header ∷ [])
    ++ codes "-seg_max_retry" ∷ retry ∷ []
    ++ codes "-i" ∷ url ∷ []

pub read_options-build :
    (stats tls reconnect headed : Bool) (level progress delay timeout agent header retry url : Text)
    (output : List Text)
    → let args =
        front stats tls reconnect headed level progress delay timeout agent header retry url
        ++ output in
      let options = read_options args in
      (lookup (codes "-loglevel") options ≡ some level)
      × (lookup (codes "-progress") options ≡ setting stats progress)
      × (lookup (codes "-tls_verify") options ≡ setting tls (codes "0"))
      × (lookup (codes "-reconnect_delay_max") options ≡ setting reconnect delay)
      × (lookup (codes "-rw_timeout") options ≡ some timeout)
      × (lookup (codes "-user_agent") options ≡ some agent)
      × (lookup (codes "-headers") options ≡ setting headed header)
      × (lookup (codes "-seg_max_retry") options ≡ some retry)
      × (lookup (codes "-i") options ≡ some url)
      × (read_output args ≡ output)
unfolding lookup text_eq read_options read_output
read_options-build stats tls reconnect headed level progress delay timeout agent header retry url
      output =
    ground (arith, read_from-done output, rest_from-done output)
