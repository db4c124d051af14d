-- ===== src/Tui.antt =====
-- internal/tui/model.go: the model of the terminal interface, as the library Bubble Tea drives it. The types of the
-- statistics and the sources that are asked for them are parameters; times are nanoseconds.
use go_ffmpeg_hls_swarm.Common.{
  ℕ, Bool, true, false, ◌&&◌, ◌||◌, not, if◌then◌else◌, ◌==◌, List, Option, none, some, ℤ, pos,
  Text, codes, text_eq, is_zero, Float,
}
mod Ticks
mod Format
mod Commas
mod Examples

-- The messages: a key, a window size, `TickMsg`, `StatsMsg`, `QuitMsg`, and any other.
pub data Msg (S D : Type 0) : Type 0 where
  key : Text → Msg S D
  window_size : ℤ → ℤ → Msg S D
  tick_msg : Msg S D
  stats_msg : Option S → Option D → Msg S D
  quit_msg : Msg S D
  other : Msg S D

-- The commands: nil, `tickCmd()` and `tea.Quit`.
pub data Cmd : Type 0 where
  nothing : Cmd
  tick_cmd : Cmd
  quit : Cmd

-- `Model`. A source is what it answers at a time; nil is `none`.
pub record Model (S D : Type 0) : Type 0 where
  pub target_clients : ℤ
  pub stream_url : Text
  pub metrics_addr : Text
  pub stats : Option S
  pub debug_stats : Option D
  pub start_time : ℕ
  pub last_update : ℕ
  pub detailed_view : Bool
  pub width : ℤ
  pub height : ℤ
  pub stats_source : Option (ℕ → Option S)
  pub debug_stats_source : Option (ℕ → D)
  pub quitting : Bool

-- `Config`, without the scraper of the origin, which only the views read.
pub record Config (S D : Type 0) : Type 0 where
  pub target_clients : ℤ
  pub stream_url : Text
  pub metrics_addr : Text
  pub stats_source : Option (ℕ → Option S)
  pub debug_stats_source : Option (ℕ → D)

-- Which view is shown.
pub data View : Type 0 where
  blank : View
  detailed : View
  summary : View

abbrev or_kept : {D : Type 0} → Option D → Option D → Option D
or_kept none kept = kept
or_kept (some d) kept = some d

abbrev pub is_quit_key : Text → Bool
is_quit_key k = text_eq k (codes "q") || (text_eq k (codes "ctrl+c") || text_eq k (codes "esc"))

abbrev fetch : {S : Type 0} → ℕ → Option (ℕ → Option S) → Option S → Option S
fetch now none kept = kept
fetch now (some source) kept = source now

abbrev fetch_debug : {D : Type 0} → ℕ → Option (ℕ → D) → Option D → Option D
fetch_debug now none kept = kept
fetch_debug now (some source) kept = some (source now)

module _ {S D : Type 0} where
  unfoldable pub new : ℕ → Config S D → Model S D
  new now cfg = record {
    target_clients = cfg.target_clients;
    stream_url = cfg.stream_url;
    metrics_addr = cfg.metrics_addr;
    stats = none;
    debug_stats = none;
    start_time = now;
    last_update = now;
    detailed_view = false;
    width = pos 80;
    height = pos 24;
    stats_source = cfg.stats_source;
    debug_stats_source = cfg.debug_stats_source;
    quitting = false;
  }

  abbrev pub init : Model S D → Cmd
  init m = tick_cmd

  -- The case of `tea.KeyMsg`.
  unfoldable pub press : Text → Model S D → Model S D × Cmd
  unfolding text_eq
  press k m =
      if is_quit_key k
      then (record m { quitting = true }, quit)
      else if text_eq k (codes "d")
      then (record m { detailed_view = not m.detailed_view }, nothing)
      else if text_eq k (codes "r")
      then (m, tick_cmd)
      else (m, nothing)

  -- `Update` at the time `now`.
  unfoldable pub update : ℕ → Msg S D → Model S D → Model S D × Cmd
  unfolding press
  update now (key k) m = press k m
  update now (window_size w h) m = (record m { width = w; height = h }, nothing)
  update now tick_msg m = (
    record m {
      stats = fetch now m.stats_source m.stats;
      debug_stats = fetch_debug now m.debug_stats_source m.debug_stats;
      last_update = now;
    },
    tick_cmd,
  )
  update now (stats_msg stats debug) m = (
    record m { stats = stats; debug_stats = or_kept debug m.debug_stats; last_update = now },
    nothing,
  )
  update now quit_msg m = (record m { quitting = true }, quit)
  update now other m = (m, nothing)

  -- `View`; `has_summaries` says that there are statistics of single clients.
  unfoldable pub view : (S → Bool) → Model S D → View
  view has_summaries m = if m.quitting then blank else elim m.stats [
    | none ↦ summary
    | some s ↦ if m.detailed_view && has_summaries s then detailed else summary
  ]

  -- `ActiveClients`, with the field of the statistics.
  unfoldable pub active_clients : (S → ℤ) → Model S D → ℤ
  active_clients active m = elim m.stats [ none ↦ pos 0 | some s ↦ active s ]

module _ (F : Float) {S D : Type 0} where
  unfoldable pub ramp_progress : (S → ℤ) → Model S D → F.F
  unfolding active_clients
  ramp_progress active m =
      if is_zero m.target_clients
      then F.lit 0 0
      else F.div (F.of_int (active_clients active m)) (F.of_int m.target_clients)

  -- `DropRate`, with the lines dropped and read.
  unfoldable pub drop_rate : (S → ℤ × ℤ) → Model S D → F.F
  drop_rate lines m = elim m.stats [
    | none ↦ F.lit 0 0
    | some s ↦
        if is_zero (lines s).1
        then F.lit 0 0
        else F.div (F.of_int (lines s).0) (F.of_int (lines s).1)
  ]
