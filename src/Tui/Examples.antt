-- ===== src/Tui/Examples.antt =====
-- A session with the terminal interface, some texts, and the theorems at them.
use go_ffmpeg_hls_swarm.Common.{
  ℕ, ◌+◌, ◌+ℤ◌, ◌≡◌, ◌↔◌, refl, true, false, List, [], ◌∷◌, none, some, ℤ, pos, Text, codes,
  text_eq, format_int,
}
use go_ffmpeg_hls_swarm.Common.WholeFloats.{whole}
use go_ffmpeg_hls_swarm.Tui.{
  Msg, key, window_size, tick_msg, quit_msg, Model, Config, blank, new, init, update, view,
}
use go_ffmpeg_hls_swarm.Tui.Ticks.{
  ticks, deliver, refreshes, told_to_quit, toggled, deliver-pending,
}
use go_ffmpeg_hls_swarm.Tui.Format.{format_number_with_commas, format_number, format_duration}
use go_ffmpeg_hls_swarm.Tui.Commas.{grouped, format_number_with_commas-grouped}

-- Statistics are numbers here, and the source gives the time.
abbrev cfg : Config ℕ ℕ
cfg = record {
  target_clients = pos 10;
  stream_url = codes "http://origin/live.m3u8";
  metrics_addr = [];
  stats_source = some (λ now. some now);
  debug_stats_source = none;
}

abbrev session : List (ℕ × Msg ℕ ℕ)
session =
    (1, key (codes "r"))
    ∷ (2, tick_msg)
    ∷ (2, tick_msg)
    ∷ (3, key (codes "d"))
    ∷ (4, window_size (pos 100) (pos 40))
    ∷ (5, quit_msg)
    ∷ []

abbrev last : Model ℕ ℕ
last = record (new 0 cfg) {
  stats = some 2;
  last_update = 2;
  detailed_view = true;
  width = pos 100;
  height = pos 40;
  quitting = true;
}

session-last : deliver session (new 0 cfg) (ticks (init (new 0 cfg))) ≡ some (last, 2)
unfolding update new text_eq
session-last = refl

deliver-pending_example :
    (2 ≡ 1 + refreshes session)
    × (last.quitting ≡ told_to_quit false session)
    × (last.detailed_view ≡ toggled false session)
    × ((view (λ s. true) last ≡ blank) ↔ (told_to_quit false session ≡ true))
deliver-pending_example = deliver-pending 0 cfg session (λ s. true) session-last

format_number_with_commas-grouped_example :
    format_number_with_commas (pos 1234567) ≡ grouped 1234568 1234567
format_number_with_commas-grouped_example = format_number_with_commas-grouped 1234567

format_number_with_commas_million : format_number_with_commas (pos 1234567) ≡ codes "1,234,567"
unfolding format_number_with_commas format_int
format_number_with_commas_million = refl

-- Whole numbers print as they are, whatever the decimals.
abbrev print : ℕ → ℤ → Text
print decimals n = format_int n

format_number_thousands : format_number whole print (pos 2500) ≡ codes "2K"
unfolding format_number format_int
format_number_thousands = refl

format_duration_hours : format_duration whole print (pos 3723000000000) ≡ codes "01:02:03"
unfolding format_duration format_int ◌+ℤ◌
format_duration_hours = refl
