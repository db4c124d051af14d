-- ===== src/Progress.antt =====
-- internal/parser/progress.go: the parser of the key=value blocks that FFmpeg prints with `-progress`.
-- The value of `strconv.ParseFloat` is the parameter `parse_float`, which gives 0 where Go's function
-- fails; `now` is the time at which a line is handled, and the calls of the callback are kept in order.
use go_ffmpeg_hls_swarm.Common.{
  ℕ, suc, Bool, true, false, ◌&&◌, ◌||◌, not, if◌then◌else◌, Option, none, some, List, [], ◌∷◌,
  ◌++◌, ℤ, pos, Text, codes, text_eq, cut, parse_int, Float, trim_suffix,
}
mod Reports
mod Blocks
mod Examples

pub record ProgressUpdate (R : Type 0) : Type 0 where
  pub frame : ℤ
  pub fps : R
  pub bitrate : Text
  pub total_size : ℤ
  pub out_time_us : ℤ
  pub speed : R
  pub progress : Text
  pub received_at : ℕ

-- `ProgressParser`; `calls` are the updates that the callback got.
pub record ProgressParser (R : Type 0) : Type 0 where
  pub has_callback : Bool
  pub current : ProgressUpdate R
  pub blocks_received : ℕ
  pub lines_processed : ℕ
  pub calls : List (ProgressUpdate R)

-- `parseKeyValue`.
unfoldable pub parse_key_value : Text → Option (Text × Text)
unfolding cut
parse_key_value line = cut b'=' line

module _ (F : Float) where
  -- `&ProgressUpdate{}`.
  unfoldable pub empty_update : ProgressUpdate F.F
  empty_update = record {
    frame = pos 0;
    fps = F.lit 0 0;
    bitrate = [];
    total_size = pos 0;
    out_time_us = pos 0;
    speed = F.lit 0 0;
    progress = [];
    received_at = 0;
  }

  -- `NewProgressParser`.
  unfoldable pub new_progress_parser : Bool → ProgressParser F.F
  unfolding empty_update
  new_progress_parser has_callback = record {
    has_callback = has_callback;
    current = empty_update;
    blocks_received = 0;
    lines_processed = 0;
    calls = [];
  }

  -- `IsStalling`.
  unfoldable pub is_stalling : ProgressUpdate F.F → Bool
  is_stalling u =
      if F.le u.speed (F.lit 0 0) && F.le (F.lit 0 0) u.speed
      then false
      else F.lt u.speed (F.lit 9 1)

  module _ (parse_float : Text → F.F) where
    -- `parseSpeed`.
    unfoldable pub parse_speed : Text → F.F
    unfolding text_eq trim_suffix
    parse_speed s =
        let t = trim_suffix s (codes "x") in
        if text_eq t (codes "N/A") || text_eq t [] then F.lit 0 0 else parse_float t

    -- The case `progress` of `parseLine`, which ends a block.
    unfoldable pub end_block : ℕ → Text → ProgressParser F.F → ProgressParser F.F
    unfolding empty_update
    end_block now value p =
        let update = record p.current { progress = value; received_at = now } in
        record p {
          current = empty_update;
          blocks_received = suc p.blocks_received;
          calls = if p.has_callback then p.calls ++ update ∷ [] else p.calls;
        }

    -- The `switch` of `parseLine`.
    unfoldable pub parse_value : ℕ → Text → Text → ProgressParser F.F → ProgressParser F.F
    unfolding text_eq parse_int parse_speed end_block
    parse_value now key value p =
        let u = p.current in
        if text_eq key (codes "frame")
        then record p { current = record u { frame = (parse_int value).0 } }
        else if text_eq key (codes "fps")
        then record p { current = record u { fps = parse_float value } }
        else if text_eq key (codes "bitrate")
        then record p { current = record u { bitrate = value } }
        else if text_eq key (codes "total_size")
        then (if not (text_eq value (codes "N/A")) && not (text_eq value [])
            then record p { current = record u { total_size = (parse_int value).0 } }
            else p)
        else if text_eq key (codes "out_time_us")
        then record p { current = record u { out_time_us = (parse_int value).0 } }
        else if text_eq key (codes "speed")
        then record p { current = record u { speed = parse_speed value } }
        else if text_eq key (codes "progress")
        then end_block now value p
        else p

    -- `parseLine`.
    unfoldable pub parse_line : ℕ → Text → ProgressParser F.F → ProgressParser F.F
    unfolding parse_key_value parse_value
    parse_line now line p = elim (parse_key_value line) [
      | none ↦ p
      | some (key, value) ↦
          parse_value now key value (record p { lines_processed = suc p.lines_processed })
    ]

    -- Lines that are handled one after another, each at its time.
    unfoldable pub parse_lines : List (ℕ × Text) → ProgressParser F.F → ProgressParser F.F
    parse_lines [] p = p
    parse_lines ((now, line) ∷ lines) p = parse_lines lines (parse_line now line p)
