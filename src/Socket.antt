-- ===== src/Socket.antt =====
-- internal/parser/socket_reader.go: the reader of a Unix socket. The goroutine of `Run` and calls of `Close` are
-- interleaved as a list of actions; what the operating system answers is part of an action.
use go_ffmpeg_hls_swarm.Common.{
  ℕ, suc, ◌+◌, Bool, true, false, ◌&&◌, ◌||◌, not, if◌then◌else◌, ltb, Option, none, some, List, [],
  ◌∷◌, length, Text,
}
use go_ffmpeg_hls_swarm.Pipeline.{Pipeline, feed_line, close_channel}
mod Schedules
mod Examples

abbrev pub max_unix_socket_path_len : ℕ
max_unix_socket_path_len = 104

-- `validateSocketPath`: whether there is no error.
unfoldable pub validate_socket_path : Text → Bool
validate_socket_path path = not (ltb max_unix_socket_path_len (length path))

-- How far `Run` has come: `accepted` is a connection that is not yet stored in `conn`.
pub data Phase : Type 0 where
  created : Phase
  accepting : Phase
  accepted : Phase
  reading : Phase
  exited : Phase

-- `SocketReader`. `conn` says that the field holds a connection, `connected` that one is open, and `socket_file`
-- that the file exists.
pub record SocketReader (F : Type 0) : Type 0 where
  pub phase : Phase
  pub pipeline : Pipeline F Text
  pub listening : Bool
  pub socket_file : Bool
  pub ready : Bool
  pub closed_once : Bool
  pub cleaned_up : Bool
  pub failed_to_connect : Bool
  pub conn : Bool
  pub connected : Bool
  pub bytes_read : ℕ
  pub lines_read : ℕ

pub data Action : Type 0 where
  -- `Run` begins, and `Accept` returns a connection or an error
  start : Action
  accept : Action
  accept_error : Action
  -- the connection is stored
  store : Action
  -- the scanner finds a line, or ends
  line : Text → Action
  end_of_file : Action
  -- a call of `Close`
  close : Action

module _ {F : Type 0} where
  -- `NewSocketReader`, with whether `net.Listen` succeeds; a stale file is removed before.
  unfoldable pub new_socket_reader : Text → Bool → Pipeline F Text → Option (SocketReader F)
  unfolding validate_socket_path
  new_socket_reader path listens p =
      if validate_socket_path path && listens
      then some (record {
        phase = created;
        pipeline = p;
        listening = true;
        socket_file = true;
        ready = false;
        closed_once = false;
        cleaned_up = false;
        failed_to_connect = false;
        conn = false;
        connected = false;
        bytes_read = 0;
        lines_read = 0;
      })
      else none

  unfoldable pub cleanup : SocketReader F → SocketReader F
  cleanup r =
      if r.cleaned_up
      then r
      else record r { cleaned_up = true; listening = false; socket_file = false }

  -- The deferred function of `Run`, and the part of `Close` under the same lock.
  unfoldable pub close_conn : SocketReader F → SocketReader F
  close_conn r = if r.conn then record r { conn = false; connected = false } else r

  -- `Run` returns: its deferred calls.
  unfoldable pub leave : SocketReader F → SocketReader F
  unfolding cleanup close_channel
  leave r = let s = cleanup r in record s { phase = exited; pipeline = close_channel s.pipeline }

  -- `Close`.
  unfoldable pub close_reader : SocketReader F → SocketReader F
  unfolding cleanup close_conn
  close_reader r =
      if r.closed_once
      then r
      else cleanup (record (close_conn r) { closed_once = true; listening = false })

  -- A line of the loop of `Run`; `none` is a panic of the channel.
  unfoldable pub read_line : Text → SocketReader F → Option (SocketReader F)
  unfolding feed_line
  read_line l r = elim (feed_line l r.pipeline) [
    | none ↦ none
    | some (p, sent) ↦ some (record r {
      pipeline = p;
      bytes_read = r.bytes_read + suc (length l);
      lines_read = suc r.lines_read;
    })
  ]

  -- An action, where the phase allows it; another one leaves the reader as it was.
  unfoldable pub step : Action → SocketReader F → Option (SocketReader F)
  unfolding leave close_reader read_line close_conn
  step start r = elim r.phase [
    | created ↦ some (record r { phase = accepting; ready = true })
    | _ ↦ some r
  ]
  step accept r = elim r.phase [
    | accepting ↦ some (if r.listening then record r { phase = accepted; connected = true } else r)
    | _ ↦ some r
  ]
  step accept_error r = elim r.phase [
    | accepting ↦ some (leave (record r { failed_to_connect = true }))
    | _ ↦ some r
  ]
  step store r = elim r.phase [
    | accepted ↦ some (record r { phase = reading; conn = true })
    | _ ↦ some r
  ]
  step (line l) r = elim r.phase [ reading ↦ read_line l r | _ ↦ some r ]
  step end_of_file r = elim r.phase [ reading ↦ some (leave (close_conn r)) | _ ↦ some r ]
  step close r = some (close_reader r)

  pub run : List Action → SocketReader F → Option (SocketReader F)
  run [] r = some r
  run (a ∷ rest) r = elim (step a r) [ none ↦ none | some s ↦ run rest s ]

  -- `Stats`.
  unfoldable pub stats : SocketReader F → ℕ × ℕ × Bool
  stats r = (r.bytes_read, r.lines_read, not r.failed_to_connect && not r.cleaned_up)
