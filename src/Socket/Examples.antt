-- ===== src/Socket/Examples.antt =====
-- A reader that is closed while a connection comes in, and the theorem at it.
use go_ffmpeg_hls_swarm.Common.{
  ◌≤◌, ◌≡◌, refl, true, false, some, List, [], ◌∷◌, ℤ, pos, Text, codes, length,
}
use go_ffmpeg_hls_swarm.Common.WholeFloats.{whole}
use go_ffmpeg_hls_swarm.Pipeline.{Pipeline, new_pipeline}
use go_ffmpeg_hls_swarm.Socket.{
  created, reading, exited, SocketReader, Action, start, accept, accept_error, store, line,
  end_of_file, close, max_unix_socket_path_len, new_socket_reader, step, run,
}
use go_ffmpeg_hls_swarm.Socket.Schedules.{Safe, Counts, lines_of, run-new-Safe}

abbrev pipe : Pipeline ℤ Text
pipe = new_pipeline whole 10 (pos 1)

abbrev reader : SocketReader ℤ
reader = record {
  phase = created;
  pipeline = pipe;
  listening = true;
  socket_file = true;
  ready = false;
  closed_once = false;
  cleaned_up = false;
  failed_to_connect = false;
  conn = false;
  connected = false;
  bytes_read = 0;
  lines_read = 0;
}

made : new_socket_reader (codes "/tmp/hls_1.sock") true pipe ≡ some reader
unfolding new_socket_reader
made = refl

abbrev schedule : List Action
schedule =
    start
    ∷ accept
    ∷ store
    ∷ line (codes "frame=1")
    ∷ close
    ∷ line (codes "speed=1x")
    ∷ end_of_file
    ∷ []

run-new-Safe_example :
    (length (codes "/tmp/hls_1.sock") ≤ max_unix_socket_path_len)
    × Safe (run schedule reader)
    × (reader.lines_read ≡ 0)
    × (reader.bytes_read ≡ 0)
    × Counts (lines_of schedule reader) reader (run schedule reader)
unfolding new_pipeline
run-new-Safe_example = run-new-Safe (codes "/tmp/hls_1.sock") true pipe schedule refl refl made

-- A call of `Close` between the connection and its being stored does not close it: the reader reads on.
run_close_missed :
    run (start ∷ accept ∷ close ∷ store ∷ []) reader
    ≡ some (record reader {
      phase = reading;
      ready = true;
      listening = false;
      socket_file = false;
      closed_once = true;
      cleaned_up = true;
      conn = true;
      connected = true;
    })
unfolding run step
run_close_missed = refl

-- A reader that is closed before FFmpeg connects is taken for one to which FFmpeg could not connect.
run_closed_early :
    run (start ∷ close ∷ accept_error ∷ []) reader
    ≡ some (record reader {
      phase = exited;
      pipeline = record pipe { closed = true };
      ready = true;
      listening = false;
      socket_file = false;
      closed_once = true;
      cleaned_up = true;
      failed_to_connect = true;
    })
unfolding run step new_pipeline
run_closed_early = refl
