-- ===== src/Tests/Protocol.antt =====
-- src/ipc_shared.c and src/server at concrete inputs.
use print3d.Prelude.{
  ◌<◌, ◌^◌, ◌≡◌, ◌≤◌, length, refl, Option, none, some, List, [], ◌∷◌, ◌++◌, true, false, arith,
  map,
}
use print3d.Prelude.Int.{ℤ, pos, negsuc}
use print3d.Prelude.Text.{Bytes, codes, count}
use print3d.Ipc.Codes.{
  CommandName, find_command_description, heatup, gcode_append, get_state, gcode_clear,
}
use print3d.Ipc.Wire.{store_ns, to_uint16, IsInt16, IsInt32}
use print3d.Ipc.Layout.{encode, encode_args, encode_arg}
use print3d.Ipc.Command.{
  Arg, short, found, cmd_get_arg, cmd_is_complete, cmd_remove, construct_cmd, arg_bytes,
}
use print3d.Ipc.RoundTrip.{cmd_is_complete-encode, cmd_remove-encode}
use print3d.Ipc.Arguments.{cmd_get_arg-encode}
use print3d.Ipc.Build.{ReadsBack, construct_cmd-ReadsBack, construct_cmd-encode}
use print3d.Driver.State.{new_driver}
use print3d.Driver.Print.{append_gcode}
use print3d.Server.Client.{Client, Scene}
use print3d.Server.Handlers.{append_chunk_text, hnd_gcode_append}
use print3d.Server.Dispatch.{run_command, run_commands}
use print3d.Server.Streams.{Command, stream, run_each, run_commands-stream, run_commands-ended}
use print3d.Server.Carried.{six_args}
use print3d.Server.Requests.{told, hnd_gcode_append-construct}
use print3d.Server.Transactions.{driver_after, appended}
use print3d.Server.Uploads.{
  Upload, Sendable, metadata_of, handle_transaction, handle_transaction-append,
}

abbrev two_args : List Bytes
two_args = codes "ab" ∷ [] ∷ []

abbrev heat_args : List Arg
heat_args = short (negsuc 4) ∷ []

abbrev heat_name : CommandName
heat_name = record {
  code = heatup;
  name = codes "heatup";
  arg_fmt = codes "w";
  reply_fmt = some [];
}

abbrev heat_bytes : Bytes
heat_bytes = 0 ∷ 0x17 ∷ 0 ∷ 1 ∷ 0 ∷ 0 ∷ 0 ∷ 2 ∷ 0xFF ∷ 0xFB ∷ []

heat_run : construct_cmd heatup heat_args ≡ some heat_bytes
unfolding construct_cmd
heat_run = refl

heat_known : find_command_description heatup ≡ some heat_name
unfolding find_command_description
heat_known = refl

cmd_is_complete-encode_example :
    cmd_is_complete (encode heatup two_args ++ codes "xyz") ≡ length (encode heatup two_args)
cmd_is_complete-encode_example =
    cmd_is_complete-encode heatup two_args (codes "xyz") (omega arith)
      (omega arith, (omega arith, tt))

cmd_remove-encode_example : cmd_remove (encode heatup two_args ++ codes "xyz") ≡ (codes "xyz", true)
cmd_remove-encode_example =
    cmd_remove-encode heatup two_args (codes "xyz") (omega arith) (omega arith, (omega arith, tt))

cmd_get_arg-encode_example :
    cmd_get_arg (encode heatup two_args ++ codes "xyz") 0 true ≡ found (codes "ab" ++ (0 ∷ []))
cmd_get_arg-encode_example =
    cmd_get_arg-encode heatup two_args (codes "xyz") (omega arith) (omega arith, (omega arith, tt))
      0 true

construct_cmd-encode_example :
    construct_cmd heatup heat_args ≡ some (encode heatup (map arg_bytes heat_args))
unfolding arg_bytes
construct_cmd-encode_example =
    construct_cmd-encode heatup heat_args heat_name heat_known (omega arith) (omega arith, tt)

construct_cmd-ReadsBack_example : ReadsBack (heat_bytes ++ codes "z") 0 (short (negsuc 4))
unfolding arg_bytes IsInt16
construct_cmd-ReadsBack_example =
    construct_cmd-ReadsBack heatup heat_args heat_name heat_bytes (codes "z") 0 (short (negsuc 4))
      heat_known (omega arith) (omega arith, tt) heat_run refl (omega arith)

-- Standing in for `atof`, and for the files of the server.
abbrev zero_number : Bytes → ℤ
zero_number s = pos 0

abbrev no_file : Bytes → Option Bytes
no_file path = none

abbrev no_error : Bytes → Bytes
no_error path = codes "error reading file"

abbrev quiet_client : Client
quiet_client = record {
  buffer = [];
  transaction = record { buffer = codes "old"; active = true; cancelled = false };
  replies = [];
}

abbrev scene : Scene
scene = record { client = quiet_client; others = quiet_client ∷ []; driver = some new_driver }

abbrev requests : List Command
requests = record { code = get_state; args = [] } ∷ record { code = gcode_clear; args = [] } ∷ []

length-stream : length (stream requests (codes "x")) ≤ 9
unfolding encode encode_args encode_arg store_ns
length-stream = omega arith

abbrev after_requests : Scene
after_requests = record {
  client = record quiet_client {
    replies =
        (0 ∷ 0xE0 ∷ 0 ∷ 1 ∷ 0 ∷ 0 ∷ 0 ∷ 12 ∷ codes "disconnected") ∷ (0 ∷ 0xE0 ∷ 0 ∷ 0 ∷ []) ∷ [];
  };
  others =
      record quiet_client {
        transaction = record { buffer = codes "old"; active = true; cancelled = true };
      }
      ∷ [];
  driver = some new_driver;
}

x_incomplete : cmd_is_complete (codes "x") ≡ 0
unfolding cmd_is_complete
x_incomplete = refl

-- two commands and an incomplete third: two replies, and the rest is kept
stream_run :
    run_commands
      (run_command zero_number no_file no_error true)
      9
      scene
      (stream requests (codes "x"))
    ≡ some (after_requests, codes "x")
unfolding run_commands run_command encode encode_args encode_arg
stream_run = refl

run_commands-ended_example : cmd_is_complete (codes "x") ≡ 0
run_commands-ended_example =
    run_commands-ended (run_command zero_number no_file no_error true) 9 scene
      (stream requests (codes "x")) after_requests (codes "x") length-stream stream_run

run_commands-stream_example :
    run_commands
      (run_command zero_number no_file no_error true)
      2
      scene
      (stream requests (codes "x"))
    ≡ run_each (run_command zero_number no_file no_error true) requests (codes "x") scene
run_commands-stream_example =
    run_commands-stream (run_command zero_number no_file no_error true) requests 2 scene (codes "x")
      ((omega arith, tt), ((omega arith, tt), tt)) x_incomplete (omega arith)

abbrev append_bytes : Bytes
append_bytes =
    0 ∷ 0x13 ∷ 0 ∷ 6 ∷ 0 ∷ 0 ∷ 0 ∷ 2 ∷ b'G' ∷ b'1' ∷ 0 ∷ 0 ∷ 0 ∷ 2 ∷ 0 ∷ 3 ∷ 0 ∷ 0 ∷ 0 ∷ 4 ∷ 0 ∷ 0
    ∷ 0 ∷ 7 ∷ 0 ∷ 0 ∷ 0 ∷ 4 ∷ 0 ∷ 0 ∷ 0 ∷ 0 ∷ 0 ∷ 0 ∷ 0 ∷ 4 ∷ 0 ∷ 0 ∷ 0 ∷ 2 ∷ 0 ∷ 0 ∷ 0 ∷ 3 ∷ b'w'
    ∷ b'e' ∷ b'b' ∷ []

append_built :
    construct_cmd gcode_append (six_args (codes "G1") (pos 3) (pos 7) (pos 0) (pos 2) (codes "web"))
    ≡ some append_bytes
unfolding construct_cmd
append_built = refl

small-IsInt16 : IsInt16 (pos 3)
unfolding IsInt16
small-IsInt16 = omega arith

small-IsInt32 : IsInt32 (pos 7) × IsInt32 (pos 0) × IsInt32 (pos 2)
unfolding IsInt32
small-IsInt32 = (omega arith, omega arith, omega arith)

hnd_gcode_append-construct_example :
    hnd_gcode_append zero_number scene (append_bytes ++ codes "z")
    ≡ append_chunk_text zero_number
        (told scene)
        3
        (pos 7)
        (record { seq_number = pos 0; seq_total = pos 2; source = some (codes "web") })
        (codes "G1")
unfolding to_uint16
hnd_gcode_append-construct_example =
    hnd_gcode_append-construct zero_number scene append_bytes (codes "z") (codes "G1") (pos 3)
      (pos 7) (pos 0) (pos 2) (codes "web") append_built (omega arith) (omega arith) refl refl
      small-IsInt16 small-IsInt32.0 small-IsInt32.1 small-IsInt32.2

abbrev upload : Bytes → Upload
upload t = record {
  text = t;
  total_lines = pos 7;
  seq_number = pos 0;
  seq_total = pos 2;
  source = codes "web";
}

upload-Sendable : (t : Bytes) → length t < 2 ^ 32 → count 0 t ≡ 0 → Sendable (upload t)
upload-Sendable t l z = record {
  text_fits = l;
  source_fits = omega arith;
  text_whole = z;
  source_whole = refl;
  total_fits = small-IsInt32.0;
  number_fits = small-IsInt32.1;
  seq_total_fits = small-IsInt32.2;
}

handle_transaction-append_example :
    driver_after zero_number (
      handle_transaction zero_number scene
        (upload (codes "G"))
        (upload (codes "1") ∷ [])
        (upload (codes " X\n")))
    ≡ appended zero_number (
        append_gcode zero_number new_driver
          (codes "G1 X\n")
          (pos 7)
          (some (metadata_of (upload (codes " X\n")))))
handle_transaction-append_example =
    handle_transaction-append zero_number scene new_driver (upload (codes "G"))
      (upload (codes "1") ∷ []) (upload (codes " X\n")) refl refl
      (upload-Sendable (codes "G") (omega arith) refl)
      (upload-Sendable (codes "1") (omega arith) refl, tt)
      (upload-Sendable (codes " X\n") (omega arith) refl)

-- A cancelled client is told so, and its gcode goes to the driver all the same.
abbrev cancelled_scene : Scene
cancelled_scene = record scene {
  client = record quiet_client {
    transaction = record { buffer = []; active = false; cancelled = true };
  };
}

cancelled_run :
    driver_after zero_number (
      handle_transaction zero_number cancelled_scene
        (upload (codes "G"))
        []
        (upload (codes " X\n")))
    ≡ driver_after zero_number
        (handle_transaction zero_number scene (upload (codes "G")) [] (upload (codes " X\n")))
unfolding hnd_gcode_append construct_cmd append_gcode
cancelled_run = refl

-- A command that nobody knows is ignored, but crashes a server that logs the text of its commands.
unknown_run :
    (run_command zero_number no_file no_error false scene (0 ∷ 99 ∷ 0 ∷ 0 ∷ []) ≡ some scene)
    × (run_command zero_number no_file no_error true scene (0 ∷ 99 ∷ 0 ∷ 0 ∷ []) ≡ none)
unfolding run_command
unknown_run = (refl, refl)
