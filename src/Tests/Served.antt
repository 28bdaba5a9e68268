-- ===== src/Tests/Served.antt =====
-- The frontend and the server together, at a concrete input.
use print3d.Prelude.{◌≡◌, refl, some, none, [], ◌∷◌, true, false, arith, Option}
use print3d.Prelude.Int.{ℤ, pos}
use print3d.Prelude.Text.{Bytes, codes}
use print3d.Ipc.Wire.{IsInt32}
use print3d.GcodeBuffer.State.{new, get_total_lines}
use print3d.Driver.State.{Driver, new_driver, printing}
use print3d.Server.Client.{Client, Scene, send_data}
use print3d.Frontend.Results.{comm_get_progress}
use print3d.Frontend.Served.{serve, progress, ok_reply, AllInt32, comm_get_progress-serve}

abbrev no_digits : Bytes → ℤ
no_digits s = pos 0

abbrev no_file : Bytes → Option Bytes
no_file name = none

abbrev no_message : Bytes → Bytes
no_message name = []

-- A driver that prints the second of three lines.
abbrev busy : Driver
busy = record new_driver {
  state = printing;
  is_open = true;
  temperature = 210;
  gcode_buffer = record new {
    buckets = codes "G1\nG2\n" ∷ [];
    current_line = pos 2;
    buffered_lines = pos 2;
    total_lines_sent = pos 3;
    buffer_size = pos 6;
  };
}

abbrev idle_client : Client
idle_client = record {
  buffer = [];
  transaction = record { buffer = []; active = false; cancelled = false };
  replies = [];
}

abbrev busy_scene : Scene
busy_scene = record { client = idle_client; others = []; driver = some busy }

busy-AllInt32 : AllInt32 (progress busy)
unfolding IsInt32 get_total_lines
busy-AllInt32 = omega arith

comm_get_progress-serve_example :
    comm_get_progress (serve no_digits no_file no_message true) busy_scene
    ≡ some (send_data busy_scene (ok_reply (progress busy)), pos 0, progress busy)
comm_get_progress-serve_example =
    comm_get_progress-serve no_digits no_file no_message true busy_scene busy refl busy-AllInt32
