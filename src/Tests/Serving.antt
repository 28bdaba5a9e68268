-- ===== src/Tests/Serving.antt =====
-- A turn of the loop of src/server/Server.cpp, at a concrete input.
use print3d.Prelude.{true, ℕ, ◌≡◌, refl, some, none, List, [], ◌∷◌, false, Option, map}
use print3d.Prelude.Int.{ℤ, pos}
use print3d.Prelude.Text.{Bytes, codes}
use print3d.Driver.Port.{PortEvent, received, blocked}
use print3d.Driver.Connection.{Marlin, new_marlin, ran}
use print3d.Driver.Update.{Readings}
use print3d.Ipc.Codes.{get_state, reply_ok}
use print3d.Server.Client.{Scene, Client}
use print3d.Server.Dispatch.{run_command}
use print3d.Server.Loop.{Connection, Server, new_client, accept_client, loop_turn}
use print3d.Server.Watched.{line_of, staying, Distinct, fd_of}
use print3d.Server.Remaining.{Tidy, loop_turn-Tidy}

abbrev no_digits : Bytes → ℤ
no_digits s = pos 0

abbrev run_any : Scene → Bytes → Option Scene
run_any = run_command no_digits (λ name. none) (λ name. []) true

-- A client that asks for the state, one that has closed, and one that is quiet.
abbrev asking : Connection
asking = record { fd = 5; client = new_client; socket = received (0 ∷ get_state ∷ 0 ∷ 0 ∷ []) ∷ [] }

abbrev gone : Connection
gone = record { fd = 6; client = new_client; socket = received [] ∷ [] }

abbrev quiet : Connection
quiet = record { fd = 8; client = new_client; socket = blocked false ∷ [] }

abbrev printer : Marlin
printer = new_marlin 250000

abbrev three : Server
three = record {
  watched = 5 ∷ 6 ∷ 8 ∷ [];
  connections = asking ∷ gone ∷ quiet ∷ [];
  driver = some printer;
  timeout = none;
}

abbrev clock : Readings
clock = record {
  at_temperature = 0;
  at_temperature_start = 0;
  at_timer = 0;
  at_start = 0;
  at_end = 0;
}

abbrev connecting_client : Option (ℕ × List PortEvent)
connecting_client = some (7, [])

-- The answer of a driver that is not connected.
abbrev answered : Client
answered = record new_client {
  replies = (0 ∷ reply_ok ∷ 0 ∷ 1 ∷ 0 ∷ 0 ∷ 0 ∷ 12 ∷ codes "disconnected") ∷ [];
}

abbrev three_after : Server
three_after = record {
  watched = 5 ∷ 8 ∷ 7 ∷ [];
  connections =
      record { fd = 5; client = answered; socket = [] }
      ∷ record { fd = 8; client = new_client; socket = [] }
      ∷ record { fd = 7; client = new_client; socket = [] }
      ∷ [];
  driver = some printer;
  timeout = none;
}

three-Distinct : Distinct (map fd_of (accept_client three connecting_client).connections)
unfolding accept_client
three-Distinct = (
  (refl, refl, (refl, refl, (refl, refl, tt))),
  ((refl, refl, (refl, refl, tt)), ((refl, refl, tt), (tt, tt))),
)

three_run : loop_turn no_digits run_any three connecting_client clock (pos 0) ≡ ran three_after
unfolding loop_turn run_command
three_run = refl

loop_turn-Tidy_example :
    Tidy three_after (staying (map line_of (accept_client three connecting_client).connections))
loop_turn-Tidy_example =
    loop_turn-Tidy no_digits run_any three three_after connecting_client clock (pos 0) refl
      three-Distinct three_run
