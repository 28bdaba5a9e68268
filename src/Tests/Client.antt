-- ===== src/Tests/Client.antt =====
-- The command line client of src/frontends/cmdline, at concrete inputs.
use print3d.Prelude.{
  replicate, ltb, length, if◌then◌else◌, ℕ, suc, ◌≡◌, refl, true, false, none, some, List, [], ◌∷◌,
}
use print3d.Prelude.Int.{ℤ, pos, negsuc}
use print3d.Prelude.Text.{Bytes, codes}
use print3d.Ipc.Devices.{DirEntry, device_names}
use print3d.Cmdline.Options.{to_stdout, to_stderr, print_error}
use print3d.Cmdline.Actions.{Comm}
use print3d.Cmdline.Dispatch.{World, finished, crashed, misused}
use print3d.Cmdline.Main.{Input, main, base_name}

abbrev twenty : Bytes → ℤ
twenty s = pos 20

-- A server that does all it is told; the state counts what it was told.
abbrev willing : Comm ℕ
willing = record {
  open_socket = λ s device_id. some (suc s, pos 0);
  close_socket = λ s. suc s;
  get_error = λ s. [];
  test_command = λ s question. some (suc s, pos 0, codes "!");
  test_transactions = λ s device_id. some (suc s, pos 0, codes "fine");
  clear_gcode = λ s. some (suc s, pos 0);
  start_print_gcode = λ s. some (suc s, pos 0);
  stop_print_gcode = λ s end_code. some (suc s, pos 0);
  send_gcode_file = λ s file. some (suc s, pos 0);
  send_gcode_data = λ s gcode. some (suc s, pos 0);
  get_temperature = λ s which. some (suc s, pos 0, some (pos which));
  heat_up = λ s temperature. some (suc s, pos 0);
  get_progress = λ s. some (suc s, pos 0, []);
  get_state = λ s. some (suc s, negsuc 0, []);
}

abbrev shell : World
shell = record {
  program = codes "print3d";
  stdin = [];
  behind = [];
  failure = [];
  heating = pos 0;
  address = codes "0";
  percent = λ a b. codes "0.0";
}

abbrev one_device : List DirEntry
one_device =
    record { is_character_device = true; name = codes "tty0" }
    ∷ record { is_character_device = true; name = codes "ttyACM0" }
    ∷ record { is_character_device = false; name = codes "ttyUSB0" }
    ∷ []

one_device_run : device_names one_device ≡ codes "ttyACM0" ∷ []
unfolding device_names
one_device_run = refl

-- `print3d -f /a.gcode`
abbrev print_file : Input
print_file = record { given = (b'f', codes "/a.gcode") ∷ []; optopt = 0; entries = some one_device }

print_file_run :
    main willing shell twenty 0 print_file
    ≡ finished (
      5,
      to_stdout (codes "Print3D command-line client\n")
          ∷ to_stdout (codes "sent gcode file and started print\n")
          ∷ [],
      pos 0,
    )
unfolding main print_error
print_file_run = refl

-- `print3d -j -s -d /dev/ttyUSB0` of a server that does not know its state
state_run :
    main willing shell twenty 0 (record {
      given = (b'j', []) ∷ (b's', []) ∷ (b'd', codes "/dev/ttyUSB0") ∷ [];
      optopt = 0;
      entries = none;
    })
    ≡ finished (
      2,
      to_stdout (codes "{\"status\": \"ERR\", \"message\": \"could not get printer state ()\"}")
          ∷ [],
      pos 1,
    )
unfolding main print_error
state_run = refl

base_name_run : base_name (codes "/dev/ttyUSB0") ≡ codes "ttyUSB0"
unfolding base_name
base_name_run = refl

-- A file that is not absolute is refused twice.
relative_run :
    main willing shell twenty 0
      (record print_file { given = (b'q', []) ∷ (b'f', codes "a.gcode") ∷ [] })
    ≡ finished (
      1,
      to_stderr (codes "error: please supply an absolute path for the file to print\n")
          ∷ to_stderr (codes "error: please supply an absolute path for the file to print\n")
          ∷ [],
      pos 1,
    )
unfolding main print_error
relative_run = refl

-- Three devices leave the list without an end, which the client reads behind.
abbrev three_devices : List DirEntry
three_devices =
    record { is_character_device = true; name = codes "ttyACM0" }
    ∷ record { is_character_device = true; name = codes "ttyACM1" }
    ∷ record { is_character_device = true; name = codes "ttyACM2" }
    ∷ []

three_devices_run :
    main willing shell twenty 0 (record print_file { entries = some three_devices }) ≡ misused
unfolding main print_error
three_devices_run = refl

abbrev json_print : Input
json_print = record print_file { given = (b'j', []) ∷ (b'f', codes "/a.gcode") ∷ [] }

-- A device whose name does not fit into the address of a socket.
abbrev narrow : Comm ℕ
narrow = record willing {
  open_socket = λ s device_id. elim device_id [
    | none ↦ some (s, negsuc 0)
    | some id ↦ if ltb (length id) 95 then some (suc s, pos 0) else none
  ];
}

crash_run :
    main narrow shell twenty 0
      (record print_file { given = (b't', []) ∷ (b'd', replicate 200 b'x') ∷ [] })
    ≡ crashed
unfolding main
crash_run = refl
