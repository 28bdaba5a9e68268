-- ===== src/Tests/Turns.antt =====
-- The serial port of src/drivers/Serial.cpp, src/utils.c, and the turns of MarlinDriver.cpp, at
-- concrete inputs.
use print3d.Prelude.{◌++◌, ◌≡◌, refl, some, List, [], ◌∷◌, true, false}
use print3d.Prelude.Int.{ℤ, pos, negsuc, ◌-ℤ◌, ◌*ℤ◌}
use print3d.Prelude.Text.{Bytes, codes}
use print3d.GcodeBuffer.Contents.{joined}
use print3d.Driver.State.{Driver, new_driver, idle, connecting, disconnected}
use print3d.Driver.Port.{PortEvent, received, blocked, interrupted, failed, other, enxio, minus_one}
use print3d.Driver.Reading.{read_available, Conserves, read_available-Conserves}
use print3d.Driver.Connection.{
  Marlin, new_marlin, IoctlAnswers, open_connection, switch_baudrate, read_data, ran, exited,
}
use print3d.Driver.Update.{Readings, time_left, is_read_due}
use print3d.Driver.Framing.{cut, take_pieces, reads, take_pieces-whole}
use print3d.Driver.Response.{read_lines}
use print3d.Driver.Turn.{turn_of}

abbrev no_value : Bytes → ℤ
no_value s = pos 0

-- A read that is interrupted, one with bytes, and one that fails.
abbrev broken : List PortEvent
broken = interrupted ∷ received (codes "ok") ∷ failed other ∷ received (codes "late") ∷ []

broken_run :
    read_available false 0 broken (codes "T:1 ") 0
    ≡ ((minus_one other, codes "T:1 ok"), received (codes "late") ∷ [])
unfolding read_available
broken_run = refl

read_available-Conserves_example :
    Conserves broken (codes "T:1 ") 0 (read_available false 0 broken (codes "T:1 ") 0)
read_available-Conserves_example = read_available-Conserves false 0 broken (codes "T:1 ") 0

abbrev connected : Driver
connected = record new_driver { is_open = true; state = idle }

take_pieces-whole_example :
    take_pieces no_value connected (codes "o") (codes "k\nst" ∷ codes "art\nT" ∷ [])
    ≡ reads no_value connected (cut (codes "o" ++ joined (codes "k\nst" ∷ codes "art\nT" ∷ [])))
take_pieces-whole_example =
    take_pieces-whole no_value connected (codes "o") (codes "k\nst" ∷ codes "art\nT" ∷ []) refl

cut_run : cut (codes "ok\nstart\nT") ≡ (codes "ok" ∷ codes "start" ∷ [], codes "T")
unfolding cut
cut_run = refl

abbrev all_well : IoctlAnswers
all_well = record {
  get_options = true;
  set_options = true;
  get_modem = true;
  raise_dtr = true;
  lower_dtr = true;
}

-- One piece of output waits at the port.
abbrev waiting : Marlin
waiting = record (new_marlin 250000) {
  base = connected;
  port = received (codes "ok T:2") ∷ blocked false ∷ [];
  read_buffer = [];
  registered = true;
  timer_start = 5000000;
  temperature_timer_start = 5000000;
}

abbrev later : Readings
later = record {
  at_temperature = 5300000;
  at_temperature_start = 5300000;
  at_timer = 5300001;
  at_start = 5300010;
  at_end = 5300100;
}

read_due : is_read_due connected 5000000 later ≡ true
unfolding is_read_due ◌*ℤ◌
read_due = refl

-- That turn reads, and asks to be called again after 199 milliseconds.
turn_run :
    turn_of no_value waiting later (codes "ok T:2") []
    ≡ ran
        (pos 199, record waiting { port = []; read_buffer = codes "ok T:2"; timer_start = 5300010 })
unfolding is_read_due ◌*ℤ◌ cut read_lines
turn_run = refl

time_left_run : time_left 5300100 5300010 ≡ pos 199
unfolding time_left ◌-ℤ◌
time_left_run = refl

-- A turn that comes late asks for a negative time.
time_left_late : time_left 5300000 5000000 ≡ negsuc 99
unfolding time_left ◌-ℤ◌
time_left_late = refl

open_run : open_connection (new_marlin 250000) (some []) all_well ≡ (
  record (new_marlin 250000) {
    base = record new_driver { is_open = true; state = connecting };
    registered = true;
  },
  pos 0,
)
unfolding open_connection
open_run = refl

switch_run : (switch_baudrate (new_marlin 250000) all_well).baudrate ≡ 115200
unfolding switch_baudrate
switch_run = refl

-- A port that was unplugged is closed, and the server exits.
unplugged_run :
    read_data (record waiting { port = failed enxio ∷ [] }) (pos 0)
    ≡ exited (record waiting {
      base = record connected { state = disconnected; is_open = false };
      port = [];
      registered = false;
    })
unfolding read_data
unplugged_run = refl
