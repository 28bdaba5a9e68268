-- ===== src/Tests/Printing.antt =====
-- src/drivers/AbstractDriver.cpp, MarlinDriver.cpp, DriverFactory.cpp
-- and Serial.cpp at concrete inputs.
use print3d.Prelude.{◌++◌, ◌≡◌, refl, none, some, [], ◌∷◌, true, false, arith}
use print3d.Prelude.Int.{ℤ, pos, negsuc, ◌+ℤ◌, ◌-ℤ◌}
use print3d.Prelude.Text.{Bytes, lf, codes}
use print3d.GcodeBuffer.State.{new, clear}
use print3d.GcodeBuffer.Clean.{clean}
use print3d.Driver.State.{Driver, new_driver, idle, stopping, extract_gcode_info}
use print3d.Driver.Print.{stop_print, decimal}
use print3d.Driver.Response.{read_lines}
use print3d.Driver.Firmware.{create_driver, marlin, makerbot}
use print3d.Driver.Serial.{extract_line, returned, extract_line-Sent}
use print3d.Driver.Stop.{held, stop_print-held}

abbrev zero_number : Bytes → ℤ
zero_number s = pos 0

abbrev ready : Driver
ready = record new_driver { state = idle; is_open = true; check_connection = false }

abbrev stopped : Driver
stopped = record ready {
  state = stopping;
  sent = codes "M107\n" ∷ [];
  gcode_buffer = record new {
    buckets = codes "M107\nG28\n" ∷ [];
    current_line = pos 1;
    buffered_lines = pos 2;
    total_lines_sent = pos 2;
    buffer_size = pos 9;
  };
}

stop_run : stop_print zero_number ready (codes "M107\nG28") ≡ some (stopped, true)
unfolding stop_print ◌+ℤ◌ ◌-ℤ◌ clear
stop_run = refl

stop_print-held_example : held stopped ≡ clean false (codes "M107\nG28")
stop_print-held_example =
    stop_print-held zero_number ready stopped (codes "M107\nG28") true (omega arith) stop_run

-- Two confirmations later every line is sent, and the driver is idle again.
abbrev finished : Driver
finished = record ready {
  sent = codes "M107\n" ∷ codes "G28\n" ∷ [];
  gcode_buffer = record new { current_line = pos 0; total_lines_sent = pos 2 };
}

finish_run : read_lines zero_number stopped (codes "ok" ∷ codes "ok" ∷ []) ≡ some finished
unfolding read_lines ◌+ℤ◌ ◌-ℤ◌
finish_run = refl

-- A heat command at the very end has no place for its number.
crash_run : extract_gcode_info zero_number ready (codes "M109") ≡ none
unfolding extract_gcode_info
crash_run = refl

decimal_run : decimal (negsuc 206) ≡ codes "-207"
unfolding decimal
decimal_run = refl

create_run :
    (create_driver (codes "craftbot_plus") ≡ some marlin)
    × ((create_driver (codes "wanhao_duplicator4") ≡ some makerbot)
        × (create_driver (codes "toaster") ≡ none))
unfolding create_driver
create_run = (refl, (refl, refl))

extract_line-Sent_example :
    extract_line ((codes "ok T:20" ++ (b'\r' ∷ [])) ++ (lf ∷ codes "ok"))
    ≡ some (codes "ok T:20", codes "ok")
extract_line-Sent_example =
    extract_line-Sent (codes "ok T:20") (codes "ok T:20" ++ (b'\r' ∷ [])) (codes "ok") returned refl
      refl
