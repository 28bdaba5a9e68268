-- ===== src/Driver/Print.antt =====
-- src/drivers/AbstractDriver.cpp, MarlinDriver.cpp: the gcode buffer of a driver, and printing from
-- it. `none` is a crash: an exception that nothing catches, or a null pointer that is read.
use print3d.Prelude.{
  ℕ, zero, suc, ◌+◌, ◌/◌, ◌%◌, Bool, true, false, Option, none, some, [], ◌∷◌, ◌++◌, ltb,
  if◌then◌else◌, length,
}
use print3d.Prelude.Int.{ℤ, pos, negsuc, ◌+ℤ◌}
use print3d.Prelude.Text.{Bytes, codes, lf}
use print3d.Ipc.Command.{c_text}
use print3d.GcodeBuffer.State.{GcodeBuffer, MetaData, GcodeSetResult, clear, set_current_line}
use print3d.GcodeBuffer.Append.{append, set, is_ok}
use print3d.GcodeBuffer.Lines.{get_next_line}
use print3d.Driver.State.{
  State, idle, buffering, stopping, Driver, set_state, is_printer_online, is_printing, is_busy,
  extract_gcode_info,
}

-- The decimal digits of a number, as a stream writes them.
unfoldable pub digits : ℕ → ℕ → Bytes → Bytes
digits zero n acc = acc
digits (suc fuel) n acc =
    let d = b'0' + n % 10 in
    let rest = digits fuel (n / 10) (d ∷ acc) in if ltb n 10 then d ∷ acc else rest

unfoldable pub decimal : ℤ → Bytes
unfolding digits
decimal (pos n) = digits (n + 1) n []
decimal (negsuc n) = b'-' ∷ digits (n + 2) (n + 1) []

unfoldable pub reset_print : Driver → Driver × Bool
unfolding is_printer_online set_current_line
reset_print d =
    if is_printer_online d
    then (record d { state = idle; gcode_buffer = set_current_line d.gcode_buffer (pos 0) }, true)
    else (d, false)

unfoldable pub clear_gcode : Driver → Driver
unfolding clear is_busy
clear_gcode d = record d {
  gcode_buffer = clear d.gcode_buffer;
  state = if is_busy d.state then idle else d.state;
}

-- IDLE becomes BUFFERING once there is gcode.
unfoldable pub buffered : State → State
buffered idle = buffering
buffered s = s

-- The code and its newline, sent by a driver that has read it.
unfoldable pub transmit : Bytes → Option Driver → Option Driver
unfolding c_text
transmit code none = none
transmit code (some d) = some (record d { sent = d.sent ++ (c_text (code ++ (lf ∷ [])) ∷ []) })

-- One line further, once it is sent.
unfoldable pub advance : Option Driver → Option Driver
unfolding set_current_line
advance none = none
advance (some d) =
    let b = d.gcode_buffer in
    some (record d { gcode_buffer = set_current_line b (b.current_line +ℤ pos 1) })

-- AbstractDriver::startPrint(STATE)
unfoldable pub begin_print : Driver → State → Driver × Bool
unfolding is_printer_online is_printing reset_print
begin_print d state =
    if is_printer_online d
    then (set_state (if is_printing d.state then d else (reset_print d).0) state, true)
    else (d, false)

abbrev pub started : Option Driver → Option (Driver × Bool)
started none = none
started (some d) = some (d, true)

unfoldable pub accepted : GcodeSetResult → Option Driver → Option (Driver × GcodeSetResult)
unfolding buffered
accepted gsr none = none
accepted gsr (some d) = some (record d { state = buffered d.state }, gsr)

module _ (number : Bytes → ℤ) where
  unfoldable pub send_code : Driver → Bytes → Option Driver
  unfolding extract_gcode_info transmit
  send_code d code = if d.is_open then transmit code (extract_gcode_info number d code) else some d

  -- What setGCode and appendGCode do with the buffer's answer.
  unfoldable pub accept_gcode :
      Driver → Bytes → Option (GcodeBuffer × GcodeSetResult) → Option (Driver × GcodeSetResult)
  unfolding extract_gcode_info accepted
  accept_gcode d gcode none = none
  accept_gcode d gcode (some (b, gsr)) =
      if is_ok gsr
      then accepted gsr (extract_gcode_info number (record d { gcode_buffer = b }) gcode)
      else some (record d { gcode_buffer = b }, gsr)

  unfoldable pub set_gcode : Driver → Bytes → ℤ → Option MetaData → Option (Driver × GcodeSetResult)
  unfolding set accept_gcode
  set_gcode d gcode total_lines m = accept_gcode d gcode (set d.gcode_buffer gcode total_lines m)

  unfoldable pub append_gcode :
      Driver → Bytes → ℤ → Option MetaData → Option (Driver × GcodeSetResult)
  unfolding append accept_gcode
  append_gcode d gcode total_lines m =
      accept_gcode d gcode (append d.gcode_buffer gcode total_lines m)

  unfoldable pub heatup : Driver → ℤ → Option Driver
  unfolding send_code decimal
  heatup d temperature = send_code d (codes "M104 S" ++ decimal temperature)

  unfoldable pub print_next_line : Driver → Option Driver
  unfolding get_next_line send_code advance reset_print
  print_next_line d =
      let next = get_next_line d.gcode_buffer 1 in
      if ltb 0 next.0 then advance (send_code d next.1) else some (reset_print d).0

  -- MarlinDriver::startPrint(STATE), which overrides it
  unfoldable pub start_print : Driver → State → Option (Driver × Bool)
  unfolding begin_print print_next_line
  start_print d state =
      let begun = begin_print d state in
      if begun.1 then started (print_next_line begun.0) else some begun

  -- What the buffer answered is not looked at.
  abbrev pub then_start : State → Option (Driver × GcodeSetResult) → Option (Driver × Bool)
  then_start state none = none
  then_start state (some p) = start_print p.0 state

  unfoldable pub start_print_code : Driver → Bytes → State → Option (Driver × Bool)
  unfolding set_gcode start_print
  start_print_code d gcode state =
      if ltb 0 (length gcode)
      then then_start state (set_gcode d gcode (negsuc 0) none)
      else start_print d state

  unfoldable pub stop_print : Driver → Bytes → Option (Driver × Bool)
  unfolding reset_print set_gcode start_print
  stop_print d endcode = then_start stopping (set_gcode (reset_print d).0 endcode (negsuc 0) none)
