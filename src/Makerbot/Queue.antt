-- ===== src/Makerbot/Queue.antt =====
-- src/drivers/MakerbotDriver.cpp: the queue of commands, the requests to the printer, and printing.
use print3d.Prelude.{
  ℕ, zero, suc, Bool, true, false, ◌&&◌, Option, none, some, List, [], ◌∷◌, ◌++◌, ltb, ◌==◌,
  if◌then◌else◌, length,
}
use print3d.Prelude.Int.{ℤ, pos, ltb_ℤ, ◌+ℤ◌}
use print3d.Prelude.Text.{Bytes}
use print3d.Ipc.Wire.{to_int32}
use print3d.GcodeBuffer.State.{set_current_line}
use print3d.GcodeBuffer.Lines.{get_next_line, erase_line}
use print3d.Driver.State.{idle, Driver, set_state}
use print3d.Driver.Print.{clear_gcode}
use print3d.Makerbot.Parser.{Parser, parse_all}
use print3d.Makerbot.State.{
  Makerbot, Machine, printer_buffer_size, gcode_cvt_lines, queue_fill_size, sub_uint32,
}
use print3d.Makerbot.Packets.{send_packet}

unfoldable pub queue_commands : Makerbot → List Bytes → Makerbot
queue_commands d commands = record d { queue = d.queue ++ commands }

-- `gpx_clear_state`, and no packet: resetPrinterBuffer and abort only log.
unfoldable pub full_stop : Makerbot → Makerbot
full_stop d = record d { queue = []; converted = [] }

abbrev pub set_base : Makerbot → Driver → Makerbot
set_base d b = record d { base = b }

unfoldable pub clear_gcode_queue : Makerbot → Makerbot
unfolding clear_gcode full_stop
clear_gcode_queue d = full_stop (set_base d (clear_gcode d.base))

-- The space that is returned is an `int`.
abbrev pub space_of : Option (Bool × Makerbot) → Option (ℤ × Makerbot)
space_of none = none
space_of (some (sent, d)) = some (to_int32 d.buffer_space, d)

module _ (m : Machine) where
  unfoldable pub request_buffer_space : Makerbot → Option (ℤ × Makerbot)
  unfolding send_packet to_int32
  request_buffer_space d = space_of (send_packet m d (2 ∷ []) true)

  unfoldable pub get_firmware_version : Makerbot → Option (ℕ × Makerbot)
  unfolding send_packet
  get_firmware_version d = elim (send_packet m d (0 ∷ []) false) [
    | none ↦ none
    | some (sent, e) ↦ some (e.firmware_version, e)
  ]

  unfoldable pub play_song : Makerbot → ℕ → Option (Bool × Makerbot)
  unfolding send_packet
  play_song d song = send_packet m d (151 ∷ song ∷ []) true

  -- One query of a tool, after the queries before it went as `all_sent` says.
  unfoldable pub query : ℕ → Option (Bool × Makerbot) → Option (Bool × Makerbot)
  unfolding send_packet
  query tool none = none
  query tool (some (all_sent, d)) = elim (send_packet m d (10 ∷ 0 ∷ tool ∷ []) false) [
    | none ↦ none
    | some (sent, e) ↦ some (all_sent && sent, e)
  ]

  unfoldable pub update_temperatures : Makerbot → Option (Bool × Makerbot)
  unfolding query
  update_temperatures d = query 33 (query 32 (query 30 (query 2 (some (true, d)))))

  -- The loop over the queue, which is the first argument.
  unfoldable pub send_queue : List Bytes → Makerbot → Option Makerbot
  unfolding send_packet
  send_queue [] d = some (record d { queue = [] })
  send_queue (command ∷ commands) d = elim (ltb (sub_uint32 d.buffer_space 5) (length command)) [
    | true ↦ some (record d { queue = command ∷ commands })
    | false ↦ elim (send_packet m (record d { queue = commands }) command true) [
      | none ↦ none
      | some (sent, e) ↦ send_queue commands e
    ]
  ]

  unfoldable pub process_queue : Makerbot → Option Makerbot
  unfolding request_buffer_space send_queue
  process_queue d = elim (request_buffer_space d) [
    | none ↦ none
    | some (space, e) ↦ elim d.queue [
      | [] ↦
          if ltb_ℤ space (pos printer_buffer_size)
          then some e
          else some (set_base e (set_state e.base idle))
      | _ ∷ _ ↦ if ltb_ℤ (pos 480) space then send_queue e.queue e else some e
    ]
  ]

abbrev pub with_commands : Makerbot → Bytes → Option Parser → Option (ℕ × Makerbot)
with_commands d gcode none = none
with_commands d gcode (some p) =
    some
      (length p.commands, queue_commands (record d { converted = gcode ∷ d.converted }) p.commands)

-- The lines leave the buffer and the current line moves on.
unfoldable pub consume : ℕ → Makerbot → Makerbot
unfolding erase_line set_current_line
consume amt d =
    let b = (erase_line d.base.gcode_buffer amt).0 in
    if ltb 0 amt
    then set_base d
        (record d.base { gcode_buffer = set_current_line b (b.current_line +ℤ pos amt) })
    else d

-- `gpx_convert` is what gpx makes of a text, after the texts it was given since it was reset.
module _ (gpx_convert : List Bytes → Bytes → Bytes) where
  -- The number of commands that are queued; `none` is a read behind the end of what gpx made.
  unfoldable pub convert_gcode : Makerbot → Bytes → Option (ℕ × Makerbot)
  unfolding queue_commands
  convert_gcode d gcode =
      if length gcode == 0
      then some (0, d)
      else (let code = gpx_convert d.converted gcode in
          with_commands d gcode
            (parse_all (length code) (record { unread = code; line_number = 0; commands = [] })))

  -- One turn of the loop that refills the queue: the number of lines, and the driver behind it.
  unfoldable pub refill_turn : Makerbot → Option (ℕ × Makerbot)
  unfolding convert_gcode consume get_next_line
  refill_turn d =
      let next = get_next_line d.base.gcode_buffer gcode_cvt_lines in
      elim (convert_gcode d next.1) [
        | none ↦ none
        | some (commands, e) ↦ some (next.0, consume next.0 e)
      ]

  -- The loop, with `fuel` turns.
  abbrev pub refill : ℕ → Makerbot → Option Makerbot
  refill zero d = some d
  refill (suc fuel) d = elim (ltb (length d.queue) queue_fill_size) [
    | false ↦ some d
    | true ↦ elim (refill_turn d) [
      | none ↦ none
      | some (zero, e) ↦ some e
      | some (suc amt, e) ↦ refill fuel e
    ]
  ]
