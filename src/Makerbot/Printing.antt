-- ===== src/Makerbot/Printing.antt =====
-- src/drivers/MakerbotDriver.cpp: the turn of the server's loop, and the operations on a print that
-- the driver overrides.
use print3d.Prelude.{
  ℕ, suc, ◌+◌, Bool, true, false, ◌&&◌, Option, none, some, List, ltb, ◌==◌, if◌then◌else◌, length,
}
use print3d.Prelude.Int.{ℤ, pos, negsuc}
use print3d.Prelude.Text.{Bytes}
use print3d.GcodeBuffer.State.{MetaData, GcodeSetResult}
use print3d.GcodeBuffer.Contents.{joined}
use print3d.Driver.State.{State, stopping, Driver, is_printing}
use print3d.Driver.Print.{begin_print, set_gcode, reset_print}
use print3d.Makerbot.State.{Makerbot, Machine, queue_min_size}
use print3d.Makerbot.Queue.{
  full_stop, set_base, clear_gcode_queue, request_buffer_space, get_firmware_version,
  update_temperatures, process_queue, refill,
}

-- Turns enough for the loop that refills the queue: each takes a byte out of the buffer.
abbrev pub refill_fuel : Makerbot → ℕ
refill_fuel d = suc (suc (length (joined d.base.gcode_buffer.buckets)))

module _ (m : Machine) (gpx_convert : List Bytes → Bytes → Bytes) where
  unfoldable pub refill_due : Makerbot → Option Makerbot
  refill_due d =
      if is_printing d.base.state && ltb (length d.queue) queue_min_size
      then refill gpx_convert (refill_fuel d) d
      else some d

  unfoldable pub process_due : Makerbot → Option Makerbot
  unfolding process_queue
  process_due d = if is_printing d.base.state then process_queue m d else some d

  abbrev pub then_temperatures : Option (ℕ × Makerbot) → Option (ℤ × Makerbot)
  then_temperatures none = none
  then_temperatures (some (version, d)) = elim (update_temperatures m d) [
    | none ↦ none
    | some (sent, e) ↦ request_buffer_space m e
  ]

  -- What is asked of the printer every thirty turns.
  unfoldable pub ask_printer : Makerbot → Option Makerbot
  unfolding get_firmware_version update_temperatures request_buffer_space
  ask_printer d =
      let version =
        if d.valid_response_received
        then some (d.firmware_version, d)
        else get_firmware_version m d in
      elim (then_temperatures version) [
        | none ↦ none
        | some (space, e) ↦ some (record e { counter = 0 })
      ]

  abbrev pub count_turn : Makerbot → ℤ × Makerbot
  count_turn d = (pos 33, record d { counter = d.counter + 1 })

  -- The milliseconds to the next turn, or -1 without a connection.
  unfoldable pub update : Makerbot → Option (ℤ × Makerbot)
  unfolding refill_due process_due ask_printer
  update d = elim d.base.is_open [
    | false ↦ some (negsuc 0, d)
    | true ↦ elim (refill_due d) [
      | none ↦ none
      | some e ↦ elim (process_due e) [
        | none ↦ none
        | some f ↦ elim (if f.counter == 30 then ask_printer f else some f) [
          | none ↦ none
          | some g ↦ some (count_turn g)
        ]
      ]
    ]
  ]

abbrev pub stopped :
    Makerbot → Option (Driver × GcodeSetResult) → Option (Makerbot × GcodeSetResult)
stopped d none = none
stopped d (some (b, gsr)) = some (full_stop (set_base d b), gsr)

-- MakerbotDriver::startPrint(STATE)
unfoldable pub start_print_queue : Makerbot → State → Makerbot × Bool
unfolding begin_print
start_print_queue d state = let begun = begin_print d.base state in (set_base d begun.0, begun.1)

abbrev pub then_start_queue : State → Option (Makerbot × GcodeSetResult) → Option (Makerbot × Bool)
then_start_queue state none = none
then_start_queue state (some (d, gsr)) = some (start_print_queue d state)

module _ (number : Bytes → ℤ) where
  unfoldable pub set_gcode_queue :
      Makerbot → Bytes → ℤ → Option MetaData → Option (Makerbot × GcodeSetResult)
  unfolding set_gcode full_stop
  set_gcode_queue d gcode total_lines metadata =
      stopped d (set_gcode number d.base gcode total_lines metadata)

  unfoldable pub start_print_gcode_queue : Makerbot → Bytes → State → Option (Makerbot × Bool)
  unfolding set_gcode_queue start_print_queue
  start_print_gcode_queue d gcode state =
      then_start_queue state (set_gcode_queue d gcode (negsuc 0) none)

  -- AbstractDriver::stopPrint, whose calls come back to this class
  abbrev pub stop_print_base : Bytes → Option (Makerbot × GcodeSetResult) → Option (Makerbot × Bool)
  stop_print_base endcode none = none
  stop_print_base endcode (some (d, gsr)) =
      then_start_queue stopping
        (set_gcode_queue (set_base d (reset_print d.base).0) endcode (negsuc 0) none)

  unfoldable pub stop_print_queue : Makerbot → Bytes → Option (Makerbot × Bool)
  unfolding set_gcode_queue start_print_queue clear_gcode_queue reset_print
  stop_print_queue d endcode =
      stop_print_base endcode (set_gcode_queue (clear_gcode_queue d) endcode (negsuc 0) none)
