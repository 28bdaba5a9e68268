-- ===== src/Tests/Commands.antt =====
-- src/drivers/S3GParser.h, and the queue of MakerbotDriver.cpp, at concrete inputs.
use print3d.Prelude.{◌++◌, ◌≡◌, refl, inl, none, some, List, [], ◌∷◌, true, false, arith}
use print3d.Prelude.Text.{Bytes, codes}
use print3d.Driver.State.{printing}
use print3d.Driver.Port.{PortEvent, received, blocked}
use print3d.Makerbot.Crc.{crc, crc_ibutton_update}
use print3d.Makerbot.State.{Makerbot, Machine, new_makerbot}
use print3d.Makerbot.Parser.{Parser, letter_size, format_of, parse_next_command, parse_all}
use print3d.Makerbot.Parser.Plain.{
  PlainCommand, fixed, tool_action, AllPlain, wire, behind_command, behind_commands, parse_all-wire,
}
use print3d.Makerbot.Parser.Ends.{ReadsWhole, parse_all-ReadsWhole}
use print3d.Makerbot.Parser.Messages.{parse_all-message}
use print3d.Makerbot.Packets.{packet_of}
use print3d.Makerbot.Queue.{convert_gcode, refill, process_queue, send_queue}
use print3d.Makerbot.Refill.{convert_gcode-wire, Refilled, refill-Refilled}
use print3d.Makerbot.Order.{
  AllBuffered, Ends, Processed, FitsSpace, process_queue-Processed, send_queue-FitsSpace,
}

-- A machine with its highest byte first, as the routers have it.
abbrev router : Machine
router = record { memory = λ i. 0; little_endian_defined = false; is_little_endian = false }

abbrev fresh : Bytes → Parser
fresh code = record { unread = code; line_number = 0; commands = [] }

-- Enabling the steppers, and setting the temperature of the first tool.
abbrev two_commands : List Bytes
two_commands = (137 ∷ 31 ∷ []) ∷ (136 ∷ 0 ∷ 3 ∷ 2 ∷ 200 ∷ 0 ∷ []) ∷ []

steppers : PlainCommand (137 ∷ 31 ∷ [])
unfolding format_of letter_size
steppers =
    fixed 137 (31 ∷ []) (λ e. absurd (omega arith)) (λ e. absurd (omega arith))
      (λ e. absurd (omega arith)) refl

two_commands-plain : AllPlain two_commands
two_commands-plain = (steppers, (tool_action 0 3 (200 ∷ 0 ∷ []), tt))

parse_all-wire_example :
    parse_all 8 (fresh (wire two_commands)) ≡ some (behind_commands (fresh []) two_commands)
parse_all-wire_example =
    parse_all-wire 8 (fresh (wire two_commands)) two_commands two_commands-plain (omega arith) refl

-- The tool action names more bytes than there are.
parse_short_run : parse_all 5 (fresh (137 ∷ 31 ∷ 136 ∷ 0 ∷ 3 ∷ 9 ∷ 1 ∷ [])) ≡ none
unfolding parse_next_command
parse_short_run = refl

parse_all-ReadsWhole_example : ReadsWhole (parse_all 8 (fresh (wire two_commands)))
parse_all-ReadsWhole_example = parse_all-ReadsWhole 8 (fresh (wire two_commands)) (omega arith)

parse_all-message_example :
    parse_all 2 (fresh (149 ∷ 0 ∷ 0 ∷ 0 ∷ 5 ∷ codes "Hi" ++ (0 ∷ [])))
    ≡ some (behind_command (behind_command (fresh []) (149 ∷ codes "Hi") (0 ∷ [])) (0 ∷ []) [])
parse_all-message_example =
    parse_all-message 0 (fresh (149 ∷ 0 ∷ 0 ∷ 0 ∷ 5 ∷ codes "Hi" ++ (0 ∷ []))) 149 0 0 0 5
      (codes "Hi") [] (inl refl) refl refl

-- The answer to a packet, a response of one byte.
abbrev success : Bytes
success = 0xD5 ∷ 1 ∷ 0x81 ∷ crc (0x81 ∷ []) ∷ []

-- 512 bytes of space, lowest byte first.
abbrev all_space : Bytes
all_space = 0xD5 ∷ 5 ∷ 0x81 ∷ 0 ∷ 2 ∷ 0 ∷ 0 ∷ crc (0x81 ∷ 0 ∷ 2 ∷ 0 ∷ 0 ∷ []) ∷ []

abbrev answering : List PortEvent
answering =
    blocked false
    ∷ received all_space
    ∷ blocked false
    ∷ received success
    ∷ blocked false
    ∷ received success
    ∷ []

abbrev queued : Makerbot
queued = record (new_makerbot answering) {
  base = record (new_makerbot answering).base {
    is_open = true;
    state = printing;
    gcode_buffer = record (new_makerbot answering).base.gcode_buffer {
      buckets = codes "G28\nM18\n" ∷ [];
    };
  };
  queue = two_commands;
}

process_queue-Processed_example : Ends (Processed queued) (process_queue router queued)
process_queue-Processed_example = process_queue-Processed router queued refl

abbrev emptied : Makerbot
emptied = record queued {
  base = record queued.base {
    sent =
        packet_of (2 ∷ [])
        ∷ packet_of (137 ∷ 31 ∷ [])
        ∷ packet_of (136 ∷ 0 ∷ 3 ∷ 2 ∷ 200 ∷ 0 ∷ [])
        ∷ [];
  };
  buffer_space = 504;
  queue = [];
  valid_response_received = true;
  port = [];
}

process_run : process_queue router queued ≡ some emptied
unfolding process_queue packet_of crc_ibutton_update
process_run = refl

two_commands-buffered : AllBuffered two_commands
two_commands-buffered = (λ e. absurd (omega arith), (λ e. absurd (omega arith), tt))

send_queue-FitsSpace_example :
    Ends (FitsSpace two_commands queued) (send_queue router two_commands queued)
send_queue-FitsSpace_example =
    send_queue-FitsSpace router two_commands queued refl two_commands-buffered (omega arith)
      (omega arith)

-- What stands for gpx here: every text becomes the two commands.
abbrev gpx : List Bytes → Bytes → Bytes
gpx texts text = wire two_commands

convert_gcode-wire_example :
    convert_gcode gpx queued (codes "M17")
    ≡ some (2, record queued { queue = two_commands ++ two_commands; converted = codes "M17" ∷ [] })
convert_gcode-wire_example =
    convert_gcode-wire gpx queued b'M' (codes "17") two_commands refl two_commands-plain

refill-Refilled_example : Refilled gpx (refill gpx 9 queued)
refill-Refilled_example = refill-Refilled gpx 9 queued (omega arith)
