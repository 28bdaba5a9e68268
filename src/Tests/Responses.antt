-- ===== src/Tests/Responses.antt =====
-- The packets of src/drivers/MakerbotDriver.cpp and their responses at concrete inputs.
use print3d.Prelude.{◌≡◌, refl, none, some, List, [], ◌∷◌, true, false, arith}
use print3d.Prelude.Int.{pos}
use print3d.Prelude.Text.{Bytes, IsByteList}
use print3d.Driver.State.{idle}
use print3d.Driver.Port.{PortEvent, received, blocked}
use print3d.Makerbot.Crc.{crc}
use print3d.Makerbot.State.{Makerbot, Machine, new_makerbot}
use print3d.Makerbot.Packets.{packet_of, send_packet, interpret}
use print3d.Makerbot.Queue.{request_buffer_space}
use print3d.Makerbot.Frames.{posted, send_packet-answered, send_packet-damaged}
use print3d.Makerbot.Copies.{CopiesAll, spaced, send_packet-CopiesAll}
use print3d.Makerbot.Silence.{
  send_packet-silent, send_packet-cut_short, request_buffer_space-answered,
}

-- A machine with its lowest byte first, and the macro defined.
abbrev desktop : Machine
desktop = record { memory = λ i. 0; little_endian_defined = true; is_little_endian = true }

abbrev open_makerbot : List PortEvent → Makerbot
open_makerbot events = record (new_makerbot events) {
  base = record (new_makerbot events).base { is_open = true; state = idle };
}

-- The first tool has 200 degrees.
abbrev temperature_query : Bytes
temperature_query = 10 ∷ 0 ∷ 2 ∷ []

abbrev hot : List PortEvent
hot = blocked true ∷ received (0xD5 ∷ 3 ∷ 0x81 ∷ 200 ∷ 0 ∷ crc (0x81 ∷ 200 ∷ 0 ∷ []) ∷ []) ∷ []

send_packet-answered_example :
    send_packet desktop (open_makerbot hot) temperature_query false
    ≡ some (
      true,
      record (interpret desktop
          (posted (open_makerbot hot) temperature_query false [])
          10
          (pos 2)
          (0x81 ∷ 200 ∷ 0 ∷ [])) { valid_response_received = true },
    )
send_packet-answered_example =
    send_packet-answered desktop (open_makerbot hot) temperature_query false true 0x81
      (200 ∷ 0 ∷ []) [] [] refl refl

-- The same response, its temperature 201 on the way.
abbrev damaged : List PortEvent
damaged = blocked true ∷ received (0xD5 ∷ 3 ∷ 0x81 ∷ 201 ∷ 0 ∷ crc (0x81 ∷ 200 ∷ 0 ∷ []) ∷ []) ∷ []

first_byte : IsByteList (0x81 ∷ [])
first_byte = (omega arith, tt)

last_byte : IsByteList (0 ∷ [])
last_byte = (omega arith, tt)

send_packet-damaged_example :
    send_packet desktop (open_makerbot damaged) temperature_query false
    ≡ some (false, posted (open_makerbot damaged) temperature_query false [])
send_packet-damaged_example =
    send_packet-damaged desktop (open_makerbot damaged) temperature_query false true (0x81 ∷ [])
      (0 ∷ []) 200 201 [] [] first_byte last_byte (omega arith) (omega arith)
      (λ e. absurd (omega arith)) refl refl

-- Three wrong answers, and then the right one.
abbrev late : List PortEvent
late =
    blocked true
    ∷ received (1 ∷ [])
    ∷ received (2 ∷ [])
    ∷ received (3 ∷ [])
    ∷ received (0xD5 ∷ 1 ∷ 0x81 ∷ crc (0x81 ∷ []) ∷ [])
    ∷ []

send_packet-CopiesAll_example :
    CopiesAll
      (packet_of (151 ∷ 7 ∷ []))
      151
      1
      5
      (spaced (open_makerbot late) (151 ∷ 7 ∷ []) true)
      (send_packet desktop (open_makerbot late) (151 ∷ 7 ∷ []) true)
send_packet-CopiesAll_example =
    send_packet-CopiesAll desktop (151 ∷ 7 ∷ []) true (open_makerbot late) refl

abbrev silent : List PortEvent
silent = blocked true ∷ blocked false ∷ []

send_packet-silent_example :
    send_packet desktop (open_makerbot silent) temperature_query false ≡ none
send_packet-silent_example =
    send_packet-silent desktop (open_makerbot silent) temperature_query false true [] refl refl

abbrev cut_off : List PortEvent
cut_off = blocked true ∷ received (0xD5 ∷ 3 ∷ []) ∷ blocked false ∷ []

send_packet-cut_short_example :
    send_packet desktop (open_makerbot cut_off) temperature_query false
    ≡ some (
      true,
      record (posted (open_makerbot cut_off) temperature_query false []) {
        valid_response_received = true;
      },
    )
send_packet-cut_short_example =
    send_packet-cut_short desktop (open_makerbot cut_off) temperature_query false true 2 [] refl
      refl

abbrev half_full : List PortEvent
half_full =
    blocked true
    ∷ received (0xD5 ∷ 5 ∷ 0x81 ∷ 0 ∷ 1 ∷ 0 ∷ 0 ∷ crc (0x81 ∷ 0 ∷ 1 ∷ 0 ∷ 0 ∷ []) ∷ [])
    ∷ []

request_buffer_space-answered_example :
    (e : Makerbot) × (request_buffer_space desktop (open_makerbot half_full) ≡ some (pos 256, e))
    × (e.buffer_space ≡ 256)
request_buffer_space-answered_example =
    request_buffer_space-answered desktop (open_makerbot half_full) true 0x81 256 [] []
      (omega arith) refl refl refl
