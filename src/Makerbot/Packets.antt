-- ===== src/Makerbot/Packets.antt =====
-- src/drivers/MakerbotDriver.cpp: a packet to the printer and its response.
use print3d.Prelude.{
  ℕ, zero, suc, ◌%◌, Bool, true, false, Option, none, some, [], ◌∷◌, ◌++◌, ◌==◌, if◌then◌else◌,
  length, get_or,
}
use print3d.Prelude.Int.{ℤ, pos, negsuc, eq_ℤ}
use print3d.Prelude.Text.{Bytes}
use print3d.Driver.State.{State, connecting, idle, Driver}
use print3d.Makerbot.Crc.{crc}
use print3d.Makerbot.State.{
  Makerbot, Machine, sub_uint32, read_byte, read_block, fill, byte_at, read16, read32,
}

-- What is written to the port; a closed one takes nothing.
unfoldable pub write : Makerbot → Bytes → Makerbot
write d packet =
    if d.base.is_open
    then record d { base = record d.base { sent = d.base.sent ++ (packet ∷ []) } }
    else d

unfoldable pub packet_of : Bytes → Bytes
packet_of payload = 0xD5 ∷ (length payload % 256) ∷ payload ++ (crc payload ∷ [])

-- Communication ends the state CONNECTING.
abbrev pub connected : State → State
connected connecting = idle
connected s = s

-- The answer to a tool query.
unfoldable pub set_temperature : Driver → ℤ → ℕ → Driver
set_temperature b tool_command t =
    let c =
      if eq_ℤ tool_command (pos 2)
      then record b { temperature = t }
      else if eq_ℤ tool_command (pos 30)
      then record b { bed_temperature = t }
      else if eq_ℤ tool_command (pos 32)
      then record b { target_temperature = t }
      else if eq_ℤ tool_command (pos 33)
      then record b { target_bed_temperature = t }
      else b in
    record c { state = connected c.state }

module _ (m : Machine) where
  -- The switch on the command that the packet answers.
  unfoldable pub interpret : Makerbot → ℕ → ℤ → Bytes → Makerbot
  unfolding read16 read32 set_temperature
  interpret d cmd tool_command buf =
      if cmd == 0
      then record d { firmware_version = read16 m buf 1 }
      else if cmd == 2
      then record d { buffer_space = read32 m buf 1 }
      else if cmd == 10
      then record d { base = set_temperature d.base tool_command (read16 m buf 1) }
      else d

  -- Behind the checksum of the response, whose payload is `buf`.
  unfoldable pub response_crc : ℕ → ℤ → Bytes → ℤ → Makerbot → ℤ × Makerbot
  unfolding interpret
  response_crc cmd tool_command buf (negsuc n) d = (pos (length buf), d)
  response_crc cmd tool_command buf (pos c) d =
      if c == crc buf then (pos 0, interpret d cmd tool_command buf) else (negsuc 2, d)

  unfoldable pub response_data : ℕ → ℤ → ℕ → ℤ → Bytes → Makerbot → Option (ℤ × Makerbot)
  unfolding response_crc read_byte
  response_data cmd tool_command len (negsuc n) bytes d = some (negsuc n, d)
  response_data cmd tool_command len (pos zero) bytes d = some (pos 0, d)
  response_data cmd tool_command len (pos (suc n)) bytes d = elim (read_byte d 250) [
    | none ↦ none
    | some (c, e) ↦ some (response_crc cmd tool_command (fill len m.memory bytes) c e)
  ]

  unfoldable pub response_length : ℕ → ℤ → ℤ → Makerbot → Option (ℤ × Makerbot)
  unfolding response_data read_block
  response_length cmd tool_command (negsuc n) d = some (negsuc n, d)
  response_length cmd tool_command (pos zero) d = some (pos 0, d)
  response_length cmd tool_command (pos (suc n)) d = elim (read_block d (suc n) 250) [
    | none ↦ none
    | some (rv, bytes, e) ↦ response_data cmd tool_command (suc n) rv bytes e
  ]

  unfoldable pub response_head : ℕ → ℤ → ℤ → Makerbot → Option (ℤ × Makerbot)
  unfolding response_length read_byte
  response_head cmd tool_command (negsuc n) d = some (negsuc n, d)
  response_head cmd tool_command (pos b) d =
      if b == 0xD5
      then elim (read_byte d 250) [
        | none ↦ none
        | some (len, e) ↦ response_length cmd tool_command len e
      ]
      else some (negsuc 98, d)

  unfoldable pub parse_response : Makerbot → ℕ → ℤ → Option (ℤ × Makerbot)
  unfolding response_head read_byte
  parse_response d cmd tool_command = elim (read_byte d 250) [
    | none ↦ none
    | some (b, e) ↦ response_head cmd tool_command b e
  ]

  -- 0 is success, -3 is not retried, anything else is.
  abbrev pub after_attempt : ℤ → Makerbot → Option (Bool × Makerbot) → Option (Bool × Makerbot)
  after_attempt (pos zero) d retried = some (true, record d { valid_response_received = true })
  after_attempt (negsuc (suc (suc zero))) d retried = some (false, d)
  after_attempt rv d retried = retried

  -- `retriesLeft` turns of the loop.
  unfoldable pub attempts : ℕ → Makerbot → Bytes → ℕ → ℤ → Option (Bool × Makerbot)
  unfolding parse_response write
  attempts zero d packet cmd tool_command = some (false, d)
  attempts (suc left) d packet cmd tool_command =
      elim (parse_response (write d packet) cmd tool_command) [
        | none ↦ none
        | some (rv, e) ↦ after_attempt rv e (attempts left e packet cmd tool_command)
      ]

  abbrev pub tool_command_of : Bytes → ℤ
  tool_command_of payload = if get_or payload 0 0 == 10 then pos (byte_at m payload 2) else negsuc 0

  -- The bytes that are read first are thrown away. They go to a buffer of 100 bytes; what a longer
  -- payload lets the read write behind it is left out.
  unfoldable pub send_packet : Makerbot → Bytes → Bool → Option (Bool × Makerbot)
  unfolding attempts packet_of read_block
  send_packet d payload update_buffer_space = elim (read_block d (length payload) 0) [
    | none ↦ none
    | some (rv, bytes, e) ↦
        let space =
          if update_buffer_space
          then sub_uint32 e.buffer_space (length payload)
          else e.buffer_space in
        attempts 5 (record e { buffer_space = space }) (packet_of payload) (get_or payload 0 0)
          (tool_command_of payload)
  ]
