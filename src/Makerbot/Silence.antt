-- ===== src/Makerbot/Silence.antt =====
-- Responses that do not arrive, or not whole, and the answer to the request for the space.
use print3d.Prelude.{
  ℕ, suc, ◌/◌, ◌%◌, ◌^◌, ◌<◌, ◌≡◌, refl, ap, ◌∙◌, Bool, true, false, none, some, List, [], ◌∷◌,
  ◌++◌, arith, if◌then◌else◌, length, get_or,
}
use print3d.Prelude.Int.{ℤ, pos}
use print3d.Prelude.Text.{Bytes}
use print3d.Ipc.Wire.{to_int32}
use print3d.Driver.Port.{PortEvent, received, blocked, still, read_bytes_direct, read_byte_direct}
use print3d.Makerbot.Crc.{crc}
use print3d.Makerbot.State.{
  Makerbot, Machine, sub_uint32, load32, checked, read_byte, read_block, read32,
}
use print3d.Makerbot.Packets.{
  write, packet_of, interpret, response_length, response_data, response_head, parse_response,
  attempts, tool_command_of, send_packet,
}
use print3d.Makerbot.Queue.{space_of, request_buffer_space}
use print3d.Makerbot.Responses.{
  byte_read, read_byte-open, block_read, read_block-open, read_byte-received, framed,
}
use print3d.Makerbot.Frames.{
  posted, write-open, attempts-first, send_packet-blocked, send_packet-answered,
}

read_byte-blocked :
    (d : Makerbot) (es : List PortEvent)
    → d.base.is_open ≡ true
    → d.port ≡ blocked false ∷ es
    → read_byte d 250 ≡ none
unfolding read_byte_direct read_bytes_direct checked
read_byte-blocked d es h e =
    read_byte-open d 250 h ∙ ap (λ p. byte_read d (read_byte_direct p 250)) e

read_block-blocked :
    (d : Makerbot) (n : ℕ) (es : List PortEvent)
    → d.base.is_open ≡ true
    → d.port ≡ blocked false ∷ es
    → read_block d n 250 ≡ some (pos 0, [], record d { port = es })
unfolding read_bytes_direct checked
read_block-blocked d n es h e =
    read_block-open d n 250 h ∙ ap (λ p. block_read d (read_bytes_direct p n 250)) e

to_int32-small : (n : ℕ) → n < 2 ^ 31 → to_int32 n ≡ pos n
unfolding to_int32
to_int32-small n h = ground arith

module _ (m : Machine) where
  attempts-exit :
      (d : Makerbot) (packet : Bytes) (cmd : ℕ) (tool_command : ℤ) (left : ℕ)
      → parse_response m (write d packet) cmd tool_command ≡ none
      → attempts m (suc left) d packet cmd tool_command ≡ none
  unfolding attempts
  attempts-exit d packet cmd tool_command left h = rw (attempts, h) refl

  parse_response-silent :
      (d : Makerbot) (cmd : ℕ) (tool_command : ℤ) (es : List PortEvent)
      → d.base.is_open ≡ true
      → d.port ≡ blocked false ∷ es
      → parse_response m d cmd tool_command ≡ none
  unfolding parse_response
  parse_response-silent d cmd tool_command es h e =
      rw (parse_response, read_byte-blocked d es h e) refl

  -- When the printer has not begun to answer before the timeout, the server exits: the -2 of a
  -- timeout is taken for a closed connection. The port is open, and nothing is to be read before.
  pub send_packet-silent :
      (d : Makerbot) (payload : Bytes) (update ready : Bool) (es : List PortEvent)
      → d.base.is_open ≡ true
      → d.port ≡ blocked ready ∷ blocked false ∷ es
      → send_packet m d payload update ≡ none
  send_packet-silent d payload update ready es h e =
      let ahead = blocked false ∷ es in
      let f = record d {
        buffer_space =
            if update then sub_uint32 d.buffer_space (length payload) else d.buffer_space;
        port = ahead;
      } in
      let cmd = get_or payload 0 0 in
      let tool_command = tool_command_of m payload in
      send_packet-blocked m d payload update ready ahead h e
      ∙ attempts-exit f (packet_of payload) cmd tool_command 4 (
          ap (λ w. parse_response m w cmd tool_command) (write-open f (packet_of payload) h)
          ∙ parse_response-silent (posted d payload update ahead) cmd tool_command es h refl)

  response_length-cut :
      (d : Makerbot) (cmd : ℕ) (tool_command : ℤ) (n : ℕ) (es : List PortEvent)
      → d.base.is_open ≡ true
      → d.port ≡ blocked false ∷ es
      → response_length m cmd tool_command (pos (suc n)) d ≡ some (pos 0, record d { port = es })
  unfolding response_length response_data
  response_length-cut d cmd tool_command n es h e =
      rw (response_length, read_block-blocked d (suc n) es h e) refl

  response_head-cut :
      (d : Makerbot) (cmd : ℕ) (tool_command : ℤ) (n : ℕ) (es : List PortEvent)
      → d.base.is_open ≡ true
      → d.port ≡ received (suc n ∷ []) ∷ blocked false ∷ es
      → response_head m cmd tool_command (pos 0xD5) d ≡ some (pos 0, record d { port = es })
  unfolding response_head
  response_head-cut d cmd tool_command n es h e =
      rw (response_head, read_byte-received d 250 (suc n) [] (blocked false ∷ es) h e)
        (response_length-cut (record d { port = blocked false ∷ es }) cmd tool_command n es h refl)

  parse_response-cut :
      (d : Makerbot) (cmd : ℕ) (tool_command : ℤ) (n : ℕ) (es : List PortEvent)
      → d.base.is_open ≡ true
      → d.port ≡ received (0xD5 ∷ suc n ∷ []) ∷ blocked false ∷ es
      → parse_response m d cmd tool_command ≡ some (pos 0, record d { port = es })
  unfolding parse_response
  parse_response-cut d cmd tool_command n es h e =
      let ahead = received (suc n ∷ []) ∷ blocked false ∷ es in
      rw (parse_response, read_byte-received d 250 0xD5 (suc n ∷ []) (blocked false ∷ es) h e)
        (response_head-cut (record d { port = ahead }) cmd tool_command n es h refl)

  -- A response of which nothing arrives behind its length, before the timeout, counts as success,
  -- though no checksum was seen: the packet is not sent again. The port is open, and nothing is to
  -- be read before.
  pub send_packet-cut_short :
      (d : Makerbot) (payload : Bytes) (update ready : Bool) (n : ℕ) (es : List PortEvent)
      → d.base.is_open ≡ true
      → d.port ≡ blocked ready ∷ received (0xD5 ∷ suc n ∷ []) ∷ blocked false ∷ es
      → send_packet m d payload update
        ≡ some (true, record (posted d payload update es) { valid_response_received = true })
  send_packet-cut_short d payload update ready n es h e =
      let ahead = received (0xD5 ∷ suc n ∷ []) ∷ blocked false ∷ es in
      let f = record d {
        buffer_space =
            if update then sub_uint32 d.buffer_space (length payload) else d.buffer_space;
        port = ahead;
      } in
      let cmd = get_or payload 0 0 in
      let tool_command = tool_command_of m payload in
      send_packet-blocked m d payload update ready ahead h e
      ∙ attempts-first m f (packet_of payload) cmd tool_command (pos 0) (posted d payload update es)
          4
          (ap (λ w. parse_response m w cmd tool_command) (write-open f (packet_of payload) h)
            ∙ parse_response-cut (posted d payload update ahead) cmd tool_command n es h refl)

  -- A number of the printer, lowest byte first.
  abbrev pub little_bytes : ℕ → Bytes
  little_bytes n =
      (n % 256) ∷ (n / 256 % 256) ∷ (n / 256 / 256 % 256) ∷ (n / 256 / 256 / 256 % 256) ∷ []

  load32-agree :
      (b c : Bool) (x y z w : ℕ)
      → b ≡ c
      → (if b then load32 c x y z w else load32 c w z y x) ≡ load32 true x y z w
  load32-agree true true x y z w h = refl
  load32-agree false false x y z w h = refl
  load32-agree true false x y z w h = cc
  load32-agree false true x y z w h = cc

  read32-little_bytes :
      (code n : ℕ)
      → n < 2 ^ 32
      → m.little_endian_defined ≡ m.is_little_endian
      → read32 m (code ∷ little_bytes n) 1 ≡ n
  unfolding read32
  read32-little_bytes code n h agree =
      load32-agree m.little_endian_defined m.is_little_endian (n % 256) (n / 256 % 256)
        (n / 256 / 256 % 256) (n / 256 / 256 / 256 % 256) agree
      ∙ omega arith

  -- The space that the printer answers with, lowest byte first, is the space that
  -- requestBufferSpace returns, if `__LITTLE_ENDIAN__` is defined just on the machines that have the
  -- lowest byte first. The port is open, nothing but the response is to be read, and the space is
  -- below 2^31.
  pub request_buffer_space-answered :
      (d : Makerbot) (ready : Bool) (code n : ℕ) (rest : Bytes) (es : List PortEvent)
      → n < 2 ^ 31
      → m.little_endian_defined ≡ m.is_little_endian
      → d.base.is_open ≡ true
      → d.port
        ≡ blocked ready
          ∷ received (framed (code ∷ little_bytes n) (crc (code ∷ little_bytes n)) ++ rest)
          ∷ es
      → (e : Makerbot) × (request_buffer_space m d ≡ some (pos n, e)) × (e.buffer_space ≡ n)
  unfolding request_buffer_space interpret
  request_buffer_space-answered d ready code n rest es h agree opened e =
      let payload = code ∷ little_bytes n in
      let x =
        record (interpret m (posted d (2 ∷ []) true (still rest es)) 2 (tool_command_of m (2 ∷ []))
          payload) { valid_response_received = true } in
      let space : x.buffer_space ≡ n = read32-little_bytes code n (omega arith) agree in
      (
        x,
        ap space_of
              (send_packet-answered m d (2 ∷ []) true ready code (little_bytes n) rest es opened e)
            ∙ ap (λ (s : ℤ). some (s, x)) (ap to_int32 space ∙ to_int32-small n h),
        space,
      )
