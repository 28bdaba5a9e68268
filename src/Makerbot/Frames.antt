-- ===== src/Makerbot/Frames.antt =====
-- Responses that arrive whole: one whose checksum is right is interpreted, one with a damaged byte
-- is refused and its packet is not sent again.
use print3d.Prelude.{
  ℕ, suc, ◌<◌, ◌≡◌, ◌≢◌, refl, ap, ◌∙◌, Bool, true, false, some, List, [], ◌∷◌, ◌++◌, arith, ◌==◌,
  ==_iff, if◌then◌else◌, length, get_or,
}
use print3d.Prelude.Int.{ℤ, pos, negsuc}
use print3d.Prelude.Text.{Bytes, IsByteList}
use print3d.Driver.Port.{PortEvent, received, blocked, still, read_bytes_direct}
use print3d.Makerbot.Crc.{crc}
use print3d.Makerbot.Crc.Detect.{crc-one_byte}
use print3d.Makerbot.State.{Makerbot, Machine, sub_uint32, checked, read_block}
use print3d.Makerbot.Packets.{
  write, packet_of, interpret, response_crc, parse_response, after_attempt, attempts,
  tool_command_of, send_packet,
}
use print3d.Makerbot.Responses.{block_read, read_block-open, framed, parse_response-received}

-- The driver once the packet of a payload is written, once.
abbrev pub posted : Makerbot → Bytes → Bool → List PortEvent → Makerbot
posted d payload update_buffer_space es = record d {
  base = record d.base { sent = d.base.sent ++ (packet_of payload ∷ []) };
  buffer_space =
      if update_buffer_space then sub_uint32 d.buffer_space (length payload) else d.buffer_space;
  port = es;
}

pub write-open :
    (d : Makerbot) (packet : Bytes)
    → d.base.is_open ≡ true
    → write d packet ≡ record d { base = record d.base { sent = d.base.sent ++ (packet ∷ []) } }
unfolding write
write-open d packet h =
    ap
      (λ o.
        if o then record d { base = record d.base { sent = d.base.sent ++ (packet ∷ []) } } else d)
      h

module _ (m : Machine) where
  pub attempts-first :
      (d : Makerbot) (packet : Bytes) (cmd : ℕ) (tool_command rv : ℤ) (e : Makerbot) (left : ℕ)
      → parse_response m (write d packet) cmd tool_command ≡ some (rv, e)
      → attempts m (suc left) d packet cmd tool_command
        ≡ after_attempt m rv e (attempts m left e packet cmd tool_command)
  unfolding attempts
  attempts-first d packet cmd tool_command rv e left h = rw (attempts, h) refl

  read_block-blocked :
      (d : Makerbot) (n : ℕ) (ready : Bool) (es : List PortEvent)
      → d.base.is_open ≡ true
      → d.port ≡ blocked ready ∷ es
      → read_block d n 0 ≡ some (pos 0, [], record d { port = es })
  unfolding read_bytes_direct checked
  read_block-blocked d n ready es h e =
      read_block-open d n 0 h ∙ ap (λ p. block_read d (read_bytes_direct p n 0)) e

  pub send_packet-blocked :
      (d : Makerbot) (payload : Bytes) (update : Bool) (ready : Bool) (es : List PortEvent)
      → d.base.is_open ≡ true
      → d.port ≡ blocked ready ∷ es
      → send_packet m d payload update
        ≡ attempts m 5
            (record d {
              buffer_space =
                  if update then sub_uint32 d.buffer_space (length payload) else d.buffer_space;
              port = es;
            })
            (packet_of payload)
            (get_or payload 0 0)
            (tool_command_of m payload)
  unfolding send_packet
  send_packet-blocked d payload update ready es h e =
      rw (send_packet, read_block-blocked d (length payload) ready es h e) refl

  send_packet-received :
      (d : Makerbot) (payload : Bytes) (update ready : Bool) (b : ℕ) (bs : Bytes) (c : ℕ)
      (rest : Bytes) (es : List PortEvent)
      → d.base.is_open ≡ true
      → d.port ≡ blocked ready ∷ received (framed (b ∷ bs) c ++ rest) ∷ es
      → (rv : ℤ) (e : Makerbot)
      → response_crc m
          (get_or payload 0 0)
          (tool_command_of m payload)
          (b ∷ bs)
          (pos c)
          (posted d payload update (still rest es))
        ≡ (rv, e)
      → send_packet m d payload update
        ≡ after_attempt m rv e
            (attempts m 4 e (packet_of payload) (get_or payload 0 0) (tool_command_of m payload))
  send_packet-received d payload update ready b bs c rest es h e rv x k =
      let ahead = received (framed (b ∷ bs) c ++ rest) ∷ es in
      let f = record d {
        buffer_space =
            if update then sub_uint32 d.buffer_space (length payload) else d.buffer_space;
        port = ahead;
      } in
      let cmd = get_or payload 0 0 in
      let tool_command = tool_command_of m payload in
      send_packet-blocked d payload update ready ahead h e
      ∙ attempts-first f (packet_of payload) cmd tool_command rv x 4 (
          ap (λ w. parse_response m w cmd tool_command) (write-open f (packet_of payload) h)
          ∙ parse_response-received m cmd tool_command (posted d payload update ahead) b bs c rest
              es h refl
          ∙ ap some k)

  response_crc-right :
      (cmd : ℕ) (tool_command : ℤ) (buf : Bytes) (d : Makerbot)
      → response_crc m cmd tool_command buf (pos (crc buf)) d
        ≡ (pos 0, interpret m d cmd tool_command buf)
  unfolding response_crc
  response_crc-right cmd tool_command buf d =
      rw (response_crc, (==_iff (crc buf) (crc buf)).1 refl) refl

  response_crc-wrong :
      (cmd : ℕ) (tool_command : ℤ) (buf : Bytes) (c : ℕ) (d : Makerbot)
      → c ≢ crc buf
      → response_crc m cmd tool_command buf (pos c) d ≡ (negsuc 2, d)
  unfolding response_crc
  response_crc-wrong cmd tool_command buf c d h =
      let e : (c == crc buf) ≡ false = ground arith in rw (response_crc, e) refl

  -- A packet that is answered by a whole response, with the checksum of the response's payload, is
  -- written once, sendPacket succeeds, and the payload is interpreted by the command of the packet.
  -- The port is open, and nothing but the response is to be read from it.
  pub send_packet-answered :
      (d : Makerbot) (payload : Bytes) (update ready : Bool) (b : ℕ) (bs rest : Bytes)
      (es : List PortEvent)
      → d.base.is_open ≡ true
      → d.port ≡ blocked ready ∷ received (framed (b ∷ bs) (crc (b ∷ bs)) ++ rest) ∷ es
      → send_packet m d payload update
        ≡ some (
          true,
          record (interpret m
              (posted d payload update (still rest es))
              (get_or payload 0 0)
              (tool_command_of m payload)
              (b ∷ bs)) { valid_response_received = true },
        )
  send_packet-answered d payload update ready b bs rest es h e =
      let cmd = get_or payload 0 0 in
      let tool_command = tool_command_of m payload in
      let f = posted d payload update (still rest es) in
      send_packet-received d payload update ready b bs (crc (b ∷ bs)) rest es h e (pos 0)
        (interpret m f cmd tool_command (b ∷ bs)) (response_crc-right cmd tool_command (b ∷ bs) f)

  refused :
      (d : Makerbot) (payload : Bytes) (update ready : Bool) (b : ℕ) (bs : Bytes) (c : ℕ)
      (rest : Bytes) (es : List PortEvent)
      → d.base.is_open ≡ true
      → d.port ≡ blocked ready ∷ received (framed (b ∷ bs) c ++ rest) ∷ es
      → c ≢ crc (b ∷ bs)
      → send_packet m d payload update ≡ some (false, posted d payload update (still rest es))
  refused d payload update ready b bs c rest es h e ne =
      let f = posted d payload update (still rest es) in
      send_packet-received d payload update ready b bs c rest es h e (negsuc 2) f
        (response_crc-wrong (get_or payload 0 0) (tool_command_of m payload) (b ∷ bs) c f ne)

  -- When one byte of the payload of a response has become another one on the way, sendPacket fails,
  -- takes nothing from the response, and does not send the packet again. The port is open, nothing
  -- but the response is to be read from it, and the payload is made of bytes.
  pub send_packet-damaged :
      (d : Makerbot) (payload : Bytes) (update ready : Bool) (before behind : Bytes) (a b : ℕ)
      (rest : Bytes) (es : List PortEvent)
      → IsByteList before
      → IsByteList behind
      → a < 256
      → b < 256
      → a ≢ b
      → d.base.is_open ≡ true
      → d.port
        ≡ blocked ready
          ∷ received (framed (before ++ (b ∷ behind)) (crc (before ++ (a ∷ behind))) ++ rest)
          ∷ es
      → send_packet m d payload update ≡ some (false, posted d payload update (still rest es))
  send_packet-damaged d payload update ready [] behind a b rest es hs ht ha hb ne h e =
      refused d payload update ready b behind (crc (a ∷ behind)) rest es h e
        (crc-one_byte [] behind a b hs ht ha hb ne)
  send_packet-damaged d payload update ready (x ∷ before) behind a b rest es hs ht ha hb ne h e =
      refused d payload update ready x (before ++ (b ∷ behind)) (crc (x ∷ before ++ (a ∷ behind)))
        rest es h e (crc-one_byte (x ∷ before) behind a b hs ht ha hb ne)
