-- ===== src/Makerbot/Responses.antt =====
-- A response that arrives whole: its parts are read one by one, and its checksum decides.
use print3d.Prelude.{
  ℕ, suc, ◌≡◌, refl, ap, ◌∙◌, true, Option, some, List, [], ◌∷◌, ◌++◌, append_assoc, if◌then◌else◌,
  length,
}
use print3d.Prelude.Int.{ℤ, pos}
use print3d.Prelude.Text.{Bytes, take-append, drop-append}
use print3d.Driver.Port.{
  PortEvent, received, Outcome, value, minus_one, ebadf, still, read_bytes_direct, read_byte_direct,
}
use print3d.Makerbot.State.{Makerbot, Machine, checked, read_byte, with_bytes, read_block, fill}
use print3d.Makerbot.Packets.{
  response_crc, response_data, response_length, response_head, parse_response,
}

-- What a read of an open port makes of the return value.
abbrev pub byte_read : Makerbot → Outcome × List PortEvent → Option (ℤ × Makerbot)
byte_read d r = checked r.0 (record d { port = r.1 })

abbrev pub block_read :
    Makerbot → (Outcome × Bytes) × List PortEvent → Option (ℤ × Bytes × Makerbot)
block_read d r = with_bytes r.0.1 (checked r.0.0 (record d { port = r.1 }))

pub read_byte-open :
    (d : Makerbot) (t : ℕ)
    → d.base.is_open ≡ true
    → read_byte d t ≡ byte_read d (read_byte_direct d.port t)
unfolding read_byte
read_byte-open d t h =
    ap (λ o. if o then byte_read d (read_byte_direct d.port t) else checked (minus_one ebadf) d) h

pub read_block-open :
    (d : Makerbot) (n t : ℕ)
    → d.base.is_open ≡ true
    → read_block d n t ≡ block_read d (read_bytes_direct d.port n t)
unfolding read_block
read_block-open d n t h =
    ap
      (λ o.
        if o
        then block_read d (read_bytes_direct d.port n t)
        else with_bytes [] (checked (minus_one ebadf) d))
      h

pub read_byte-received :
    (d : Makerbot) (t b : ℕ) (bs : Bytes) (es : List PortEvent)
    → d.base.is_open ≡ true
    → d.port ≡ received (b ∷ bs) ∷ es
    → read_byte d t ≡ some (pos b, record d { port = still bs es })
unfolding read_byte_direct read_bytes_direct checked
read_byte-received d t b bs es h e =
    read_byte-open d t h ∙ ap (λ p. byte_read d (read_byte_direct p t)) e

read_received :
    (t b : ℕ) (bs rest : Bytes) (es : List PortEvent)
    → read_bytes_direct (received (b ∷ bs ++ rest) ∷ es) (suc (length bs)) t
      ≡ ((value (suc (length bs)), b ∷ bs), still rest es)
unfolding read_bytes_direct
read_received t b bs rest es = rw (take-append bs rest, drop-append bs rest) refl

read_block-received :
    (d : Makerbot) (t b : ℕ) (bs rest : Bytes) (es : List PortEvent)
    → d.base.is_open ≡ true
    → d.port ≡ received (b ∷ bs ++ rest) ∷ es
    → read_block d (suc (length bs)) t
      ≡ some (pos (suc (length bs)), b ∷ bs, record d { port = still rest es })
unfolding checked
read_block-received d t b bs rest es h e =
    read_block-open d (suc (length bs)) t h
    ∙ ap (λ p. block_read d (read_bytes_direct p (suc (length bs)) t)) e
    ∙ ap (block_read d) (read_received t b bs rest es)

fill-whole : (memory : ℕ → ℕ) (bs : Bytes) → fill (length bs) memory bs ≡ bs
fill-whole memory [] = refl
fill-whole memory (b ∷ bs) = ap (◌∷◌ b) (fill-whole (λ i. memory (suc i)) bs)

-- A response on the wire, with its checksum as it arrives.
abbrev pub framed : Bytes → ℕ → Bytes
framed payload c = 0xD5 ∷ length payload ∷ payload ++ (c ∷ [])

abbrev pub rest_of : Makerbot → Bytes → List PortEvent → Makerbot
rest_of d rest es = record d { port = still rest es }

module _ (m : Machine) (cmd : ℕ) (tool_command : ℤ) where
  response_data-received :
      (d : Makerbot) (b : ℕ) (bs : Bytes) (c : ℕ) (rest : Bytes) (es : List PortEvent)
      → d.base.is_open ≡ true
      → d.port ≡ received (c ∷ rest) ∷ es
      → response_data m cmd tool_command (suc (length bs)) (pos (suc (length bs))) (b ∷ bs) d
        ≡ some (response_crc m cmd tool_command (b ∷ bs) (pos c) (rest_of d rest es))
  unfolding response_data
  response_data-received d b bs c rest es h e =
      rw (response_data, read_byte-received d 250 c rest es h e, fill-whole m.memory (b ∷ bs)) refl

  response_length-received :
      (d : Makerbot) (b : ℕ) (bs : Bytes) (c : ℕ) (rest : Bytes) (es : List PortEvent)
      → d.base.is_open ≡ true
      → d.port ≡ received (b ∷ bs ++ (c ∷ rest)) ∷ es
      → response_length m cmd tool_command (pos (suc (length bs))) d
        ≡ some (response_crc m cmd tool_command (b ∷ bs) (pos c) (rest_of d rest es))
  unfolding response_length
  response_length-received d b bs c rest es h e =
      rw (response_length, read_block-received d 250 b bs (c ∷ rest) es h e)
        (response_data-received (rest_of d (c ∷ rest) es) b bs c rest es h refl)

  response_head-received :
      (d : Makerbot) (b : ℕ) (bs : Bytes) (c : ℕ) (rest : Bytes) (es : List PortEvent)
      → d.base.is_open ≡ true
      → d.port ≡ received (suc (length bs) ∷ b ∷ bs ++ (c ∷ rest)) ∷ es
      → response_head m cmd tool_command (pos 0xD5) d
        ≡ some (response_crc m cmd tool_command (b ∷ bs) (pos c) (rest_of d rest es))
  unfolding response_head
  response_head-received d b bs c rest es h e =
      rw (response_head, read_byte-received d 250 (suc (length bs)) (b ∷ bs ++ (c ∷ rest)) es h e)
        (response_length-received (rest_of d (b ∷ bs ++ (c ∷ rest)) es) b bs c rest es h refl)

  -- A response that arrives whole is read to its end, and its checksum decides.
  pub parse_response-received :
      (d : Makerbot) (b : ℕ) (bs : Bytes) (c : ℕ) (rest : Bytes) (es : List PortEvent)
      → d.base.is_open ≡ true
      → d.port ≡ received (framed (b ∷ bs) c ++ rest) ∷ es
      → parse_response m d cmd tool_command
        ≡ some (response_crc m cmd tool_command (b ∷ bs) (pos c) (rest_of d rest es))
  unfolding parse_response
  parse_response-received d b bs c rest es h e =
      let k : d.port ≡ received (0xD5 ∷ suc (length bs) ∷ b ∷ bs ++ (c ∷ rest)) ∷ es =
        e
        ∙ ap (λ s. received (0xD5 ∷ suc (length bs) ∷ b ∷ s) ∷ es)
            (append_assoc bs (c ∷ []) rest) in
      rw
        (
          parse_response,
          read_byte-received d 250 0xD5 (suc (length bs) ∷ b ∷ bs ++ (c ∷ rest)) es h k,
        )
        (response_head-received (rest_of d (suc (length bs) ∷ b ∷ bs ++ (c ∷ rest)) es) b bs c rest
          es h refl)
