-- ===== src/Makerbot/Copies.antt =====
-- How often sendPacket writes its packet, whatever the port answers.
use print3d.Prelude.{
  ℕ, zero, suc, ◌≤◌, ◌≡◌, ◌≢◌, refl, ap, sym, ◌∙◌, Bool, true, Option, none, some, List, [], ◌∷◌,
  ◌++◌, append_assoc, append-nil, arith, if◌then◌else◌, length, get_or, replicate,
}
use print3d.Prelude.Int.{ℤ, pos, negsuc}
use print3d.Prelude.Text.{Bytes}
use print3d.Makerbot.State.{Makerbot, Machine, sub_uint32, read_block}
use print3d.Makerbot.Packets.{
  write, packet_of, parse_response, after_attempt, attempts, tool_command_of, send_packet,
}
use print3d.Makerbot.Frames.{write-open}
use print3d.Makerbot.Keeps.{
  Keeps, KeepsRead, KeepsBlock, read_block-KeepsBlock, parse_response-KeepsRead,
}

-- The packet is written at least `least` and at most `most` times.
pub record Copies (packet : Bytes) (cmd least most : ℕ) (d e : Makerbot) : Type 0 where
  pub copies : ℕ
  pub at_least : least ≤ copies
  pub at_most : copies ≤ most
  pub wrote : e.base.sent ≡ d.base.sent ++ replicate copies packet
  pub still_open : e.base.is_open ≡ true
  pub same_queue : e.queue ≡ d.queue
  pub same_space : cmd ≢ 2 → e.buffer_space ≡ d.buffer_space

abbrev pub CopiesAll : Bytes → ℕ → ℕ → ℕ → Makerbot → Option (Bool × Makerbot) → Type 0
CopiesAll packet cmd least most d none = Unit
CopiesAll packet cmd least most d (some (ok, e)) = Copies packet cmd least most d e

none_written :
    (packet : Bytes) (cmd most : ℕ) (d : Makerbot)
    → d.base.is_open ≡ true
    → Copies packet cmd 0 most d d
none_written packet cmd most d h = record {
  copies = 0;
  at_least = omega arith;
  at_most = omega arith;
  wrote = sym (append-nil d.base.sent);
  still_open = h;
  same_queue = refl;
  same_space = λ q. refl;
}

-- One packet is written, the response is read, and then some more are written.
one_more :
    (packet : Bytes) (cmd most : ℕ) (d e f : Makerbot)
    → d.base.is_open ≡ true
    → Keeps cmd (write d packet) e
    → Copies packet cmd 0 most e f
    → Copies packet cmd 1 (suc most) d f
one_more packet cmd most d e f h k c = record {
  copies = suc c.copies;
  at_least = omega arith;
  at_most = omega (arith, c.at_most);
  wrote =
      c.wrote
      ∙ ap (λ s. s ++ replicate c.copies packet) (k.sent_kept ∙ ap sent_of (write-open d packet h))
      ∙ append_assoc d.base.sent (packet ∷ []) (replicate c.copies packet);
  still_open = c.still_open;
  same_queue = c.same_queue ∙ k.queue_kept ∙ ap queue_of (write-open d packet h);
  same_space = λ q. c.same_space q ∙ k.space_kept q ∙ ap space_of (write-open d packet h);
}
  where
    sent_of : Makerbot → List Bytes
    sent_of d = d.base.sent

    queue_of : Makerbot → List Bytes
    queue_of d = d.queue

    space_of : Makerbot → ℕ
    space_of d = d.buffer_space

weaken :
    (packet : Bytes) (cmd most : ℕ) (d : Makerbot) (o : Option (Bool × Makerbot))
    → CopiesAll packet cmd 1 most d o
    → CopiesAll packet cmd 0 most d o
weaken packet cmd most d none h = tt
weaken packet cmd most d (some (ok, e)) h = record {
  copies = h.copies;
  at_least = omega arith;
  at_most = h.at_most;
  wrote = h.wrote;
  still_open = h.still_open;
  same_queue = h.same_queue;
  same_space = h.same_space;
}

module _ (m : Machine) (packet : Bytes) (cmd : ℕ) (tool_command : ℤ) where
  all_one_more :
      (most : ℕ) (d e : Makerbot) (o : Option (Bool × Makerbot))
      → d.base.is_open ≡ true
      → Keeps cmd (write d packet) e
      → CopiesAll packet cmd 0 most e o
      → CopiesAll packet cmd 1 (suc most) d o
  all_one_more most d e none h k c = tt
  all_one_more most d e (some (ok, f)) h k c = one_more packet cmd most d e f h k c

  -- However the attempt ends, what it leaves to do is done by `retried`.
  after_attempt-CopiesAll :
      (most : ℕ) (rv : ℤ) (e : Makerbot) (retried : Option (Bool × Makerbot))
      → e.base.is_open ≡ true
      → CopiesAll packet cmd 0 most e retried
      → CopiesAll packet cmd 0 most e (after_attempt m rv e retried)
  after_attempt-CopiesAll most (pos zero) e retried h c =
      answered (none_written packet cmd most e h)
    where
      answered :
          Copies packet cmd 0 most e e
          → Copies packet cmd 0 most e (record e { valid_response_received = true })
      answered c = record {
        copies = c.copies;
        at_least = c.at_least;
        at_most = c.at_most;
        wrote = c.wrote;
        still_open = c.still_open;
        same_queue = c.same_queue;
        same_space = c.same_space;
      }
  after_attempt-CopiesAll most (pos (suc n)) e retried h c = c
  after_attempt-CopiesAll most (negsuc zero) e retried h c = c
  after_attempt-CopiesAll most (negsuc (suc zero)) e retried h c = c
  after_attempt-CopiesAll most (negsuc (suc (suc zero))) e retried h c =
      none_written packet cmd most e h
  after_attempt-CopiesAll most (negsuc (suc (suc (suc n)))) e retried h c = c

  first_attempt :
      (left : ℕ) (d : Makerbot) (o : Option (ℤ × Makerbot))
      → d.base.is_open ≡ true
      → KeepsRead cmd (write d packet) o
      → ((e : Makerbot)
          → e.base.is_open ≡ true
          → CopiesAll packet cmd 0 left e (attempts m left e packet cmd tool_command))
      → CopiesAll packet cmd 1 (suc left) d (elim o [
        | none ↦ none
        | some (rv, e) ↦ after_attempt m rv e (attempts m left e packet cmd tool_command)
      ])
  first_attempt left d none h k rest = tt
  first_attempt left d (some (rv, e)) h k rest =
      let opened : e.base.is_open ≡ true =
        k.open_kept ∙ ap (λ (f : Makerbot). f.base.is_open) (write-open d packet h) ∙ h in
      all_one_more left d e (after_attempt m rv e (attempts m left e packet cmd tool_command)) h k (
        after_attempt-CopiesAll left rv e (attempts m left e packet cmd tool_command) opened
          (rest e opened))

  attempts-some :
      (left : ℕ) (d : Makerbot)
      → d.base.is_open ≡ true
      → CopiesAll packet cmd 0 left d (attempts m left d packet cmd tool_command)
  unfolding attempts
  attempts-some zero d h = none_written packet cmd 0 d h
  attempts-some (suc left) d h =
      weaken packet cmd (suc left) d (attempts m (suc left) d packet cmd tool_command) (
        first_attempt left d (parse_response m (write d packet) cmd tool_command) h
          (parse_response-KeepsRead m cmd tool_command (write d packet)) (attempts-some left))

  attempts-CopiesAll :
      (left : ℕ) (d : Makerbot)
      → d.base.is_open ≡ true
      → CopiesAll packet cmd 1 (suc left) d (attempts m (suc left) d packet cmd tool_command)
  unfolding attempts
  attempts-CopiesAll left d h =
      first_attempt left d (parse_response m (write d packet) cmd tool_command) h
        (parse_response-KeepsRead m cmd tool_command (write d packet)) (attempts-some left)

-- What the bytes that are thrown away first leave of the driver, and then the attempts.
abbrev pub spaced : Makerbot → Bytes → Bool → Makerbot
spaced d payload update = record d {
  buffer_space = if update then sub_uint32 d.buffer_space (length payload) else d.buffer_space;
}

then_send :
    (packet : Bytes) (cmd : ℕ) (payload : Bytes) (update : Bool) (d e : Makerbot)
    (o : Option (Bool × Makerbot))
    → Keeps 0 d e
    → CopiesAll packet cmd 1 5 (spaced e payload update) o
    → CopiesAll packet cmd 1 5 (spaced d payload update) o
then_send packet cmd payload update d e none k c = tt
then_send packet cmd payload update d e (some (ok, f)) k c = record {
  copies = c.copies;
  at_least = c.at_least;
  at_most = c.at_most;
  wrote = c.wrote ∙ ap (λ s. s ++ replicate c.copies packet) k.sent_kept;
  still_open = c.still_open;
  same_queue = c.same_queue ∙ k.queue_kept;
  same_space = λ q.
      c.same_space q
      ∙ ap (λ n. if update then sub_uint32 n (length payload) else n) (k.space_kept (ground arith));
}

module _ (m : Machine) (payload : Bytes) (update : Bool) where
  behind_block :
      (d : Makerbot) (o : Option (ℤ × Bytes × Makerbot))
      → d.base.is_open ≡ true
      → KeepsBlock 0 d o
      → CopiesAll (packet_of payload) (get_or payload 0 0) 1 5 (spaced d payload update) (elim o [
        | none ↦ none
        | some (rv, bytes, e) ↦
            attempts m 5
              (spaced e payload update)
              (packet_of payload)
              (get_or payload 0 0)
              (tool_command_of m payload)
      ])
  behind_block d none h k = tt
  behind_block d (some (rv, bytes, e)) h k =
      then_send (packet_of payload) (get_or payload 0 0) payload update d e
        (attempts m 5 (spaced e payload update) (packet_of payload) (get_or payload 0 0)
          (tool_command_of m payload))
        k
        (attempts-CopiesAll m (packet_of payload) (get_or payload 0 0) (tool_command_of m payload) 4
          (spaced e payload update) (k.open_kept ∙ h))

  -- Whatever the port answers, sendPacket writes its packet at least once and at most five times,
  -- unless the server exits, and does not change the queue. It takes the size of the payload from
  -- the space in the printer's buffer if it is to, which the answer changes only for a command that
  -- asks for it. The port is open.
  pub send_packet-CopiesAll :
      (d : Makerbot)
      → d.base.is_open ≡ true
      → CopiesAll
          (packet_of payload)
          (get_or payload 0 0)
          1
          5
          (spaced d payload update)
          (send_packet m d payload update)
  unfolding send_packet
  send_packet-CopiesAll d h =
      behind_block d (read_block d (length payload) 0) h
        (read_block-KeepsBlock 0 d (length payload) 0)
