-- ===== src/Makerbot/Keeps.antt =====
-- What reading a response leaves alone, and how often a packet is written.
use print3d.Prelude.{
  ℕ, zero, suc, ◌≡◌, ◌≢◌, refl, ◌∙◌, inl, inr, Bool, true, false, Option, none, some, List, [],
  arith, ◌==◌, if◌then◌else◌, Bool-cases,
}
use print3d.Prelude.Int.{ℤ, pos, negsuc, eq_ℤ}
use print3d.Prelude.Text.{Bytes}
use print3d.Driver.State.{Driver}
use print3d.Driver.Port.{
  PortEvent, enxio, ebadf, other, Outcome, value, minus_two, minus_one, read_bytes_direct,
  read_byte_direct,
}
use print3d.Makerbot.Crc.{crc}
use print3d.Makerbot.State.{
  Makerbot, Machine, checked, read_byte, with_bytes, read_block, fill, read16, read32,
}
use print3d.Makerbot.Packets.{
  set_temperature, interpret, response_crc, response_data, response_length, response_head,
  parse_response,
}

-- What reading from the port does not change. The space in the printer's buffer changes only when
-- the command asks for it.
pub record Keeps (cmd : ℕ) (d e : Makerbot) : Type 0 where
  pub sent_kept : e.base.sent ≡ d.base.sent
  pub open_kept : e.base.is_open ≡ d.base.is_open
  pub queue_kept : e.queue ≡ d.queue
  pub space_kept : cmd ≢ 2 → e.buffer_space ≡ d.buffer_space

Keeps-refl : {cmd : ℕ} (d : Makerbot) → Keeps cmd d d
Keeps-refl d = record {
  sent_kept = refl;
  open_kept = refl;
  queue_kept = refl;
  space_kept = λ h. refl;
}

pub Keeps-trans : {cmd : ℕ} (d e f : Makerbot) → Keeps cmd d e → Keeps cmd e f → Keeps cmd d f
Keeps-trans d e f h k = record {
  sent_kept = k.sent_kept ∙ h.sent_kept;
  open_kept = k.open_kept ∙ h.open_kept;
  queue_kept = k.queue_kept ∙ h.queue_kept;
  space_kept = λ q. k.space_kept q ∙ h.space_kept q;
}

-- Whatever is answered, the driver that is left has kept it.
abbrev pub KeepsRead : ℕ → Makerbot → Option (ℤ × Makerbot) → Type 0
KeepsRead cmd d none = Unit
KeepsRead cmd d (some (rv, e)) = Keeps cmd d e

abbrev pub KeepsBlock : ℕ → Makerbot → Option (ℤ × Bytes × Makerbot) → Type 0
KeepsBlock cmd d none = Unit
KeepsBlock cmd d (some (rv, bytes, e)) = Keeps cmd d e

checked-KeepsRead : (cmd : ℕ) (o : Outcome) (d : Makerbot) → KeepsRead cmd d (checked o d)
unfolding checked
checked-KeepsRead cmd (value n) d = Keeps-refl d
checked-KeepsRead cmd minus_two d = tt
checked-KeepsRead cmd (minus_one enxio) d = tt
checked-KeepsRead cmd (minus_one ebadf) d = tt
checked-KeepsRead cmd (minus_one other) d = Keeps-refl d

KeepsRead-trans :
    {cmd : ℕ} (d e : Makerbot) (o : Option (ℤ × Makerbot))
    → Keeps cmd d e
    → KeepsRead cmd e o
    → KeepsRead cmd d o
KeepsRead-trans d e none h k = tt
KeepsRead-trans d e (some (rv, f)) h k = Keeps-trans d e f h k

Keeps-port : {cmd : ℕ} (d : Makerbot) (es : List PortEvent) → Keeps cmd d (record d { port = es })
Keeps-port d es = record {
  sent_kept = refl;
  open_kept = refl;
  queue_kept = refl;
  space_kept = λ h. refl;
}

if_KeepsRead :
    (cmd : ℕ) (d : Makerbot) (b : Bool) (o p : Option (ℤ × Makerbot))
    → KeepsRead cmd d o
    → KeepsRead cmd d p
    → KeepsRead cmd d (if b then o else p)
if_KeepsRead cmd d true o p h k = h
if_KeepsRead cmd d false o p h k = k

read_byte-KeepsRead : (cmd : ℕ) (d : Makerbot) (t : ℕ) → KeepsRead cmd d (read_byte d t)
unfolding read_byte
read_byte-KeepsRead cmd d t =
    let r = read_byte_direct d.port t in
    if_KeepsRead cmd d d.base.is_open (checked r.0 (record d { port = r.1 }))
      (checked (minus_one ebadf) d)
      (KeepsRead-trans d (record d { port = r.1 }) (checked r.0 (record d { port = r.1 }))
        (Keeps-port d r.1) (checked-KeepsRead cmd r.0 (record d { port = r.1 })))
      (checked-KeepsRead cmd (minus_one ebadf) d)

with_bytes-KeepsBlock :
    (cmd : ℕ) (d : Makerbot) (bytes : Bytes) (o : Option (ℤ × Makerbot))
    → KeepsRead cmd d o
    → KeepsBlock cmd d (with_bytes bytes o)
with_bytes-KeepsBlock cmd d bytes none h = tt
with_bytes-KeepsBlock cmd d bytes (some (rv, e)) h = h

if_KeepsBlock :
    (cmd : ℕ) (d : Makerbot) (b : Bool) (o p : Option (ℤ × Bytes × Makerbot))
    → KeepsBlock cmd d o
    → KeepsBlock cmd d p
    → KeepsBlock cmd d (if b then o else p)
if_KeepsBlock cmd d true o p h k = h
if_KeepsBlock cmd d false o p h k = k

pub read_block-KeepsBlock : (cmd : ℕ) (d : Makerbot) (n t : ℕ) → KeepsBlock cmd d (read_block d n t)
unfolding read_block
read_block-KeepsBlock cmd d n t =
    let r = read_bytes_direct d.port n t in
    if_KeepsBlock cmd d d.base.is_open (with_bytes r.0.1 (checked r.0.0 (record d { port = r.1 })))
      (with_bytes [] (checked (minus_one ebadf) d))
      (with_bytes-KeepsBlock cmd d r.0.1 (checked r.0.0 (record d { port = r.1 })) (
        KeepsRead-trans d (record d { port = r.1 }) (checked r.0.0 (record d { port = r.1 }))
          (Keeps-port d r.1) (checked-KeepsRead cmd r.0.0 (record d { port = r.1 }))))
      (with_bytes-KeepsBlock cmd d [] (checked (minus_one ebadf) d)
        (checked-KeepsRead cmd (minus_one ebadf) d))

then_KeepsRead :
    (cmd : ℕ) (d : Makerbot) (o : Option (ℤ × Makerbot)) (f : ℤ → Makerbot → Option (ℤ × Makerbot))
    → KeepsRead cmd d o
    → ((rv : ℤ) (e : Makerbot) → KeepsRead cmd e (f rv e))
    → KeepsRead cmd d (elim o [ none ↦ none | some (rv, e) ↦ f rv e ])
then_KeepsRead cmd d none f h k = tt
then_KeepsRead cmd d (some (rv, e)) f h k = KeepsRead-trans d e (f rv e) h (k rv e)

-- The two parts of the base that no answer changes.
abbrev SameLine : Driver → Driver → Type 0
SameLine b c = (c.sent ≡ b.sent) × (c.is_open ≡ b.is_open)

if_SameLine :
    (b c d : Driver) (x : Bool) → SameLine b c → SameLine b d → SameLine b (if x then c else d)
if_SameLine b c d true h k = h
if_SameLine b c d false h k = k

set_temperature-SameLine :
    (b : Driver) (tool_command : ℤ) (t : ℕ) → SameLine b (set_temperature b tool_command t)
unfolding set_temperature
set_temperature-SameLine b tool_command t =
    if_SameLine b (record b { temperature = t }) _ (eq_ℤ tool_command (pos 2)) (refl, refl)
      (if_SameLine b (record b { bed_temperature = t }) _ (eq_ℤ tool_command (pos 30)) (refl, refl)
        (if_SameLine b (record b { target_temperature = t }) _ (eq_ℤ tool_command (pos 32))
          (refl, refl)
          (if_SameLine b (record b { target_bed_temperature = t }) b (eq_ℤ tool_command (pos 33))
            (refl, refl) (refl, refl))))

if_Keeps :
    {cmd : ℕ} (d e f : Makerbot) (x : Bool)
    → (x ≡ true → Keeps cmd d e)
    → Keeps cmd d f
    → Keeps cmd d (if x then e else f)
if_Keeps d e f true h k = h refl
if_Keeps d e f false h k = k

module _ (m : Machine) (cmd : ℕ) (tool_command : ℤ) where
  interpret-Keeps : (d : Makerbot) (buf : Bytes) → Keeps cmd d (interpret m d cmd tool_command buf)
  unfolding interpret
  interpret-Keeps d buf =
      if_Keeps d (record d { firmware_version = read16 m buf 1 }) _ (cmd == 0)
        (λ q. record {
          sent_kept = refl;
          open_kept = refl;
          queue_kept = refl;
          space_kept = λ h. refl;
        })
        (if_Keeps d (record d { buffer_space = read32 m buf 1 }) _ (cmd == 2)
          (λ q. record {
            sent_kept = refl;
            open_kept = refl;
            queue_kept = refl;
            space_kept = λ h. absurd (h (ground arith));
          })
          (if_Keeps d (record d { base = set_temperature d.base tool_command (read16 m buf 1) }) d
            (cmd == 10)
            (λ q. record {
              sent_kept = (set_temperature-SameLine d.base tool_command (read16 m buf 1)).0;
              open_kept = (set_temperature-SameLine d.base tool_command (read16 m buf 1)).1;
              queue_kept = refl;
              space_kept = λ h. refl;
            })
            (Keeps-refl d)))

  response_crc-KeepsRead :
      (buf : Bytes) (rv : ℤ) (d : Makerbot)
      → KeepsRead cmd d (some (response_crc m cmd tool_command buf rv d))
  unfolding response_crc
  response_crc-KeepsRead buf (negsuc n) d = Keeps-refl d
  response_crc-KeepsRead buf (pos c) d = elim (Bool-cases (c == crc buf)) [
    | inl e ↦ rw (response_crc, e) (interpret-Keeps d buf)
    | inr e ↦ rw (response_crc, e) (Keeps-refl d)
  ]

  response_data-KeepsRead :
      (len : ℕ) (rv : ℤ) (bytes : Bytes) (d : Makerbot)
      → KeepsRead cmd d (response_data m cmd tool_command len rv bytes d)
  unfolding response_data
  response_data-KeepsRead len (negsuc n) bytes d = Keeps-refl d
  response_data-KeepsRead len (pos zero) bytes d = Keeps-refl d
  response_data-KeepsRead len (pos (suc n)) bytes d =
      then_KeepsRead cmd d (read_byte d 250)
        (λ c e. some (response_crc m cmd tool_command (fill len m.memory bytes) c e))
        (read_byte-KeepsRead cmd d 250)
        (λ c e. response_crc-KeepsRead (fill len m.memory bytes) c e)

  then_data :
      (d : Makerbot) (n : ℕ) (o : Option (ℤ × Bytes × Makerbot))
      → KeepsBlock cmd d o
      → KeepsRead cmd d (elim o [
        | none ↦ none
        | some (rv, bytes, e) ↦ response_data m cmd tool_command n rv bytes e
      ])
  then_data d n none h = tt
  then_data d n (some (rv, bytes, e)) h =
      KeepsRead-trans d e (response_data m cmd tool_command n rv bytes e) h
        (response_data-KeepsRead n rv bytes e)

  response_length-KeepsRead :
      (rv : ℤ) (d : Makerbot) → KeepsRead cmd d (response_length m cmd tool_command rv d)
  unfolding response_length
  response_length-KeepsRead (negsuc n) d = Keeps-refl d
  response_length-KeepsRead (pos zero) d = Keeps-refl d
  response_length-KeepsRead (pos (suc n)) d =
      then_data d (suc n) (read_block d (suc n) 250) (read_block-KeepsBlock cmd d (suc n) 250)

  response_head-KeepsRead :
      (rv : ℤ) (d : Makerbot) → KeepsRead cmd d (response_head m cmd tool_command rv d)
  unfolding response_head
  response_head-KeepsRead (negsuc n) d = Keeps-refl d
  response_head-KeepsRead (pos b) d =
      if_KeepsRead cmd d (b == 0xD5) _ (some (negsuc 98, d))
        (then_KeepsRead cmd d (read_byte d 250) (response_length m cmd tool_command)
          (read_byte-KeepsRead cmd d 250) response_length-KeepsRead)
        (Keeps-refl d)

  pub parse_response-KeepsRead :
      (d : Makerbot) → KeepsRead cmd d (parse_response m d cmd tool_command)
  unfolding parse_response
  parse_response-KeepsRead d =
      then_KeepsRead cmd d (read_byte d 250) (response_head m cmd tool_command)
        (read_byte-KeepsRead cmd d 250) response_head-KeepsRead
