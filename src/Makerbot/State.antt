-- ===== src/Makerbot/State.antt =====
-- src/drivers/MakerbotDriver.{h,cpp}: the members of the driver, what it reads from the port, and
-- the numbers in a packet. `none` is the exit of the server, which a failing port requests.
use print3d.Prelude.{
  ℕ, zero, suc, ◌+◌, ◌-◌, ◌*◌, ◌%◌, ◌^◌, Bool, true, false, Option, none, some, List, [], ◌∷◌,
  if◌then◌else◌, get_or,
}
use print3d.Prelude.Int.{ℤ, pos, negsuc}
use print3d.Prelude.Text.{Bytes}
use print3d.GcodeBuffer.State.{new}
use print3d.Driver.State.{Driver, new_driver}
use print3d.Driver.Port.{
  enxio, ebadf, other, PortEvent, Outcome, value, minus_two, minus_one, read_bytes_direct,
  read_byte_direct,
}

-- `converted` holds the texts that gpx was given since its last gpx_clear_state, latest first.
pub record Makerbot : Type 0 where
  pub base : Driver
  pub buffer_space : ℕ
  pub queue : List Bytes
  pub valid_response_received : Bool
  pub firmware_version : ℕ
  pub counter : ℕ
  pub converted : List Bytes
  pub port : List PortEvent

abbrev pub printer_buffer_size : ℕ
printer_buffer_size = 512

abbrev pub gcode_cvt_lines : ℕ
gcode_cvt_lines = 25

abbrev pub queue_min_size : ℕ
queue_min_size = 10

abbrev pub queue_fill_size : ℕ
queue_fill_size = 30

-- The constructor, on a port that will answer as given.
abbrev pub new_makerbot : List PortEvent → Makerbot
new_makerbot events = record {
  base = record new_driver { gcode_buffer = record new { keep_gpx_macro_comments = true } };
  buffer_space = printer_buffer_size;
  queue = [];
  valid_response_received = false;
  firmware_version = 0;
  counter = 0;
  converted = [];
  port = events;
}

-- The machine that the code is compiled for: what memory holds that nothing was written to, whether
-- `__LITTLE_ENDIAN__` is defined, and whether the machine has its lowest byte first.
pub record Machine : Type 0 where
  pub memory : ℕ → ℕ
  pub little_endian_defined : Bool
  pub is_little_endian : Bool

-- `uint32_t` subtraction
abbrev pub sub_uint32 : ℕ → ℕ → ℕ
sub_uint32 a b = (a + (2 ^ 32 - b % 2 ^ 32)) % 2 ^ 32

-- readAndCheckError with handleReadError: -2, and -1 with ENXIO or EBADF, exit.
unfoldable pub checked : Outcome → Makerbot → Option (ℤ × Makerbot)
checked (value n) d = some (pos n, d)
checked minus_two d = none
checked (minus_one enxio) d = none
checked (minus_one ebadf) d = none
checked (minus_one other) d = some (negsuc 0, d)

-- The port of a closed connection has the descriptor -1.
unfoldable pub read_byte : Makerbot → ℕ → Option (ℤ × Makerbot)
unfolding checked read_byte_direct
read_byte d timeout =
    let r = read_byte_direct d.port timeout in
    if d.base.is_open then checked r.0 (record d { port = r.1 }) else checked (minus_one ebadf) d

abbrev pub with_bytes : Bytes → Option (ℤ × Makerbot) → Option (ℤ × Bytes × Makerbot)
with_bytes bytes none = none
with_bytes bytes (some (rv, d)) = some (rv, bytes, d)

unfoldable pub read_block : Makerbot → ℕ → ℕ → Option (ℤ × Bytes × Makerbot)
unfolding checked read_bytes_direct
read_block d buflen timeout =
    let r = read_bytes_direct d.port buflen timeout in
    if d.base.is_open
    then with_bytes r.0.1 (checked r.0.0 (record d { port = r.1 }))
    else with_bytes [] (checked (minus_one ebadf) d)

-- A buffer of `n` bytes, the first of them read and the others as the memory has them.
abbrev pub fill : ℕ → (ℕ → ℕ) → Bytes → Bytes
fill zero memory bytes = []
fill (suc n) memory [] = memory 0 ∷ fill n (λ i. memory (suc i)) []
fill (suc n) memory (b ∷ bytes) = b ∷ fill n (λ i. memory (suc i)) bytes

-- `buf[i]`, also behind the end of the buffer.
abbrev pub byte_at : Machine → Bytes → ℕ → ℕ
byte_at m buf i = get_or buf i (m.memory i)

unfoldable pub read16 : Machine → Bytes → ℕ → ℕ
read16 m buf i = (byte_at m buf i + byte_at m buf (i + 1) * 256) % 2 ^ 16

-- A 32-bit number in memory.
abbrev pub load32 : Bool → ℕ → ℕ → ℕ → ℕ → ℕ
load32 true a b c d = a + 256 * (b + 256 * (c + 256 * d))
load32 false a b c d = d + 256 * (c + 256 * (b + 256 * a))

-- Without `__LITTLE_ENDIAN__` the bytes are swapped first.
unfoldable pub read32 : Machine → Bytes → ℕ → ℕ
read32 m buf i =
    let a = byte_at m buf i in
    let b = byte_at m buf (i + 1) in
    let c = byte_at m buf (i + 2) in
    let d = byte_at m buf (i + 3) in
    if m.little_endian_defined
    then load32 m.is_little_endian a b c d
    else load32 m.is_little_endian d c b a
