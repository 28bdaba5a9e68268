-- ===== src/Driver/Port.antt =====
-- src/drivers/Serial.cpp: reading from the port itself, past the read buffer. What the system calls
-- answer is the list of events that the port has to come, in order.
use print3d.Prelude.{
  ℕ, zero, suc, Bool, ◌&&◌, List, [], ◌∷◌, ltb, if◌then◌else◌, length, take, drop, get_or,
}
use print3d.Prelude.Text.{Bytes}

-- `errno`, as far as the callers tell its values apart.
pub data Errno : Type 0 where
  enxio ebadf other : Errno

pub data PortEvent : Type 0 where
  -- There are bytes to read; none is the end of the file.
  received : Bytes → PortEvent
  -- EWOULDBLOCK, and whether a poll with a timeout then reports data.
  blocked : Bool → PortEvent
  -- EINTR
  interrupted : PortEvent
  failed : Errno → PortEvent

-- A return value: a count or a byte, -2, or -1 with its `errno`.
pub data Outcome : Type 0 where
  value : ℕ → Outcome
  minus_two : Outcome
  minus_one : Errno → Outcome

abbrev pub still : Bytes → List PortEvent → List PortEvent
still [] es = es
still (b ∷ bs) es = received (b ∷ bs) ∷ es

-- The return value, what is stored in the buffer, and the events that are left. A port without
-- further events stays silent.
unfoldable pub read_bytes_direct : List PortEvent → ℕ → ℕ → (Outcome × Bytes) × List PortEvent
read_bytes_direct [] buflen timeout = ((value 0, []), [])
read_bytes_direct (received [] ∷ es) buflen timeout = ((minus_two, []), es)
read_bytes_direct (received (b ∷ bs) ∷ es) zero timeout = ((minus_two, []), received (b ∷ bs) ∷ es)
read_bytes_direct (received (b ∷ bs) ∷ es) (suc n) timeout =
    ((value (suc (length (take n bs))), b ∷ take n bs), still (drop n bs) es)
read_bytes_direct (blocked ready ∷ es) buflen timeout =
    let rest = read_bytes_direct es buflen timeout in
    if ltb 0 timeout && ready then rest else ((value 0, []), es)
read_bytes_direct (interrupted ∷ es) buflen timeout = read_bytes_direct es buflen timeout
read_bytes_direct (failed e ∷ es) buflen timeout = ((minus_one e, []), es)

abbrev pub byte_of : Outcome → Bytes → Outcome
byte_of (value zero) bs = minus_two
byte_of (value (suc n)) bs = value (get_or bs 0 0)
byte_of minus_two bs = minus_two
byte_of (minus_one e) bs = minus_one e

unfoldable pub read_byte_direct : List PortEvent → ℕ → Outcome × List PortEvent
unfolding read_bytes_direct
read_byte_direct es timeout = let r = read_bytes_direct es 1 timeout in (byte_of r.0.0 r.0.1, r.1)
