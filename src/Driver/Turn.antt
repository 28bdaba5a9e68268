-- ===== src/Driver/Turn.antt =====
-- One turn of the Marlin driver: from the port to the lines that it reads.
use print3d.Prelude.{
  ℕ, zero, suc, ◌-◌, ◌/◌, ◌≤◌, leb, ◌≡◌, Option, none, some, List, ◌∷◌, ◌++◌, if◌then◌else◌, Bool,
  false,
}
use print3d.Prelude.Int.{ℤ, pos, negsuc}
use print3d.Prelude.Text.{Bytes}
use print3d.Driver.State.{Driver}
use print3d.Driver.Port.{PortEvent, received, blocked, Outcome}
use print3d.Driver.Connection.{Marlin, Ran, ran, crashed, handle_read}
use print3d.Driver.Update.{Readings, is_temperature_due, is_read_due}
use print3d.Driver.Framing.{cut, reads}

-- What is left of 200 milliseconds when some microseconds are over, in whole milliseconds; negative
-- when they are over for longer.
abbrev pub minus : ℕ → ℤ
minus zero = pos 0
minus (suc n) = negsuc n

abbrev pub waits : ℕ → ℤ
waits elapsed =
    if leb elapsed 200000
    then pos ((200000 - elapsed) / 1000)
    else minus ((elapsed - 200000) / 1000)

-- A turn that read the lines of a buffer: the driver after them, and what is left.
abbrev pub turned : Marlin → Readings → List PortEvent → Option (Driver × Bytes) → Ran (ℤ × Marlin)
turned m t events none = crashed
turned m t events (some (d, rest)) = ran (
  waits (t.at_end - t.at_start),
  record m { base = d; port = events; read_buffer = rest; timer_start = t.at_start },
)

abbrev handle_answer : Marlin → ℤ → (Outcome × Bytes) × List PortEvent → Ran (Outcome × Marlin)
handle_answer m closed r = handle_read r.0.0 (record m { read_buffer = r.0.1; port = r.1 }) closed

module _ (number : Bytes → ℤ) (m : Marlin) (t : Readings) where
  -- What update does once the temperature has been seen to: the branches of the connection and of
  -- the read timer, for a turn that would find `p` at the port.
  abbrev pub turn_if : (is_open due : Bool) → Bytes → List PortEvent → Ran (ℤ × Marlin)
  turn_if is_open due p es =
      if is_open
      then if due
        then turned m t es (reads number m.base (cut (m.read_buffer ++ p)))
        else ran (waits (t.at_end - m.timer_start), m)
      else ran (negsuc 0, m)

  abbrev pub turn_of : Bytes → List PortEvent → Ran (ℤ × Marlin)
  turn_of p es = turn_if m.base.is_open (is_read_due m.base m.timer_start t) p es

  module _ (closed : ℤ) (p : Bytes) (c : ℕ) (ready : Bool) (es : List PortEvent)
      (no_check : is_temperature_due m t ≡ false)
      (come : m.port ≡ received (c ∷ p) ∷ blocked ready ∷ es) (since_start : t.at_start ≤ t.at_end)
      (since_last : m.timer_start ≤ t.at_end) where
    -- the driver when it has read what has come
    filled : Marlin
    filled = record m { read_buffer = m.read_buffer ++ (c ∷ p); port = es }
