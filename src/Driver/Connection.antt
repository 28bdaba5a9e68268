-- ===== src/Driver/Connection.antt =====
-- src/drivers/AbstractDriver.cpp, Serial.cpp: the serial port of a driver, opened, read and closed.
-- What a system call answers is an argument or an event of the port.
use print3d.Prelude.{ℕ, Bool, true, false, Option, none, some, List, [], ◌==◌, if◌then◌else◌}
use print3d.Prelude.Int.{ℤ, pos, negsuc}
use print3d.Prelude.Text.{Bytes}
use print3d.Driver.State.{Driver, new_driver, disconnected, connecting, set_state}
use print3d.Driver.Port.{enxio, ebadf, other, PortEvent, Outcome, value, minus_two, minus_one}
use print3d.Driver.Reading.{read_available}

pub data SetSpeedResult : Type 0 where
  ssr_ok ssr_io_get ssr_io_iossiospeed ssr_io_set ssr_io_mget ssr_io_mset1 ssr_io_mset2 :
      SetSpeedResult

-- Which of the calls of ioctl succeed; those for the line DTR come last.
pub record IoctlAnswers : Type 0 where
  pub get_options : Bool
  pub set_options : Bool
  pub get_modem : Bool
  pub raise_dtr : Bool
  pub lower_dtr : Bool

unfoldable pub set_speed : IoctlAnswers → SetSpeedResult
set_speed a =
    if a.get_options
    then if a.set_options
      then if a.get_modem
        then if a.raise_dtr then if a.lower_dtr then ssr_ok else ssr_io_mset2 else ssr_io_mset1
        else ssr_io_mget
      else ssr_io_set
    else ssr_io_get

-- A Marlin driver with its port: what the port has to come, the read buffer, the baud rate, whether
-- the server watches the descriptor, and when the two timers were started, in microseconds.
pub record Marlin : Type 0 where
  pub base : Driver
  pub port : List PortEvent
  pub read_buffer : Bytes
  pub baudrate : ℕ
  pub registered : Bool
  pub timer_start : ℕ
  pub temperature_timer_start : ℕ

-- Timers that were not started count from 0.
abbrev pub new_marlin : ℕ → Marlin
new_marlin baudrate = record {
  base = new_driver;
  port = [];
  read_buffer = [];
  baudrate = baudrate;
  registered = false;
  timer_start = 0;
  temperature_timer_start = 0;
}

unfoldable pub set_baudrate : Marlin → ℕ → IoctlAnswers → Marlin
unfolding set_speed
set_baudrate m baudrate a = elim (set_speed a) [
  | ssr_ok ↦ record m { baudrate = baudrate; base = set_state m.base connecting }
  | _ ↦ record m { baudrate = baudrate }
]

unfoldable pub switch_baudrate : Marlin → IoctlAnswers → Marlin
unfolding set_baudrate
switch_baudrate m a = set_baudrate m (if m.baudrate == 250000 then 115200 else 250000) a

-- A port that cannot be opened is `none`. The read buffer is left as it is.
unfoldable pub open_connection : Marlin → Option (List PortEvent) → IoctlAnswers → Marlin × ℤ
unfolding set_baudrate
open_connection m none a = (record m { base = record m.base { is_open = false } }, negsuc 0)
open_connection m (some events) a = (
  set_baudrate
      (record m { base = record m.base { is_open = true }; port = events; registered = true })
      m.baudrate a,
  pos 0,
)

-- `closed` is what close(2) answers; a port that is not open is not closed.
unfoldable pub close_connection : Marlin → ℤ → Marlin × ℤ
close_connection m closed = (
  record m { base = record m.base { state = disconnected; is_open = false }; registered = false },
  if m.base.is_open then closed else pos 0,
)

-- How an operation ends: with a value, by an exception or a null pointer that is read, or by the
-- exit of the server, with the driver as it was then.
pub data Ran (A : Type 0) : Type 0 where
  ran : A → Ran A
  crashed : Ran A
  exited : Marlin → Ran A

-- A port that fails for good is closed, and the server exits.
unfoldable pub handle_read : Outcome → Marlin → ℤ → Ran (Outcome × Marlin)
unfolding close_connection
handle_read (value n) m closed = ran (value n, m)
handle_read minus_two m closed = exited (close_connection m closed).0
handle_read (minus_one enxio) m closed = exited (close_connection m closed).0
handle_read (minus_one ebadf) m closed = exited (close_connection m closed).0
handle_read (minus_one other) m closed = ran (minus_one other, m)

-- AbstractDriver::readData over Serial::readData; the descriptor of a closed port is -1.
unfoldable pub read_data : Marlin → ℤ → Ran (Outcome × Marlin)
unfolding handle_read read_available
read_data m closed =
    let r = read_available false 0 m.port m.read_buffer 0 in
    if m.base.is_open
    then handle_read r.0.0 (record m { read_buffer = r.0.1; port = r.1 }) closed
    else handle_read (minus_one ebadf) m closed
